-- ===== src/Schedules/Delivered.antt =====
-- When requireSpace and requireExecutable (src/schedule/service.ts) let a schedule be delivered.
use imgent.Prelude.{
  ◌≡◌, ◌≢◌, ◌⊎◌, inl, inr, ap, String, Option, none, some, Bool, true, false, ◌==◌, arith, refl,
  ◌∙◌, ◌&&◌, Bool-cases, Option-cases, eq_iff, find_where, any_where,
}
use imgent.Errors.Codes.{profile_or_driver_missing, outbound_platform_rejected}
use imgent.Messaging.{kind_beq}
use imgent.Store.Directory.{SpaceRow}
use imgent.Store.Db.{Db, Failure, coded, ok, err}
use imgent.Schedules.Rules.{invalid}
use imgent.Schedules.Access.{
  Capabilities, Delivery, has_space_id, require_space, knows_profile, is_routed_to, routes_profile,
  can_send, require_executable,
}
use imgent.Schedules.Due.{executable_space}

abbrev pub find_space : String → Db → Option SpaceRow
find_space id db = find_where (has_space_id id) db.conversation_spaces

-- The space is there, its profile is known and its bot instance routed to that profile, where the
-- service was told of profiles and routes, and its adapter starts conversations of the kind.
pub record IsDeliverable (delivery : Delivery) (id : String) (db : Db) (space : SpaceRow)
    : Type 0 where
  pub stored : find_space id db ≡ some space
  pub profile :
      (known : String → Bool)
      → delivery.profile_ids ≡ some known
      → known space.agent_profile_id ≡ true
  pub route :
      (routes : String → Option String)
      → delivery.routes ≡ some routes
      → routes space.bot_instance_id ≡ some space.agent_profile_id
  pub adapter :
      (c : Capabilities) × (delivery.adapters space.bot_instance_id ≡ some c)
      × (c.supports_proactive_send ≡ true)
      × (any_where (kind_beq space.kind) c.conversation_kinds ≡ true)

-- Why a schedule cannot be delivered, and the error that says so.
pub data Undeliverable (delivery : Delivery) (id : String) (db : Db) : Failure → Type 0 where
  no_space : find_space id db ≡ none → Undeliverable delivery id db invalid
  unknown_profile :
      (space : SpaceRow) (known : String → Bool)
      → find_space id db ≡ some space
      → delivery.profile_ids ≡ some known
      → known space.agent_profile_id ≡ false
      → Undeliverable delivery id db (coded profile_or_driver_missing)
  unrouted :
      (space : SpaceRow) (routes : String → Option String)
      → find_space id db ≡ some space
      → delivery.routes ≡ some routes
      → routes space.bot_instance_id ≢ some space.agent_profile_id
      → Undeliverable delivery id db (coded profile_or_driver_missing)
  no_adapter :
      (space : SpaceRow)
      → find_space id db ≡ some space
      → delivery.adapters space.bot_instance_id ≡ none
      → Undeliverable delivery id db (coded outbound_platform_rejected)
  unable :
      (space : SpaceRow) (c : Capabilities)
      → find_space id db ≡ some space
      → delivery.adapters space.bot_instance_id ≡ some c
      → (c.supports_proactive_send ≡ false)
        ⊎ (any_where (kind_beq space.kind) c.conversation_kinds ≡ false)
      → Undeliverable delivery id db (coded outbound_platform_rejected)

profile-cases :
    (o : Option (String → Bool)) (profile : String)
    → ((knows_profile o profile ≡ true)
        × ((known : String → Bool) → o ≡ some known → known profile ≡ true))
      ⊎ ((knows_profile o profile ≡ false)
          × ((known : String → Bool) × (o ≡ some known) × (known profile ≡ false)))
profile-cases none profile = inl (refl, λ known e. cc)
profile-cases (some k) profile = elim (Bool-cases (k profile)) [
  | inl h ↦ inl (h, λ known e. ap (λ f. f profile) (known_of e) ∙ h)
  | inr h ↦ inr (h, (k, refl, h))
]
  where
    known_of : {known : String → Bool} → some k ≡ some known → known ≡ k
    known_of e = cc e

routed :
    (r : Option String) (profile : String)
    → ((is_routed_to r profile ≡ true) × (r ≡ some profile))
      ⊎ ((is_routed_to r profile ≡ false) × (r ≢ some profile))
routed none profile = inr (refl, λ e. cc)
routed (some p) profile = elim (Bool-cases (p == profile)) [
  | inl h ↦ inl (h, ap some ((eq_iff p profile).0 h))
  | inr h ↦ inr (h, λ e. let own : p ≡ profile = cc e in ground (arith, (eq_iff p profile).1 own))
]

route-cases :
    (o : Option (String → Option String)) (bot profile : String)
    → ((routes_profile o bot profile ≡ true)
        × ((routes : String → Option String) → o ≡ some routes → routes bot ≡ some profile))
      ⊎ ((routes_profile o bot profile ≡ false)
          × ((routes : String → Option String) × (o ≡ some routes) × (routes bot ≢ some profile)))
route-cases none bot profile = inl (refl, λ routes e. cc)
route-cases (some r) bot profile = elim (routed (r bot) profile) [
  | inl (h, q) ↦ inl (h, λ routes e. ap (λ f. f bot) (routes_of e) ∙ q)
  | inr (h, q) ↦ inr (h, (r, refl, q))
]
  where
    routes_of : {routes : String → Option String} → some r ≡ some routes → routes ≡ r
    routes_of e = cc e

module _ (delivery : Delivery) (id : String) (db : Db) where
  space_missing : find_space id db ≡ none → (executable_space delivery id db).0 ≡ err invalid
  unfolding executable_space require_space
  space_missing e = rw (e, executable_space, require_space)

  module _ (space : SpaceRow) (e : find_space id db ≡ some space) where
    space_unroutable :
        (knows_profile delivery.profile_ids space.agent_profile_id
            && routes_profile delivery.routes space.bot_instance_id space.agent_profile_id)
          ≡ false
        → (executable_space delivery id db).0 ≡ err (coded profile_or_driver_missing)
    unfolding executable_space require_space require_executable
    space_unroutable h = rw (e, h, executable_space, require_space, require_executable)

    space_mute :
        (knows_profile delivery.profile_ids space.agent_profile_id
            && routes_profile delivery.routes space.bot_instance_id space.agent_profile_id)
          ≡ true
        → can_send space.kind (delivery.adapters space.bot_instance_id) ≡ false
        → (executable_space delivery id db).0 ≡ err (coded outbound_platform_rejected)
    unfolding executable_space require_space require_executable
    space_mute h c = rw (e, h, c, executable_space, require_space, require_executable)

    space_served :
        (knows_profile delivery.profile_ids space.agent_profile_id
            && routes_profile delivery.routes space.bot_instance_id space.agent_profile_id)
          ≡ true
        → can_send space.kind (delivery.adapters space.bot_instance_id) ≡ true
        → (executable_space delivery id db).0 ≡ ok space
    unfolding executable_space require_space require_executable
    space_served h c = rw (e, h, c, executable_space, require_space, require_executable)

  abbrev Served : Type 0
  Served =
      ((f : Failure) × ((executable_space delivery id db).0 ≡ err f)
        × Undeliverable delivery id db f)
      ⊎ ((space : SpaceRow) × ((executable_space delivery id db).0 ≡ ok space)
          × IsDeliverable delivery id db space)

  sendable :
      (space : SpaceRow)
      → find_space id db ≡ some space
      → knows_profile delivery.profile_ids space.agent_profile_id ≡ true
      → routes_profile delivery.routes space.bot_instance_id space.agent_profile_id ≡ true
      → ((known : String → Bool)
          → delivery.profile_ids ≡ some known
          → known space.agent_profile_id ≡ true)
      → ((routes : String → Option String)
          → delivery.routes ≡ some routes
          → routes space.bot_instance_id ≡ some space.agent_profile_id)
      → Served
  sendable space e k r profile route =
      elim (Option-cases (delivery.adapters space.bot_instance_id)) [
        | inl a ↦ inl (_, space_mute space e (ground arith) (rw a refl), no_adapter space e a)
        | inr (c, a) ↦ elim (Bool-cases c.supports_proactive_send) [
          | inr p ↦
              inl
                (_, space_mute space e (ground arith) (rw (a, p) refl), unable space c e a (inl p))
          | inl p ↦ elim (Bool-cases (any_where (kind_beq space.kind) c.conversation_kinds)) [
            | inr q ↦ inl (
              _,
              space_mute space e (ground arith) (rw (a, p, q) refl),
              unable space c e a (inr q),
            )
            | inl q ↦ inr (
              space,
              space_served space e (ground arith) (rw (a, p, q) refl),
              record { stored = e; profile = profile; route = route; adapter = (c, a, p, q) },
            )
          ]
        ]
      ]

  pub executable_space-cases : Served
  executable_space-cases = elim (Option-cases (find_space id db)) [
    | inl e ↦ inl (invalid, space_missing e, no_space e)
    | inr (space, e) ↦ elim (profile-cases delivery.profile_ids space.agent_profile_id) [
      | inr (k, w) ↦
          inl (_, space_unroutable space e (ground arith), unknown_profile space w.0 e w.1 w.2)
      | inl (k, profile) ↦
          elim (route-cases delivery.routes space.bot_instance_id space.agent_profile_id) [
            | inr (r, w) ↦
                inl (_, space_unroutable space e (ground arith), unrouted space w.0 e w.1 w.2)
            | inl (r, route) ↦ sendable space e k r profile route
          ]
    ]
  ]
