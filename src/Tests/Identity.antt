-- ===== src/Tests/Identity.antt =====
-- src/identity/service.ts at concrete inputs.
use imgent.Prelude.{
  ◌≡◌, inl, inr, ◌==◌, String, Option, none, some, true, false, [], ◌∷◌, refl, find_where,
  any_where, count_where, update_where, delete_where, filter_where, In,
}
use imgent.Messaging.{Platform, group, ActorRole}
use imgent.Store.Directory.{SpaceRow, IdentityRow, PrincipalRow, PolicyRow, GroupMode, SessionRow}
use imgent.Store.Db.{Db, empty_db, ok, err, constraint, plain, transaction}
use imgent.Store.Indexes.{has_clash, is_referred}
use imgent.Schedules.Access.{is_partner}
use imgent.Schedules.Runs.{enqueue}
use imgent.Identity.Principals.{
  rejected, find_identity, find_principal, WorkspaceChange, set_workspace, move_workspace,
  clear_sessions_for_principal, workspace, is_session_among,
}
use imgent.Identity.Pairing.{Coding, new_code, Pairing, confirm_pairing, first_pairing}
use imgent.Identity.Merge.{
  merge_principal, merge_locale, settle_memories, rename_principal, move_memories, put_memberships,
  merge_memberships, delete_principal,
}
use imgent.Identity.Binding.{
  Bound, Unbound, consume_binding_code, bind_by_code, bind_other, use_binding,
  unbind_platform_identity, split_identity,
}
use imgent.Identity.Groups.{authorize_group, is_in_space}
use imgent.Identity.Offers.{
  Offer, Consumed, consume_binding_code-Consumed, consume_binding_code-owner,
}
use imgent.Identity.Once.{consume_binding_code-consume_binding_code}
use imgent.Identity.Repeat.{confirm_pairing-confirm_pairing}
use imgent.Identity.Hosted.{authorize_group-workspace}
use imgent.Identity.Hosts.{by_other}
use imgent.Identity.Modes.{Outcome, change_group_mode-Outcome}
use imgent.Identity.Workspaces.{IsMoved, set_workspace-IsMoved}
use imgent.Identity.Unbinding.{unbind_platform_identity-enqueue}
use imgent.Tests.Schedules.{home, person, daily, draws}

abbrev coding : Coding
coding = record { hash = λ s. s; upper = λ s. s }

abbrev ann : PrincipalRow
ann = record {
  id = "p1";
  agent_profile_id = "profile";
  locale = none;
  workspace = some "/a";
  created_at = 1;
}

abbrev bob : PrincipalRow
bob = record {
  id = "p2";
  agent_profile_id = "profile";
  locale = none;
  workspace = none;
  created_at = 2;
}

abbrev second : IdentityRow
second = record person {
  id = "i2";
  platform = Platform.wechat_ilink;
  platform_user_id = "w";
  principal_id = "p2";
}

abbrev two_people : Db
two_people = record empty_db {
  principals = ann ∷ bob ∷ [];
  platform_identities = person ∷ second ∷ [];
  pairing_codes = new_code "A1" "i1" 100 ∷ [];
  binding_codes = new_code "B1" "i1" 100 ∷ [];
  conversation_spaces = home ∷ [];
}

consume_binding_code-Consumed_example :
    Consumed coding 50 "B1" "i2" two_people
      (consume_binding_code coding 50 "B1" "i2" two_people).0
      (consume_binding_code coding 50 "B1" "i2" two_people).1
consume_binding_code-Consumed_example = consume_binding_code-Consumed coding 50 "B1" "i2" two_people

-- The second person has a schedule.
abbrev owning : Db
owning = record two_people { schedules = record daily { principal_id = "p2" } ∷ [] }

offer : Offer coding 50 "B1" "i2" owning (new_code "B1" "i1" 100) person second
unfolding find_where
offer = record {
  found = refl;
  unused = refl;
  in_time = refl;
  apart = refl;
  source_row = refl;
  target_row = refl;
  profile = refl;
}

owns : any_where (λ s. s.principal_id == "p2") owning.schedules ≡ true
unfolding any_where
owns = refl

consume_binding_code-owner_example :
    consume_binding_code coding 50 "B1" "i2" owning ≡ (err constraint, owning)
consume_binding_code-owner_example =
    consume_binding_code-owner coding 50 "B1" "i2" owning (new_code "B1" "i1" 100) person second
      offer refl owns

abbrev together : Bound
together = record { principal_id = "p1"; merged_principal_id = some "p2" }

consumes : (consume_binding_code coding 50 "B1" "i2" two_people).0 ≡ ok together
unfolding consume_binding_code transaction bind_by_code bind_other find_where merge_principal
    merge_locale clear_sessions_for_principal settle_memories rename_principal move_memories
    merge_memberships delete_principal filter_where update_where delete_where any_where has_clash
    is_referred put_memberships use_binding
consumes = refl

consume_binding_code-consume_binding_code_example :
    consume_binding_code coding 60 "B1" "i3" (consume_binding_code coding 50 "B1" "i2" two_people).1
    ≡ (err plain, (consume_binding_code coding 50 "B1" "i2" two_people).1)
consume_binding_code-consume_binding_code_example =
    consume_binding_code-consume_binding_code coding 50 "B1" "i2" two_people together 60 "i3"
      consumes

abbrev pairing : Pairing
pairing = record { platform_identity_id = "i1"; principal_id = "p1"; workspace = some "/b" }

confirms : (confirm_pairing coding 50 "A1" (some "/b") true two_people).0 ≡ ok pairing
unfolding confirm_pairing transaction first_pairing find_where
confirms = refl

confirm_pairing-confirm_pairing_example :
    (found : Option String) × (confirm_pairing coding 500 "A1" none false
        (confirm_pairing coding 50 "A1" (some "/b") true two_people).1
      ≡ (
        ok (record pairing { workspace = found }),
        (confirm_pairing coding 50 "A1" (some "/b") true two_people).1,
      ))
confirm_pairing-confirm_pairing_example =
    confirm_pairing-confirm_pairing coding 50 "A1" (some "/b") true two_people pairing 500 none
      confirms

abbrev team : SpaceRow
team = record home { id = "g1"; kind = group; platform_conversation_id = "g" }

abbrev policy : PolicyRow
policy = record {
  conversation_space_id = "g1";
  mode = GroupMode.triggered;
  platform_full_capability = true;
  changed_by_principal_id = none;
  changed_at = 1;
}

abbrev with_group : Db
with_group = record two_people {
  conversation_spaces = home ∷ team ∷ [];
  group_policies = policy ∷ [];
}

authorizes_group : (authorize_group 50 "g1" "p1" with_group).0 ≡ ok tt
unfolding authorize_group transaction find_where any_where
authorizes_group = refl

ann_found : find_principal "p1" with_group ≡ some ann
unfolding find_where
ann_found = refl

authorize_group-workspace_example :
    (workspace "p2" (some "g1") (authorize_group 50 "g1" "p1" with_group).1 ≡ some "/a")
    × (by_other 50 "g1" "p1" with_group ≡ true
        → (session : SessionRow)
        → In session (authorize_group 50 "g1" "p1" with_group).1.agent_sessions
        → is_session_among (is_in_space "g1") with_group.tasks session ≡ false)
authorize_group-workspace_example =
    authorize_group-workspace 50 "g1" "p1" with_group ann ann_found "p2" refl authorizes_group

change_group_mode-Outcome_example : Outcome 50 "g1" "p1" ActorRole.admin GroupMode.full with_group
change_group_mode-Outcome_example =
    change_group_mode-Outcome 50 "g1" "p1" ActorRole.admin GroupMode.full with_group

abbrev change : WorkspaceChange
change = record { previous_workspace = some "/a"; workspace = "/c"; cleared_sessions = 0 }

moves : (set_workspace 50 "p1" "/c" two_people).0 ≡ ok change
unfolding set_workspace transaction move_workspace find_where any_where clear_sessions_for_principal
    count_where
moves = refl

set_workspace-IsMoved_example :
    IsMoved 50 "p1" "/c" two_people (set_workspace 50 "p1" "/c" two_people).1
set_workspace-IsMoved_example = set_workspace-IsMoved 50 "p1" "/c" two_people change moves

-- Both identities belong to the first person.
abbrev both : Db
both = record two_people {
  platform_identities = person ∷ record second { principal_id = "p1" } ∷ [];
}

abbrev unbound : Unbound
unbound = record { previous_principal_id = "p1"; principal_id = "p9" }

unbinds : (unbind_platform_identity 50 "p9" "i1" both).0 ≡ ok unbound
unfolding unbind_platform_identity transaction split_identity find_where count_where
unbinds = refl

unbound_found : find_identity "i1" both ≡ some person
unfolding find_where
unbound_found = refl

only_partner :
    (j : IdentityRow)
    → In j both.platform_identities
    → is_partner home j ≡ true
    → (j.id == "i1") ≡ true
only_partner j (inl m) p = rw (m)
only_partner j (inr (inl m)) p = let no : false ≡ true = rw m at p in absurd (cc)
only_partner j (inr (inr m)) p = absurd m

unbind_platform_identity-enqueue_example :
    enqueue 100 draws daily home 90 false (unbind_platform_identity 50 "p9" "i1" both).1
    ≡ (err rejected, (unbind_platform_identity 50 "p9" "i1" both).1)
unbind_platform_identity-enqueue_example =
    unbind_platform_identity-enqueue 50 "p9" "i1" both home person refl refl only_partner unbound
      100 draws daily 90 false unbound_found unbinds refl
