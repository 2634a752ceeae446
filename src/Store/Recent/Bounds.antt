-- ===== src/Store/Recent/Bounds.antt =====
-- What recentInboundTurns (src/storage/store.ts) tells of a conversation.
use imgent.Prelude.{
  ℕ, zero, suc, ◌+◌, ◌≡◌, ◌≢◌, ◌≤◌, ◌⊎◌, inl, inr, refl, ap, ◌∙◌, String, none, some, true, ◌==◌,
  List, [], ◌∷◌, ◌++◌, arith, eq_iff, Option-cases, In, In-filter_where, In-filter_where_intro,
  length, find_where, filter_where, map,
}
use imgent.Store.Rows.{TaskRow}
use imgent.Store.Db.{Db}
use imgent.Store.Recent.{
  turn_of, precedes, latest_first, take, reverse, bounded_limit, recent_rows, recent_inbound_turns,
}
use imgent.Store.Recent.Order.{
  CameBefore, Ascends, not_before, In-latest_first, latest_first-In, In-take, take-cases,
  latest_first-Descends, In-reverse, reverse-In, reverse-take-Ascends,
}

length-take : (n : ℕ) (ts : List TaskRow) → length (take n ts) ≤ n
unfolding take
length-take zero ts = omega arith
length-take (suc n) [] = omega arith
length-take (suc n) (t ∷ ts) = let rest = length-take n ts in omega arith

length-append_one : (ts : List TaskRow) (t : TaskRow) → length (ts ++ t ∷ []) ≡ suc (length ts)
length-append_one [] t = refl
length-append_one (u ∷ us) t = ap suc (length-append_one us t)

length-reverse : (ts : List TaskRow) → length (reverse ts) ≡ length ts
unfolding reverse
length-reverse [] = refl
length-reverse (t ∷ ts) = length-append_one (reverse ts) t ∙ ap suc (length-reverse ts)

bounded :
    (limit : ℕ)
    → (bounded_limit limit ≤ limit)
      × (bounded_limit limit ≤ 20)
      × ((bounded_limit limit ≡ limit) ⊎ (bounded_limit limit ≡ 20))
bounded limit = (ground arith, ground arith, ground arith)

-- `t` came in as a message of the same profile, space and conversation as `current`, no longer than
-- `within` before it, and was created before it, at least in the order of the table.
pub record IsEarlierTurn (current : TaskRow) (within : ℕ) (t : TaskRow) : Type 0 where
  pub inbound : t.inbound_event_id ≢ none
  pub profile : t.agent_profile_id ≡ current.agent_profile_id
  pub space : t.conversation_space_id ≡ current.conversation_space_id
  pub conversation : t.conversation_key ≡ current.conversation_key
  pub recent : current.created_at ≤ t.created_at + within
  pub before : CameBefore t current

-- The history of a turn: earlier turns, in the order in which they were created, not more than
-- asked for or than twenty. An earlier turn that is left out comes before all that are told, and
-- there are then as many of these as allowed.
pub record History (current : TaskRow) (within limit : ℕ) (db : Db) (rows : List TaskRow)
    : Type 0 where
  pub earlier : (t : TaskRow) → In t rows → In t db.tasks × IsEarlierTurn current within t
  pub ordered : Ascends rows
  pub asked : length rows ≤ limit
  pub most : length rows ≤ 20
  pub latest :
      (t : TaskRow)
      → In t db.tasks
      → IsEarlierTurn current within t
      → In t rows
        ⊎ (((length rows ≡ limit) ⊎ (length rows ≡ 20))
            × ((u : TaskRow) → In u rows → ¬ CameBefore u t))

precedes-IsEarlierTurn :
    (current : TaskRow) (within : ℕ) (t : TaskRow)
    → precedes current within t ≡ true
    → IsEarlierTurn current within t
precedes-IsEarlierTurn current within t h = record {
  inbound = λ e. ground (arith, e);
  profile = (eq_iff t.agent_profile_id current.agent_profile_id).0 (ground arith);
  space = (eq_iff t.conversation_space_id current.conversation_space_id).0 (ground arith);
  conversation = (eq_iff t.conversation_key current.conversation_key).0 (ground arith);
  recent = ground arith;
  before = ground arith;
}

IsEarlierTurn-precedes :
    (current : TaskRow) (within : ℕ) (t : TaskRow)
    → IsEarlierTurn current within t
    → precedes current within t ≡ true
IsEarlierTurn-precedes current within t e =
    let profile = (eq_iff t.agent_profile_id current.agent_profile_id).1 e.profile in
    let space = (eq_iff t.conversation_space_id current.conversation_space_id).1 e.space in
    let key = (eq_iff t.conversation_key current.conversation_key).1 e.conversation in
    elim (Option-cases t.inbound_event_id) [
      | inl n ↦ absurd (e.inbound n)
      | inr (event, q) ↦ ground (arith, profile, space, key, q, e.recent, e.before)
    ]

module _ (current : TaskRow) (within limit : ℕ) (db : Db) where
  abbrev found : List TaskRow
  found = filter_where (precedes current within) db.tasks

  abbrev rows : List TaskRow
  rows = reverse (take (bounded_limit limit) (latest_first found))

  rows-History : History current within limit db rows
  rows-History =
      let size = length-take (bounded_limit limit) (latest_first found) in
      let same = length-reverse (take (bounded_limit limit) (latest_first found)) in
      let (low, high, exact) = bounded limit in
      record {
        earlier = λ t m.
            let k =
              In-latest_first found t
                (In-take (bounded_limit limit) (latest_first found) t (In-reverse _ t m)) in
            let (n, q) = In-filter_where (precedes current within) db.tasks t k in
            (n, precedes-IsEarlierTurn current within t q);
        ordered = reverse-take-Ascends (bounded_limit limit) found;
        asked = omega (arith, size, same, low);
        most = omega (arith, size, same, high);
        latest = λ t m e.
            let k =
              In-filter_where_intro (precedes current within) db.tasks t m
                (IsEarlierTurn-precedes current within t e) in
            elim (take-cases (bounded_limit limit) (latest_first found)
              (latest_first-Descends found) t (latest_first-In found t k)) [
                | inl l ↦ inl (reverse-In _ t l)
                | inr (full, rest) ↦ inr (
                  elim exact [ inl x ↦ inl (same ∙ full ∙ x) | inr x ↦ inr (same ∙ full ∙ x) ],
                  λ u n. not_before u t (rest u (In-reverse _ u n)),
                )
              ];
      }

module _ (id : String) (within limit : ℕ) (db : Db) where
  -- recentInboundTurns tells nothing of a task that is not there. Otherwise it tells of tasks that
  -- came in as messages of the same profile, space and conversation as the given one, within the time
  -- given and before it, in the order of their creation, at most twenty and at most as many as asked
  -- for. Where it leaves out such a task, it tells of as many as allowed, and none of these is earlier
  -- than the one left out.
  pub recent_inbound_turns-History :
      ((find_where (λ (u : TaskRow). u.id == id) db.tasks ≡ none)
        × (recent_inbound_turns id within limit db ≡ []))
      ⊎ ((current : TaskRow) × (find_where (λ (u : TaskRow). u.id == id) db.tasks ≡ some current)
          × ((told : List TaskRow) × (recent_inbound_turns id within limit db ≡ map turn_of told)
              × History current within limit db told))
  unfolding recent_inbound_turns recent_rows
  recent_inbound_turns-History =
      elim (Option-cases (find_where (λ (u : TaskRow). u.id == id) db.tasks)) [
        | inl e ↦ inl (e, rw (e, recent_inbound_turns, recent_rows) refl)
        | inr (current, e) ↦ inr (
          current,
          e,
          (
            rows current within limit db,
            rw (e, recent_inbound_turns, recent_rows) refl,
            rows-History current within limit db,
          ),
        )
      ]
