-- ===== src/Schedules/First.antt =====
-- Which schedule processDue (src/schedule/service.ts) takes, and what becomes of it.
use imgent.Prelude.{
  ℕ, ◌≡◌, ◌≤◌, inl, inr, refl, sym, subst, Option, none, some, Bool, true, false, List, [], ◌∷◌,
  arith, ltb, Bool-cases, Option-cases, In, In-filter_where, In-filter_where_intro, ◌&&◌, ◌||◌,
}
use imgent.Store.Directory.{ScheduleRow}
use imgent.Store.Db.{Db, Result, ok}
use imgent.Schedules.Rules.{Calendar}
use imgent.Schedules.Access.{Delivery}
use imgent.Schedules.Runs.{RunDraws}
use imgent.Schedules.Service.{stored_schedule}
use imgent.Schedules.Due.{
  is_due, time_lt, time_beq, comes_before, first_due, next_due, process_at, process_due,
}
use imgent.Schedules.Turns.{Turn, process_schedule-Turn}

-- The schedule that a turn takes: it is due, and none that is due comes before it.
pub record IsFirst (now : ℕ) (db : Db) (s : ScheduleRow) : Type 0 where
  pub stored : In s db.schedules
  pub due : is_due now s ≡ true
  pub first : (u : ScheduleRow) → In u db.schedules → is_due now u ≡ true → comes_before u s ≡ false

first_due-In : (ss : List ScheduleRow) (s : ScheduleRow) → first_due ss ≡ some s → In s ss
unfolding first_due
first_due-In [] s e = cc
first_due-In (u ∷ us) s e = elim (Option-cases (first_due us)) [
  | inl n ↦ inl (ground arith)
  | inr (v, n) ↦ elim (Bool-cases (comes_before v u)) [
    | inl b ↦ inr (first_due-In us s (ground arith))
    | inr b ↦ inl (ground arith)
  ]
]

first_due-none : (ss : List ScheduleRow) → first_due ss ≡ none → (u : ScheduleRow) → ¬ In u ss
unfolding first_due
first_due-none [] e u m = m
first_due-none (s ∷ ss) e u m = absurd (ground arith)

-- The order of the query, on times and creation times.
abbrev key_before : Option ℕ → ℕ → Option ℕ → ℕ → Bool
key_before a m b n = time_lt a b || time_beq a b && ltb m n

key_before_trans :
    (a b c : Option ℕ) (k m n : ℕ)
    → key_before a k b m ≡ false
    → key_before b m c n ≡ false
    → key_before a k c n ≡ false
key_before_trans none none none k m n p q = ground arith
key_before_trans none none (some c) k m n p q = cc
key_before_trans none (some b) c k m n p q = cc
key_before_trans (some a) none none k m n p q = refl
key_before_trans (some a) none (some c) k m n p q = cc
key_before_trans (some a) (some b) none k m n p q = refl
key_before_trans (some a) (some b) (some c) k m n p q = ground arith

key_before_irrefl : (a : Option ℕ) (m : ℕ) → key_before a m a m ≡ false
key_before_irrefl none m = ground arith
key_before_irrefl (some a) m = ground arith

key_before_asym :
    (a b : Option ℕ) (m n : ℕ) → key_before a m b n ≡ true → key_before b n a m ≡ false
key_before_asym none none m n p = ground arith
key_before_asym none (some b) m n p = refl
key_before_asym (some a) none m n p = cc
key_before_asym (some a) (some b) m n p = ground arith

first_due_least :
    (ss : List ScheduleRow) (s : ScheduleRow)
    → first_due ss ≡ some s
    → (u : ScheduleRow) → In u ss
    → comes_before u s ≡ false
unfolding first_due
first_due_least [] s e u m = cc
first_due_least (r ∷ ss) s e u m = elim (Option-cases (first_due ss)) [
  | inl n ↦ elim m [
    | inl q ↦
        let own : r ≡ s = cc (rw n at e) in
        rw (q, own) (key_before_irrefl s.next_run_at s.created_at)
    | inr k ↦ absurd (first_due-none ss n u k)
  ]
  | inr (v, n) ↦ elim (Bool-cases (comes_before v r)) [
    | inl b ↦
        let own : v ≡ s = cc (rw (n, b) at e) in
        elim m [
          | inl q ↦ rw (q, ← own) (key_before_asym v.next_run_at r.next_run_at _ _ b)
          | inr k ↦ rw (← own) (first_due_least ss v n u k)
        ]
    | inr b ↦
        let own : r ≡ s = cc (rw (n, b) at e) in
        elim m [
          | inl q ↦ rw (q, own) (key_before_irrefl s.next_run_at s.created_at)
          | inr k ↦ rw (← own) (
              key_before_trans u.next_run_at v.next_run_at r.next_run_at _ _ _
                (first_due_least ss v n u k) b)
        ]
  ]
]

next_due-IsFirst :
    (now : ℕ) (db : Db) (s : ScheduleRow) → next_due now db ≡ some s → IsFirst now db s
unfolding next_due
next_due-IsFirst now db s e =
    let (m, d) = In-filter_where (is_due now) db.schedules s (first_due-In _ s e) in
    record {
      stored = m;
      due = d;
      first =
          λ u k h. first_due_least _ s e u (In-filter_where_intro (is_due now) db.schedules u k h);
    }

next_due-none :
    (now : ℕ) (db : Db)
    → next_due now db ≡ none
    → (u : ScheduleRow) → In u db.schedules
    → is_due now u ≡ false
unfolding next_due
next_due-none now db e u m = elim (Bool-cases (is_due now u)) [
  | inr h ↦ h
  | inl h ↦ absurd (first_due-none _ e u (In-filter_where_intro (is_due now) db.schedules u m h))
]

-- Nothing is due, or the schedule that is due first has its turn.
pub data Processed (delivery : Delivery) (calendar : Calendar) (now : ℕ) (db : Db)
    : Result Bool → Db → Type 0 where
  idle :
      ((u : ScheduleRow) → In u db.schedules → is_due now u ≡ false)
      → Processed delivery calendar now db (ok false) db
  turned :
      (row : ScheduleRow) (first : ℕ) (r : Result Bool) (after : Db)
      → IsFirst now db row
      → row.next_run_at ≡ some first
      → Turn delivery calendar now (stored_schedule row) first db r after
      → Processed delivery calendar now db r after

due_time :
    (now : ℕ) (s : ScheduleRow)
    → is_due now s ≡ true
    → (first : ℕ) × (s.next_run_at ≡ some first) × (first ≤ now)
due_time now s h = elim (Option-cases s.next_run_at) [
  | inl e ↦ absurd (ground arith)
  | inr (t, e) ↦ (t, e, ground arith)
]

-- A call of processDue does nothing where nothing is due. Otherwise it takes the schedule whose next
-- run is earliest, the one created first among equals, and one of four things follows. It fails and
-- leaves the database as it is: croner gives a cron schedule no previous or no next run, or the run
-- cannot be added, since its principal is not found in the space or the time has its run or its task
-- already. It blocks the schedule, with the error as the reason, because its space is not there, has
-- a profile that is unknown or not routed, or has no adapter that starts such conversations. Where a
-- task of the schedule is open it adds one to the skipped runs; else it adds one run, for a time
-- between the due one and now, and one queued task of the schedule. In these two cases the schedule
-- can be delivered, and is moved to its next time, or is completed where it has none.
pub process_due-Processed :
    (delivery : Delivery) (calendar : Calendar) (now : ℕ) (draws : RunDraws) (db : Db)
    → Processed delivery calendar now db
        (process_due delivery calendar now draws db).0
        (process_due delivery calendar now draws db).1
unfolding process_due
process_due-Processed delivery calendar now draws db = elim (Option-cases (next_due now db)) [
  | inl e ↦ rw (e, process_due) (idle (next_due-none now db e))
  | inr (row, e) ↦
      let is_first = next_due-IsFirst now db row e in
      let (first, t, le) = due_time now row is_first.due in
      rw (e, process_due)
        (subst
          (λ o.
            Processed delivery calendar now db (process_at delivery calendar now draws row o db).0
              (process_at delivery calendar now draws row o db).1)
          (sym t)
          (turned row first _ _ is_first t
            (process_schedule-Turn delivery calendar now draws (stored_schedule row) first db le)))
]
