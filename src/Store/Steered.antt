-- ===== src/Store/Steered.antt =====
-- beginSteer (src/storage/store.ts) starts only the task that it hands over.
use imgent.Prelude.{
  ℕ, ◌+◌, ◌≤◌, ◌≡◌, ◌⊎◌, refl, sym, ◌∙◌, String, Bool, true, false, List, [], ◌∷◌, arith, eq_iff,
  eq_refl, Bool-cases, inl, inr, In, any_where, any_where-true, any_where_of_In, any_where-append,
  In-update_where, In-update_where_self, count_where, count_where-update_where, count_where_mono,
  update_where_none,
}
use imgent.Store.Rows.{TaskStatus, TaskRow, SteerState, SteerRow}
use imgent.Store.Db.{Db}
use imgent.Store.Tasks.{task, has_id, may_transition, transitioned, transition_task, no_fields}
use imgent.Store.Steers.{
  steers_input, put_steer, count_attempt, may_steer_found, submit_steer, begin_steer,
  mark_dangerous_side_effect,
}
use imgent.Store.Frame.{task_steers-transition_task}
use imgent.Store.Calm.{
  hands_over, is_handed, Calmer, Calmer-refl, Calmer-trans, Calmer-SameWork, Calmer-update,
}
use imgent.Store.Exclusive.{Exclusive, Exclusive-Calmer}
use imgent.Store.Starts.{handed_update, Calmer-mark_dangerous}

abbrev start : String → Db → Db × Bool
start input = transition_task input (TaskStatus.queued ∷ []) TaskStatus.active no_fields

-- Whatever was handed over still is, and the input is too.
handed_put :
    (now : ℕ) (input target id : String) (steers : List SteerRow)
    → is_handed id steers ≡ true
    → is_handed id (put_steer now input target steers) ≡ true
handed_put now input target id steers h =
    elim (Bool-cases (any_where (steers_input input) steers)) [
      | inl e ↦ rw e (
          handed_update id (steers_input input)
            (λ s. record s { target_task_id = target; state = SteerState.submitting }) steers
            (λ s p q. ground arith) h)
      | inr e ↦ rw e (any_where-append (hands_over id) steers _ ∙ rw h)
    ]

put_handed :
    (now : ℕ) (input target : String) (steers : List SteerRow)
    → is_handed input (put_steer now input target steers) ≡ true
unfolding any_where
put_handed now input target steers = elim (Bool-cases (any_where (steers_input input) steers)) [
  | inl e ↦
      let (s, m, p) = any_where-true (steers_input input) steers e in
      rw e (
        any_where_of_In (hands_over input) _ _
          (In-update_where_self (steers_input input)
            (λ s. record s { target_task_id = target; state = SteerState.submitting }) steers s m)
          (ground arith))
  | inr e ↦ rw e (any_where-append (hands_over input) steers _ ∙ ground (arith, eq_refl input))
]

abbrev put_db : ℕ → String → String → Db → Db
put_db now input target db = record db { task_steers = put_steer now input target db.task_steers }

Calmer-put : (now : ℕ) (input target : String) (db : Db) → Calmer db (put_db now input target db)
Calmer-put now input target db = record {
  source = (Calmer-refl db).source;
  rows = λ id. refl;
  handed = λ u m r h. handed_put now input target u.id db.task_steers h;
}

Calmer-submit_steer :
    (now : ℕ) (input target : String) (db : Db) → Calmer db (submit_steer now input target db)
unfolding submit_steer
Calmer-submit_steer now input target db =
    Calmer-trans db (count_attempt input db) _
      (Calmer-update (has_id input) (λ t. record t { attempt = t.attempt + 1 }) db _ refl refl
        λ t h. record { id = refl; execution_key = refl; ran = λ r. r })
      (Calmer-trans _ (put_db now input target (count_attempt input db)) _
        (Calmer-put now input target (count_attempt input db))
        (Calmer-trans _ _ _ (Calmer-mark_dangerous input _) (Calmer-mark_dangerous target _)))

submit_handed :
    (now : ℕ) (input target : String) (db : Db)
    → is_handed input (submit_steer now input target db).task_steers ≡ true
unfolding submit_steer mark_dangerous_side_effect
submit_handed now input target db = put_handed now input target db.task_steers

-- A row of the started table: the input, or as it was.
started_row :
    (input : String) (db : Db) (a : TaskRow)
    → In a (start input db).0.tasks
    → (a.id ≡ input) ⊎ In a db.tasks
unfolding transition_task
started_row input db a m =
    let p : TaskRow → Bool = may_transition input (TaskStatus.queued ∷ []) in
    let (t, i, e) = In-update_where p (transitioned TaskStatus.active no_fields) db.tasks a m in
    elim (Bool-cases (p t)) [
      | inl h ↦ inl (ground (arith, eq_iff t.id input))
      | inr h ↦ inr (rw (e, h) i)
    ]

primary_start :
    (input : String) (db : Db) (id : String)
    → count_where (has_id id) (start input db).0.tasks ≡ count_where (has_id id) db.tasks
unfolding transition_task
primary_start input db id =
    count_where-update_where (has_id id) (may_transition input (TaskStatus.queued ∷ [])) _ db.tasks
      (λ t h. refl)

Exclusive-submitted :
    (now : ℕ) (input target : String) (db : Db)
    → Exclusive db
    → Exclusive (submit_steer now input target (start input db).0)
unfolding transition_task
Exclusive-submitted now input target db x =
    let c = Calmer-submit_steer now input target (start input db).0 in
    let given = submit_handed now input target (start input db).0 in
    record {
      primary = λ id. rw (c.rows id) (rw (primary_start input db id) (x.primary id));
      single = λ a b m n r q k.
          let (t, i, f) = c.source a m in
          let (u, j, g) = c.source b n in
          elim (started_row input db t i) [
            | inl e ↦ inl (rw (f.id, e) given)
            | inr i' ↦ elim (started_row input db u j) [
              | inl e ↦ inr (inl (rw (g.id, e) given))
              | inr j' ↦
                  elim (x.single t u i' j' (f.ran r) (g.ran q)
                    (sym f.execution_key ∙ k ∙ g.execution_key)) [
                      | inl h ↦ inl (c.handed a m r (rw f.id h))
                      | inr (inl h) ↦ inr (inl (c.handed b n q (rw g.id h)))
                      | inr (inr e) ↦ inr (inr (f.id ∙ e ∙ sym g.id))
                    ]
            ]
          ];
    }

-- A transition that meets no row; an id has one row at most.
start_none :
    (input : String) (db : Db)
    → Exclusive db
    → (start input db).1 ≡ false
    → (start input db).0.tasks ≡ db.tasks
unfolding transition_task
start_none input db x c =
    let p : TaskRow → Bool = may_transition input (TaskStatus.queued ∷ []) in
    let few : count_where p db.tasks ≤ count_where (has_id input) db.tasks =
      count_where_mono p (has_id input) db.tasks (λ t h. ground arith) in
    let one : count_where (has_id input) db.tasks ≤ 1 = x.primary input in
    update_where_none p (transitioned TaskStatus.active no_fields) db.tasks (ground arith)

pub Exclusive-begin_steer :
    (now : ℕ) (input target : String) (db : Db)
    → Exclusive db
    → Exclusive (begin_steer now input target db).0
unfolding begin_steer
Exclusive-begin_steer now input target db x =
    elim (Bool-cases (may_steer_found (task input db) (task target db))) [
      | inr e ↦ rw (e, begin_steer) x
      | inl e ↦ elim (Bool-cases (start input db).1) [
        | inr c ↦
            rw (e, c, begin_steer)
              (Exclusive-Calmer db (start input db).0
                (Calmer-SameWork db (start input db).0 (record {
                  tasks = start_none input db x c;
                  task_steers = task_steers-transition_task input _ _ no_fields db;
                }))
                x)
        | inl c ↦ rw (e, c, begin_steer) (Exclusive-submitted now input target db x)
      ]
    ]
