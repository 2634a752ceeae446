-- ===== src/Store/Calm.antt =====
-- The operations of src/storage/store.ts that start no task: what runs afterwards ran before, and is
-- still marked as a steered input where it was.
use imgent.Prelude.{
  ◌≡◌, refl, ap, ◌∙◌, String, Bool, true, false, not, ◌&&◌, ◌==◌, List, Bool-cases, inl, inr, In,
  set_if, any_where, update_where, In-update_where, count_where, count_where-update_where,
}
use imgent.Store.Rows.{TaskRow, SteerState, SteerRow, is_running}
use imgent.Store.Db.{Db}
use imgent.Store.Tasks.{has_id}
use imgent.Store.Frame.{SameWork}

abbrev pub is_rejected : SteerState → Bool
is_rejected SteerState.rejected = true
is_rejected _ = false

abbrev pub hands_over : String → SteerRow → Bool
hands_over id s = s.input_task_id == id && not (is_rejected s.state)

-- The task was handed to a turn that ran, and not handed back.
abbrev pub is_handed : String → List SteerRow → Bool
is_handed id steers = any_where (hands_over id) steers

-- A row of a later table comes from one of the same task, which ran if this one runs.
pub record Stems (u t : TaskRow) : Type 0 where
  pub id : u.id ≡ t.id
  pub execution_key : u.execution_key ≡ t.execution_key
  pub ran : is_running u.status ≡ true → is_running t.status ≡ true

pub record Calmer (db after : Db) : Type 0 where
  pub source : (u : TaskRow) → In u after.tasks → (t : TaskRow) × In t db.tasks × Stems u t
  pub rows : (id : String) → count_where (has_id id) after.tasks ≡ count_where (has_id id) db.tasks
  pub handed :
      (u : TaskRow)
      → In u after.tasks
      → is_running u.status ≡ true
      → is_handed u.id db.task_steers ≡ true
      → is_handed u.id after.task_steers ≡ true

pub Calmer-refl : (db : Db) → Calmer db db
Calmer-refl db = record {
  source = λ u m. (u, m, record { id = refl; execution_key = refl; ran = λ h. h });
  rows = λ id. refl;
  handed = λ u m r h. h;
}

pub Calmer-trans : (a b c : Db) → Calmer a b → Calmer b c → Calmer a c
Calmer-trans a b c f g = record {
  source = λ u m.
      let (t, n, p) = g.source u m in
      let (s, o, q) = f.source t n in
      (
        s,
        o,
        record {
          id = p.id ∙ q.id;
          execution_key = p.execution_key ∙ q.execution_key;
          ran = λ h. q.ran (p.ran h);
        },
      );
  rows = λ id. g.rows id ∙ f.rows id;
  handed = λ u m r h.
      let (t, n, p) = g.source u m in
      g.handed u m r (rw p.id (f.handed t n (p.ran r) (rw (← p.id) h)));
}

pub Calmer-SameWork : (db after : Db) → SameWork db after → Calmer db after
Calmer-SameWork db after s = record {
  source = λ u m. (u, rw (← s.tasks) m, record { id = refl; execution_key = refl; ran = λ h. h });
  rows = λ id. ap (count_where (has_id id)) s.tasks;
  handed = λ u m r h. rw s.task_steers h;
}

Stems-set_if :
    (p : TaskRow → Bool) (f : TaskRow → TaskRow) (t : TaskRow)
    → (p t ≡ true → Stems (f t) t)
    → Stems (set_if p f t) t
Stems-set_if p f t h = elim (Bool-cases (p t)) [
  | inl e ↦ rw e (h e)
  | inr e ↦ rw e (record { id = refl; execution_key = refl; ran = λ r. r })
]

-- An UPDATE of tasks that keeps ids and execution keys and starts nothing.
pub Calmer-update :
    (p : TaskRow → Bool) (f : TaskRow → TaskRow) (db after : Db)
    → after.tasks ≡ update_where p f db.tasks
    → after.task_steers ≡ db.task_steers
    → ((t : TaskRow) → p t ≡ true → Stems (f t) t)
    → Calmer db after
Calmer-update p f db after same steers h = record {
  source = λ u m.
      let (t, n, e) = In-update_where p f db.tasks u (rw (← same) m) in
      (t, n, rw e (Stems-set_if p f t (h t)));
  rows = λ id.
      ap (count_where (has_id id)) same
      ∙ count_where-update_where (has_id id) p f db.tasks (λ t k. ap (λ i. i == id) (h t k).id);
  handed = λ u m r k. rw steers k;
}
