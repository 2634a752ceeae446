-- ===== src/Store/Kept.antt =====
-- Which parts of a task an operation of src/storage/store.ts leaves as they are once the task has
-- come to an end.
use mathlib.Core.Option
use imgent.Prelude.{
  ◌≡◌, refl, ap, ◌∙◌, inl, inr, String, some, Bool, true, false, List, [], ◌∷◌, ◌++◌, arith,
  Bool-cases, set_if, find_where, update_where, find_where-update_where, find_where-append,
}
use imgent.Store.Rows.{TaskStatus, TaskRow, is_open}
use imgent.Store.Tasks.{
  has_id, may_transition, transitioned, is_one_of, TransitionFields, transition_task,
}
use imgent.Store.Db.{Db}
use imgent.Store.Laws.{all_open}

-- What the end of a task has fixed: its status, its reply and its error.
pub record SameEnd (t u : TaskRow) : Type 0 where
  pub status : u.status ≡ t.status
  pub final_text : u.final_text ≡ t.final_text
  pub error : u.error ≡ t.error

-- Each task that has come to an end is still there, with the same end.
abbrev pub Kept : List TaskRow → List TaskRow → Type 0
Kept ts us =
    (id : String) (t : TaskRow)
    → find_where (has_id id) ts ≡ some t
    → is_open t.status ≡ false
    → (u : TaskRow) × (find_where (has_id id) us ≡ some u) × SameEnd t u

pub Kept-refl : (ts : List TaskRow) → Kept ts ts
Kept-refl ts id t e o = (t, e, record { status = refl; final_text = refl; error = refl })

pub Kept-trans : (ts us vs : List TaskRow) → Kept ts us → Kept us vs → Kept ts vs
Kept-trans ts us vs h k id t e o =
    let (u, eu, su) = h id t e o in
    let (v, ev, sv) = k id u eu (ground arith) in
    (
      v,
      ev,
      record {
        status = sv.status ∙ su.status;
        final_text = sv.final_text ∙ su.final_text;
        error = sv.error ∙ su.error;
      },
    )

SameEnd-set_if :
    (p : TaskRow → Bool) (f : TaskRow → TaskRow) (t : TaskRow)
    → (p t ≡ true → SameEnd t (f t))
    → SameEnd t (set_if p f t)
SameEnd-set_if p f t h = elim (Bool-cases (p t)) [
  | inl e ↦ rw e (h e)
  | inr e ↦ rw e (record { status = refl; final_text = refl; error = refl })
]

-- An UPDATE that keeps ids and, on tasks that have ended, the end.
pub Kept-update_where :
    (p : TaskRow → Bool) (f : TaskRow → TaskRow) (ts : List TaskRow)
    → ((id : String) (t : TaskRow) → has_id id (f t) ≡ has_id id t)
    → ((t : TaskRow) → p t ≡ true → is_open t.status ≡ false → SameEnd t (f t))
    → Kept ts (update_where p f ts)
Kept-update_where p f ts ids ends id t e o = (
  set_if p f t,
  find_where-update_where (has_id id) p f ts (ids id) ∙ ap (Option.map (set_if p f)) e,
  SameEnd-set_if p f t (λ h. ends t h o),
)

pub Kept-append : (ts us : List TaskRow) → Kept ts (ts ++ us)
Kept-append ts us id t e o = (
  t,
  ground (arith, find_where-append (has_id id) ts us),
  record { status = refl; final_text = refl; error = refl },
)

is_open_of_one :
    (from : List TaskStatus) (s : TaskStatus)
    → all_open from ≡ true
    → is_one_of from s ≡ true
    → is_open s ≡ true
is_open_of_one [] s a h = cc
is_open_of_one (f ∷ from) s a h = ground (arith, is_open_of_one from s (ground arith))

pub Kept-transition_task :
    (id : String) (from : List TaskStatus) (to : TaskStatus) (fields : TransitionFields) (db : Db)
    → all_open from ≡ true
    → Kept db.tasks (transition_task id from to fields db).0.tasks
unfolding transition_task
Kept-transition_task id from to fields db a =
    Kept-update_where (may_transition id from) (transitioned to fields) db.tasks (λ j t. refl)
      λ t h o. absurd (ground (arith, is_open_of_one from t.status a))
