-- ===== src/Store/Lookup.antt =====
-- What a lookup by id sees after the operations of src/storage/store.ts.
use mathlib.Core.Option
use imgent.Prelude.{
  ◌≡◌, refl, ap, ◌∙◌, String, some, Bool, true, List, arith, eq_iff, set_if, find_where,
  update_where, find_where-some, find_where-update_where,
}
use imgent.Store.Rows.{TaskStatus, TaskRow}
use imgent.Store.Db.{Db}
use imgent.Store.Frame.{SameWork}
use imgent.Store.Tasks.{
  stored_task, has_id, find_task, task, is_one_of, may_transition, transitioned, TransitionFields,
  transition_task,
}

pub find_task_of_same :
    (id : String) (db after : Db) → after.tasks ≡ db.tasks → find_task id after ≡ find_task id db
unfolding find_task
find_task_of_same id db after e = ap (find_where (has_id id)) e

pub find_task_of_SameWork :
    (id : String) (db after : Db) → SameWork db after → find_task id after ≡ find_task id db
find_task_of_SameWork id db after s = find_task_of_same id db after s.tasks

pub has_id-find_task : (id : String) (db : Db) (t : TaskRow) → find_task id db ≡ some t → t.id ≡ id
unfolding find_task
has_id-find_task id db t e = (eq_iff t.id id).0 (find_where-some (has_id id) db.tasks t e).1

pub task-find_task :
    (id : String) (db : Db) (t : TaskRow)
    → find_task id db ≡ some t
    → task id db ≡ some (stored_task t)
unfolding task
task-find_task id db t e = rw (e, task)

-- An update that keeps ids is seen through a lookup.
pub find_task-update :
    (id : String) (p : TaskRow → Bool) (f : TaskRow → TaskRow) (db after : Db) (t : TaskRow)
    → after.tasks ≡ update_where p f db.tasks
    → ((u : TaskRow) → has_id id (f u) ≡ has_id id u)
    → find_task id db ≡ some t
    → find_task id after ≡ some (set_if p f t)
unfolding find_task
find_task-update id p f db after t same ids e =
    ap (find_where (has_id id)) same
    ∙ find_where-update_where (has_id id) p f db.tasks ids
    ∙ ap (Option.map (set_if p f)) e

-- A transition that the status allows is seen by a lookup of its task.
pub find_task-transition_task :
    (id : String) (from : List TaskStatus) (to : TaskStatus) (fields : TransitionFields) (db : Db)
    (t : TaskRow)
    → find_task id db ≡ some t
    → is_one_of from t.status ≡ true
    → find_task id (transition_task id from to fields db).0 ≡ some (transitioned to fields t)
unfolding transition_task
find_task-transition_task id from to fields db t e s =
    find_task-update id (may_transition id from) (transitioned to fields) db _ t refl (λ u. refl) e
    ∙ ground (arith, has_id-find_task id db t e, eq_iff t.id id)
