-- ===== src/Tests/Turns.antt =====
-- src/queue/scheduler.ts at concrete inputs.
use imgent.Prelude.{
  ◌≡◌, ◌≢◌, ◌≤◌, ◌∙◌, ◌==◌, sym, String, Bool-cases, refl, some, List, [], ◌∷◌, arith, eq_iff,
  find_where, count_where, update_where, true, inl, inr,
}
use imgent.Errors.Codes.{agent_unavailable}
use imgent.Errors.Descriptor.{ErrorDescriptor, no_options, new_error}
use imgent.Store.Rows.{TaskStatus, TaskRow}
use imgent.Store.Tasks.{task, transition_task, has_id, stored_task, find_task}
use imgent.Scheduler.{Texts, FailureDraws, handle_driver_error}
use imgent.Scheduler.Retry.{Settled, handle_driver_error-Settled}
use imgent.Lifecycle.{Call, begins_steer, resolves_steer, claims, fails, run}
use imgent.Scheduler.Replay.{handle_driver_error_steered}
use imgent.Lifecycle.Turns.{AreSound, run-Exclusive}
use imgent.Store.Steers.{
  Resolution, begin_steer, resolve_steer, submit_steer, mark_dangerous_side_effect,
}
use imgent.Store.Exclusive.{Exclusive}
use imgent.Store.Db.{Db, empty_db}
use imgent.Tests.Samples.{running, follow_up, busy}

abbrev texts : Texts
texts = record { error_text = λ d t. "failed"; scheduled_text = λ body name at keep. body }

abbrev draws : FailureDraws
draws = record { canonical_uuid = "u1"; final_uuid = "u2"; dead_id = "x1"; outbound_id = "o1" }

abbrev unavailable : ErrorDescriptor
unavailable = (new_error agent_unavailable no_options "u0").descriptor

running_found : find_task "t1" busy ≡ some running
unfolding find_task find_where
running_found = refl

handle_driver_error-Settled_example :
    (u : TaskRow) × (find_task "t1"
        (handle_driver_error texts 50 draws (stored_task running) unavailable busy)
      ≡ some u)
    × Settled 50 running unavailable.code u
handle_driver_error-Settled_example =
    handle_driver_error-Settled texts 50 draws (stored_task running) unavailable busy running
      running_found refl

-- A turn that runs, and a follow-up of its conversation.
abbrev pair : Db
pair = record empty_db { tasks = running ∷ follow_up ∷ [] }

two_ids : running.id ≢ follow_up.id
two_ids = λ e. cc ((eq_iff "t1" "t2").1 e)

one_of_each : (id : String) → count_where (has_id id) pair.tasks ≤ 1
unfolding count_where
one_of_each id = elim (Bool-cases ("t1" == id)) [
  | inr e ↦ ground arith
  | inl e ↦ elim (Bool-cases ("t2" == id)) [
    | inr d ↦ ground arith
    | inl d ↦ absurd (two_ids ((eq_iff "t1" id).0 e ∙ sym ((eq_iff "t2" id).0 d)))
  ]
]

pair-Exclusive : Exclusive pair
pair-Exclusive = record { primary = one_of_each; single = λ a b m n r s k. ground arith }

-- The follow-up is steered into the turn and accepted, and the turn fails.
abbrev follows_up : List Call
follows_up =
    begins_steer 9 "t2" "t1"
    ∷ resolves_steer "u9" "t2" Resolution.accepted
    ∷ fails texts 50 draws (stored_task running) unavailable
    ∷ claims 60
    ∷ []

accepted_only : Resolution.accepted ≢ Resolution.rejected
accepted_only = λ e. cc

follows_up-AreSound : AreSound pair follows_up
follows_up-AreSound = (tt, ((λ e. absurd (accepted_only e)), (tt, (tt, tt))))

run-Exclusive_example : Exclusive (run pair follows_up)
run-Exclusive_example = run-Exclusive pair follows_up follows_up-AreSound pair-Exclusive

-- The running turn after the follow-up was handed to it.
abbrev steered : TaskRow
steered = record running { dangerous_side_effect_started = true }

steer_begins : (begin_steer 9 "t2" "t1" pair).1 ≡ true
unfolding begin_steer task find_task find_where transition_task count_where
steer_begins = refl

steered_found : find_task "t1" (begin_steer 9 "t2" "t1" pair).0 ≡ some steered
unfolding begin_steer task find_task find_where transition_task count_where update_where
    submit_steer mark_dangerous_side_effect
steered_found = refl

another : "t2" ≢ (stored_task running).id
another e = ground (arith, (eq_iff "t2" "t1").1 e)

handle_driver_error_steered_example :
    (u : TaskRow) × (find_task "t1" (
        handle_driver_error texts 50 draws
          (stored_task running)
          unavailable
          (resolve_steer "u9" "t2" Resolution.accepted (begin_steer 9 "t2" "t1" pair).0))
      ≡ some u)
    × (u.status ≡ TaskStatus.dead_letter)
handle_driver_error_steered_example =
    handle_driver_error_steered texts 9 50 draws "u9" "t2" Resolution.accepted (stored_task running)
      unavailable pair steered another steer_begins steered_found refl
