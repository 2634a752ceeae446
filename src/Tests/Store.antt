-- ===== src/Tests/Store.antt =====
-- src/storage/store.ts at concrete inputs.
use imgent.Prelude.{
  ◌≡◌, ◌≢◌, ◌≤◌, refl, none, some, true, false, [], ◌∷◌, ◌⊎◌, arith, find_where, any_where,
  filter_where, update_where, count_where,
}
use imgent.Store.Rows.{TaskStatus, TaskRow}
use imgent.Store.Tasks.{
  has_id, find_task, claim_next_task, next_claim, first_created, is_claimable, claimed_task,
}
use imgent.Store.Recovery.{recover_after_restart}
use imgent.Store.Fifo.{IsReady, Claims, claim_next_task-Claims}
use imgent.Store.Kept.{Kept}
use imgent.Store.Restart.{Restarted, find_task-recover, Quiet, recover_after_restart-Quiet}
use imgent.Lifecycle.{claims, recovers, cancels_conversation, run}
use imgent.Lifecycle.Terminal.{run-Kept}
use imgent.Store.Steers.{complete_task_with_outbound}
use imgent.Store.Completion.{Finished, complete_task_with_outbound-Finished}
use imgent.Tests.Samples.{running, other, busy, reply}

-- The follow-up of the busy conversation is passed over.
claim_busy : (claim_next_task 10 busy).1 ≡ some (claimed_task other)
unfolding claim_next_task next_claim first_created is_claimable any_where filter_where
claim_busy = refl

claim_next_task-Claims_example :
    ((t : TaskRow) × Claims 10 busy t)
    ⊎ ((claim_next_task 10 busy ≡ (busy, none))
        × ((u : TaskRow) → imgent.Prelude.In u busy.tasks → ¬ IsReady 10 busy.tasks u))
claim_next_task-Claims_example = claim_next_task-Claims 10 busy

run-Kept_example :
    Kept busy.tasks
      (run busy (cancels_conversation "k1" "p1" ∷ recovers 20 "a" "b" ∷ claims 30 ∷ [])).tasks
run-Kept_example =
    run-Kept busy (cancels_conversation "k1" "p1" ∷ recovers 20 "a" "b" ∷ claims 30 ∷ [])

find_busy : find_task "t1" busy ≡ some running
unfolding find_task find_where
find_busy = refl

find_task-recover_example :
    (u : TaskRow) × (find_task "t1" (recover_after_restart 20 "a" "b" busy).0 ≡ some u)
    × Restarted 20 running u
find_task-recover_example = find_task-recover 20 "a" "b" "t1" busy running find_busy

recover_after_restart-Quiet_example : Quiet busy (recover_after_restart 20 "a" "b" busy).0
recover_after_restart-Quiet_example = recover_after_restart-Quiet 20 "a" "b" busy

one_t1 : count_where (has_id "t1") busy.tasks ≤ 1
unfolding count_where
one_t1 = omega arith

complete_task_with_outbound-Finished_example :
    ((running.status ≡ TaskStatus.active)
      × ((complete_task_with_outbound 30 "c1" "o1" "t1" "done" true reply busy).1 ≡ true)
      × Finished "t1" "done" true reply running busy
          (complete_task_with_outbound 30 "c1" "o1" "t1" "done" true reply busy).0)
    ⊎ ((running.status ≢ TaskStatus.active)
        × (complete_task_with_outbound 30 "c1" "o1" "t1" "done" true reply busy ≡ (busy, false)))
complete_task_with_outbound-Finished_example =
    complete_task_with_outbound-Finished 30 "c1" "o1" "t1" "done" true reply busy running find_busy
      one_t1
