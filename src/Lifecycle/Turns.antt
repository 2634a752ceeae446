-- ===== src/Lifecycle/Turns.antt =====
-- One turn at a time under an execution key, over every execution.
use imgent.Prelude.{◌≡◌, refl, List, [], ◌∷◌}
use imgent.Store.Db.{Db}
use imgent.Store.Steers.{Resolution}
use imgent.Store.Calm.{Calmer}
use imgent.Store.Starts.{
  Calmer-Laws, Calmer-cancel_conversation, Calmer-mark_dangerous, Calmer-recover,
}
use imgent.Store.Handover.{IsUnasked, Calmer-resolve_steer}
use imgent.Store.Exclusive.{Exclusive, Exclusive-Calmer, Exclusive-claim_next_task}
use imgent.Store.Steered.{Exclusive-begin_steer}
use imgent.Lifecycle.Routine.{routine_step}
use imgent.Lifecycle.{
  Call, claims, cancels_conversation, begins_steer, resolves_steer, marks_dangerous, recovers, step,
  run,
}

-- The scheduler reports that a driver has rejected a follow-up only for the input that it has just
-- handed over, which has asked for no approval.
abbrev pub IsSound : Db → Call → Type 0
IsSound db (resolves_steer uuid input r) = r ≡ Resolution.rejected → IsUnasked input db
IsSound db _ = Unit

abbrev pub AreSound : Db → List Call → Type 0
AreSound db [] = Unit
AreSound db (c ∷ cs) = IsSound db c × AreSound (step db c) cs

Exclusive-step : (db : Db) (c : Call) → IsSound db c → Exclusive db → Exclusive (step db c)
unfolding step
Exclusive-step db (claims now) s x = Exclusive-claim_next_task now db x
Exclusive-step db (begins_steer now input target) s x = Exclusive-begin_steer now input target db x
Exclusive-step db (resolves_steer uuid input r) s x =
    Exclusive-Calmer db _ (Calmer-resolve_steer uuid input r db s) x
Exclusive-step db (cancels_conversation key principal) s x =
    Exclusive-Calmer db _ (Calmer-cancel_conversation key principal db) x
Exclusive-step db (marks_dangerous id) s x = Exclusive-Calmer db _ (Calmer-mark_dangerous id db) x
Exclusive-step db (recovers now uuid uuid') s x =
    Exclusive-Calmer db _ (Calmer-recover now uuid uuid' db) x
Exclusive-step db c s x = Exclusive-Calmer db _ (routine_step Calmer Calmer-Laws db c refl) x

-- In every execution, task ids stay unique, and of two different tasks that run under one execution
-- key one was handed to a running turn and not handed back: at most one has a turn of its own. A
-- rejected follow-up must not be waiting for an approval when it is handed back.
pub run-Exclusive :
    (db : Db) (calls : List Call) → AreSound db calls → Exclusive db → Exclusive (run db calls)
unfolding run
run-Exclusive db [] s x = x
run-Exclusive db (c ∷ cs) s x = run-Exclusive (step db c) cs s.1 (Exclusive-step db c s.0 x)
