-- ===== src/Agent/Jobs/Runs.antt =====
-- config_management_service.py: proofs on the end of a reconfiguration job.
pub mod Steps
pub mod Consistent
pub mod Measure
use clab_manager.Prelude.{ℕ, ◌≤◌, ◌≡◌, ◌≢◌, refl, false, arith, Text, inl, inr, ◌⊎◌}
use clab_manager.Agent.Jobs.Store.{Job, Reconfiguration, is_terminal, cancelling_job}
use clab_manager.Agent.Jobs.Worker.{
  Phase, looping, raising, Run, World, start_thread, work_from, work, cancel,
}
use clab_manager.Agent.Jobs.Runs.Steps.{
  Runs, stays, works, cancels, IsCounted, IsEnded, IsAt, IsConsistent,
}
use clab_manager.Agent.Jobs.Runs.Consistent.{run-IsConsistent}
use clab_manager.Agent.Jobs.Runs.Measure.{steps_left, run_uses_up}

IsEnded-of_none_left :
    (w : World) (p : Phase) (job : Job Reconfiguration)
    → w.details ≢ raising
    → IsAt w p job
    → steps_left w p job ≤ 0
    → IsEnded job
unfolding steps_left
IsEnded-of_none_left w Phase.starting job ne a h = absurd (ground arith)
IsEnded-of_none_left w Phase.dead job ne a h = absurd (ne a.1)
IsEnded-of_none_left w Phase.finished job ne a h = a
IsEnded-of_none_left w (looping routers n) job ne a h = absurd (omega arith)

-- From a consistent state of a job whose details do not raise an exception, as many steps of its
-- thread as are left at most, with any cancellations between them, end the job: in a final status,
-- with a time, complete where the status is completed, with the verdict that all is well only where
-- it completed and every router of it succeeded, and with counts that agree with its results.
pub run-IsEnded :
    (w : World) {n : ℕ} {r s : Run}
    → Runs w n r s
    → IsConsistent w r
    → w.details ≢ raising
    → steps_left w r.phase r.job ≤ n
    → IsEnded s.job × IsCounted s.job
run-IsEnded w {s = s} steps h ne enough =
    let k = run-IsConsistent w steps h in
    (IsEnded-of_none_left w s.phase s.job ne k.at (run_uses_up w steps enough), k.counted)

-- Where a thread that has not got past an exception of its setup can be.
abbrev pub IsStuck : Run → Type 0
IsStuck r =
    ((r.phase ≡ Phase.starting) ⊎ (r.phase ≡ Phase.dead)) × (is_terminal r.job.status ≡ false)

work-IsStuck : (w : World) (r : Run) → w.details ≡ raising → IsStuck r → IsStuck (work w r)
unfolding work work_from start_thread
work-IsStuck w r e h = elim h.0 [ inl p ↦ rw (p, e) (inr refl, h.1) | inr p ↦ rw p (inr refl, h.1) ]

cancel-IsStuck : (now : Text) (r : Run) → IsStuck r → IsStuck (cancel now r)
unfolding cancel cancelling_job is_terminal
cancel-IsStuck now r h = rw h.1 (h.0, refl)

-- Where the details of the lab raise an exception, a job whose thread has not begun never ends:
-- after any steps and cancellations its thread has not begun or is dead, and its status is not
-- final.
pub run-raising :
    (w : World) {n : ℕ} {r s : Run} → Runs w n r s → w.details ≡ raising → IsStuck r → IsStuck s
run-raising w Runs.stays e h = h
run-raising w {r = r} (Runs.works rest) e h = run-raising w rest e (work-IsStuck w r e h)
run-raising w {r = r} (Runs.cancels now rest) e h = run-raising w rest e (cancel-IsStuck now r h)
