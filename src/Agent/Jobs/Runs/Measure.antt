-- ===== src/Agent/Jobs/Runs/Measure.antt =====
-- config_management_service.py: proofs on the steps a reconfiguration job has before it.
use clab_manager.Prelude.{
  ℕ, suc, ◌+◌, ◌≤◌, ◌≡◌, refl, [], ◌∷◌, length, arith, Text, Bool-cases, inl, inr,
}
use clab_manager.Agent.Jobs.Store.{Job, Reconfiguration, is_terminal, cancelling_job}
use clab_manager.Agent.Jobs.Worker.{
  Details, Phase, looping, no_lab, raising, found, Run, World, choose, start_thread, work_from,
  work, cancel,
}
use clab_manager.Agent.Jobs.Runs.Steps.{Runs}

-- How many steps the thread has before it at most.
unfoldable pub steps_left : World → Phase → Job Reconfiguration → ℕ
steps_left w Phase.starting job = elim w.details [
  | no_lab ↦ 1
  | raising ↦ 1
  | found routers ↦ 2 + length (choose w.lab_name job.extra.requested_routers routers).0
]
steps_left w Phase.dead job = 0
steps_left w Phase.finished job = 0
steps_left w (looping routers success) job = 1 + length routers

steps_left-start :
    (w : World) (d : Details) (r : Run) (n : ℕ)
    → w.details ≡ d
    → steps_left w Phase.starting r.job ≤ suc n
    → steps_left w (start_thread w d r).phase (start_thread w d r).job ≤ n
unfolding steps_left start_thread
steps_left-start w no_lab r n e h = omega arith
steps_left-start w raising r n e h = omega arith
steps_left-start w (found routers) r n e h = omega (arith, rw (e, steps_left) at h)

steps_left-work :
    (w : World) (p : Phase) (r : Run) (n : ℕ)
    → r.phase ≡ p
    → steps_left w p r.job ≤ suc n
    → steps_left w (work_from w p r).phase (work_from w p r).job ≤ n
unfolding steps_left work_from
steps_left-work w Phase.starting r n e h = steps_left-start w w.details r n refl h
steps_left-work w Phase.dead r n e h = rw e (omega arith)
steps_left-work w Phase.finished r n e h = rw e (omega arith)
steps_left-work w (looping [] m) r n e h = omega arith
steps_left-work w (looping (x ∷ xs) m) r n e h = elim (Bool-cases r.event) [
  | inl k ↦ rw k (omega arith)
  | inr k ↦ rw k (omega (arith, h))
]

steps_left-cancel :
    (w : World) (now : Text) (p : Phase) (r : Run)
    → steps_left w p (cancel now r).job ≡ steps_left w p r.job
unfolding steps_left cancel cancelling_job
steps_left-cancel w now Phase.starting r = elim (Bool-cases (is_terminal r.job.status)) [
  | inl e ↦ rw e refl
  | inr e ↦ rw e refl
]
steps_left-cancel w now Phase.dead r = refl
steps_left-cancel w now Phase.finished r = refl
steps_left-cancel w now (looping routers n) r = refl

cancel-phase : (now : Text) (r : Run) → (cancel now r).phase ≡ r.phase
unfolding cancel
cancel-phase now r = elim (Bool-cases (is_terminal r.job.status)) [
  | inl e ↦ rw e refl
  | inr e ↦ rw e refl
]

pub run_uses_up :
    (w : World) {n : ℕ} {r s : Run}
    → Runs w n r s
    → steps_left w r.phase r.job ≤ n
    → steps_left w s.phase s.job ≤ 0
unfolding work
run_uses_up w Runs.stays h = h
run_uses_up w {n = suc n} {r = r} (Runs.works rest) h =
    run_uses_up w rest (steps_left-work w r.phase r n refl h)
run_uses_up w {r = r} (Runs.cancels now rest) h =
    run_uses_up w rest (rw (cancel-phase now r, steps_left-cancel w now r.phase r) h)
