-- ===== src/Agent/Jobs/Runs/Steps.antt =====
-- config_management_service.py: the runs of a reconfiguration job, and what is asked of it in each phase.
use clab_manager.Prelude.{
  ℕ, zero, suc, ◌+◌, ◌≡◌, true, false, none, some, [], length, tally, ◌<◌, Text, is_some,
}
use clab_manager.Agent.Jobs.Store.{Status, Job, Reconfiguration, is_terminal}
use clab_manager.Agent.Jobs.Worker.{Phase, looping, raising, Run, World, work, cancel}

-- Steps of the thread, `n` of them, and cancellations between them.
pub data Runs (w : World) : ℕ → Run → Run → Type 0 where
  stays : {r : Run} → Runs w zero r r
  works : {n : ℕ} {r s : Run} → Runs w n (work w r) s → Runs w (suc n) r s
  cancels : {n : ℕ} {r s : Run} (now : Text) → Runs w n (cancel now r) s → Runs w n r s

-- The counts of a job agree with its results.
pub record IsCounted (job : Job Reconfiguration) : Type 0 where
  pub listed : job.completed_count ≡ length job.extra.results
  pub succeeded : job.success_count ≡ tally (λ e. e.ok) job.extra.results

-- A job that ended: in a final status, with a time, and with a verdict that its results bear out.
pub record IsEnded (job : Job Reconfiguration) : Type 0 where
  pub terminal : is_terminal job.status ≡ true
  pub dated : is_some job.finished_at ≡ true
  pub whole : job.status ≡ Status.completed → job.completed_count ≡ job.total
  pub right :
      job.extra.all_ok ≡ some true
      → (job.status ≡ Status.completed) × (job.success_count ≡ job.total) × (0 < job.total)

abbrev pub IsOpen : Job Reconfiguration → Type 0
IsOpen job = (is_terminal job.status ≡ false) × (job.extra.all_ok ≡ none)

-- What holds of the job in each phase of the thread.
abbrev pub IsAt : World → Phase → Job Reconfiguration → Type 0
IsAt w Phase.starting job = IsOpen job × (job.extra.results ≡ [])
IsAt w Phase.dead job = IsOpen job × (w.details ≡ raising)
IsAt w Phase.finished job = IsEnded job
IsAt w (looping routers success) job =
    IsOpen job × (job.success_count ≡ success) × (job.completed_count + length routers ≡ job.total)

pub record IsConsistent (w : World) (r : Run) : Type 0 where
  pub counted : IsCounted r.job
  pub at : IsAt w r.phase r.job
