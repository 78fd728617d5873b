-- ===== src/Agent/Jobs/Store.antt =====
-- config_management_service.py: starting, reading and cancelling a job. The three stores (reconfigure,
-- set default, config diff) have the same code and differ in the fields `extra` and in their size.
use clab_manager.Prelude.{
  ℕ, Bool, true, false, Option, none, some, List, [], ◌∷◌, length, ltb, if◌then◌else◌, Text, text,
  Dict, lookup, insert, erase, is_empty, lower, strip,
}

pub data Status : Type 0 where
  running cancelling cancelled completed broken : Status

pub record Job (E : Type 0) : Type 0 where
  pub job_id : Text
  pub lab : Text
  pub status : Status
  pub total : ℕ
  pub completed_count : ℕ
  pub success_count : ℕ
  pub started_at : Text
  pub finished_at : Option Text
  pub error : Option Text
  pub cancel_requested : Bool
  pub cancel_requested_at : Option Text
  pub extra : E

-- The jobs, and for each whether its cancel event is set.
pub record Store (E : Type 0) : Type 0 where
  pub jobs : Dict (Job E)
  pub events : Dict Bool

abbrev pub reconfig_jobs_max : ℕ
reconfig_jobs_max = 30

abbrev pub set_default_jobs_max : ℕ
set_default_jobs_max = 30

abbrev pub config_diff_jobs_max : ℕ
config_diff_jobs_max = 50

unfoldable pub new_job : {E : Type 0} → Text → Text → Text → E → Job E
new_job job_id lab_name now extra = record {
  job_id = job_id;
  lab = lab_name;
  status = Status.running;
  total = 0;
  completed_count = 0;
  success_count = 0;
  started_at = now;
  finished_at = none;
  error = none;
  cancel_requested = false;
  cancel_requested_at = none;
  extra = extra;
}

-- The oldest job goes where there are too many.
unfoldable pub evict : {E : Type 0} → ℕ → Store E → Store E
evict limit s = elim s.jobs [
  | [] ↦ s
  | (oldest, job) ∷ jobs ↦
      if ltb limit (length ((oldest, job) ∷ jobs))
      then record { jobs = jobs; events = erase oldest s.events }
      else s
]

unfoldable pub start_job : {E : Type 0} → ℕ → Job E → Store E → Store E
unfolding evict
start_job limit job s =
    let kept = evict limit (record s { jobs = insert job.job_id job s.jobs }) in
    record kept { events = insert job.job_id false kept.events }

unfoldable pub get_job : {E : Type 0} → Text → Store E → Option (Job E)
get_job job_id s = lookup job_id s.jobs

unfoldable pub is_terminal : Status → Bool
is_terminal Status.running = false
is_terminal Status.cancelling = false
is_terminal Status.cancelled = true
is_terminal Status.completed = true
is_terminal Status.broken = true

pub data CancelAnswer : Type 0 where
  no_job : CancelAnswer
  already_terminal : Status → CancelAnswer
  asked : CancelAnswer

unfoldable pub cancelling_job : {E : Type 0} → Text → Job E → Job E
cancelling_job now job = record job {
  status = Status.cancelling;
  cancel_requested = true;
  cancel_requested_at = some now;
}

unfoldable pub cancel_job : {E : Type 0} → Text → Text → Store E → CancelAnswer × Store E
unfolding is_terminal cancelling_job
cancel_job job_id now s = elim (lookup job_id s.jobs) [
  | none ↦ (no_job, s)
  | some job ↦ if is_terminal job.status then (already_terminal job.status, s) else (
    asked,
    record {
      jobs = insert job_id (cancelling_job now job) s.jobs;
      events = insert job_id true s.events;
    },
  )
]

-- One node of a job that is done.
pub record NodeResult : Type 0 where
  pub node : Text
  pub ok : Bool
  pub error : Option Text

-- The further fields of a reconfiguration.
pub record Reconfiguration : Type 0 where
  pub results : List NodeResult
  pub requested_routers : List Text
  pub mode : Text
  pub skipped_nodes : List Text
  pub all_ok : Option Bool

-- `str(mode or "base").strip().lower() or "base"`
unfoldable pub normalized_mode : Option Text → Text
normalized_mode none = text "base"
normalized_mode (some mode) =
    if is_empty (lower (strip mode)) then text "base" else lower (strip mode)

unfoldable pub start_reconfigure_job :
    Text
    → Text
    → Option (List Text)
    → Option Text
    → Text
    → Store Reconfiguration
    → Store Reconfiguration
unfolding start_job new_job normalized_mode
start_reconfigure_job job_id lab_name router_names mode now s =
    start_job reconfig_jobs_max
      (new_job job_id lab_name now (record {
        results = [];
        requested_routers = elim router_names [ none ↦ [] | some names ↦ names ];
        mode = normalized_mode mode;
        skipped_nodes = [];
        all_ok = none;
      }))
      s
