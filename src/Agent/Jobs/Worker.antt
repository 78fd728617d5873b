-- ===== src/Agent/Jobs/Worker.antt =====
-- config_management_service.py: the thread of a reconfiguration job, one step for each pass of its loop,
-- and a cancellation that may come between any two steps.
use clab_manager.Prelude.{
  before_slash, ℕ, ◌+◌, Bool, true, false, not, ◌&&◌, ◌||◌, Option, none, some, List, [], ◌∷◌, ◌++◌,
  map, length, ltb, eqb, if◌then◌else◌, Text, text, elem, lower, strip, is_empty,
}
use clab_manager.Agent.Nodes.{Router, short_node_name, is_linux_srv_node, family_of}
use clab_manager.Agent.Jobs.Store.{
  Status, Job, NodeResult, Reconfiguration, is_terminal, cancelling_job,
}

-- What the inventory and the folder of the stored configurations give: no lab, an exception, or routers.
pub data Details : Type 0 where
  no_lab raising : Details
  found : List Router → Details

-- Where the thread stands: not begun, in its loop with the routers to come and its count of successes,
-- gone by an exception that nothing catches, or at its end.
pub data Phase : Type 0 where
  starting dead finished : Phase
  looping : List Router → ℕ → Phase

-- The job with its cancel event and its thread.
pub record Run : Type 0 where
  pub job : Job Reconfiguration
  pub event : Bool
  pub phase : Phase

-- The stored configuration of a node: missing, unreadable, or its text.
pub data Stored : Type 0 where
  missing : Stored
  unreadable : Text → Stored
  readable : Text → Stored

-- What the thread is given: the lab, and what the world answers. `apply` stands for the session on the
-- router, with the text of what it raises.
pub record World : Type 0 where
  pub lab_name : Text
  pub details : Details
  pub stored : Text → Stored
  pub apply : Router → Text → Text → Option Text
  pub now : Text

unfoldable pub is_requested : List Text → Text → Bool
is_requested requested short_name = elem (lower short_name) (map (λ r. lower (strip r)) requested)

-- The routers that are configured, and the names of those that are skipped.
unfoldable pub choose : Text → List Text → List Router → List Router × List Text
unfolding short_node_name is_linux_srv_node is_requested
choose lab_name requested [] = ([], [])
choose lab_name requested (r ∷ routers) =
    let rest = choose lab_name requested routers in
    let short_name = short_node_name r.name lab_name in
    let outside = ltb 0 (length requested) && not (is_requested requested short_name) in
    if is_empty r.name
    then rest
    else if outside || is_linux_srv_node r short_name
    then (rest.0, short_name ∷ rest.1)
    else (r ∷ rest.0, rest.1)

abbrev refusal : Text → Text → NodeResult
refusal node why = record { node = node; ok = false; error = some why }

-- One pass of the loop on a router: its entry.
unfoldable pub attempt : World → Router → NodeResult
unfolding short_node_name family_of before_slash
attempt w r =
    let node = short_node_name r.name w.lab_name in
    elim (family_of r) [
      | none ↦ refusal node (text "Unsupported model")
      | some family ↦ elim (w.stored node) [
        | missing ↦ refusal node (text "Missing static config")
        | unreadable why ↦ refusal node why
        | readable config ↦
            if is_empty (before_slash r.mgmt_ipv4)
            then refusal node (text "Missing management IP")
            else elim (w.apply r family config) [
              | none ↦ record { node = node; ok = true; error = none }
              | some why ↦ refusal node why
            ]
      ]
    ]

unfoldable pub fails : World → Text → Job Reconfiguration → Job Reconfiguration
fails w why job = record job { status = Status.broken; error = some why; finished_at = some w.now }

unfoldable pub begins : World → List Router × List Text → Job Reconfiguration → Job Reconfiguration
begins w (routers, skipped) job = record job {
  total = length routers;
  extra = record job.extra { skipped_nodes = skipped };
}

unfoldable pub records : NodeResult → ℕ → Job Reconfiguration → Job Reconfiguration
records entry success job = record job {
  completed_count = job.completed_count + 1;
  success_count = success;
  extra = record job.extra { results = job.extra.results ++ entry ∷ [] };
}

-- The end of the thread, `stopped` by the event or not.
unfoldable pub ends : World → Bool → ℕ → Job Reconfiguration → Job Reconfiguration
ends w stopped success job = record job {
  status = if stopped then Status.cancelled else Status.completed;
  success_count = success;
  error = if stopped then some (text "Cancelled by user") else job.error;
  finished_at = some w.now;
  extra = record job.extra {
    all_ok = some (not stopped && (ltb 0 job.total && eqb success job.total));
  };
}

unfoldable pub start_thread : World → Details → Run → Run
unfolding fails begins choose
start_thread w no_lab run = record run {
  job = fails w (text "Lab not found") run.job;
  phase = Phase.finished;
}
start_thread w raising run = record run { phase = Phase.dead }
start_thread w (found routers) run =
    let chosen = choose w.lab_name run.job.extra.requested_routers routers in
    record run { job = begins w chosen run.job; phase = looping chosen.0 0 }

-- The next step of the thread.
unfoldable pub work_from : World → Phase → Run → Run
unfolding start_thread ends attempt records
work_from w Phase.starting run = start_thread w w.details run
work_from w Phase.dead run = run
work_from w Phase.finished run = run
work_from w (looping [] success) run = record run {
  job = ends w false success run.job;
  phase = Phase.finished;
}
work_from w (looping (r ∷ routers) success) run =
    if run.event
    then record run { job = ends w true success run.job; phase = Phase.finished }
    else (let entry = attempt w r in
        let count = success + (if entry.ok then 1 else 0) in
        record run { job = records entry count run.job; phase = looping routers count })

unfoldable pub work : World → Run → Run
unfolding work_from
work w run = work_from w run.phase run

-- `cancel_reconfigure_job` on this job.
unfoldable pub cancel : Text → Run → Run
unfolding is_terminal cancelling_job
cancel now run =
    if is_terminal run.job.status
    then run
    else record run { job = cancelling_job now run.job; event = true }
