-- ===== src/Agent/Tests.antt =====
-- The properties of jobs and of configurations on concrete ones.
use clab_manager.Prelude.{
  ◌≡◌, ◌≤◌, refl, Bool, true, false, none, [], ◌∷◌, ◌++◌, All, arith, inl, Text, text, ◌==◌, lower,
  strip, elem,
}
use clab_manager.Agent.Nodes.{Router}
use clab_manager.Agent.Jobs.Store.{Status, is_terminal}
use clab_manager.Agent.Jobs.Worker.{choose, Details, Phase, Stored, World, Run, work, cancel}
use clab_manager.Agent.Jobs.Runs.{IsStuck, run-IsEnded, run-raising}
use clab_manager.Agent.Jobs.Runs.Consistent.{IsFresh, fresh-IsConsistent}
use clab_manager.Agent.Jobs.Runs.Measure.{steps_left}
use clab_manager.Agent.Jobs.Runs.Steps.{Runs, IsEnded, IsCounted}
use clab_manager.Agent.Config.Clean.{
  normalize_captured_config, prepare_from, is_indented, opens_mgmt,
}
use clab_manager.Agent.Config.Cleaned.{IsFree, normalize_idem, prepare_lem}
use clab_manager.Agent.Config.Diff.{calculate_config_diff, generate_delete_commands_junos}
use clab_manager.Agent.Config.Compared.{IsCovered, junos-IsCovered}
use clab_manager.Agent.Config.Compared.Lines.{IsComparison, calculate_config_diff-IsComparison}

abbrev router : Text → Router
router name = record { name = name; kind = text "cisco_iol"; mgmt_ipv4 = text "10.0.0.1/24" }

-- Two routers, of which the sessions succeed.
abbrev world : Details → World
world details = record {
  lab_name = text "bgp";
  details = details;
  stored = λ _. Stored.readable (text "hostname r");
  apply = λ _ _ _. none;
  now = text "t";
}

abbrev two : World
two = world (Details.found (router (text "r1") ∷ router (text "r2") ∷ []))

abbrev fresh : Run
fresh = record {
  job = record {
    job_id = text "j";
    lab = text "bgp";
    status = Status.running;
    total = 0;
    completed_count = 0;
    success_count = 0;
    started_at = text "t";
    finished_at = none;
    error = none;
    cancel_requested = false;
    cancel_requested_at = none;
    extra = record {
      results = [];
      requested_routers = [];
      mode = text "base";
      skipped_nodes = [];
      all_ok = none;
    };
  };
  event = false;
  phase = Phase.starting;
}

fresh-IsFresh : IsFresh fresh
unfolding is_terminal
fresh-IsFresh = (refl, (refl, refl), refl, refl, refl)

-- The job is cancelled after its first router.
abbrev last : Run
last = work two (work two (cancel (text "t1") (work two (work two fresh))))

sets_out : steps_left two Phase.starting fresh.job ≤ 4
unfolding steps_left choose strip ◌==◌ lower
sets_out = omega arith

run-IsEnded_example : IsEnded last.job × IsCounted last.job
run-IsEnded_example =
    run-IsEnded two
      (Runs.works (Runs.works (Runs.cancels (text "t1") (Runs.works (Runs.works Runs.stays)))))
      (fresh-IsConsistent two fresh fresh-IsFresh) (λ e. absurd (cc e)) sets_out

fresh-IsStuck : IsStuck fresh
unfolding is_terminal
fresh-IsStuck = (inl refl, refl)

run-raising_example : IsStuck (cancel (text "t1") (work (world Details.raising) fresh))
run-raising_example =
    run-raising (world Details.raising) (Runs.works (Runs.cancels (text "t1") Runs.stays)) refl
      fresh-IsStuck

abbrev never : Text → Bool
never _ = false

abbrev captured : Text
captured = text "hostname r1\ncrypto pki certificate chain x\n 1234\n quit\nend\n"

not_xr : (text "ios" == text "iosxr") ≡ false
unfolding ◌==◌
not_xr = refl

normalize_idem_example :
    normalize_captured_config never never
      (text "ios")
      (normalize_captured_config never never (text "ios") captured)
    ≡ normalize_captured_config never never (text "ios") captured
normalize_idem_example = normalize_idem never never (text "ios") captured not_xr

abbrev header : Text
header = text "interface MgmtEth0/RP0/CPU0/0"

header_opens : opens_mgmt header ≡ true
unfolding opens_mgmt strip ◌==◌
header_opens = refl

address_indented : is_indented (text " ipv4 address 10.0.0.1/24") ≡ true
unfolding is_indented
address_indented = refl

end_outside : is_indented (text "router bgp 1") ≡ false
unfolding is_indented
end_outside = refl

prepare_lem_example :
    (prepare_from false
        (text "hostname r" ∷ header ∷ text " ipv4 address 10.0.0.1/24" ∷ text "router bgp 1" ∷ [])
      ≡ prepare_from false (text "hostname r" ∷ [])
        ++ prepare_from false (text "router bgp 1" ∷ []))
    × All IsFree (
        prepare_from false (
          text "hostname r" ∷ header ∷ text " ipv4 address 10.0.0.1/24" ∷ text "router bgp 1" ∷ []))
prepare_lem_example =
    prepare_lem (text "hostname r" ∷ []) header (text " ipv4 address 10.0.0.1/24" ∷ [])
      (text "router bgp 1" ∷ []) header_opens (address_indented, tt) end_outside

calculate_config_diff-IsComparison_example :
    IsComparison
      (text "a\nb")
      (text "b\nc")
      (calculate_config_diff (text "a\nb") (text "b\nc") (text "iosxr"))
calculate_config_diff-IsComparison_example =
    calculate_config_diff-IsComparison (text "a\nb") (text "b\nc") (text "iosxr")

abbrev extra_unit : Text
extra_unit = text "set interfaces ge-0/0/1 unit 7 family inet"

runs_it : elem extra_unit (extra_unit ∷ text "set system" ∷ []) ≡ true
unfolding ◌==◌
runs_it = refl

base_lacks_it : elem extra_unit (text "set system" ∷ []) ≡ false
unfolding ◌==◌
base_lacks_it = refl

junos-IsCovered_example :
    IsCovered
      (generate_delete_commands_junos
        (text "set system" ∷ [])
        (extra_unit ∷ text "set system" ∷ []))
      extra_unit
junos-IsCovered_example =
    junos-IsCovered (text "set system" ∷ []) (extra_unit ∷ text "set system" ∷ []) extra_unit
      runs_it base_lacks_it
