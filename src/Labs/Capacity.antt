-- ===== src/Labs/Capacity.antt =====
-- central/src/services/sandbox_capacity.py: whether the nodes of a topology fit in the resources of a machine.
-- Numbers are exact: budgets and needs are in hundredths of their unit, and a ratio is a fraction.
use clab_manager.Prelude.{
  ℕ, ◌+◌, ◌-◌, ◌*◌, ◌/◌, min, Bool, ◌&&◌, List, [], ◌∷◌, ◌++◌, if◌then◌else◌, leb, ltb, eqb, Text,
  text, ◌==◌, elem, lower, strip, is_empty, Dict, lookup, insert, has_key, some_or, sorted,
}
use clab_manager.Auth.Data.{text_le}

pub record Profile : Type 0 where
  pub memory_mb : ℕ
  pub cpu_units : ℕ

abbrev profile : ℕ → ℕ → Profile
profile memory cpu = record { memory_mb = memory; cpu_units = cpu }

abbrev pub kind_profiles : Dict Profile
kind_profiles =
    (text "cisco_xrd", profile 2200 130)
    ∷ (text "cisco_xrv9k", profile 2800 150)
    ∷ (text "cisco_xrv", profile 2600 145)
    ∷ (text "cisco_iol", profile 384 35)
    ∷ (text "cisco_iosv", profile 1024 70)
    ∷ (text "cisco_csr1000v", profile 3072 165)
    ∷ (text "juniper_vmx", profile 4096 180)
    ∷ (text "juniper_vsrx", profile 2048 120)
    ∷ (text "juniper_vqfx", profile 2048 130)
    ∷ (text "juniper_crpd", profile 1024 75)
    ∷ (text "juniper_vjunos-switch", profile 2200 140)
    ∷ (text "juniper_vjunos-router", profile 2200 140)
    ∷ (text "nokia_sros", profile 4600 200)
    ∷ (text "nokia_srlinux", profile 1400 90)
    ∷ (text "arista_ceos", profile 1500 95)
    ∷ (text "linux", profile 256 15)
    ∷ (text "host", profile 256 15)
    ∷ (text "bridge", profile 64 3)
    ∷ (text "ovs-bridge", profile 96 5)
    ∷ []

abbrev pub default_profile : Profile
default_profile = profile 1024 60

unfoldable pub profile_of : Text → Profile
profile_of kind = some_or (lookup kind kind_profiles) default_profile

-- The counts of the kinds, and the kinds without a profile; the argument is the kinds of the nodes as they
-- stand in the parsed topology.
unfoldable pub count_kinds : List Text → Dict ℕ → List Text → Dict ℕ × List Text
count_kinds [] counts unknown = (counts, unknown)
count_kinds (raw ∷ kinds) counts unknown =
    let kind = lower (strip raw) in
    let skipped = count_kinds kinds counts unknown in
    let more = insert kind (some_or (lookup kind counts) 0 + 1) counts in
    let known = count_kinds kinds more unknown in
    let new = count_kinds kinds more (unknown ++ kind ∷ []) in
    if is_empty kind
    then skipped
    else if has_key kind kind_profiles
    then known
    else if elem kind unknown
    then known
    else new

-- The resources as the machine reports them, in whole percents.
pub record Resources : Type 0 where
  pub memory_total : ℕ
  pub memory_used : ℕ
  pub cpu_percent : ℕ
  pub cpu_count : ℕ

-- The budgets of memory and of computing, in hundredths.
unfoldable pub budgets : Resources → ℕ → Text → ℕ × ℕ
budgets r guard_band comparison_mode =
    let margin = min guard_band 95 in
    let cpus = if eqb r.cpu_count 0 then 1 else r.cpu_count in
    let memory = r.memory_total * (100 - margin) in
    let cpu = cpus * 100 * (100 - margin) in
    if lower (strip comparison_mode) == text "available"
    then (memory - 100 * r.memory_used, cpu - min r.cpu_percent 100 * cpus * 100)
    else (memory, cpu)

abbrev pub Weight : Type 0
Weight = Profile → ℕ

-- What the nodes of each kind need, in all; memory is in bytes.
abbrev pub memory_of : Weight
memory_of p = p.memory_mb * 1024 * 1024

abbrev pub cpu_of : Weight
cpu_of p = p.cpu_units

unfoldable pub required : Weight → Dict ℕ → ℕ
required weight [] = 0
required weight ((kind, count) ∷ counts) = count * weight (profile_of kind) + required weight counts

-- A fraction, with its numerator first.
abbrev pub Ratio : Type 0
Ratio = ℕ × ℕ

unfoldable pub ratio_of : ℕ → ℕ → Ratio
ratio_of budget need = if ltb 0 need then (budget, need * 100) else (1, 1)

unfoldable pub smaller : Ratio → Ratio → Ratio
smaller p q = if leb (p.0 * q.1) (q.0 * p.1) then p else q

unfoldable pub scaled : Ratio → ℕ → ℕ
scaled ratio count = count * ratio.0 / ratio.1

unfoldable pub suggest : Ratio → Dict ℕ → Dict ℕ
unfolding scaled
suggest ratio [] = []
suggest ratio ((kind, count) ∷ counts) = (kind, scaled ratio count) ∷ suggest ratio counts

pub record Estimate : Type 0 where
  pub ok : Bool
  pub cpu_fits : Bool
  pub memory_fits : Bool
  pub unknown_kinds : List Text
  pub fit_ratio : Ratio
  pub by_kind : Dict ℕ
  pub suggested_by_kind : Dict ℕ

unfoldable pub estimate : Resources → ℕ → Text → Dict ℕ → List Text → Estimate
unfolding budgets required ratio_of smaller suggest
estimate r guard_band comparison_mode counts unknown =
    let b = budgets r guard_band comparison_mode in
    let by_kind = sorted (λ e f. text_le e.0 f.0) counts in
    let need_memory = required memory_of by_kind in
    let need_cpu = required cpu_of by_kind in
    let memory_ok = leb (need_memory * 100) b.0 in
    let cpu_ok = leb (need_cpu * 100) b.1 in
    let ratio = smaller (smaller (1, 1) (ratio_of b.0 need_memory)) (ratio_of b.1 need_cpu) in
    record {
      ok = memory_ok && cpu_ok;
      cpu_fits = cpu_ok;
      memory_fits = memory_ok;
      unknown_kinds = unknown;
      fit_ratio = ratio;
      by_kind = by_kind;
      suggested_by_kind = if memory_ok && cpu_ok then [] else suggest ratio by_kind;
    }

-- The whole: the kinds are counted, then weighed.
unfoldable pub estimate_sandbox_capacity : List Text → Resources → ℕ → Text → Estimate
unfolding count_kinds estimate
estimate_sandbox_capacity kinds r guard_band comparison_mode =
    let counted = count_kinds kinds [] [] in
    estimate r guard_band comparison_mode counted.0 counted.1
