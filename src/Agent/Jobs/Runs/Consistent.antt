-- ===== src/Agent/Jobs/Runs/Consistent.antt =====
-- config_management_service.py: proofs on the state of a reconfiguration job along a run.
use clab_manager.Prelude.{
  ℕ, ◌+◌, ◌≡◌, refl, ap, sym, ◌∙◌, Bool, true, false, [], ◌∷◌, length, length-append, tally,
  tally-append, if◌then◌else◌, arith, Text, Bool-cases, inl, inr, false≢true,
}
use clab_manager.Agent.Jobs.Store.{Job, NodeResult, Reconfiguration, is_terminal, cancelling_job}
use clab_manager.Agent.Jobs.Worker.{
  Details, Phase, looping, no_lab, raising, found, Run, World, attempt, fails, begins, records,
  ends, start_thread, work_from, work, cancel,
}
use clab_manager.Agent.Jobs.Runs.Steps.{Runs, IsCounted, IsOpen, IsAt, IsConsistent}

count_one :
    (job : Job Reconfiguration) (entry : NodeResult) (n : ℕ)
    → IsCounted job
    → job.success_count ≡ n
    → IsCounted (records entry (n + (if entry.ok then 1 else 0)) job)
unfolding records
count_one job entry n c e = record {
  listed = omega (arith, c.listed, length-append job.extra.results (entry ∷ []));
  succeeded = omega (
    arith,
    c.succeeded,
    e,
    tally-append (λ (x : NodeResult). x.ok) job.extra.results (entry ∷ []),
  );
}

start-IsConsistent :
    (w : World) (d : Details) (r : Run)
    → w.details ≡ d
    → IsCounted r.job
    → IsAt w Phase.starting r.job
    → IsConsistent w (start_thread w d r)
unfolding start_thread fails begins is_terminal
start-IsConsistent w no_lab r e c a = record {
  counted = record { listed = c.listed; succeeded = c.succeeded };
  at = record {
    terminal = refl;
    dated = refl;
    whole = λ q. cc;
    right = λ q. absurd (cc (q, a.0.1));
  };
}
start-IsConsistent w raising r e c a = record { counted = c; at = (a.0, e) }
start-IsConsistent w (found routers) r e c a = record {
  counted = record { listed = c.listed; succeeded = c.succeeded };
  at = (
    a.0,
    cc (c.succeeded, ap (tally (λ (x : NodeResult). x.ok)) a.1),
    omega (arith, c.listed, ap length a.1),
  );
}

ends-IsConsistent :
    (w : World) (stopped : Bool) (n : ℕ) (r : Run)
    → IsCounted r.job
    → r.job.success_count ≡ n
    → (stopped ≡ false → r.job.completed_count ≡ r.job.total)
    → IsConsistent w (record r { job = ends w stopped n r.job; phase = Phase.finished })
unfolding ends is_terminal
ends-IsConsistent w true n r c e full = record {
  counted = record { listed = c.listed; succeeded = sym e ∙ c.succeeded };
  at = record {
    terminal = refl;
    dated = refl;
    whole = λ q. absurd (ground arith);
    right = λ q. absurd (ground arith);
  };
}
ends-IsConsistent w false n r c e full = record {
  counted = record { listed = c.listed; succeeded = sym e ∙ c.succeeded };
  at = record { terminal = refl; dated = refl; whole = λ q. full refl; right = λ q. ground arith };
}

work_from-IsConsistent :
    (w : World) (p : Phase) (r : Run)
    → r.phase ≡ p
    → IsCounted r.job
    → IsAt w p r.job
    → IsConsistent w (work_from w p r)
unfolding work_from
work_from-IsConsistent w Phase.starting r e c a = start-IsConsistent w w.details r refl c a
work_from-IsConsistent w Phase.dead r e c a = record { counted = c; at = rw e a }
work_from-IsConsistent w Phase.finished r e c a = record { counted = c; at = rw e a }
work_from-IsConsistent w (looping [] n) r e c a =
    ends-IsConsistent w false n r c a.1 (λ _. omega (arith, a.2))
work_from-IsConsistent w (looping (x ∷ xs) n) r e c a = elim (Bool-cases r.event) [
  | inl k ↦ rw k (rw k at (ends-IsConsistent w true n r c a.1 (λ q. absurd (false≢true (sym q)))))
  | inr k ↦ rw k (record {
    counted = count_one r.job (attempt w x) n c a.1;
    at = (a.0, refl, omega (arith, a.2));
  })
]

cancelled-IsAt :
    (w : World) (now : Text) (p : Phase) (job : Job Reconfiguration)
    → is_terminal job.status ≡ false
    → IsAt w p job
    → IsAt w p (cancelling_job now job)
unfolding cancelling_job is_terminal
cancelled-IsAt w now Phase.starting job e a = ((refl, a.0.1), a.1)
cancelled-IsAt w now Phase.dead job e a = ((refl, a.0.1), a.1)
cancelled-IsAt w now Phase.finished job e a = absurd (false≢true (sym e ∙ a.terminal))
cancelled-IsAt w now (looping routers n) job e a = ((refl, a.0.1), a.1, a.2)

work-IsConsistent : (w : World) (r : Run) → IsConsistent w r → IsConsistent w (work w r)
unfolding work
work-IsConsistent w r h = work_from-IsConsistent w r.phase r refl h.counted h.at

cancel-IsConsistent :
    (w : World) (now : Text) (r : Run) → IsConsistent w r → IsConsistent w (cancel now r)
unfolding cancel cancelling_job is_terminal
cancel-IsConsistent w now r h = elim (Bool-cases (is_terminal r.job.status)) [
  | inl e ↦ rw e h
  | inr e ↦ rw e (record {
    counted = record { listed = h.counted.listed; succeeded = h.counted.succeeded };
    at = cancelled-IsAt w now r.phase r.job e h.at;
  })
]

pub run-IsConsistent :
    (w : World) {n : ℕ} {r s : Run} → Runs w n r s → IsConsistent w r → IsConsistent w s
run-IsConsistent w Runs.stays h = h
run-IsConsistent w {r = r} (Runs.works rest) h = run-IsConsistent w rest (work-IsConsistent w r h)
run-IsConsistent w {r = r} (Runs.cancels now rest) h =
    run-IsConsistent w rest (cancel-IsConsistent w now r h)

-- A job as it is made, before its thread begins.
abbrev pub IsFresh : Run → Type 0
IsFresh r =
    (r.phase ≡ Phase.starting)
    × IsOpen r.job
    × (r.job.extra.results ≡ [])
    × (r.job.completed_count ≡ 0)
    × (r.job.success_count ≡ 0)

pub fresh-IsConsistent : (w : World) (r : Run) → IsFresh r → IsConsistent w r
fresh-IsConsistent w r h = record {
  counted = record {
    listed = h.3 ∙ sym (ap length h.2);
    succeeded = h.4 ∙ sym (ap (tally (λ (x : NodeResult). x.ok)) h.2);
  };
  at = rw h.0 (h.1, h.2);
}
