-- ===== src/Runner/Test/Verdicts.antt =====
-- What a test's verdict says of its case.
use mathlib.Core.Path.{subst}
use pc_platform_validation_t.Base.{
  if◌then◌else◌, nat_eq, string_eq, option_eq, All, evaluation_error, Exception, Result, ok, raised,
  succeeds, String, ◌≡◌, ◌↔◌, true, ◌&&◌, Option, List, ◌==◌, refl, ◌||◌, some, [], arith,
  Bool-cases, inl, inr, ExceptionClass, workload_cancelled, is_value_error, is_runtime_error,
  is_os_error, ◌∙◌, ◌≢◌, Bool, false, not, none, workload_timeout, raise, all, ok_injective, sym,
  ap,
}
use pc_platform_validation_t.Base.Dict.{Dict}
use pc_platform_validation_t.Base.Floats.{Floats}
use pc_platform_validation_t.Models.Status.{pass, fail, error, status_eq, ResultStatus, skip}
use pc_platform_validation_t.Models.Plan.{Requirement, TestDefinition, checksum_mismatch}
use pc_platform_validation_t.Models.Results.{MetricValue, RequirementEvaluation}
use pc_platform_validation_t.Evaluation.Met.{IsMet, all_pass, all_pass-IsMet, map_result-class}
use pc_platform_validation_t.Runner.Cases.{CaseExecution}
use pc_platform_validation_t.Runner.Test.{
  Verdict, metric_values, settle, evaluate_all, summarize, decide_status, assess, judge,
}
use pc_platform_validation_t.Runner.Execute.{is_injected}

-- The exceptions that the runner turns into an ERROR result.
abbrev pub is_handled : ExceptionClass → Bool
is_handled workload_cancelled = false
is_handled c = is_os_error c || is_value_error c || is_runtime_error c

module _ {F : Type 0} ⦃o : Floats F⦄ where
  -- The case returned, with the hint PASS and a correct workload, and met every requirement.
  abbrev pub HasPassed : TestDefinition F → Result (CaseExecution F) → Type 0
  HasPassed t outcome =
      (c : CaseExecution F) × (outcome ≡ ok c)
      × (c.status_hint ≡ pass)
      × (c.correct ≡ true)
      × All (IsMet (metric_values c.measurements)) t.requirements

  evaluate_all-IsMet :
      (rs : List (Requirement F)) (ms : Dict String (MetricValue F))
      → (all_pass (evaluate_all rs ms) ≡ true) ↔ All (IsMet (metric_values ms)) rs
  unfolding evaluate_all
  evaluate_all-IsMet rs ms = all_pass-IsMet rs (metric_values ms)

  evaluate_all-class :
      (rs : List (Requirement F)) (ms : Dict String (MetricValue F)) (e : Exception)
      → evaluate_all rs ms ≡ raised e
      → e.class ≡ evaluation_error
  unfolding evaluate_all
  evaluate_all-class rs ms e h = map_result-class rs (metric_values ms) e h

  -- A verdict exists for every case that returned, and its status is one of four.
  settle-status :
      (c : CaseExecution F) (summary : Option String)
      (outcome : Result (List (RequirementEvaluation F)))
      → ((e : Exception) → outcome ≡ raised e → e.class ≡ evaluation_error)
      → (v : Verdict F) × (settle c summary outcome ≡ ok v)
        × (v.status ≡ (
            if succeeds outcome
            then if c.correct && all_pass outcome then c.status_hint else fail
            else error))
  unfolding settle
  settle-status c summary (ok es) only = (decide_status c summary es, refl, ground arith)
  settle-status c summary (raised e) only = (
    record {
      status = error;
      measurements = c.measurements;
      evaluations = [];
      reason = some "requirement evaluation configuration is invalid";
      exception_summary = some (summarize e);
    },
    ground (arith, only e refl),
    refl,
  )

  -- The status that a returned case comes to.
  abbrev pub verdict_status : TestDefinition F → CaseExecution F → ResultStatus
  verdict_status t c =
      let outcome = evaluate_all t.requirements c.measurements in
      if c.status_hint == skip || c.status_hint == error
      then c.status_hint
      else if succeeds outcome
      then if c.correct && all_pass outcome then c.status_hint else fail
      else error

  assess-status :
      (t : TestDefinition F) (c : CaseExecution F) (summary : Option String)
      → (v : Verdict F) × (assess t c summary ≡ ok v) × (v.status ≡ verdict_status t c)
  unfolding assess
  assess-status t c summary =
      let outcome = evaluate_all t.requirements c.measurements in
      let settled =
        settle-status c summary outcome (evaluate_all-class t.requirements c.measurements) in
      elim (Bool-cases (c.status_hint == skip || c.status_hint == error)) [
        | inl final ↦ rw final (_, refl, refl)
        | inr open_hint ↦ rw open_hint settled
      ]

  -- The case with the reason that an injected fault gives it.
  abbrev labelled : TestDefinition F → CaseExecution F → CaseExecution F
  labelled t c =
      if is_injected t.fault_injection && not c.correct
      then record c {
        reason = some "opt-in injected checksum mismatch produced the expected failure";
      }
      else c

  labelled-status :
      (t : TestDefinition F) (c : CaseExecution F)
      → (verdict_status t (labelled t c) ≡ verdict_status t c)
  labelled-status t c = elim (Bool-cases (is_injected t.fault_injection && not c.correct)) [
    | inl e ↦ rw e
    | inr e ↦ rw e
  ]

  judge-returned :
      (t : TestDefinition F) (c : CaseExecution F)
      → (v : Verdict F) × (judge t (ok c) ≡ ok v) × (v.status ≡ verdict_status t c)
  unfolding judge
  judge-returned t c =
      let (v, e, s) = assess-status t (labelled t c) none in (v, e, s ∙ labelled-status t c)

  -- What becomes of an exception in a case.
  abbrev pub Handles : Exception → Result (Verdict F) → Type 0
  Handles e (ok v) =
      (is_handled e.class ≡ true)
      × (v.status ≡ error)
      × (v.evaluations ≡ [])
      × (v.measurements ≡ [])
      × (v.exception_summary ≢ none)
  Handles e (raised f) = (is_handled e.class ≡ false) × (f ≡ e)

  judge-raise :
      (t : TestDefinition F) (k : ExceptionClass) (message : String)
      → Handles (record { class = k; message = message }) (judge t (raise k message))
  unfolding judge
  judge-raise t workload_cancelled message = (refl, refl)
  judge-raise t workload_timeout message = (refl, refl, refl, refl, λ h. cc)
  judge-raise t k message = ground arith

  judge-raised : (t : TestDefinition F) (e : Exception) → Handles e (judge t (raised e))
  judge-raised t e = judge-raise t e.class e.message

  -- Every case gets a verdict but for a cancellation or an exception that is no OSError, ValueError
  -- or RuntimeError, which leave the test as they are. A case that raised is an ERROR with no
  -- evaluations, no measurements and a summary. A case that returned keeps a hint of SKIP or ERROR;
  -- else it is an ERROR if a requirement cannot be evaluated, a FAIL if the workload was incorrect
  -- or a requirement did not pass, and else its hint.
  pub judge_total :
      (t : TestDefinition F)
      → ((c : CaseExecution F)
          → (v : Verdict F) × (judge t (ok c) ≡ ok v) × (v.status ≡ verdict_status t c))
        × ((e : Exception) → Handles e (judge t (raised e)))
  judge_total t = (judge-returned t, judge-raised t)

  verdict_status-pass :
      (t : TestDefinition F) (c : CaseExecution F)
      → (verdict_status t c ≡ pass) ↔ (
          (c.status_hint ≡ pass)
          × (c.correct ≡ true)
          × (all_pass (evaluate_all t.requirements c.measurements) ≡ true))
  verdict_status-pass t c = ground arith

  -- A test that yields a result is a PASS exactly when its case returned with the hint PASS, the
  -- workload was correct, and every requirement of the test is met: its metric was measured and
  -- has the meaning that the operator asks for.
  pub judge-pass_iff :
      (t : TestDefinition F) (outcome : Result (CaseExecution F)) (v : Verdict F)
      → judge t outcome ≡ ok v
      → (v.status ≡ pass) ↔ HasPassed t outcome
  judge-pass_iff t (ok c) v h =
      let (u, e, s) = judge-returned t c in
      let same : v.status ≡ verdict_status t c =
        ap (λ (x : Verdict F). x.status) (ok_injective (sym h ∙ e)) ∙ s in
      (
        (λ p.
            let (hint, correct, all) = (verdict_status-pass t c).0 (sym same ∙ p) in
            (c, refl, hint, correct, (evaluate_all-IsMet t.requirements c.measurements).0 all)),
        (λ (c', returned, hint, correct, met).
            let (hint', correct', met') =
              subst Passing (sym (ok_injective returned)) (hint, correct, met) in
            same
            ∙ (verdict_status-pass t c).1
                (hint', correct', (evaluate_all-IsMet t.requirements c.measurements).1 met')),
      )
    where
      Passing : CaseExecution F → Type 0
      Passing c =
          (c.status_hint ≡ pass)
          × (c.correct ≡ true)
          × All (IsMet (metric_values c.measurements)) t.requirements
  judge-pass_iff t (raised e) v h =
      let handled = subst (Handles e) h (judge-raised t e) in
      ((λ p. cc (handled.1)), λ passed. cc (passed.1))

  verdict_status-skip :
      (t : TestDefinition F) (c : CaseExecution F)
      → verdict_status t c ≡ skip
      → c.status_hint ≡ skip
  verdict_status-skip t c h = ground arith

  -- The case returned with the hint SKIP.
  abbrev pub HasSkipped : Result (CaseExecution F) → Type 0
  HasSkipped outcome = (c : CaseExecution F) × (outcome ≡ ok c) × (c.status_hint ≡ skip)

  -- A verdict of SKIP is the hint of a case that returned.
  pub judge-skip :
      (t : TestDefinition F) (outcome : Result (CaseExecution F)) (v : Verdict F)
      → judge t outcome ≡ ok v
      → v.status ≡ skip
      → HasSkipped outcome
  judge-skip t (ok c) v h skipped =
      let (u, e, s) = judge-returned t c in
      let same : v.status ≡ verdict_status t c =
        ap (λ (x : Verdict F). x.status) (ok_injective (sym h ∙ e)) ∙ s in
      (c, refl, verdict_status-skip t c (sym same ∙ skipped))
  judge-skip t (raised e) v h skipped =
      let handled = subst (Handles e) h (judge-raised t e) in cc (handled.1)

  -- An injected checksum mismatch that makes the workload incorrect is a FAIL and labelled as the
  -- expected failure, as long as the requirements of the test can be evaluated.
  pub judge_injected :
      (t : TestDefinition F) (c : CaseExecution F) (v : Verdict F)
      → t.fault_injection ≡ some checksum_mismatch
      → c.correct ≡ false
      → c.status_hint ≡ pass
      → succeeds (evaluate_all t.requirements c.measurements) ≡ true
      → judge t (ok c) ≡ ok v
      → (v.status ≡ fail)
        × (v.reason ≡ some "opt-in injected checksum mismatch produced the expected failure")
  unfolding judge
  judge_injected t c v fault wrong hint evaluable h = ground arith
