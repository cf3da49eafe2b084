-- ===== src/Workloads/Stability/Correct.antt =====
-- The stability workload is as correct as its first run (src/platval/workloads/cpu.py).
use mathlib.Core.Path.{subst}
use pc_platform_validation_t.Base.{
  ◌==◌, ==_iff, nat_eq, string_eq, option_eq, Result, ok, ℕ, zero, suc, ◌<◌, ◌≡◌, refl, sym, ap,
  ◌∙◌, true, false, ◌&&◌, some, List, [], ◌∷◌, ◌++◌, arith, map,
}
use pc_platform_validation_t.Base.Action.{Action, ◌>>=◌, pure, lift, >>=-eq-ok, pure-eq-ok}
use pc_platform_validation_t.Base.Floats.{Floats}
use pc_platform_validation_t.Workloads.Host.{Digests, Host, Session, ask}
use pc_platform_validation_t.Workloads.Config.{IntegerWorkloadConfig, StabilityWorkloadConfig}
use pc_platform_validation_t.Workloads.Safety.{SafetyPolicy, require_timeout}
use pc_platform_validation_t.Workloads.Output.{
  WorkloadResult, make_workload_result, make_workload_result-eq,
}
use pc_platform_validation_t.Workloads.Stability.{
  Repeated, measured_duration, remaining, repeat_once, repeat_workload, run_stability_workload,
  stability_result, summarize_runs,
}
use pc_platform_validation_t.Workloads.Integer.Run.{run_integer_workload}
use pc_platform_validation_t.Workloads.Integer.Run.Correct.{
  checksum_of, IsVerified, run_integer_workload-IsVerified,
}
use pc_platform_validation_t.Models.Results.{Timestamp}

module _ {F W : Type 0} ⦃o : Floats F⦄ (host : Host F W) (d : Digests) where
  again :
      (config : IntegerWorkloadConfig) (r : WorkloadResult F)
      → IsVerified d (record config { expected_checksum = some (checksum_of d config) }) r
      → r.correct ≡ true
  again config r (same, absent, present) =
      let sum = checksum_of d config in
      elim (sum == "") as (λ b. (sum == "") ≡ b → r.correct ≡ true) [
        | true ↦ λ e. absent ((==_iff sum "").0 e)
        | false ↦ λ e. (present sum refl (λ n. ground (arith, ==_iff sum ""))).1 refl
      ]
        refl

  -- A run of the loop, in terms of its integer workload.
  repeat_once-eq :
      (config : IntegerWorkloadConfig) (policy : SafetyPolicy F) (deadline : F) (x : Repeated F)
      (s : Session W) {y : Repeated F} {s' : Session W}
      → repeat_once host d config policy deadline x s ≡ (ok y, s')
      → (r : WorkloadResult F) × IsVerified d
          (record config { expected_checksum = x.expected_checksum })
          r
        × (y.expected_checksum ≡ r.checksum)
        × (y.correct ≡ (x.correct && r.correct))
  unfolding repeat_once
  repeat_once-eq config policy deadline x s {y} h =
      let current = record config { expected_checksum = x.expected_checksum } in
      let next : WorkloadResult F → F → Repeated F = λ r duration. record {
        expected_checksum = r.checksum;
        correct = x.correct && r.correct;
        durations = x.durations ++ (duration ∷ []);
      } in
      let finish : WorkloadResult F → Action (Session W) (Repeated F) =
        λ r. lift (measured_duration r) >>= λ duration. pure (next r duration) in
      let run : F → Action (Session W) (WorkloadResult F) =
        λ left. run_integer_workload host d current left policy in
      let (left, s₁, _, h₁) =
        >>=-eq-ok (remaining host deadline) (λ left. run left >>= finish) s h in
      let (r, s₂, e₂, h₂) = >>=-eq-ok (run left) finish s₁ h₁ in
      let (duration, s₃, _, h₃) =
        >>=-eq-ok (lift (measured_duration r)) (λ duration. pure (next r duration)) s₂ h₂ in
      let same = sym (pure-eq-ok (next r duration) s₃ h₃) in
      (
        r,
        run_integer_workload-IsVerified d host current left policy s₁ e₂,
        ap (λ y. y.expected_checksum) same,
        ap (λ y. y.correct) same,
      )

  -- Once the checksum is the expected one, it stays, and nothing becomes incorrect.
  repeat_workload-settled :
      (config : IntegerWorkloadConfig) (policy : SafetyPolicy F) (deadline : F) (n : ℕ)
      (x : Repeated F) (s : Session W) {y : Repeated F} {s' : Session W}
      → x.expected_checksum ≡ some (checksum_of d config)
      → repeat_workload host d config policy deadline n x s ≡ (ok y, s')
      → (y.expected_checksum ≡ some (checksum_of d config)) × (y.correct ≡ x.correct)
  unfolding repeat_workload
  repeat_workload-settled config policy deadline zero x s settled h =
      let same = sym (pure-eq-ok x s h) in
      (ap (λ y. y.expected_checksum) same ∙ settled, ap (λ y. y.correct) same)
  repeat_workload-settled config policy deadline (suc n) x s settled h =
      let once = repeat_once host d config policy deadline x in
      let rest = repeat_workload host d config policy deadline n in
      let (x', s₁, e₁, h₁) = >>=-eq-ok once rest s h in
      let (r, verified, checksum, correct) = repeat_once-eq config policy deadline x s e₁ in
      let (kept, unchanged) =
        repeat_workload-settled config policy deadline n x' s₁ (checksum ∙ verified.0) h₁ in
      let right =
        again config r (
          subst (λ e. IsVerified d (record config { expected_checksum = e }) r) settled verified) in
      (kept, unchanged ∙ correct ∙ ground arith)

  -- The loop is as correct as the integer workload that it runs first.
  repeat_workload-first :
      (config : IntegerWorkloadConfig) (policy : SafetyPolicy F) (deadline : F) (n : ℕ)
      (s : Session W) {y : Repeated F} {s' : Session W}
      → 0 < n
      → repeat_workload host d config policy deadline n
          (record { expected_checksum = config.expected_checksum; correct = true; durations = [] })
          s
        ≡ (ok y, s')
      → (r : WorkloadResult F) × IsVerified d config r
        × (y.expected_checksum ≡ r.checksum)
        × (y.correct ≡ r.correct)
  unfolding repeat_workload
  repeat_workload-first config policy deadline zero s positive h = absurd (omega arith)
  repeat_workload-first config policy deadline (suc n) s positive h =
      let x : Repeated F = record {
        expected_checksum = config.expected_checksum;
        correct = true;
        durations = [];
      } in
      let once = repeat_once host d config policy deadline x in
      let rest = repeat_workload host d config policy deadline n in
      let (x', s₁, e₁, h₁) = >>=-eq-ok once rest s h in
      let (r, verified, checksum, correct) = repeat_once-eq config policy deadline x s e₁ in
      let (kept, unchanged) =
        repeat_workload-settled config policy deadline n x' s₁ (checksum ∙ verified.0) h₁ in
      (r, verified, kept ∙ sym verified.0, unchanged ∙ correct)

  summarize_runs-eq :
      (median : List F → Result F) (config : StabilityWorkloadConfig) (clocks : Timestamp × F)
      (y : Repeated F) (s : Session W) {r : WorkloadResult F} {s' : Session W}
      → summarize_runs host median config clocks y s ≡ (ok r, s')
      → (r.checksum ≡ y.expected_checksum) × (r.correct ≡ y.correct)
  unfolding summarize_runs stability_result
  summarize_runs-eq median config (started_at, started) y s {r} h =
      let finish : F → F → Action (Session W) (WorkloadResult F) = λ middle mad.
        ask host.utc_now >>= λ ended_at. ask host.perf_counter >>= λ ended. lift (
          make_workload_result (
            stability_result config y middle mad (record {
              started_at = started_at;
              ended_at = ended_at;
              duration = o.sub ended started;
              measured_seconds = o.sub ended started;
            }))) in
      let deviation : F → Result F =
        λ middle. median (map (λ value. o.abs (o.sub value middle)) y.durations) in
      let (middle, s₁, _, h₁) =
        >>=-eq-ok (lift (median y.durations)) (λ middle. lift (deviation middle) >>= finish middle)
          s h in
      let (mad, s₂, _, h₂) = >>=-eq-ok (lift (deviation middle)) (finish middle) s₁ h₁ in
      let same = make_workload_result-eq _ r (ap (λ z. z.0) h₂) in
      (ap (λ r. r.checksum) same, ap (λ r. r.correct) same)

  transfer :
      (config : IntegerWorkloadConfig) (r r' : WorkloadResult F)
      → r'.checksum ≡ r.checksum
      → r'.correct ≡ r.correct
      → IsVerified d config r
      → IsVerified d config r'
  transfer config r r' checksum correct (same, absent, present) = (
    checksum ∙ same,
    (λ n. correct ∙ absent n),
    (λ e n ne.
        let (to, from) = present e n ne in
        ((λ right. to (sym correct ∙ right)), (λ equal. correct ∙ from equal))),
  )

  -- A run of the stability workload that returns has the checksum of its integer configuration, and
  -- its correctness is that of one integer workload: the later repetitions, which expect the
  -- checksum of the one before, agree. There is at least one repetition.
  pub run_stability_workload-IsVerified :
      (median : List F → Result F) (config : StabilityWorkloadConfig) (timeout_seconds : F)
      (policy : SafetyPolicy F) (s : Session W) {r : WorkloadResult F} {s' : Session W}
      → 0 < config.repetitions
      → run_stability_workload host d median config timeout_seconds policy s ≡ (ok r, s')
      → IsVerified d config.integer r
  unfolding run_stability_workload
  run_stability_workload-IsVerified median config timeout_seconds policy s {r} some_repetition h =
      let loop : F → Action (Session W) (Repeated F) = λ now.
        repeat_workload host d config.integer policy (o.add now timeout_seconds) config.repetitions
          (record {
            expected_checksum = config.integer.expected_checksum;
            correct = true;
            durations = [];
          }) in
      let summarize : Timestamp × F → Repeated F → Action (Session W) (WorkloadResult F) =
        summarize_runs host median config in
      let start : Action (Session W) (WorkloadResult F) = ask host.monotonic >>= λ now.
      ask host.utc_now >>= λ started_at.
      ask host.perf_counter >>= λ started. loop now >>= summarize (started_at, started) in
      let (_, s₁, _, h₁) =
        >>=-eq-ok (lift (require_timeout policy timeout_seconds)) (λ _. start) s h in
      let (now, w₁) = host.monotonic s₁.0 in
      let (started_at, w₂) = host.utc_now w₁ in
      let (started, w₃) = host.perf_counter w₂ in
      let (y, s₂, e₂, h₂) = >>=-eq-ok (loop now) (summarize (started_at, started)) (w₃, s₁.1) h₁ in
      let (first, verified, checksum, correct) =
        repeat_workload-first config.integer policy (o.add now timeout_seconds) config.repetitions
          (w₃, s₁.1) some_repetition e₂ in
      let (same_checksum, same_correct) =
        summarize_runs-eq median config (started_at, started) y s₂ h₂ in
      transfer config.integer first r (same_checksum ∙ checksum) (same_correct ∙ correct) verified
