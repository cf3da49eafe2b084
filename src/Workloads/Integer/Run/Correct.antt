-- ===== src/Workloads/Integer/Run/Correct.antt =====
-- What a completed integer workload says (src/platval/workloads/cpu.py).
use pc_platform_validation_t.Base.{
  nat_eq, string_eq, option_eq, ok, String, ◌≡◌, sym, ap, ◌∙◌, ◌≢◌, ◌↔◌, true, none, some, arith,
  ◌==◌, ==_iff, inl, inr, Option,
}
use pc_platform_validation_t.Base.Action.{◌>>=◌, pure, >>=-eq-ok, pure-eq-ok, lift, if_cases}
use pc_platform_validation_t.Base.Floats.{Floats}
use pc_platform_validation_t.Workloads.Host.{Digests, Host, Session, begin, ask}
use pc_platform_validation_t.Workloads.Output.{
  WorkloadResult, make_workload_result, make_workload_result-eq,
}
use pc_platform_validation_t.Workloads.Counts.{operation_counts}
use pc_platform_validation_t.Workloads.Config.{IntegerWorkloadConfig}
use pc_platform_validation_t.Workloads.Integer.{
  combine_worker_digests, submit, hash_workers, reference_checksum, run_pool,
}
use pc_platform_validation_t.Workloads.Integer.Pool.{worker_digests, run_pool-eq, hash_workers-eq}
use pc_platform_validation_t.Workloads.Integer.Run.{
  concurrent_checksum, integer_result, given_or_reference, require_limits, integer_body,
  run_integer_workload, run_and_compare,
}
use pc_platform_validation_t.Models.Results.{Timestamp}
use pc_platform_validation_t.Workloads.Safety.{SafetyPolicy}

-- No expected checksum is given.
abbrev pub IsAbsent : Option String → Type 0
IsAbsent none = Unit
IsAbsent (some s) = s ≡ ""

module _ (d : Digests) where
  -- The checksum that the configuration determines.
  abbrev pub checksum_of : IntegerWorkloadConfig → String
  checksum_of config = combine_worker_digests d (
      worker_digests d config.block_size_bytes 0
        (operation_counts config.operations config.workers))

  module _ {F : Type 0} ⦃o : Floats F⦄ where
    -- The checksum is that of the configuration, and it is correct as the expected one demands.
    abbrev pub IsVerified : IntegerWorkloadConfig → WorkloadResult F → Type 0
    IsVerified config r =
        (r.checksum ≡ some (checksum_of config))
        × (IsAbsent config.expected_checksum → r.correct ≡ true)
        × ((e : String)
            → config.expected_checksum ≡ some e
            → e ≢ ""
            → (r.correct ≡ true) ↔ (checksum_of config ≡ e))

    module _ {W : Type 0} (host : Host F W) (deadline : F) where
      reference_checksum-eq :
          (config : IntegerWorkloadConfig) (s : Session W) {c : String} {s' : Session W}
          → reference_checksum host d deadline config s ≡ (ok c, s')
          → c ≡ checksum_of config
      unfolding reference_checksum
      reference_checksum-eq config s h =
          let counts = operation_counts config.operations config.workers in
          let (bs, s₁, e, h₁) =
            >>=-eq-ok (hash_workers host d deadline config.block_size_bytes 0 counts)
              (λ bs. pure (combine_worker_digests d bs)) s h in
          sym (pure-eq-ok (combine_worker_digests d bs) s₁ h₁)
          ∙ ap (combine_worker_digests d)
              (hash_workers-eq d host deadline config.block_size_bytes 0 counts s e)

      concurrent_checksum-eq :
          (config : IntegerWorkloadConfig) (s : Session W) {c : String} {s' : Session W}
          → concurrent_checksum host d deadline config s ≡ (ok c, s')
          → c ≡ checksum_of config
      unfolding concurrent_checksum
      concurrent_checksum-eq config (w, t) h =
          let counts = operation_counts config.operations config.workers in
          let (schedule, w₁) = host.schedule w in
          let (bs, s₁, e, h₁) =
            >>=-eq-ok
              (run_pool host d deadline schedule (submit d config.block_size_bytes 0 counts))
              (λ bs. pure (combine_worker_digests d bs)) (w₁, t) h in
          sym (pure-eq-ok (combine_worker_digests d bs) s₁ h₁)
          ∙ ap (combine_worker_digests d)
              (run_pool-eq d host deadline schedule config.block_size_bytes counts (w₁, t) e)

      Means : IntegerWorkloadConfig → Option String → String → Type 0
      Means config given c =
          (IsAbsent given → c ≡ checksum_of config)
          × ((e : String) → given ≡ some e → e ≢ "" → c ≡ e)

      given_or_reference-Means :
          (config : IntegerWorkloadConfig) (given : Option String) (s : Session W) {c : String}
          {s' : Session W}
          → given_or_reference host d deadline config given s ≡ (ok c, s')
          → Means config given c
      unfolding Means
      given_or_reference-Means config none s h =
          ((λ _. reference_checksum-eq config s h), (λ e n. cc n))
      given_or_reference-Means config (some e) s h =
          let cases = if_cases (e == "") (reference_checksum host d deadline config) (pure e) s h in
          (
            (λ empty. elim cases [
              | inl (_, h') ↦ reference_checksum-eq config s h'
              | inr (full, _) ↦ absurd (ground (arith, ==_iff e ""))
            ]),
            (λ e' n ne. elim cases [
              | inl (empty, _) ↦ absurd (ne (ground (arith, ==_iff e "")))
              | inr (_, h') ↦ sym (pure-eq-ok e s h') ∙ ground arith
            ]),
          )

    module _ {W : Type 0} (host : Host F W) where
      -- What the workers and the comparison return, with any expected checksum.
      Compares : IntegerWorkloadConfig → String → WorkloadResult F → Type 0
      Compares config expected r =
          (r.checksum ≡ some (checksum_of config)) × (r.correct ≡ (checksum_of config == expected))

      run_and_compare-Compares :
          (config : IntegerWorkloadConfig) (deadline : F) (clocks : Timestamp × F)
          (expected : String) (s : Session W) {r : WorkloadResult F} {s' : Session W}
          → run_and_compare host d config (deadline, clocks) expected s ≡ (ok r, s')
          → Compares config expected r
      unfolding run_and_compare Compares integer_result
      run_and_compare-Compares config deadline (started_at, total_start) expected (w, t) {r} h =
          let (start, w₁) = host.perf_counter w in
          let (checksum, s₂, e₂, h₂) =
            >>=-eq-ok (concurrent_checksum host d deadline config)
              (λ checksum. do
                end ← ask host.perf_counter
                ended_at ← ask host.utc_now
                total_end ← ask host.perf_counter
                lift (
                    make_workload_result (
                      integer_result config expected checksum (record {
                        started_at = started_at;
                        ended_at = ended_at;
                        duration = o.sub total_end total_start;
                        measured_seconds = o.sub end start;
                      }))))
              (w₁, t) h in
          let same = concurrent_checksum-eq host deadline config (w₁, t) e₂ in
          let built = make_workload_result-eq _ r (ap (λ p. p.0) h₂) in
          (
            ap (λ r. r.checksum) built ∙ ap some same,
            ap (λ r. r.correct) built ∙ ap (λ c. c == expected) same,
          )

      body-IsVerified :
          (config : IntegerWorkloadConfig) (deadline : F) (clocks : Timestamp × F) (s : Session W)
          {r : WorkloadResult F} {s' : Session W}
          → integer_body host d config (deadline, clocks) s ≡ (ok r, s')
          → IsVerified config r
      unfolding integer_body Means Compares
      body-IsVerified config deadline clocks s {r} h =
          let given = given_or_reference host d deadline config config.expected_checksum in
          let (expected, s₁, e₁, h₁) =
            >>=-eq-ok given (run_and_compare host d config (deadline, clocks)) s h in
          let (same, correct) = run_and_compare-Compares config deadline clocks expected s₁ h₁ in
          let (absent, present) =
            given_or_reference-Means host deadline config config.expected_checksum s e₁ in
          let sum = checksum_of config in
          (
            same,
            (λ n. correct ∙ (==_iff sum expected).1 (sym (absent n))),
            (λ e n ne.
                let given_sum = present e n ne in
                (
                  (λ right. (==_iff sum expected).0 (sym correct ∙ right) ∙ given_sum),
                  (λ equal. correct ∙ (==_iff sum expected).1 (equal ∙ sym given_sum)),
                )),
          )

      -- A run of the integer workload that returns has the checksum that its configuration determines,
      -- whatever the order of its workers. Without an expected checksum it is correct; with one, it is
      -- correct exactly when the two are the same.
      pub run_integer_workload-IsVerified :
          (config : IntegerWorkloadConfig) (timeout_seconds : F) (policy : SafetyPolicy F)
          (s : Session W) {r : WorkloadResult F} {s' : Session W}
          → run_integer_workload host d config timeout_seconds policy s ≡ (ok r, s')
          → IsVerified config r
      unfolding run_integer_workload
      run_integer_workload-IsVerified config timeout_seconds policy s h =
          let limits = require_limits config timeout_seconds policy in
          let body = integer_body host d config in
          let (_, s₁, _, h₁) =
            >>=-eq-ok (lift limits) (λ _. begin host timeout_seconds >>= body) s h in
          let (clocks, s₂, _, h₂) = >>=-eq-ok (begin host timeout_seconds) body s₁ h₁ in
          body-IsVerified config (clocks.0) (clocks.1) s₂ h₂
