-- ===== src/NativeProbe/Outcome.antt =====
-- What an outcome of the native probe says (src/platval/inventory/native_probe.py).
use pc_platform_validation_t.Base
-- It is available with valid data of the supported schema and no limitation, or it has a limitation
-- and no data.
use pc_platform_validation_t.Base.{
  nat_eq, string_eq, option_eq, ℕ, zero, suc, ◌≤◌, String, ◌≡◌, ◌≢◌, ◌⊎◌, true, false, none, some,
  arith, if◌then◌else◌, ok, Option, [], ltb, is_value_error, is_os_error, Result, raised, refl, ap,
  ◌∙◌, inl, inr, Bool, not,
}
use pc_platform_validation_t.Base.Int.{pos, beq_ℤ_iff, beq_ℤ}
use pc_platform_validation_t.Models.Plan.{text_length}
use pc_platform_validation_t.NativeProbe.{
  available, NativeProbeData, NativeProbeOutcome, fields_are_valid, join_words, take_text,
  summarize_stderr, schema_is_compatible, validate_probe_data, ProbeHost, read_probe_data,
  NativeProbeStatus, incompatible, error, Completion, completed, timeout_expired, failed, failure,
  probe_outcome, judge_completion, missing, missing_outcome, run_probe, invoke_native_probe,
}
use pc_platform_validation_t.Base.Action.{Action, pure}

abbrev pub IsOutcome : NativeProbeOutcome → Type 0
IsOutcome x =
    ((x.status ≡ available)
      × (x.limitation ≡ none)
      × ((p : NativeProbeData) × (x.data_of ≡ some p)
          × (fields_are_valid p ≡ true)
          × (p.schema_version ≡ pos 1)))
    ⊎ ((x.status ≢ available) × (x.limitation ≢ none) × (x.data_of ≡ none))

abbrev pub IsShort : NativeProbeOutcome → Type 0
IsShort x = (s : String) → x.stderr_summary ≡ some s → text_length s ≤ 500

text_length-take_text : (n : ℕ) (s : String) → text_length (take_text n s) ≤ n
unfolding text_length take_text
text_length-take_text zero s = omega arith
text_length-take_text (suc n) String.[] = omega arith
text_length-take_text (suc n) (String.◌∷◌ c s) = omega (arith, text_length-take_text n s)

summarize_stderr-short :
    (stderr s : String) → summarize_stderr stderr ≡ some s → text_length s ≤ 500
unfolding summarize_stderr
summarize_stderr-short stderr s h =
    ground (arith, text_length-take_text 500 (join_words false false stderr))

validate_probe_data-eq :
    (p q : NativeProbeData)
    → validate_probe_data p ≡ ok q
    → (q ≡ p) × (fields_are_valid p ≡ true) × (p.schema_version ≡ pos 1)
unfolding validate_probe_data schema_is_compatible
validate_probe_data-eq p q h = ground (arith, beq_ℤ_iff p.schema_version (pos 1))

loaded :
    (r : Result NativeProbeData) (p : NativeProbeData)
    → Base.◌>>=◌ r validate_probe_data ≡ ok p
    → (fields_are_valid p ≡ true) × (p.schema_version ≡ pos 1)
loaded (ok q) p h =
    let (same, fields, schema) = validate_probe_data-eq q p h in
    (ap fields_are_valid same ∙ fields, ap (λ p. p.schema_version) same ∙ schema)
loaded (raised e) p h = ground arith

-- The outcome of a call that returned: sound, and with a short summary of stderr.
abbrev pub IsSound : Result NativeProbeOutcome → Type 0
IsSound (ok x) = IsOutcome x × IsShort x
IsSound (raised e) = Unit

failure-IsSound :
    (status : NativeProbeStatus) (limitation : String) (summary : Option String)
    → status ≢ available
    → ((s : String) → summary ≡ some s → text_length s ≤ 500)
    → IsSound (ok (failure status limitation summary))
failure-IsSound status limitation summary n short = (inr (n, (λ h. ground arith), refl), short)

if-IsSound :
    (b : Bool) (r r' : Result NativeProbeOutcome)
    → IsSound r
    → IsSound r'
    → IsSound (if b then r else r')
if-IsSound true r r' s s' = s
if-IsSound false r r' s s' = s'

module _ {F W : Type 0} (host : ProbeHost F W) where
  probe_outcome-IsSound :
      (summary : Option String) (r : Result NativeProbeData)
      → ((s : String) → summary ≡ some s → text_length s ≤ 500)
      → ((p : NativeProbeData)
          → r ≡ ok p
          → (fields_are_valid p ≡ true) × (p.schema_version ≡ pos 1))
      → IsSound (probe_outcome host summary r)
  unfolding probe_outcome
  probe_outcome-IsSound summary (ok p) short valid =
      let (fields, schema) = valid p refl in (inl (refl, refl, (p, refl, fields, schema)), short)
  probe_outcome-IsSound summary (raised e) short valid =
      if-IsSound (is_value_error e.class) _ (raised e)
        (failure-IsSound incompatible _ summary (λ h. ground arith) short) tt

  read_probe_data-IsSound :
      (stdout : String) (summary : Option String)
      → ((s : String) → summary ≡ some s → text_length s ≤ 500)
      → IsSound (read_probe_data host stdout summary)
  unfolding read_probe_data
  read_probe_data-IsSound stdout summary short =
      probe_outcome-IsSound summary _ short (loaded (host.load_document stdout))

  judge_completion-IsSound :
      (timeout_seconds : F) (c : Completion) → IsSound (judge_completion host timeout_seconds c)
  unfolding judge_completion
  judge_completion-IsSound timeout_seconds timeout_expired =
      failure-IsSound error _ none (λ h. ground arith) (λ s h. ground arith)
  judge_completion-IsSound timeout_seconds (failed e) =
      if-IsSound (is_os_error e.class) _ (raised e)
        (failure-IsSound error _ none (λ h. ground arith) (λ s h. ground arith)) tt
  judge_completion-IsSound timeout_seconds (completed returncode stdout stderr) =
      let summary = summarize_stderr stderr in
      let short = summarize_stderr-short stderr in
      let failed_outcome = λ (limitation : String).
        failure-IsSound error limitation summary (λ h. ground arith) short in
      if-IsSound (not (beq_ℤ returncode (pos 0))) _ _ (failed_outcome _) (
        if-IsSound (ltb 1_048_576 (host.utf8_length stdout)) _ _ (failed_outcome _)
          (read_probe_data-IsSound stdout summary short))

  -- An invocation of the native probe that returns has data exactly when it is available, and they
  -- are then within their bounds and of schema 1; every other outcome has a limitation to show. Its
  -- summary of stderr has at most 500 characters.
  pub invoke_native_probe-IsSound :
      (executable : Option String) (timeout_seconds : F) (w : W)
      → IsSound (invoke_native_probe host executable timeout_seconds w).0
  unfolding invoke_native_probe run_probe missing_outcome
  invoke_native_probe-IsSound none timeout_seconds w =
      failure-IsSound missing _ none (λ h. ground arith) (λ s h. ground arith)
  invoke_native_probe-IsSound (some executable) timeout_seconds w =
      let (there, w') = host.is_file executable w in
      let (completion, _) = host.run executable timeout_seconds w' in
      let invoked : Bool → Action W NativeProbeOutcome =
        λ b. if b then run_probe host executable timeout_seconds else pure missing_outcome in
      elim there as (λ b. IsSound (invoked b w').0) [
        | true ↦ judge_completion-IsSound timeout_seconds completion
        | false ↦ failure-IsSound missing _ none (λ h. ground arith) (λ s h. ground arith)
      ]
