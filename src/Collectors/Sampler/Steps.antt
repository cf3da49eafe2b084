-- ===== src/Collectors/Sampler/Steps.antt =====
-- What the telemetry sampler does over any interleaving of its thread with its caller
-- (src/platval/collectors/sampler.py).
use mathlib.Core.Path.{subst}
use pc_platform_validation_t.Base.{
  nat_eq, string_eq, option_eq, length, ok, ℕ, ◌≤◌, ◌<◌, ◌≡◌, arith, length-append, Result, raised,
  refl, [], ◌∷◌, zero, suc, ◌+◌, sym, true, false,
}
use pc_platform_validation_t.Base.Floats.{Floats}
use pc_platform_validation_t.Collectors.Sampler.{
  not_started, waiting, collecting, Sampler, Readings, start, check_guard, append_sample,
  thread_step, request_stop, Thread, finished, collect_sample, error_sample, make_sampler,
}
use pc_platform_validation_t.Models.Telemetry.{TelemetrySample}
use pc_platform_validation_t.Base.Int.{pos}

module _ {F : Type 0} ⦃o : Floats F⦄ where
  -- A step of the caller or of the thread.
  pub data Step : Sampler F → Sampler F → Type 0 where
    starts : {s s' : Sampler F} → start s ≡ ok s' → Step s s'
    goes_on : {s : Sampler F} (r : Readings F) → Step s (thread_step r s)
    stops : {s : Sampler F} → Step s (request_stop s)

  pub data Reaches : Sampler F → Sampler F → Type 0 where
    here : {s : Sampler F} → Reaches s s
    step : {s s' s'' : Sampler F} → Step s s' → Reaches s' s'' → Reaches s s''

  -- There is room for the sample that is being collected.
  abbrev pub IsBounded : ℕ → Sampler F → Type 0
  IsBounded n s =
      (s.max_samples ≡ n) × (length s.samples ≤ n) × (s.thread ≡ collecting → length s.samples < n)

  start-eq :
      (s s' : Sampler F)
      → start s ≡ ok s'
      → (s.thread ≡ not_started) × (s' ≡ record s { thread = waiting })
  unfolding start
  start-eq s s' h = ground arith

  check_guard-IsBounded : (n : ℕ) (s : Sampler F) → IsBounded n s → IsBounded n (check_guard s)
  unfolding check_guard
  check_guard-IsBounded n s h = ground arith

  append_sample-IsBounded :
      (n : ℕ) (r : Readings F) (x : Result (TelemetrySample F)) (s : Sampler F)
      → length s.samples < n
      → IsBounded n s
      → IsBounded n (append_sample r x s)
  unfolding append_sample
  append_sample-IsBounded n r (ok x) s room (m, l, c) =
      (m, omega (arith, length-append s.samples (x ∷ [])), λ h. ground arith)
  append_sample-IsBounded n r (raised e) s room (m, l, c) =
      let x = error_sample r.elapsed_at_error r.timestamp_at_error (r.type_name e) in
      ground (arith, length-append s.samples (x ∷ []))

  thread_step-IsBounded :
      (n : ℕ) (r : Readings F) (s : Sampler F) → IsBounded n s → IsBounded n (thread_step r s)
  unfolding thread_step
  thread_step-IsBounded n r s h =
      let next : Thread → Sampler F = λ t. elim t [
        | not_started ↦ s
        | waiting ↦ check_guard s
        | collecting ↦ append_sample r (collect_sample r) s
        | finished ↦ s
      ] in
      elim s.thread as (λ t. s.thread ≡ t → IsBounded n (next t)) [
        | not_started ↦ λ e. h
        | waiting ↦ λ e. check_guard-IsBounded n s h
        | collecting ↦ λ e. append_sample-IsBounded n r (collect_sample r) s (h.2 e) h
        | finished ↦ λ e. h
      ]
        refl

  Step-IsBounded : (n : ℕ) {s s' : Sampler F} → Step s s' → IsBounded n s → IsBounded n s'
  unfolding request_stop
  Step-IsBounded n {s} {s'} (starts h) (m, l, c) =
      let same = (start-eq s s' h).1 in subst (IsBounded n) (sym same) (m, l, λ e. ground arith)
  Step-IsBounded n {s} (goes_on r) b = thread_step-IsBounded n r s b
  Step-IsBounded n stops b = b

  Reaches-IsBounded : (n : ℕ) {s s' : Sampler F} → Reaches s s' → IsBounded n s → IsBounded n s'
  Reaches-IsBounded n here b = b
  Reaches-IsBounded n (step x xs) b = Reaches-IsBounded n xs (Step-IsBounded n x b)

  -- However its thread and its caller take turns, a sampler that was made for `n` samples never has
  -- more of them.
  pub sampler_bounded :
      (interval : F) (n : ℕ) {s s' : Sampler F}
      → make_sampler interval (pos n) ≡ ok s
      → Reaches s s'
      → length s'.samples ≤ n
  unfolding make_sampler
  sampler_bounded interval zero h reaches = absurd (ground arith)
  sampler_bounded interval (suc n) {s} h reaches =
      let fresh : Sampler F = record {
        interval = interval;
        max_samples = suc n;
        stop_event = false;
        samples = [];
        thread = not_started;
      } in
      let made : s ≡ fresh = ground arith in
      let bounded : IsBounded (suc n) fresh = (refl, omega arith, λ e. ground arith) in
      (Reaches-IsBounded (suc n) reaches (subst (IsBounded (suc n)) (sym made) bounded)).1

  -- Told to stop, with room for at most the sample that is being collected.
  abbrev IsStopping : ℕ → Sampler F → Type 0
  IsStopping n s =
      (s.stop_event ≡ true)
      × (length s.samples ≤ n)
      × (s.thread ≡ collecting → length s.samples < n)

  append_sample-IsStopping :
      (n : ℕ) (r : Readings F) (x : Result (TelemetrySample F)) (s : Sampler F)
      → length s.samples < n
      → IsStopping n s
      → IsStopping n (append_sample r x s)
  unfolding append_sample
  append_sample-IsStopping n r (ok x) s room (m, l, c) =
      (m, omega (arith, length-append s.samples (x ∷ [])), λ h. ground arith)
  append_sample-IsStopping n r (raised e) s room (m, l, c) =
      let x = error_sample r.elapsed_at_error r.timestamp_at_error (r.type_name e) in
      ground (arith, length-append s.samples (x ∷ []))

  pub check_guard_stopped :
      (s : Sampler F) → s.stop_event ≡ true → check_guard s ≡ record s { thread = finished }
  unfolding check_guard
  check_guard_stopped s h = ground arith

  thread_step-IsStopping :
      (n : ℕ) (r : Readings F) (s : Sampler F) → IsStopping n s → IsStopping n (thread_step r s)
  unfolding thread_step
  thread_step-IsStopping n r s h =
      let next : Thread → Sampler F = λ t. elim t [
        | not_started ↦ s
        | waiting ↦ check_guard s
        | collecting ↦ append_sample r (collect_sample r) s
        | finished ↦ s
      ] in
      elim s.thread as (λ t. s.thread ≡ t → IsStopping n (next t)) [
        | not_started ↦ λ e. h
        | waiting ↦ λ e.
            subst (IsStopping n) (sym (check_guard_stopped s h.0)) (h.0, h.1, λ e'. ground arith)
        | collecting ↦ λ e. append_sample-IsStopping n r (collect_sample r) s (h.2 e) h
        | finished ↦ λ e. h
      ]
        refl

  Reaches-IsStopping : (n : ℕ) {s s' : Sampler F} → Reaches s s' → IsStopping n s → IsStopping n s'
  unfolding request_stop
  Reaches-IsStopping n here h = h
  Reaches-IsStopping n {s} (step (starts {s' = s'} e) xs) (m, l, c) =
      Reaches-IsStopping n xs
        (subst (IsStopping n) (sym (start-eq s s' e).1) (m, l, λ e'. ground arith))
  Reaches-IsStopping n {s} (step (goes_on r) xs) h =
      Reaches-IsStopping n xs (thread_step-IsStopping n r s h)
  Reaches-IsStopping n (step stops xs) (m, l, c) = Reaches-IsStopping n xs (refl, l, c)

  -- Once it is told to stop, a sampler takes at most one more sample, whatever happens then.
  pub stopped_takes_one :
      (s : Sampler F) {s' : Sampler F}
      → s.stop_event ≡ true
      → Reaches s s'
      → length s'.samples ≤ length s.samples + 1
  stopped_takes_one s told reaches =
      (Reaches-IsStopping (length s.samples + 1) reaches (told, omega arith, λ e. omega arith)).1
