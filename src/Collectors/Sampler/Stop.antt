-- ===== src/Collectors/Sampler/Stop.antt =====
-- The sampler's thread ends when it is told to (src/platval/collectors/sampler.py).
use pc_platform_validation_t.Base.{
  nat_eq, string_eq, option_eq, Result, ok, raised, ◌≡◌, refl, ◌∙◌, ◌≢◌, true, false, List, [], ◌∷◌,
  arith,
}
use pc_platform_validation_t.Base.Floats.{Floats}
use pc_platform_validation_t.Collectors.Sampler.{
  Thread, not_started, waiting, collecting, finished, Sampler, Readings, collect_sample,
  check_guard, append_sample, thread_step, request_stop, is_alive, thread_steps, stop,
}
use pc_platform_validation_t.Collectors.Sampler.Steps.{check_guard_stopped}
use pc_platform_validation_t.Models.Telemetry.{TelemetrySample}

module _ {F : Type 0} ⦃o : Floats F⦄ where
  -- What the thread does next, by where it is.
  next : Readings F → Sampler F → Thread → Sampler F
  next r s not_started = s
  next r s waiting = check_guard s
  next r s collecting = append_sample r (collect_sample r) s
  next r s finished = s

  next-eq : (r : Readings F) (s : Sampler F) → thread_step r s ≡ next r s s.thread
  unfolding thread_step next
  next-eq r s =
      elim s.thread
        as (λ t.
          elim t [
            | not_started ↦ s
            | waiting ↦ check_guard s
            | collecting ↦ append_sample r (collect_sample r) s
            | finished ↦ s
          ]
          ≡ next r s t) [
            | not_started ↦ refl
            | waiting ↦ refl
            | collecting ↦ refl
            | finished ↦ refl
          ]

  -- A thread that is not running stays so.
  done_stays :
      (r : Readings F) (s : Sampler F) → is_alive s ≡ false → is_alive (thread_step r s) ≡ false
  unfolding is_alive next
  done_stays r s h = rw (next-eq r s) (
      elim s.thread as (λ t. s.thread ≡ t → is_alive (next r s t) ≡ false) [
        | not_started ↦ λ e. h
        | waiting ↦ λ e. absurd (ground arith)
        | collecting ↦ λ e. absurd (ground arith)
        | finished ↦ λ e. h
      ]
        refl)

  append_sample-back :
      (r : Readings F) (x : Result (TelemetrySample F)) (s : Sampler F)
      → ((append_sample r x s).stop_event ≡ s.stop_event)
        × ((append_sample r x s).thread ≢ collecting)
  unfolding append_sample
  append_sample-back r (ok x) s = ground arith
  append_sample-back r (raised e) s = ground arith

  -- Told to stop, the thread is back at its guard or done after a step.
  first_step :
      (r : Readings F) (s : Sampler F)
      → s.stop_event ≡ true
      → ((thread_step r s).stop_event ≡ true) × ((thread_step r s).thread ≢ collecting)
  unfolding next
  first_step r s told = rw (next-eq r s) (
      elim s.thread
          as (λ t.
            s.thread ≡ t → ((next r s t).stop_event ≡ true) × ((next r s t).thread ≢ collecting)) [
              | not_started ↦ λ e. (told, λ c. ground arith)
              | waiting ↦ λ e. rw (check_guard_stopped s told) (told, λ c. ground arith)
              | collecting ↦ λ e.
                  let (kept, back) = append_sample-back r (collect_sample r) s in
                  (kept ∙ told, back)
              | finished ↦ λ e. (told, λ c. ground arith)
            ]
        refl)

  second_step :
      (r : Readings F) (s : Sampler F)
      → s.stop_event ≡ true
      → s.thread ≢ collecting
      → is_alive (thread_step r s) ≡ false
  unfolding is_alive next
  second_step r s told back = rw (next-eq r s) (
      elim s.thread as (λ t. s.thread ≡ t → is_alive (next r s t) ≡ false) [
        | not_started ↦ λ e. ground arith
        | waiting ↦ λ e. rw (check_guard_stopped s told) refl
        | collecting ↦ λ e. absurd (back e)
        | finished ↦ λ e. ground arith
      ]
        refl)

  thread_steps_done :
      (rs : List (Readings F)) (s : Sampler F)
      → is_alive s ≡ false
      → is_alive (thread_steps rs s) ≡ false
  unfolding thread_steps
  thread_steps_done [] s h = h
  thread_steps_done (r ∷ rs) s h = thread_steps_done rs (thread_step r s) (done_stays r s h)

  -- From any state, `stop` returns the samples if its wait lets the thread take two steps: at most
  -- the sample that is being collected, and the guard.
  pub stop_returns :
      (r₁ r₂ : Readings F) (rs : List (Readings F)) (s : Sampler F)
      → (stop (r₁ ∷ (r₂ ∷ rs)) s).0 ≡ ok (stop (r₁ ∷ (r₂ ∷ rs)) s).1.samples
  unfolding stop request_stop thread_steps
  stop_returns r₁ r₂ rs s =
      let told = request_stop s in
      let (kept, back) = first_step r₁ told refl in
      let first = thread_step r₁ told in
      let done = thread_steps_done rs (thread_step r₂ first) (second_step r₂ first kept back) in
      rw done refl
