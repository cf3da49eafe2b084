-- ===== src/Workloads/Control/Laws.antt =====
-- Who sees a cancellation, and what a deadline leaves behind.
use pc_platform_validation_t.Base.{
  nat_eq, string_eq, option_eq, workload_cancelled, workload_timeout, ok, raise, ◌≡◌, refl, ◌↔◌,
  Bool, true, false, Option, none, some, arith,
}
use pc_platform_validation_t.Base.Floats.{Floats, float_le}
use pc_platform_validation_t.Workloads.Control.{
  CancellationToken, root, child, cancel, cancelled, WorkloadContext, checkpoint,
}

abbrev pub parent : CancellationToken → Option CancellationToken
parent (root set) = none
parent (child set p) = some p

-- Cancelling a token cancels it and its children, and leaves its parent alone.
pub cancelled-cancel :
    (t : CancellationToken)
    → (cancelled (cancel t) ≡ true)
      × (parent (cancel t) ≡ parent t)
      × ((set : Bool) → cancelled (child set (cancel t)) ≡ true)
unfolding cancel cancelled
cancelled-cancel (root set) = (refl, refl, λ s. ground arith)
cancelled-cancel (child set p) = (refl, refl, λ s. ground arith)

module _ {F : Type 0} ⦃o : Floats F⦄ where
  -- A checkpoint returns exactly when the token is not cancelled and the deadline lies ahead. A
  -- cancelled token is reported as a cancellation, also after the deadline; else the deadline as
  -- a timeout, which cancels the token, so that every later checkpoint reports a cancellation.
  pub checkpoint_outcomes :
      (now later : F) (c : WorkloadContext F)
      → let (r, c') = checkpoint now c in
        let late = float_le c.deadline_monotonic now in
        ((r ≡ ok tt) ↔ ((cancelled c.token ≡ false) × (late ≡ false)))
        × ((cancelled c.token ≡ true)
            → r ≡ raise workload_cancelled "workload cancellation was requested")
        × (cancelled c.token ≡ false
            → late ≡ true
            → (r ≡ raise workload_timeout "workload exceeded its monotonic deadline")
              × ((checkpoint later c').0
                  ≡ raise workload_cancelled "workload cancellation was requested"))
        × (c'.deadline_monotonic ≡ c.deadline_monotonic)
        × (parent c'.token ≡ parent c.token)
  unfolding checkpoint
  checkpoint_outcomes now later c = (
    ground arith,
    ground arith,
    (λ a l. ground (arith, (cancelled-cancel c.token).0)),
    ground arith,
    ground (arith, (cancelled-cancel c.token).1),
  )
