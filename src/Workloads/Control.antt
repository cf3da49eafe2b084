-- ===== src/Workloads/Control.antt =====
-- Cooperative cancellation and deadlines (src/platval/workloads/control.py, errors.py). A token
-- is its own event and, for a child, its parent; the clock is read by the caller.
pub mod Laws
use pc_platform_validation_t.Base.{
  if◌then◌else◌, nat_eq, string_eq, option_eq, workload_cancelled, workload_timeout, Result, ok,
  raise, ◌>>=◌, ◌>>◌, Bool, true, ◌||◌, false, Option, none, some,
}
use pc_platform_validation_t.Base.Floats.{Floats, float_lt, float_le, zero_float}

pub data CancellationToken : Type 0 where
  root : Bool → CancellationToken
  child : Bool → CancellationToken → CancellationToken

unfoldable pub cancel : CancellationToken → CancellationToken
cancel (root set) = root true
cancel (child set parent) = child true parent

unfoldable pub cancelled : CancellationToken → Bool
cancelled (root set) = set
cancelled (child set parent) = set || cancelled parent

pub record WorkloadContext (F : Type 0) : Type 0 where
  pub token : CancellationToken
  pub deadline_monotonic : F

module _ {F : Type 0} ⦃o : Floats F⦄ where
  -- `WorkloadContext.create` at the monotonic time `now`; without a token it makes one.
  unfoldable pub create_context : F → F → Option CancellationToken → WorkloadContext F
  create_context now timeout_seconds none = record {
    token = root false;
    deadline_monotonic = o.add now timeout_seconds;
  }
  create_context now timeout_seconds (some token) = record {
    token = token;
    deadline_monotonic = o.add now timeout_seconds;
  }

  -- `WorkloadContext.checkpoint` at the monotonic time `now`, with the context as it leaves it.
  unfoldable pub checkpoint : F → WorkloadContext F → Result (Unit {0}) × WorkloadContext F
  checkpoint now c =
      if cancelled c.token
      then (raise workload_cancelled "workload cancellation was requested", c)
      else if float_le c.deadline_monotonic now
      then (
        raise workload_timeout "workload exceeded its monotonic deadline",
        record c { token = cancel c.token },
      )
      else (ok tt, c)

  -- `WorkloadContext.remaining_seconds`, which reads the clock twice.
  unfoldable pub remaining_seconds : F → F → WorkloadContext F → Result F × WorkloadContext F
  unfolding checkpoint
  remaining_seconds now later c =
      let (r, c') = checkpoint now c in
      let left = o.sub c.deadline_monotonic later in
      (r >>= λ _. ok (if float_lt zero_float left then left else zero_float), c')
