-- ===== src/Workloads/Host.antt =====
-- What the workloads call and do not implement: clocks, digests and texts, and the state that they
-- share, the world with the token of their context (src/platval/workloads/control.py).
use pc_platform_validation_t.Base.{
  nat_eq, string_eq, option_eq, length, ok, ℕ, zero, suc, ◌+◌, ◌-◌, ◌/◌, String, Bool, true, false,
  List, [], ◌∷◌, ◌++◌,
}
use pc_platform_validation_t.Base.Action.{Action, ◌>>=◌, ◌>>◌, pure}
use pc_platform_validation_t.Base.Floats.{Floats}
use pc_platform_validation_t.Models.Results.{Timestamp}
use pc_platform_validation_t.Workloads.Control.{CancellationToken, root, child, cancel, checkpoint}

abbrev pub Bytes : Type 0
Bytes = List ℕ

-- `hashlib.sha256(b).digest()`, the hexadecimal text of a digest, `str.encode` and `str` of a
-- number. A hasher is the bytes that it was given, since updates are those of their concatenation.
pub record Digests : Type 0 where
  pub sha256 : Bytes → Bytes
  pub hex : Bytes → String
  pub encode : String → Bytes
  pub decimal : ℕ → String

-- `time.monotonic()`, `time.perf_counter()` and `datetime.now(UTC)`, whether the parent of the token
-- has been cancelled by now, and the order in which a thread pool lets its workers go on.
pub record Host (F W : Type 0) : Type 0 where
  pub monotonic : W → F × W
  pub perf_counter : W → F × W
  pub utc_now : W → Timestamp × W
  pub parent_cancelled : W → Bool × W
  pub schedule : W → List ℕ × W

-- The token as it is once its parent's state is read.
unfoldable pub see_parent : Bool → CancellationToken → CancellationToken
see_parent false t = t
see_parent true (root set) = root set
see_parent true (child set parent) = child set (cancel parent)

abbrev pub Session : Type 0 → Type 0
Session W = W × CancellationToken

module _ {W : Type 0} where
  abbrev pub ask : {A : Type 0} → (W → A × W) → Action (Session W) A
  ask f (w, t) = let (a, w') = f w in (ok a, (w', t))

module _ {F W : Type 0} ⦃o : Floats F⦄ (host : Host F W) where
  -- `context.checkpoint()` for a context with the deadline.
  unfoldable pub tick : F → Action (Session W) (Unit {0})
  unfolding checkpoint see_parent
  tick deadline (w, t) =
      let (stopped, w₁) = host.parent_cancelled w in
      let (now, w₂) = host.monotonic w₁ in
      let (r, c) =
        checkpoint now (record { token = see_parent stopped t; deadline_monotonic = deadline }) in
      (r, (w₂, c.token))

  -- `WorkloadContext.create` and its first checkpoint, and then the clocks.
  unfoldable pub begin : F → Action (Session W) (F × (Timestamp × F))
  unfolding tick
  begin timeout_seconds = do
    now ← ask host.monotonic
    let deadline = o.add now timeout_seconds
    tick deadline
    started_at ← ask host.utc_now
    started ← ask host.perf_counter
    pure (deadline, (started_at, started))

-- `seq * n`
abbrev pub repeat : ℕ → Bytes → Bytes
repeat zero seed = []
repeat (suc n) seed = seed ++ repeat n seed

-- `xs[:n]` and `xs[n:]`
abbrev pub take : {A : Type 0} → ℕ → List A → List A
take zero xs = []
take (suc n) [] = []
take (suc n) (x ∷ xs) = x ∷ take n xs

abbrev pub drop : {A : Type 0} → ℕ → List A → List A
drop zero xs = xs
drop (suc n) [] = []
drop (suc n) (x ∷ xs) = drop n xs

-- `(seed * ((size + len(seed) - 1) // len(seed)))[:size]`
unfoldable pub fill_to : ℕ → Bytes → Bytes
fill_to size seed = take size (repeat ((size + length seed - 1) / length seed) seed)
