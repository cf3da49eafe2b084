-- ===== src/Workloads/Memory/Correct.antt =====
-- The buffer of the memory workload is read back as it was written
-- (src/platval/workloads/memory.py).
use mathlib.Core.Path.{subst, ap₂}
use mathlib.Core.List.{append_assoc, append-nil}
use pc_platform_validation_t.Base.{
  ==_iff, nat_eq, string_eq, option_eq, length, length-append, length-map, ok, ℕ, ◌+◌, ◌-◌, min,
  String, ◌≡◌, sym, ap, ◌∙◌, true, false, List, [], ◌∷◌, ◌++◌, arith,
}
use pc_platform_validation_t.Base.Action.{
  Action, ◌>>=◌, pure, lift, >>=-eq-ok, lift-eq-ok, pure-eq-ok,
}
use pc_platform_validation_t.Base.Floats.{Floats}
use pc_platform_validation_t.Workloads.Host.{
  Bytes, Digests, Host, Session, ask, tick, begin, repeat, take, drop,
}
use pc_platform_validation_t.Workloads.Memory.{
  transform, translate, pattern_chunk, range, slice, set_slice, fill_loop, transform_loop,
  read_loop, transform_and_read, memory_loops, memory_result, allocation_or_default, memory_body,
  run_memory_workload,
}
use pc_platform_validation_t.Workloads.Memory.Slices.{
  length-take, drop-past, length-drop, map-take, length-repeat, length-translate,
  length-pattern_chunk, translate-pattern_chunk, IsTiling, range-IsTiling, tiles, length-empty,
  set_slice-eq, slice-eq,
}
use pc_platform_validation_t.Workloads.Output.{
  WorkloadResult, make_workload_result, make_workload_result-eq,
}
use pc_platform_validation_t.Models.Results.{Timestamp}
use pc_platform_validation_t.Workloads.Config.{MemoryWorkloadConfig}
use pc_platform_validation_t.Workloads.Safety.{SafetyPolicy, require_memory, require_timeout}

module _ {F W : Type 0} ⦃o : Floats F⦄ (host : Host F W) (deadline : F) (a c : ℕ) where
  fill_loop-eq :
      (chunk : Bytes) (start : ℕ) (offsets : List ℕ) (xs ys : Bytes) (s : Session W) {b : Bytes}
      {s' : Session W}
      → length chunk ≡ c
      → IsTiling a c start offsets
      → length xs ≡ min start a
      → length ys ≡ a - start
      → fill_loop host deadline a c chunk offsets (xs ++ ys) s ≡ (ok b, s')
      → b ≡ xs ++ tiles a c chunk offsets
  unfolding fill_loop IsTiling tiles
  fill_loop-eq chunk start [] xs ys s whole tiling k l h =
      sym (pure-eq-ok (xs ++ ys) s h) ∙ ap (λ zs. xs ++ zs) (length-empty ys (omega arith))
  fill_loop-eq chunk start (p ∷ ps) xs ys s {b} {s'} whole (at, inside, tiling) k l h =
      let n = min c (a - p) in
      let piece = take n chunk in
      let size : length piece ≡ n = omega (arith, length-take n chunk) in
      let loop = fill_loop host deadline a c chunk ps in
      let (_, s₁, _, h₁) =
        >>=-eq-ok (tick host deadline) (λ _. loop (set_slice p n piece (xs ++ ys))) s h in
      let moved = set_slice-eq p n piece xs ys (omega arith) in
      fill_loop-eq chunk (start + c) ps (xs ++ piece) (drop n ys) s₁ whole tiling
        (omega (arith, length-append xs piece)) (omega (arith, length-drop n ys))
        (subst (λ z. loop z s₁ ≡ (ok b, s')) moved h₁)
      ∙ append_assoc xs piece (tiles a c chunk ps)

  transform_loop-eq :
      (chunk : Bytes) (start : ℕ) (offsets : List ℕ) (xs hashed : Bytes) (s : Session W)
      {r : Bytes × Bytes} {s' : Session W}
      → length chunk ≡ c
      → IsTiling a c start offsets
      → length xs ≡ min start a
      → transform_loop host deadline a c
          (translate chunk)
          offsets
          (xs ++ tiles a c chunk offsets)
          hashed
          s
        ≡ (ok r, s')
      → r
        ≡ (xs ++ tiles a c (translate chunk) offsets, hashed ++ tiles a c (translate chunk) offsets)
  unfolding transform_loop IsTiling tiles translate
  transform_loop-eq chunk start [] xs hashed s whole tiling k h =
      sym (pure-eq-ok (xs ++ [], hashed) s h) ∙ ap (λ z. (xs ++ [], z)) (sym (append-nil hashed))
  transform_loop-eq chunk start (p ∷ ps) xs hashed s {r} {s'} whole (at, inside, tiling) k h =
      let n = min c (a - p) in
      let rest = tiles a c chunk ps in
      let piece = take n chunk in
      let new = take n (translate chunk) in
      let size : length piece ≡ n = omega (arith, length-take n chunk) in
      let buffer = xs ++ (piece ++ rest) in
      let loop : Bytes → Bytes → Action (Session W) (Bytes × Bytes) =
        transform_loop host deadline a c (translate chunk) ps in
      let (_, s₁, _, h₁) =
        >>=-eq-ok (tick host deadline)
          (λ _. loop (set_slice p n (translate (slice p n buffer)) buffer) (hashed ++ new)) s h in
      let read : translate (slice p n buffer) ≡ new =
        ap translate (slice-eq p n xs piece rest (omega arith) size) ∙ map-take transform n chunk in
      let moved : set_slice p n (translate (slice p n buffer)) buffer ≡ (xs ++ new) ++ rest =
        ap (λ z. set_slice p n z buffer) read
        ∙ set_slice-eq p n new xs (piece ++ rest) (omega arith)
        ∙ ap (λ z. (xs ++ new) ++ z) (drop-past n piece rest size) in
      transform_loop-eq chunk (start + c) ps (xs ++ new) (hashed ++ new) s₁ whole tiling
        (omega (
          arith,
          length-append xs new,
          length-take n (translate chunk),
          length-map transform chunk,
        ))
        (subst (λ z. loop z (hashed ++ new) s₁ ≡ (ok r, s')) moved h₁)
      ∙ ap₂ (λ x y. (x, y)) (append_assoc xs new (tiles a c (translate chunk) ps))
          (append_assoc hashed new (tiles a c (translate chunk) ps))

  read_loop-eq :
      (chunk : Bytes) (start : ℕ) (offsets : List ℕ) (xs hashed : Bytes) (s : Session W) {r : Bytes}
      {s' : Session W}
      → length chunk ≡ c
      → IsTiling a c start offsets
      → length xs ≡ min start a
      → read_loop host deadline a c (xs ++ tiles a c chunk offsets) offsets hashed s ≡ (ok r, s')
      → r ≡ hashed ++ tiles a c chunk offsets
  unfolding read_loop IsTiling tiles
  read_loop-eq chunk start [] xs hashed s whole tiling k h =
      sym (pure-eq-ok hashed s h) ∙ sym (append-nil hashed)
  read_loop-eq chunk start (p ∷ ps) xs hashed s {r} {s'} whole (at, inside, tiling) k h =
      let n = min c (a - p) in
      let rest = tiles a c chunk ps in
      let piece = take n chunk in
      let size : length piece ≡ n = omega (arith, length-take n chunk) in
      let loop = read_loop host deadline a c in
      let buffer = xs ++ (piece ++ rest) in
      let (_, s₁, _, h₁) =
        >>=-eq-ok (tick host deadline) (λ _. loop buffer ps (hashed ++ slice p n buffer)) s h in
      read_loop-eq chunk (start + c) ps (xs ++ piece) (hashed ++ piece) s₁ whole tiling
        (omega (arith, length-append xs piece))
        (subst {A = Bytes × Bytes} (λ z. loop z.0 ps (hashed ++ z.1) s₁ ≡ (ok r, s'))
          (ap₂ (λ x y. (x, y)) (sym (append_assoc xs piece rest))
            (slice-eq p n xs piece rest (omega arith) size))
          h₁)
      ∙ append_assoc hashed piece rest

  transform_and_read-eq :
      (offsets : List ℕ) (filled : Bytes) (s : Session W) {r : Bytes × Bytes} {s' : Session W}
      → IsTiling a c 0 offsets
      → filled ≡ tiles a c (pattern_chunk c false) offsets
      → transform_and_read host deadline a c offsets filled s ≡ (ok r, s')
      → r.0 ≡ r.1
  unfolding transform_and_read
  transform_and_read-eq offsets filled s tiling full h =
      let plain = pattern_chunk c false in
      let whole = length-pattern_chunk c false in
      let change : Bytes → Bytes → Action (Session W) (Bytes × Bytes) =
        λ chunk filled. transform_loop host deadline a c chunk offsets filled [] in
      let read : Bytes → Action (Session W) Bytes =
        λ buffer. read_loop host deadline a c buffer offsets [] in
      let (p, s₁, e, h₁) =
        >>=-eq-ok (change (pattern_chunk c true) filled)
          (λ p. read p.0 >>= λ actual. pure (p.1, actual)) s h in
      let (actual, s₂, f, h₂) = >>=-eq-ok (read p.0) (λ actual. pure (p.1, actual)) s₁ h₁ in
      let nothing : length {A = ℕ} [] ≡ min 0 a = omega arith in
      let changed = transform_loop-eq plain 0 offsets [] [] s whole tiling nothing (
        subst (λ z. change z (tiles a c plain offsets) s ≡ (ok p, s₁))
          (sym (translate-pattern_chunk c))
          (subst (λ z. change (pattern_chunk c true) z s ≡ (ok p, s₁)) full e)) in
      let hashed =
        read_loop-eq (translate plain) 0 offsets [] [] s₁ (length-translate plain ∙ whole) tiling
          nothing (subst {A = Bytes × Bytes} (λ z. read z.0 s₁ ≡ (ok actual, s₂)) changed f) in
      let returned = pure-eq-ok (p.1, actual) s₂ h₂ in
      ap (λ z. z.0) (sym returned) ∙ ap (λ z. z.1) changed ∙ sym hashed ∙ ap (λ z. z.1) returned

  memory_loops-eq :
      (s : Session W) {r : Bytes × Bytes} {s' : Session W}
      → memory_loops host deadline a c s ≡ (ok r, s')
      → r.0 ≡ r.1
  unfolding memory_loops
  memory_loops-eq s h =
      let plain = pattern_chunk c false in
      let blank = repeat a (0 ∷ []) in
      let fill : List ℕ → Action (Session W) Bytes =
        λ offsets. fill_loop host deadline a c plain offsets blank in
      let rest = transform_and_read host deadline a c in
      let (offsets, s₁, e₁, h₁) =
        >>=-eq-ok (lift (range a c)) (λ offsets. fill offsets >>= rest offsets) s h in
      let tiling = (range-IsTiling a c (lift-eq-ok (range a c) s e₁)).1 in
      let (filled, s₂, e₂, h₂) = >>=-eq-ok (fill offsets) (rest offsets) s₁ h₁ in
      let nothing : length {A = ℕ} [] ≡ min 0 a = omega arith in
      let full =
        fill_loop-eq plain 0 offsets [] blank s₁ (length-pattern_chunk c false) tiling nothing
          (omega (arith, length-repeat a (0 ∷ []))) e₂ in
      transform_and_read-eq offsets filled s₂ tiling full h₂

module _ {F W : Type 0} ⦃o : Floats F⦄ where
  memory_body-correct :
      (host : Host F W) (d : Digests) (config : MemoryWorkloadConfig) (allocation : ℕ)
      (deadline : F) (clocks : Timestamp × F) (s : Session W) {r : WorkloadResult F}
      {s' : Session W}
      → memory_body host d config allocation (deadline, clocks) s ≡ (ok r, s')
      → r.correct ≡ true
  unfolding memory_body memory_result
  memory_body-correct host d config allocation deadline (started_at, started) s {r} h =
      let sum : Bytes → String = λ b. d.hex (d.sha256 b) in
      let result : Bytes × Bytes → F → Timestamp → WorkloadResult F = λ p ended ended_at.
        memory_result allocation (sum p.0) (sum p.1) (record {
          started_at = started_at;
          ended_at = ended_at;
          duration = o.sub ended started;
          measured_seconds = o.sub ended started;
        }) in
      let finish : Bytes × Bytes → Action (Session W) (WorkloadResult F) = λ p.
        ask host.perf_counter >>= λ ended.
        ask host.utc_now >>= λ ended_at. lift (make_workload_result (result p ended ended_at)) in
      let loops = memory_loops host deadline allocation (min config.chunk_size_bytes allocation) in
      let (p, s₁, e₁, h₁) = >>=-eq-ok loops finish s h in
      let same =
        memory_loops-eq host deadline allocation (min config.chunk_size_bytes allocation) s e₁ in
      ap (λ r. r.correct) (make_workload_result-eq _ r (ap (λ z. z.0) h₁))
      ∙ (==_iff (sum p.1) (sum p.0)).1 (ap sum (sym same))

  -- A run of the memory workload that returns is correct: the buffer that was filled, transformed
  -- and read back a chunk at a time has the checksum of the transformed pattern, whatever the size
  -- of the buffer and of its chunks.
  pub run_memory_workload-correct :
      (host : Host F W) (d : Digests) (available_memory : W → ℕ × W) (config : MemoryWorkloadConfig)
      (timeout_seconds : F) (policy : SafetyPolicy F) (s : Session W) {r : WorkloadResult F}
      {s' : Session W}
      → run_memory_workload host d available_memory config timeout_seconds policy s ≡ (ok r, s')
      → r.correct ≡ true
  unfolding run_memory_workload
  run_memory_workload-correct host d available_memory config timeout_seconds policy s h =
      let body : ℕ → F × (Timestamp × F) → Action (Session W) (WorkloadResult F) =
        memory_body host d config in
      let start : ℕ → Action (Session W) (WorkloadResult F) =
        λ allocation. begin host timeout_seconds >>= body allocation in
      let guarded : ℕ → Action (Session W) (WorkloadResult F) =
        λ allocation. lift (require_memory policy allocation) >>= λ _. start allocation in
      let allocate = allocation_or_default available_memory config.allocation_bytes policy in
      let (_, s₁, _, h₁) =
        >>=-eq-ok (lift (require_timeout policy timeout_seconds)) (λ _. allocate >>= guarded) s h in
      let (allocation, s₂, _, h₂) = >>=-eq-ok allocate guarded s₁ h₁ in
      let (_, s₃, _, h₃) =
        >>=-eq-ok (lift (require_memory policy allocation)) (λ _. start allocation) s₂ h₂ in
      let (clocks, s₄, _, h₄) = >>=-eq-ok (begin host timeout_seconds) (body allocation) s₃ h₃ in
      memory_body-correct host d config allocation (clocks.0) (clocks.1) s₄ h₄
