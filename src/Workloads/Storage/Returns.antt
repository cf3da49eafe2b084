-- ===== src/Workloads/Storage/Returns.antt =====
-- The fuel of the storage workload's reading (src/platval/workloads/storage.py).
use pc_platform_validation_t.Base.{
  nat_eq, string_eq, option_eq, length, Result, ok, raised, succeeds, ℕ, zero, suc, ◌+◌, ◌≤◌, ◌<◌,
  String, ◌≡◌, refl, ap, ◌∙◌, true, false, [], ◌∷◌, ◌++◌, arith,
}
use pc_platform_validation_t.Base.Action.{Action, ◌>>=◌, pure, >>=-after}
use pc_platform_validation_t.Base.Floats.{Floats}
use pc_platform_validation_t.Workloads.Control.{CancellationToken, cancelled}
use pc_platform_validation_t.Workloads.Config.{StorageWorkloadConfig}
use pc_platform_validation_t.Workloads.Host.{Bytes, Digests, Host, Session, ask, tick}
use pc_platform_validation_t.Workloads.Memory.Slices.{length-take, length-drop}
use pc_platform_validation_t.Workloads.Integer.Pool.Returns.{Returns, IsQuiet, tick-eq}
use pc_platform_validation_t.Workloads.Storage.{
  Disk, on_disk, continue_reading, read_loop, write_file, read_file,
}
use pc_platform_validation_t.Workloads.Storage.ReadBack.{IsDisk, ticked, write_file-written}
use pc_platform_validation_t.Workloads.Storage.Lengths.{length-write_file}

returned_of :
    {A W : Type 0} (p : Result A × W) → succeeds p.0 ≡ true → (a : A) × (w : W) × (p ≡ (ok a, w))
returned_of (ok a, w) h = (a, w, refl)
returned_of (raised e, w) h = ground arith

continue_reading-Returns :
    {W : Type 0} (loop : Action (Session W) Bytes) (block : Bytes) (w : W) (t : CancellationToken)
    → (1 ≤ length block → Returns t (loop (w, t)))
    → Returns t (continue_reading loop block (w, t))
continue_reading-Returns loop [] w t more = ([], w, refl)
continue_reading-Returns loop (x ∷ xs) w t more =
    let (rest, w', e) = more (omega arith) in
    ((x ∷ xs) ++ rest, w', >>=-after loop (λ r. pure ((x ∷ xs) ++ r)) (w, t) e)

module _ {F W : Type 0} ⦃o : Floats F⦄ (host : Host F W) (d : Digests) (disk : Disk W)
    (laws : IsDisk host disk) (deadline : F) (quiet : IsQuiet host deadline) where
  -- Where nothing stops the workload and the reads return: a positive block size and more fuel than
  -- the handle has bytes left to read them to the end.
  pub read_loop-Returns :
      (fuel : ℕ) (f : String) (k : ℕ) (w : W) (t : CancellationToken)
      → ((n : ℕ) (v : W) → succeeds (disk.read f n v).0 ≡ true)
      → cancelled t ≡ false
      → 1 ≤ k
      → length (laws.unread w f) < fuel
      → Returns t (read_loop host d disk fuel deadline f k (w, t))
  unfolding read_loop
  read_loop-Returns zero f k w t reads live positive enough = absurd (omega arith)
  read_loop-Returns (suc fuel) f k w t reads live positive enough =
      let w₁ = (host.monotonic (host.parent_cancelled w).1).1 in
      let ticks = tick-eq host deadline quiet w t live in
      let left = (ticked host d disk laws deadline (w, t) (w₁, t) f ticks).1 in
      let loop = read_loop host d disk fuel deadline f k in
      let read = on_disk (disk.read f k) in
      let (block, w₂, e) = returned_of (disk.read f k w₁) (reads k w₁) in
      let (next, rest) = laws.read-next f k w₁ w₂ e in
      let some_left : 1 ≤ length block → length (laws.unread w₂ f) < fuel = λ h. omega (
        arith,
        enough,
        ap length left,
        ap length next,
        ap length rest,
        length-take k (laws.unread w₁ f),
        length-drop k (laws.unread w₁ f),
      ) in
      let (b, w₃, h) =
        continue_reading-Returns loop block w₂ t
          λ h. read_loop-Returns fuel f k w₂ t reads live positive (some_left h) in
      (
        b,
        w₃,
        >>=-after (tick host deadline) (λ _. read >>= continue_reading loop) (w, t) ticks
            ∙ >>=-after read (continue_reading loop) (w₁, t) (ap (λ p. (p.0, (p.1, t))) e)
            ∙ h,
      )

module _ {F W : Type 0} ⦃o : Floats F⦄ (host : Host F W) (d : Digests) (disk : Disk W)
    (laws : IsDisk host disk) (deadline : F) (quiet : IsQuiet host deadline) where
  -- After the file was written: where nothing stops the workload and the handle opens and reads, a
  -- positive block size reads the file to its end, so `size_bytes + 1` of fuel are enough.
  pub read_file-Returns :
      (f : String) (config : StorageWorkloadConfig) (s : Session W) (w : W) (t : CancellationToken)
      {r : Bytes × F}
      → ((b : Bytes) → length (d.sha256 b) ≡ 32)
      → ((v : W) → succeeds (disk.open_read f v).0 ≡ true)
      → ((n : ℕ) (v : W) → succeeds (disk.read f n v).0 ≡ true)
      → cancelled t ≡ false
      → 1 ≤ config.block_size_bytes
      → write_file host d disk deadline f config s ≡ (ok r, (w, t))
      → Returns t (read_file host d disk deadline f config (w, t))
  unfolding read_file
  read_file-Returns f config s w t digest opens reads live positive h =
      let (started, w₁) = host.perf_counter w in
      let (_, w₂, e) = returned_of (disk.open_read f w₁) (opens w₁) in
      let size =
        ap length (
          laws.open_read-start f w₁ w₂ e
          ∙ laws.perf_counter-kept w f
          ∙ write_file-written host d disk laws deadline f config s (w, t) h)
        ∙ length-write_file host d disk deadline f config s (w, t) digest positive h in
      let n = config.size_bytes + 1 in
      let (b, w₃, k) =
        read_loop-Returns host d disk laws deadline quiet n f config.block_size_bytes w₂ t reads
          live positive (omega (arith, size)) in
      let (ended, w₄) = host.perf_counter w₃ in
      let clock = ask host.perf_counter in
      let done : Bytes → F → Action (Session W) (Bytes × F) =
        λ b ended. pure (b, o.sub ended started) in
      let loop = read_loop host d disk n deadline f config.block_size_bytes in
      let next : Bytes → Action (Session W) (Bytes × F) = λ b. clock >>= done b in
      (
        (b, o.sub ended started),
        w₄,
        >>=-after (on_disk (disk.open_read f)) (λ _. loop >>= next) (w₁, t)
              (ap (λ p. (p.0, (p.1, t))) e)
            ∙ >>=-after loop next (w₂, t) k,
      )
