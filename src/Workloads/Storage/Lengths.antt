-- ===== src/Workloads/Storage/Lengths.antt =====
-- How many bytes the storage workload (src/platval/workloads/storage.py) writes.
use pc_platform_validation_t.Base.{
  nat_eq, string_eq, option_eq, length, length-append, sum, ok, ℕ, zero, suc, ◌+◌, ◌-◌, ◌≤◌, min,
  String, ◌<>◌, ◌≡◌, sym, ap, ◌∙◌, List, [], ◌∷◌, ◌++◌, arith,
}
use pc_platform_validation_t.Base.Action.{Action, ◌>>=◌, pure, >>=-eq-ok, pure-eq-ok}
use pc_platform_validation_t.Base.Floats.{Floats}
use pc_platform_validation_t.Workloads.Config.{StorageWorkloadConfig}
use pc_platform_validation_t.Workloads.Host.{Bytes, Digests, Host, Session, ask, tick, fill_to}
use pc_platform_validation_t.Workloads.Memory.Slices.{length-take, length-repeat}
use pc_platform_validation_t.Workloads.Storage.{
  Disk, on_disk, deterministic_block, block_lengths_from, block_lengths, write_loop, write_file,
}

-- The blocks of a file make up its size.
sum-block_lengths_from :
    (fuel remaining block_size : ℕ)
    → remaining ≤ fuel
    → 1 ≤ block_size
    → sum (block_lengths_from fuel remaining block_size) ≡ remaining
unfolding block_lengths_from
sum-block_lengths_from zero remaining block_size h p = omega arith
sum-block_lengths_from (suc fuel) remaining block_size h p =
    let n = min block_size remaining in
    ground (arith, sum-block_lengths_from fuel (remaining - n) block_size (omega arith) p)

length-deterministic_block :
    (d : Digests) (index size : ℕ)
    → ((b : Bytes) → length (d.sha256 b) ≡ 32)
    → length (deterministic_block d index size) ≡ size
unfolding deterministic_block fill_to
length-deterministic_block d index size digest =
    rw (length-take, length-repeat, digest (d.encode ("platval-storage-block-" <> d.decimal index)))
      (omega arith)

module _ {F W : Type 0} ⦃o : Floats F⦄ (host : Host F W) (d : Digests) (disk : Disk W) where
  length-write_loop :
      (deadline : F) (f : String) (i : ℕ) (lengths : List ℕ) (s s' : Session W) {b : Bytes}
      → ((b : Bytes) → length (d.sha256 b) ≡ 32)
      → write_loop host d disk deadline f i lengths s ≡ (ok b, s')
      → length b ≡ sum lengths
  unfolding write_loop
  length-write_loop deadline f i [] s s' digest h = sym (ap length (pure-eq-ok [] s h))
  length-write_loop deadline f i (n ∷ ns) s s' digest h =
      let block = deterministic_block d i n in
      let loop = write_loop host d disk deadline f (i + 1) ns in
      let finish : Bytes → Action (Session W) Bytes = λ rest. pure (block ++ rest) in
      let write = on_disk (disk.write f block) in
      let (_, s₁, h₁, k₁) =
        >>=-eq-ok (tick host deadline) (λ _. write >>= λ _. loop >>= finish) s h in
      let (_, s₂, h₂, k₂) = >>=-eq-ok write (λ _. loop >>= finish) s₁ k₁ in
      let (rest, s₃, h₃, k₃) = >>=-eq-ok loop finish s₂ k₂ in
      sym (ap length (pure-eq-ok (block ++ rest) s₃ k₃))
      ∙ length-append block rest
      ∙ ap (λ x. x + length rest) (length-deterministic_block d i n digest)
      ∙ ap (λ x. n + x) (length-write_loop deadline f (i + 1) ns s₂ s₃ digest h₃)

  pub length-write_file :
      (deadline : F) (f : String) (config : StorageWorkloadConfig) (s s' : Session W)
      {r : Bytes × F}
      → ((b : Bytes) → length (d.sha256 b) ≡ 32)
      → 1 ≤ config.block_size_bytes
      → write_file host d disk deadline f config s ≡ (ok r, s')
      → length (r.0) ≡ config.size_bytes
  unfolding write_file block_lengths
  length-write_file deadline f config s s' {r = r} digest positive h =
      let clock = ask host.perf_counter in
      let lengths = block_lengths config.size_bytes config.block_size_bytes in
      let loop = write_loop host d disk deadline f 0 lengths in
      let sync = on_disk (disk.sync f) in
      let done : F → Bytes → F → Action (Session W) (Bytes × F) =
        λ started b ended. pure (b, o.sub ended started) in
      let synced : F → Bytes → Action (Session W) (Bytes × F) =
        λ started b. sync >>= λ _. clock >>= done started b in
      let (started, s₁, h₁, k₁) =
        >>=-eq-ok clock (λ t. on_disk (disk.open_new f) >>= λ _. loop >>= synced t) s h in
      let (_, s₂, h₂, k₂) =
        >>=-eq-ok (on_disk (disk.open_new f)) (λ _. loop >>= synced started) s₁ k₁ in
      let (b, s₃, h₃, k₃) = >>=-eq-ok loop (synced started) s₂ k₂ in
      let (_, s₄, h₄, k₄) = >>=-eq-ok sync (λ _. clock >>= done started b) s₃ k₃ in
      let (ended, s₅, h₅, k₅) = >>=-eq-ok clock (done started b) s₄ k₄ in
      sym (ap (λ x. length (x.0)) (pure-eq-ok (b, o.sub ended started) s₅ k₅))
      ∙ length-write_loop deadline f 0 lengths s₂ s₃ digest h₃
      ∙ sum-block_lengths_from config.size_bytes config.size_bytes config.block_size_bytes
          (omega arith) positive
