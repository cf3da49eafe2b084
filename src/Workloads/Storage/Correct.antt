-- ===== src/Workloads/Storage/Correct.antt =====
-- The result of the storage workload (src/platval/workloads/storage.py).
use pc_platform_validation_t.Base.{
  ==_iff, nat_eq, string_eq, option_eq, ok, ◌≤◌, String, ◌<>◌, ◌≡◌, sym, ap, ◌∙◌, true,
}
use pc_platform_validation_t.Base.Action.{
  Action, ◌>>=◌, pure, lift, >>=-eq-ok, lift-eq-ok, pure-eq-ok,
}
use pc_platform_validation_t.Base.Floats.{Floats}
use pc_platform_validation_t.Models.Results.{Timestamp}
use pc_platform_validation_t.Workloads.Host.{Bytes, Digests, Host, Session, ask, begin}
use pc_platform_validation_t.Workloads.Config.{StorageWorkloadConfig}
use pc_platform_validation_t.Workloads.Output.{
  WorkloadResult, make_workload_result, make_workload_result-eq,
}
use pc_platform_validation_t.Workloads.Safety.{
  SafetyPolicy, require_temporary_file, require_timeout,
}
use pc_platform_validation_t.Workloads.Storage.{
  Disk, on_disk, finally, RoundTrip, write_file, read_file, write_and_read, round_trip,
  storage_result, require_space, storage_body, run_storage_workload,
}
use pc_platform_validation_t.Workloads.Storage.ReadBack.{
  IsDisk, finally-eq-ok, write_file-written, read_file-read,
}

module _ {F W : Type 0} ⦃o : Floats F⦄ (host : Host F W) (d : Digests) (disk : Disk W)
    (laws : IsDisk host disk) where
  write_and_read-same :
      (deadline : F) (f : String) (config : StorageWorkloadConfig) (s s' : Session W)
      {trip : RoundTrip F}
      → 1 ≤ config.block_size_bytes
      → write_and_read host d disk deadline f config s ≡ (ok trip, s')
      → trip.actual ≡ trip.expected
  unfolding write_and_read
  write_and_read-same deadline f config s s' positive h =
      let write = write_file host d disk deadline f config in
      let read = read_file host d disk deadline f config in
      let pair : Bytes × F → Bytes × F → RoundTrip F = λ wrote got. record {
        expected = wrote.0;
        actual = got.0;
        write_seconds = wrote.1;
        read_seconds = got.1;
      } in
      let (wrote, s₁, h₁, k₁) = >>=-eq-ok write (λ w. read >>= λ g. pure (pair w g)) s h in
      let (got, s₂, h₂, k₂) = >>=-eq-ok read (λ g. pure (pair wrote g)) s₁ k₁ in
      let made = pure-eq-ok (pair wrote got) s₂ k₂ in
      sym (ap (λ t. t.actual) made)
      ∙ read_file-read host d disk laws deadline f config s₁ s₂ positive h₂
      ∙ write_file-written host d disk laws deadline f config s s₁ h₁
      ∙ ap (λ t. t.expected) made

  round_trip-same :
      (deadline : F) (root : String) (config : StorageWorkloadConfig) (s s' : Session W)
      {trip : RoundTrip F}
      → 1 ≤ config.block_size_bytes
      → round_trip host d disk deadline root config s ≡ (ok trip, s')
      → trip.actual ≡ trip.expected
  unfolding round_trip
  round_trip-same deadline root config s s' {trip = trip} positive h =
      let body : String → Action (Session W) (RoundTrip F) =
        λ t. write_and_read host d disk deadline (t <> "/round-trip.bin") config in
      let next : String → Action (Session W) (RoundTrip F) =
        λ t. finally (body t) (on_disk (disk.rmtree t)) in
      let (t, s₁, h₁, k₁) = >>=-eq-ok (on_disk (disk.mkdtemp root)) next s h in
      let returned = finally-eq-ok (body t) (on_disk (disk.rmtree t)) s₁ s' k₁ in
      write_and_read-same deadline (t <> "/round-trip.bin") config s₁ (body t s₁).1 positive
        (ap (λ r. (r, (body t s₁).1)) returned)

  storage_body-correct :
      (config : StorageWorkloadConfig) (root : String) (clocks : F × (Timestamp × F))
      (s s' : Session W) {r : WorkloadResult F}
      → 1 ≤ config.block_size_bytes
      → storage_body host d disk config root clocks s ≡ (ok r, s')
      → r.correct ≡ true
  unfolding storage_body storage_result
  storage_body-correct config root (deadline, (started_at, started)) s s' positive h =
      let result : RoundTrip F → F → Timestamp → WorkloadResult F = λ trip ended ended_at.
        storage_result d config.size_bytes trip started_at ended_at (o.sub ended started) in
      let make : RoundTrip F → F → Timestamp → Action (Session W) (WorkloadResult F) =
        λ trip ended ended_at. lift (make_workload_result (result trip ended ended_at)) in
      let clock = ask host.perf_counter in
      let date = ask host.utc_now in
      let (trip, s₁, h₁, k₁) =
        >>=-eq-ok (round_trip host d disk deadline root config)
          (λ t. clock >>= λ ended. date >>= make t ended) s h in
      let (ended, s₂, h₂, k₂) = >>=-eq-ok clock (λ x. date >>= make trip x) s₁ k₁ in
      let (ended_at, s₃, h₃, k₃) = >>=-eq-ok date (make trip ended) s₂ k₂ in
      let made =
        make_workload_result-eq (result trip ended ended_at) _
          (lift-eq-ok (make_workload_result (result trip ended ended_at)) s₃ k₃) in
      let same = round_trip-same deadline root config s s₁ positive h₁ in
      let sum : Bytes → String = λ b. d.hex (d.sha256 b) in
      ap (λ x. x.correct) made ∙ (==_iff (sum trip.actual) (sum trip.expected)).1 (ap sum same)

  after_begin :
      (config : StorageWorkloadConfig) (root : String) (timeout_seconds : F) (s s' : Session W)
      {r : WorkloadResult F}
      → 1 ≤ config.block_size_bytes
      → (begin host timeout_seconds >>= storage_body host d disk config root) s ≡ (ok r, s')
      → r.correct ≡ true
  after_begin config root timeout_seconds s s' positive h =
      let body = storage_body host d disk config root in
      let (clocks, s₁, h₁, k₁) = >>=-eq-ok (begin host timeout_seconds) body s h in
      storage_body-correct config root clocks s₁ s' positive k₁

  -- On a disk whose files hold what is written to them: a storage workload with a positive block
  -- size that returns is correct.
  pub run_storage_workload-correct :
      (config : StorageWorkloadConfig) (temporary_root : String) (timeout_seconds : F)
      (policy : SafetyPolicy F) (s s' : Session W) {r : WorkloadResult F}
      → 1 ≤ config.block_size_bytes
      → run_storage_workload host d disk config temporary_root timeout_seconds policy s ≡ (ok r, s')
      → r.correct ≡ true
  unfolding run_storage_workload
  run_storage_workload-correct config temporary_root timeout_seconds policy s s' positive h =
      let run : String → Action (Session W) (WorkloadResult F) =
        λ root. begin host timeout_seconds >>= storage_body host d disk config root in
      let space = require_space host d disk policy temporary_root config.size_bytes in
      let limit = lift (require_temporary_file policy config.size_bytes) in
      let (_, s₁, _, k₁) =
        >>=-eq-ok (lift (require_timeout policy timeout_seconds))
          (λ _. limit >>= λ _. space >>= run) s h in
      let (_, s₂, _, k₂) = >>=-eq-ok limit (λ _. space >>= run) s₁ k₁ in
      let (root, s₃, _, k₃) = >>=-eq-ok space run s₂ k₂ in
      after_begin config root timeout_seconds s₃ s' positive k₃
