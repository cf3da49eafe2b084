-- ===== src/Workloads/Storage/ReadBack.antt =====
-- What the storage workload writes to its file and reads from it
-- (src/platval/workloads/storage.py).
use mathlib.Core.Bool.{false≢true}
use mathlib.Core.List.{append_assoc, append-nil}
use pc_platform_validation_t.Base.{
  nat_eq, string_eq, option_eq, ok, succeeds, ℕ, zero, suc, ◌+◌, ◌≤◌, String, ◌≡◌, refl, sym, ap,
  ◌∙◌, ◌⊎◌, inl, inr, List, [], ◌∷◌, ◌++◌, arith,
}
use pc_platform_validation_t.Base.Action.{Action, ◌>>=◌, pure, >>=-eq-ok, pure-eq-ok}
use pc_platform_validation_t.Base.Floats.{Floats}
use pc_platform_validation_t.Workloads.Host.{Bytes, Digests, Host, Session, ask, tick, take, drop}
use pc_platform_validation_t.Workloads.Config.{StorageWorkloadConfig}
use pc_platform_validation_t.Workloads.Storage.{
  Disk, on_disk, finally, continue_reading, deterministic_block, block_lengths, write_loop,
  read_loop, write_file, read_file,
}

-- A disk where a file holds what was written to it and a handle reads it once from its start; the
-- clocks and the token leave it alone.
pub record IsDisk {F W : Type 0} (host : Host F W) (disk : Disk W) : Type 0 where
  pub content : W → String → Bytes
  pub unread : W → String → Bytes
  pub open_new-empty : (f : String) (w w' : W) → disk.open_new f w ≡ (ok tt, w') → content w' f ≡ []
  pub write-written :
      (f : String) (b : Bytes) (w w' : W)
      → disk.write f b w ≡ (ok tt, w')
      → content w' f ≡ content w f ++ b
  pub sync-kept : (f : String) (w w' : W) → disk.sync f w ≡ (ok tt, w') → content w' f ≡ content w f
  pub open_read-start :
      (f : String) (w w' : W) → disk.open_read f w ≡ (ok tt, w') → unread w' f ≡ content w f
  pub read-next :
      (f : String) (n : ℕ) (w w' : W) {b : Bytes}
      → disk.read f n w ≡ (ok b, w')
      → (b ≡ take n (unread w f)) × (unread w' f ≡ drop n (unread w f))
  pub perf_counter-kept : (w : W) (f : String) → content (host.perf_counter w).1 f ≡ content w f
  pub monotonic-kept :
      (w : W) (f : String)
      → (content (host.monotonic w).1 f ≡ content w f)
        × (unread (host.monotonic w).1 f ≡ unread w f)
  pub parent_cancelled-kept :
      (w : W) (f : String)
      → (content (host.parent_cancelled w).1 f ≡ content w f)
        × (unread (host.parent_cancelled w).1 f ≡ unread w f)

take-drop : (n : ℕ) (xs : Bytes) → take n xs ++ drop n xs ≡ xs
take-drop zero xs = refl
take-drop (suc n) [] = refl
take-drop (suc n) (x ∷ xs) = ap (λ ys. x ∷ ys) (take-drop n xs)

take_empty : (n : ℕ) (xs : Bytes) → 1 ≤ n → [] ≡ take n xs → xs ≡ []
take_empty zero xs h e = absurd (omega arith)
take_empty (suc n) [] h e = refl
take_empty (suc n) (x ∷ xs) h e = ground arith

pub finally-eq-ok :
    {W A : Type 0} (m : Action W A) (cleanup : Action W (Unit {0})) (w w' : W) {a : A}
    → finally m cleanup w ≡ (ok a, w')
    → (m w).0 ≡ ok a
finally-eq-ok {W = W} {A = A} m cleanup w w' h =
    let next : Unit {0} → Action W A = λ _ v. ((m w).0, v) in
    let (_, w₁, _, k) = >>=-eq-ok cleanup next (m w).1 h in ap (λ p. p.0) k

continued :
    {W : Type 0} (loop : Action (Session W) Bytes) (block : Bytes) (s s' : Session W) {b : Bytes}
    → continue_reading loop block s ≡ (ok b, s')
    → ((block ≡ []) × (b ≡ []))
      ⊎ ((rest : Bytes) × (s₁ : Session W) × (loop s ≡ (ok rest, s₁)) × (b ≡ block ++ rest))
continued loop [] s s' h = inl (refl, sym (pure-eq-ok [] s h))
continued loop (x ∷ xs) s s' h =
    let (rest, s₁, h₁, k) = >>=-eq-ok loop (λ r. pure ((x ∷ xs) ++ r)) s h in
    inr (rest, s₁, h₁, sym (pure-eq-ok ((x ∷ xs) ++ rest) s₁ k))

module _ {F W : Type 0} ⦃o : Floats F⦄ (host : Host F W) (d : Digests) (disk : Disk W)
    (laws : IsDisk host disk) where
  tick-kept :
      (deadline : F) (s : Session W) (f : String)
      → (laws.content (tick host deadline s).1.0 f ≡ laws.content s.0 f)
        × (laws.unread (tick host deadline s).1.0 f ≡ laws.unread s.0 f)
  unfolding tick
  tick-kept deadline (w, t) f =
      let w₁ = (host.parent_cancelled w).1 in
      let (c, u) = laws.parent_cancelled-kept w f in
      let (c', u') = laws.monotonic-kept w₁ f in (c' ∙ c, u' ∙ u)

  pub ticked :
      (deadline : F) (s s' : Session W) (f : String)
      → tick host deadline s ≡ (ok tt, s')
      → (laws.content s'.0 f ≡ laws.content s.0 f) × (laws.unread s'.0 f ≡ laws.unread s.0 f)
  ticked deadline s s' f h =
      let (c, u) = tick-kept deadline s f in
      let there = ap (λ p. p.1.0) h in
      (sym (ap (λ w. laws.content w f) there) ∙ c, sym (ap (λ w. laws.unread w f) there) ∙ u)

  write_loop-written :
      (deadline : F) (f : String) (i : ℕ) (lengths : List ℕ) (s s' : Session W) {b : Bytes}
      → write_loop host d disk deadline f i lengths s ≡ (ok b, s')
      → laws.content s'.0 f ≡ laws.content s.0 f ++ b
  unfolding write_loop
  write_loop-written deadline f i [] s s' h =
      ap (λ t. laws.content t.0 f) (sym (ap (λ p. p.1) h))
      ∙ sym (append-nil (laws.content s.0 f))
      ∙ ap (λ x. laws.content s.0 f ++ x) (pure-eq-ok [] s h)
  write_loop-written deadline f i (n ∷ ns) s s' {b = b} h =
      let block = deterministic_block d i n in
      let loop = write_loop host d disk deadline f (i + 1) ns in
      let finish : Bytes → Action (Session W) Bytes = λ rest. pure (block ++ rest) in
      let write = on_disk (disk.write f block) in
      let (_, s₁, h₁, k₁) =
        >>=-eq-ok (tick host deadline) (λ _. write >>= λ _. loop >>= finish) s h in
      let (_, s₂, h₂, k₂) = >>=-eq-ok write (λ _. loop >>= finish) s₁ k₁ in
      let (rest, s₃, h₃, k₃) = >>=-eq-ok loop finish s₂ k₂ in
      let wrote = laws.write-written f block s₁.0 s₂.0 (ap (λ p. (p.0, p.1.0)) h₂) in
      let more = write_loop-written deadline f (i + 1) ns s₂ s₃ h₃ in
      ap (λ t. laws.content t.0 f) (sym (ap (λ p. p.1) k₃))
      ∙ more
      ∙ ap (λ x. x ++ rest) (wrote ∙ ap (λ x. x ++ block) (ticked deadline s s₁ f h₁).0)
      ∙ append_assoc (laws.content s.0 f) block rest
      ∙ ap (λ x. laws.content s.0 f ++ x) (pure-eq-ok (block ++ rest) s₃ k₃)

  read_loop-read :
      (fuel : ℕ) (deadline : F) (f : String) (k : ℕ) (s s' : Session W) {b : Bytes}
      → 1 ≤ k
      → read_loop host d disk fuel deadline f k s ≡ (ok b, s')
      → b ≡ laws.unread s.0 f
  unfolding read_loop
  read_loop-read zero deadline f k s s' positive h = absurd (false≢true (ap (λ p. succeeds p.0) h))
  read_loop-read (suc fuel) deadline f k s s' positive h =
      let read = on_disk (disk.read f k) in
      let loop = read_loop host d disk fuel deadline f k in
      let (_, s₁, h₁, k₁) =
        >>=-eq-ok (tick host deadline) (λ _. read >>= continue_reading loop) s h in
      let (block, s₂, h₂, k₂) = >>=-eq-ok read (continue_reading loop) s₁ k₁ in
      let (next, left) = laws.read-next f k s₁.0 s₂.0 (ap (λ p. (p.0, p.1.0)) h₂) in
      let same = (ticked deadline s s₁ f h₁).1 in
      elim (continued loop block s₂ s' k₂) [
        | inl (last, e) ↦
            e ∙ sym (take_empty k (laws.unread s₁.0 f) positive (sym last ∙ next)) ∙ same
        | inr (rest, s₃, h₃, e) ↦
            e
            ∙ ap (λ x. block ++ x) (read_loop-read fuel deadline f k s₂ s₃ positive h₃ ∙ left)
            ∙ ap (λ x. x ++ drop k (laws.unread s₁.0 f)) next
            ∙ take-drop k (laws.unread s₁.0 f)
            ∙ same
      ]

  clocked :
      (s s' : Session W) (f : String) {x : F}
      → ask host.perf_counter s ≡ (ok x, s')
      → laws.content s'.0 f ≡ laws.content s.0 f
  clocked s s' f h = sym (ap (λ p. laws.content p.1.0 f) h) ∙ laws.perf_counter-kept s.0 f

  pub write_file-written :
      (deadline : F) (f : String) (config : StorageWorkloadConfig) (s s' : Session W)
      {r : Bytes × F}
      → write_file host d disk deadline f config s ≡ (ok r, s')
      → laws.content s'.0 f ≡ r.0
  unfolding write_file
  write_file-written deadline f config s s' {r = r} h =
      let clock = ask host.perf_counter in
      let lengths = block_lengths config.size_bytes config.block_size_bytes in
      let loop = write_loop host d disk deadline f 0 lengths in
      let sync = on_disk (disk.sync f) in
      let done : F → Bytes → F → Action (Session W) (Bytes × F) =
        λ started b ended. pure (b, o.sub ended started) in
      let synced : F → Bytes → Action (Session W) (Bytes × F) =
        λ started b. sync >>= λ _. clock >>= done started b in
      let (started, s₁, h₁, k₁) =
        >>=-eq-ok clock (λ t. on_disk (disk.open_new f) >>= λ _. loop >>= synced t) s h in
      let (_, s₂, h₂, k₂) =
        >>=-eq-ok (on_disk (disk.open_new f)) (λ _. loop >>= synced started) s₁ k₁ in
      let (b, s₃, h₃, k₃) = >>=-eq-ok loop (synced started) s₂ k₂ in
      let (_, s₄, h₄, k₄) = >>=-eq-ok sync (λ _. clock >>= done started b) s₃ k₃ in
      let (ended, s₅, h₅, k₅) = >>=-eq-ok clock (done started b) s₄ k₄ in
      let empty = laws.open_new-empty f s₁.0 s₂.0 (ap (λ p. (p.0, p.1.0)) h₂) in
      ap (λ t. laws.content t.0 f) (sym (ap (λ p. p.1) k₅))
      ∙ clocked s₄ s₅ f h₅
      ∙ laws.sync-kept f s₃.0 s₄.0 (ap (λ p. (p.0, p.1.0)) h₄)
      ∙ write_loop-written deadline f 0 lengths s₂ s₃ h₃
      ∙ ap (λ x. x ++ b) empty
      ∙ ap (λ x. x.0) (pure-eq-ok (b, o.sub ended started) s₅ k₅)

  pub read_file-read :
      (deadline : F) (f : String) (config : StorageWorkloadConfig) (s s' : Session W)
      {r : Bytes × F}
      → 1 ≤ config.block_size_bytes
      → read_file host d disk deadline f config s ≡ (ok r, s')
      → r.0 ≡ laws.content s.0 f
  unfolding read_file
  read_file-read deadline f config s s' positive h =
      let clock = ask host.perf_counter in
      let n = config.size_bytes + 1 in
      let loop = read_loop host d disk n deadline f config.block_size_bytes in
      let done : F → Bytes → F → Action (Session W) (Bytes × F) =
        λ started b ended. pure (b, o.sub ended started) in
      let timed : F → Bytes → Action (Session W) (Bytes × F) =
        λ started b. clock >>= done started b in
      let (started, s₁, h₁, k₁) =
        >>=-eq-ok clock (λ t. on_disk (disk.open_read f) >>= λ _. loop >>= timed t) s h in
      let (_, s₂, h₂, k₂) =
        >>=-eq-ok (on_disk (disk.open_read f)) (λ _. loop >>= timed started) s₁ k₁ in
      let (b, s₃, h₃, k₃) = >>=-eq-ok loop (timed started) s₂ k₂ in
      let (ended, s₄, h₄, k₄) = >>=-eq-ok clock (done started b) s₃ k₃ in
      sym (ap (λ x. x.0) (pure-eq-ok (b, o.sub ended started) s₄ k₄))
      ∙ read_loop-read n deadline f config.block_size_bytes s₂ s₃ positive h₃
      ∙ laws.open_read-start f s₁.0 s₂.0 (ap (λ p. (p.0, p.1.0)) h₂)
      ∙ clocked s s₁ f h₁
