-- ===== src/Persistence/Artifacts/Names.antt =====
-- The names of temporary files (src/platval/persistence/artifacts.py).
use Prim.Native.String.append.{cons as append_cons}
use pc_platform_validation_t.Base.{ℕ, ◌+◌, String, ◌<>◌, ◌≡◌, refl, ap, ◌≢◌, [], ◌∷◌, arith}
use pc_platform_validation_t.Persistence.Files.{FilePath}
use pc_platform_validation_t.Models.Plan.{text_length}

length-append_suffix : (s : String) → text_length (s <> ".tmp") ≡ text_length s + 4
unfolding text_length
length-append_suffix String.[] = refl
length-append_suffix (String.◌∷◌ c s) =
    let step : text_length (String.◌∷◌ c s <> ".tmp") ≡ text_length (s <> ".tmp") + 1 =
      ap text_length (append_cons c s ".tmp") in
    omega (arith, step, length-append_suffix s)

abbrev name_length : FilePath → ℕ
name_length [] = 0
name_length (n ∷ _) = text_length n

pub temporary_ne : (s : String) (p : FilePath) → ((s <> ".tmp") ∷ p) ≢ (s ∷ p)
unfolding text_length
temporary_ne s p h =
    let same : text_length (s <> ".tmp") ≡ text_length s = ap name_length h in
    omega (arith, same, length-append_suffix s)

abbrev depth : FilePath → ℕ
depth [] = 0
depth (_ ∷ p) = depth p + 1

pub parent_ne : (n : String) (p : FilePath) → p ≢ n ∷ p
parent_ne n p h = let same : depth p ≡ depth p + 1 = ap depth h in omega (arith, same)
