-- ===== src/Workloads/Memory/Slices.antt =====
-- Slices of the buffer of the memory workload, and the offsets of its chunks
-- (src/platval/workloads/memory.py).
use mathlib.Core.Path.{subst}
use mathlib.Core.List.{append_assoc, map-append}
use pc_platform_validation_t.Base.{
  ltb, nat_eq, string_eq, option_eq, length, length-append, length-map, ok, ℕ, zero, suc, ◌+◌, ◌-◌,
  ◌*◌, ◌/◌, ◌≤◌, ◌<◌, min, ◌≡◌, refl, sym, ap, ◌∙◌, Bool, true, false, List, [], ◌∷◌, ◌++◌, map,
  arith,
}
use pc_platform_validation_t.Workloads.Host.{Bytes, repeat, take, drop, fill_to}
use pc_platform_validation_t.Workloads.Memory.{
  transform, pattern, translate, pattern_chunk, range_from, range, slice, set_slice,
}

pub length-take : (n : ℕ) (xs : Bytes) → length (take n xs) ≡ min n (length xs)
length-take zero xs = omega arith
length-take (suc n) [] = omega arith
length-take (suc n) (x ∷ xs) = omega (arith, length-take n xs)

take-append : (n : ℕ) (xs ys : Bytes) → length xs ≡ n → take n (xs ++ ys) ≡ xs
take-append zero [] ys h = refl
take-append zero (x ∷ xs) ys h = absurd (omega arith)
take-append (suc n) [] ys h = absurd (omega arith)
take-append (suc n) (x ∷ xs) ys h = ap (λ zs. x ∷ zs) (take-append n xs ys (omega arith))

drop-append : (n m : ℕ) (xs ys : Bytes) → length xs ≡ n → drop (n + m) (xs ++ ys) ≡ drop m ys
drop-append zero m [] ys h = ap (λ k. drop k ys) (omega arith)
drop-append zero m (x ∷ xs) ys h = absurd (omega arith)
drop-append (suc n) m [] ys h = absurd (omega arith)
drop-append (suc n) m (x ∷ xs) ys h =
    let shift : suc n + m ≡ suc (n + m) = omega arith in
    ap (λ k. drop k (x ∷ (xs ++ ys))) shift ∙ drop-append n m xs ys (omega arith)

pub drop-past : (n : ℕ) (xs ys : Bytes) → length xs ≡ n → drop n (xs ++ ys) ≡ ys
drop-past n xs ys h =
    let whole : n ≡ n + 0 = omega arith in
    ap (λ k. drop k (xs ++ ys)) whole ∙ drop-append n 0 xs ys h

pub length-drop : (n : ℕ) (xs : Bytes) → length (drop n xs) ≡ length xs - n
length-drop zero xs = omega arith
length-drop (suc n) [] = omega arith
length-drop (suc n) (x ∷ xs) = omega (arith, length-drop n xs)

pub map-take : (f : ℕ → ℕ) (n : ℕ) (xs : Bytes) → map f (take n xs) ≡ take n (map f xs)
map-take f zero xs = refl
map-take f (suc n) [] = refl
map-take f (suc n) (x ∷ xs) = ap (λ zs. f x ∷ zs) (map-take f n xs)

map-repeat : (f : ℕ → ℕ) (n : ℕ) (xs : Bytes) → map f (repeat n xs) ≡ repeat n (map f xs)
map-repeat f zero xs = refl
map-repeat f (suc n) xs =
    map-append f xs (repeat n xs) ∙ ap (λ zs. map f xs ++ zs) (map-repeat f n xs)

pub length-repeat : (n : ℕ) (xs : Bytes) → length (repeat n xs) ≡ n * length xs
length-repeat zero xs = omega arith
length-repeat (suc n) xs = omega (arith, length-repeat n xs, length-append xs (repeat n xs))

length-fill_to : (size : ℕ) (xs : Bytes) → length xs ≡ 256 → length (fill_to size xs) ≡ size
unfolding fill_to
length-fill_to size xs h = rw (length-take, length-repeat, h) (omega arith)

translate-fill_to :
    (size : ℕ) (xs : Bytes) → translate (fill_to size xs) ≡ fill_to size (translate xs)
unfolding fill_to translate
translate-fill_to size xs =
    map-take transform size _
    ∙ ap (take size) (map-repeat transform ((size + length xs - 1) / length xs) xs)
    ∙ ap (λ n. take size (repeat ((size + n - 1) / n) (map transform xs)))
        (sym (length-map transform xs))

pub length-translate : (xs : Bytes) → length (translate xs) ≡ length xs
unfolding translate
length-translate = length-map transform

length-pattern : length pattern ≡ 256
unfolding pattern
length-pattern = refl

pub length-pattern_chunk : (size : ℕ) (b : Bool) → length (pattern_chunk size b) ≡ size
unfolding pattern_chunk fill_to translate
length-pattern_chunk size true =
    length-fill_to size (map transform pattern) (length-map transform pattern ∙ length-pattern)
length-pattern_chunk size false = length-fill_to size pattern length-pattern

pub translate-pattern_chunk :
    (size : ℕ) → translate (pattern_chunk size false) ≡ pattern_chunk size true
unfolding pattern_chunk fill_to translate
translate-pattern_chunk size = translate-fill_to size pattern

-- The offsets of the chunks of a buffer, from `o` on.
unfoldable pub IsTiling : ℕ → ℕ → ℕ → List ℕ → Type 0
IsTiling a c o [] = a ≤ o
IsTiling a c o (p ∷ ps) = (p ≡ o) × (o < a) × IsTiling a c (o + c) ps

range_from-IsTiling :
    (fuel a c o : ℕ) → 0 < c → a ≤ o + fuel → IsTiling a c o (range_from fuel o a c)
unfolding range_from IsTiling
range_from-IsTiling zero a c o h enough = omega arith
range_from-IsTiling (suc fuel) a c o h enough =
    let next = range_from-IsTiling fuel a c (o + c) h (omega arith) in
    let go : Bool → List ℕ = λ b. elim b [ true ↦ o ∷ range_from fuel (o + c) a c | false ↦ [] ] in
    elim (ltb o a) as (λ b. ltb o a ≡ b → IsTiling a c o (go b)) [
      | true ↦ λ e. (refl, ground arith, next)
      | false ↦ λ e. ground arith
    ]
      refl

pub range-IsTiling :
    (a c : ℕ) {offsets : List ℕ} → range a c ≡ ok offsets → (0 < c) × IsTiling a c 0 offsets
unfolding range
range-IsTiling a zero h = absurd (ground arith)
range-IsTiling a (suc c) {offsets} h =
    let same : range_from a 0 a (suc c) ≡ offsets = ground arith in
    (
      omega arith,
      subst (IsTiling a (suc c) 0) same
          (range_from-IsTiling a a (suc c) 0 (omega arith) (omega arith)),
    )

-- The bytes of a buffer that is filled with a chunk at these offsets.
unfoldable pub tiles : ℕ → ℕ → Bytes → List ℕ → Bytes
tiles a c chunk [] = []
tiles a c chunk (p ∷ ps) = take (min c (a - p)) chunk ++ tiles a c chunk ps

pub length-empty : (xs : Bytes) → length xs ≡ 0 → xs ≡ []
length-empty [] h = refl
length-empty (x ∷ xs) h = absurd (omega arith)

-- A buffer of which the bytes before `o` are done.
pub set_slice-eq :
    (o n : ℕ) (chunk xs ys : Bytes)
    → length xs ≡ o
    → set_slice o n chunk (xs ++ ys) ≡ (xs ++ chunk) ++ drop n ys
set_slice-eq o n chunk xs ys h =
    ap (λ b. b ++ (chunk ++ drop (o + n) (xs ++ ys))) (take-append o xs ys h)
    ∙ ap (λ b. xs ++ (chunk ++ b)) (drop-append o n xs ys h)
    ∙ sym (append_assoc xs chunk (drop n ys))

pub slice-eq :
    (o n : ℕ) (xs ys zs : Bytes) → length xs ≡ o → length ys ≡ n → slice o n (xs ++ (ys ++ zs)) ≡ ys
slice-eq o n xs ys zs h k = ap (take n) (drop-past o xs (ys ++ zs) h) ∙ take-append n ys zs k
