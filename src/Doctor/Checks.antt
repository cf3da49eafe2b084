-- ===== src/Doctor/Checks.antt =====
-- Which checks of the doctor can fail (src/platval/doctor.py).
use mathlib.Core.Path.{subst}
-- The checks whose failure is the doctor's: the others only warn.
use pc_platform_validation_t.Base.{
  if◌then◌else◌, nat_eq, string_eq, option_eq, member, ok, String, ◌≡◌, refl, Bool, true, List, [],
  ◌∷◌, arith, leb, value_error, Exception, is_os_error, Result, raised, raise, ℕ, false, ◌&&◌,
}
use pc_platform_validation_t.Collectors.{CollectorCapability}
use pc_platform_validation_t.NativeProbe.{NativeProbeOutcome}
use pc_platform_validation_t.Doctor.{
  DoctorStatus, pass, warn, fail, DoctorCheck, make_check, dependency_check, probe_check,
  temperature_check, DoctorHost, is_supported_python, python_check, os_error_check, directory_check,
  disk_check,
}
use pc_platform_validation_t.Models.Plan.{text_length}

abbrev pub is_required : String → Bool
is_required name =
    member name
      ("Python version" ∷ "Python dependencies" ∷ "runtime directory" ∷ "temporary disk space" ∷ [])

abbrev pub Blames : DoctorCheck → Type 0
Blames c = c.status ≡ fail → is_required c.name ≡ true

-- A check that was made blames no optional facility.
unfoldable pub Fair : Result DoctorCheck → Type 0
Fair (ok c) = Blames c
Fair (raised e) = Unit

make_check-Fair :
    (name detail : String) (status : DoctorStatus)
    → (status ≡ fail → is_required name ≡ true)
    → Fair (make_check name status detail)
unfolding Fair make_check
make_check-Fair name detail status h =
    let sized =
      leb 1 (text_length name)
      && leb (text_length name) 128
      && leb 1 (text_length detail)
      && leb (text_length detail) 500 in
    elim sized
      as (λ b. Fair (
        if b
        then ok (record { name = name; status = status; detail = detail })
        else raise value_error "text is out of bounds")) [ true ↦ h | false ↦ tt ]

if-Fair : (b : Bool) (r r' : Result DoctorCheck) → Fair r → Fair r' → Fair (if b then r else r')
if-Fair true r r' f f' = f
if-Fair false r r' f f' = f'

pub temperature_check-Fair : (m : CollectorCapability) → Fair (temperature_check m)
unfolding temperature_check
temperature_check-Fair m =
    if-Fair m.available _ _ (make_check-Fair _ _ pass (λ h. ground arith))
      (make_check-Fair _ _ warn (λ h. ground arith))

pub probe_check-Fair : (x : NativeProbeOutcome) → Fair (probe_check x)
unfolding probe_check
probe_check-Fair x = make_check-Fair _ _ _ (λ h. ground arith)

pub dependency_check-Fair : (xs : List String) → Fair (dependency_check xs)
unfolding dependency_check
dependency_check-Fair [] = make_check-Fair _ _ _ (λ h. refl)
dependency_check-Fair (x ∷ xs) = make_check-Fair _ _ _ (λ h. refl)

pub fair : (r : Result DoctorCheck) {c : DoctorCheck} → Fair r → r ≡ ok c → Blames c
unfolding Fair
fair r f h = subst Fair h f

module _ {W : Type 0} (host : DoctorHost W) where
  pub python_check-Fair : Fair (python_check host)
  unfolding python_check
  python_check-Fair =
      if-Fair (is_supported_python host.python_version) _ _ (make_check-Fair _ _ _ (λ h. refl))
        (make_check-Fair _ _ _ (λ h. refl))

  os_error_check-Fair :
      (name text : String) (e : Exception)
      → is_required name ≡ true
      → Fair (os_error_check host name text e)
  unfolding os_error_check Fair
  os_error_check-Fair name text e h =
      if-Fair (is_os_error e.class) _ (raised e) (make_check-Fair name _ fail (λ _. h)) tt

  pub directory_check-Fair : (r : Result (Unit {0})) → Fair (directory_check host r)
  unfolding directory_check
  directory_check-Fair (ok _) = make_check-Fair _ _ _ (λ h. refl)
  directory_check-Fair (raised e) = os_error_check-Fair _ _ e refl

  pub disk_check-Fair : (r : Result ℕ) → Fair (disk_check host r)
  unfolding disk_check
  disk_check-Fair (raised e) = os_error_check-Fair _ _ e refl
  disk_check-Fair (ok n) =
      if-Fair (leb 134_217_728 n) _ _ (make_check-Fair _ _ _ (λ h. refl))
        (make_check-Fair _ _ _ (λ h. refl))
