-- ===== src/Doctor/Verdict.antt =====
-- What the doctor's report says (src/platval/doctor.py).
use mathlib.Core.Path.{subst}
use pc_platform_validation_t.Base.{
  any, nat_eq, string_eq, option_eq, All, ok, String, ◌≡◌, ◌↔◌, inl, inr, true, Option, List, [],
  ◌∷◌, ◌++◌, arith,
}
use pc_platform_validation_t.Base.Action.{
  Action, ◌>>=◌, pure, lift, query, >>=-eq-ok, lift-eq-ok, if_cases, pure-eq-ok,
}
use pc_platform_validation_t.Base.Floats.{Floats}
use pc_platform_validation_t.Collectors.{CollectorCapability, discover_psutil_capabilities}
use pc_platform_validation_t.NativeProbe.{
  NativeProbeOutcome, ProbeHost, locate_native_probe, invoke_native_probe,
}
use pc_platform_validation_t.Doctor.{
  pass, fail, DoctorCheck, DoctorReport, is_fail, is_warn, overall_status, DoctorHost,
  required_imports, python_check, missing_imports, directory_check, disk_check, check_disk,
  checks_after, runtime_checks, dependency_check, probe_check, temperature_check, find_metric,
  required_checks, sensor_check, make_report, native_check, run_doctor,
}
use pc_platform_validation_t.Doctor.Checks.{
  Blames, temperature_check-Fair, probe_check-Fair, dependency_check-Fair, fair, python_check-Fair,
  directory_check-Fair, disk_check-Fair,
}

abbrev pub IsVerdict : DoctorReport → Type 0
IsVerdict r =
    ((r.overall_status ≡ pass) ↔ All (λ c. c.status ≡ pass) r.checks)
    × ((r.overall_status ≡ fail) ↔ (any is_fail r.checks ≡ true))
    × All Blames r.checks

overall_status-pass :
    (cs : List DoctorCheck) → (overall_status cs ≡ pass) ↔ All (λ c. c.status ≡ pass) cs
unfolding overall_status is_fail is_warn
overall_status-pass [] = ground arith
overall_status-pass (c ∷ cs) = ground (arith, overall_status-pass cs)

overall_status-fail : (cs : List DoctorCheck) → (overall_status cs ≡ fail) ↔ (any is_fail cs ≡ true)
unfolding overall_status
overall_status-fail cs = ground arith

module _ {W : Type 0} (host : DoctorHost W) where
  check_disk-Blames :
      (path : String) (directory : DoctorCheck) (w : W) {cs : List DoctorCheck} {w' : W}
      → Blames directory
      → check_disk host path directory w ≡ (ok cs, w')
      → All Blames cs
  unfolding check_disk
  check_disk-Blames path directory w blames h =
      let (free, w₁) = host.free_bytes path w in
      let (disk, w₂, e, h₂) =
        >>=-eq-ok (lift (disk_check host free)) (λ disk. pure (directory ∷ (disk ∷ []))) w₁ h in
      let made = fair (disk_check host free) (disk_check-Fair host free) (lift-eq-ok _ w₁ e) in
      subst (All Blames) (pure-eq-ok (directory ∷ (disk ∷ [])) w₂ h₂) (blames, (made, tt))

  runtime_checks-Blames :
      (path : String) (w : W) {cs : List DoctorCheck} {w' : W}
      → runtime_checks host path w ≡ (ok cs, w')
      → All Blames cs
  unfolding runtime_checks checks_after
  runtime_checks-Blames path w h =
      let (made, w₁) = host.make_and_write path w in
      let (directory, w₂, e, h₂) =
        >>=-eq-ok (lift (directory_check host made)) (checks_after host path) w₁ h in
      let blames =
        fair (directory_check host made) (directory_check-Fair host made) (lift-eq-ok _ w₁ e) in
      elim (if_cases (is_fail directory) (pure (directory ∷ [])) (check_disk host path directory) w₂
        h₂) [
          | inl (_, h') ↦ subst (All Blames) (pure-eq-ok (directory ∷ []) w₂ h') (blames, tt)
          | inr (_, h') ↦ check_disk-Blames path directory w₂ blames h'
        ]

  required_checks-Blames :
      (path : String) (w : W) {cs : List DoctorCheck} {w' : W}
      → required_checks host path w ≡ (ok cs, w')
      → All Blames cs
  unfolding required_checks
  required_checks-Blames path w h =
      let finish : DoctorCheck → DoctorCheck → List DoctorCheck → Action W (List DoctorCheck) =
        λ python dependencies runtime. pure (python ∷ (dependencies ∷ runtime)) in
      let (python, w₁, e₁, h₁) =
        >>=-eq-ok (lift (python_check host))
          (λ python. query (missing_imports host required_imports) >>= λ absent.
            lift (dependency_check absent) >>= λ dependencies. host.resolve path >>= λ resolved.
            runtime_checks host resolved >>= finish python dependencies)
          w h in
      let (absent, w₂) = missing_imports host required_imports w₁ in
      let (dependencies, w₃, e₃, h₃) =
        >>=-eq-ok (lift (dependency_check absent))
          (λ dependencies. host.resolve path >>= λ resolved.
            runtime_checks host resolved >>= finish python dependencies)
          w₂ h₁ in
      let (resolved, w₄, _, h₄) =
        >>=-eq-ok (host.resolve path)
          (λ resolved. runtime_checks host resolved >>= finish python dependencies) w₃ h₃ in
      let (runtime, w₅, e₅, h₅) =
        >>=-eq-ok (runtime_checks host resolved) (finish python dependencies) w₄ h₄ in
      subst (All Blames) (pure-eq-ok (python ∷ (dependencies ∷ runtime)) w₅ h₅) (
        fair (python_check host) (python_check-Fair host) (lift-eq-ok _ w e₁),
        (
          fair (dependency_check absent) (dependency_check-Fair absent) (lift-eq-ok _ w₂ e₃),
          runtime_checks-Blames resolved w₄ e₅,
        ),
      )

  sensor_check-Blames :
      (w : W) {p : DoctorCheck × List CollectorCapability} {w' : W}
      → sensor_check host w ≡ (ok p, w')
      → Blames p.0
  unfolding sensor_check
  sensor_check-Blames w {p} h =
      let (frequency, w₁) = host.frequency_available w in
      let (temperature, w₂) = host.temperature_available w₁ in
      let capabilities = discover_psutil_capabilities frequency temperature in
      let finish : DoctorCheck → Action W (DoctorCheck × List CollectorCapability) =
        λ thermal. pure (thermal, capabilities) in
      let (capability, w₃, _, h₃) =
        >>=-eq-ok (lift (find_metric "temperature" capabilities))
          (λ c. lift (temperature_check c) >>= finish) w₂ h in
      let (thermal, w₄, e, h₄) = >>=-eq-ok (lift (temperature_check capability)) finish w₃ h₃ in
      subst {A = DoctorCheck × List CollectorCapability} (λ p. Blames p.0)
        (pure-eq-ok (thermal, capabilities) w₄ h₄)
        (fair (temperature_check capability) (temperature_check-Fair capability)
          (lift-eq-ok _ w₃ e))

All-append : (cs ds : List DoctorCheck) → All Blames cs → All Blames ds → All Blames (cs ++ ds)
All-append [] ds h k = k
All-append (c ∷ cs) ds (h, hs) k = (h, All-append cs ds hs k)

make_report-IsVerdict :
    (cs : List DoctorCheck) (capabilities : List CollectorCapability)
    → All Blames cs
    → IsVerdict (make_report cs capabilities)
unfolding make_report
make_report-IsVerdict cs capabilities blames =
    (overall_status-pass cs, overall_status-fail cs, blames)

module _ {F W : Type 0} ⦃o : Floats F⦄ (probe_host : ProbeHost F W) where
  native_check-Blames :
      (path : Option String) (w : W) {c : DoctorCheck} {w' : W}
      → native_check probe_host path w ≡ (ok c, w')
      → Blames c
  unfolding native_check
  native_check-Blames path w h =
      let invoke : Option String → Action W NativeProbeOutcome =
        λ located. invoke_native_probe probe_host located (o.literal 5 0) in
      let (located, w₁, _, h₁) =
        >>=-eq-ok (locate_native_probe probe_host path)
          (λ located. invoke located >>= λ probe. lift (probe_check probe)) w h in
      let (probe, w₂, _, h₂) =
        >>=-eq-ok (invoke located) (λ probe. lift (probe_check probe)) w₁ h₁ in
      fair (probe_check probe) (probe_check-Fair probe) (lift-eq-ok _ w₂ h₂)

module _ {F W : Type 0} ⦃o : Floats F⦄ (host : DoctorHost W) (probe_host : ProbeHost F W) where
  -- A doctor's report passes exactly when every check does, and fails exactly when some check does;
  -- what fails is Python, its dependencies, the runtime directory or its space: without the probe or
  -- a temperature source it only warns.
  pub run_doctor-IsVerdict :
      (runtime_directory : String) (native_probe_path : Option String) (w : W) {r : DoctorReport}
      {w' : W}
      → run_doctor host probe_host runtime_directory native_probe_path w ≡ (ok r, w')
      → IsVerdict r
  unfolding run_doctor
  run_doctor-IsVerdict runtime_directory native_probe_path w h =
      let sensors : List DoctorCheck → DoctorCheck → Action W DoctorReport = λ required native.
        sensor_check host >>= λ p. pure (make_report (required ++ (native ∷ (p.0 ∷ []))) p.1) in
      let native_and_on : List DoctorCheck → Action W DoctorReport =
        λ required. native_check probe_host native_probe_path >>= sensors required in
      let (required, w₁, e₁, h₁) =
        >>=-eq-ok (required_checks host runtime_directory) native_and_on w h in
      let (native, w₂, e₂, h₂) =
        >>=-eq-ok (native_check probe_host native_probe_path) (sensors required) w₁ h₁ in
      let (p, w₃, e₃, h₃) =
        >>=-eq-ok (sensor_check host)
          (λ p. pure (make_report (required ++ (native ∷ (p.0 ∷ []))) p.1)) w₂ h₂ in
      let blames =
        All-append required (native ∷ (p.0 ∷ []))
          (required_checks-Blames host runtime_directory w e₁)
          (
            native_check-Blames probe_host native_probe_path w₁ e₂,
            (sensor_check-Blames host w₂ e₃, tt),
          ) in
      subst IsVerdict (pure-eq-ok _ w₃ h₃) (make_report-IsVerdict _ p.1 blames)
