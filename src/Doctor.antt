-- ===== src/Doctor.antt =====
-- Local prerequisites and capabilities (src/platval/doctor.py).
pub mod Checks
pub mod Verdict
use pc_platform_validation_t.Base
use pc_platform_validation_t.Base.{
  ltb, leb, if◌then◌else◌, any, ◌==◌, nat_eq, string_eq, option_eq, All, runtime_error, Exception,
  is_os_error, Result, ok, raised, raise, ℕ, String, ◌<>◌, Bool, true, false, not, ◌&&◌, ◌||◌,
  Option, none, some, List, [], ◌∷◌, value_error, stop_iteration, ◌++◌,
}
use pc_platform_validation_t.Base.Action.{Action, ◌>>=◌, ◌>>◌, pure, lift, attempt, query}
use pc_platform_validation_t.Collectors.{CollectorCapability, discover_psutil_capabilities}
use pc_platform_validation_t.NativeProbe.{
  available, missing, incompatible, error, NativeProbeOutcome, ProbeHost, failure,
  invoke_native_probe, locate_native_probe,
}
use pc_platform_validation_t.Base.Floats.{Floats}
use pc_platform_validation_t.Models.Plan.{telemetry, text_length}

pub data DoctorStatus : Type 0 where
  pass warn fail : DoctorStatus

pub record DoctorCheck : Type 0 where
  pub name : String
  pub status : DoctorStatus
  pub detail : String

pub record DoctorReport : Type 0 where
  pub overall_status : DoctorStatus
  pub checks : List DoctorCheck
  pub capabilities : List CollectorCapability

-- `check.status is DoctorStatus.FAIL`
unfoldable pub is_fail : DoctorCheck → Bool
is_fail c = elim c.status [ pass ↦ false | warn ↦ false | fail ↦ true ]

unfoldable pub is_warn : DoctorCheck → Bool
is_warn c = elim c.status [ pass ↦ false | warn ↦ true | fail ↦ false ]

unfoldable pub overall_status : List DoctorCheck → DoctorStatus
unfolding is_fail is_warn
overall_status checks =
    if any is_fail checks then fail else if any is_warn checks then warn else pass

-- What the doctor reads: the version of Python, whether a module is found, the runtime directory,
-- which is made and written to, and its free space, psutil's sensors, and
-- `str` of a number and the name of an exception's class.
pub record DoctorHost (W : Type 0) : Type 0 where
  pub python_version : ℕ × ℕ
  pub is_importable : String → W → Bool × W
  pub resolve : String → Action W String
  pub make_and_write : String → Action W (Unit {0})
  pub free_bytes : String → Action W ℕ
  pub frequency_available : W → Bool × W
  pub temperature_available : W → Bool × W
  pub decimal : ℕ → String
  pub type_name : Exception → String

unfoldable pub required_imports : List String
required_imports = "jinja2" ∷ "psutil" ∷ "pydantic" ∷ "yaml" ∷ "rich" ∷ "typer" ∷ []

-- `DoctorCheck(...)` with the bounds of its fields.
unfoldable pub make_check : String → DoctorStatus → String → Result DoctorCheck
unfolding text_length
make_check name status detail =
    if leb 1 (text_length name)
      && leb (text_length name) 128
      && leb 1 (text_length detail)
      && leb (text_length detail) 500
    then ok (record { name = name; status = status; detail = detail })
    else raise value_error "text is out of bounds"

-- `", ".join(names)`
unfoldable pub comma_separated : List String → String
comma_separated [] = ""
comma_separated (name ∷ []) = name
comma_separated (name ∷ (next ∷ names)) = name <> ", " <> comma_separated (next ∷ names)

-- `sys.version_info >= (3, 12)`
unfoldable pub is_supported_python : ℕ × ℕ → Bool
is_supported_python (major, minor) = ltb 3 major || (major == 3 && leb 12 minor)

module _ {W : Type 0} (host : DoctorHost W) where
  unfoldable pub python_check : Result DoctorCheck
  unfolding is_supported_python
  python_check =
      let (major, minor) = host.python_version in
      if is_supported_python host.python_version
      then make_check "Python version" pass
          ("Python " <> host.decimal major <> "." <> host.decimal minor <> " is supported.")
      else make_check "Python version" fail "Python 3.12 or newer is required."

  -- `[name for name in names if importlib.util.find_spec(name) is None]`
  unfoldable pub missing_imports : List String → W → List String × W
  missing_imports [] w = ([], w)
  missing_imports (name ∷ names) w =
      let (found, w₁) = host.is_importable name w in
      let (rest, w₂) = missing_imports names w₁ in (if found then rest else name ∷ rest, w₂)

  -- What a caught OSError makes of a check; other exceptions go on.
  unfoldable pub os_error_check : String → String → Exception → Result DoctorCheck
  os_error_check name text e =
      if is_os_error e.class
      then make_check name fail (text <> " (" <> host.type_name e <> ").")
      else raised e

  unfoldable pub directory_check : Result (Unit {0}) → Result DoctorCheck
  directory_check (ok _) = make_check "runtime directory" pass "Runtime directory is writable."
  directory_check (raised e) =
      os_error_check "runtime directory" "Runtime directory is not writable" e

  unfoldable pub disk_check : Result ℕ → Result DoctorCheck
  disk_check (raised e) =
      os_error_check "temporary disk space" "Temporary disk space could not be checked" e
  disk_check (ok free_bytes) =
      if leb 134_217_728 free_bytes
      then make_check "temporary disk space" pass "Temporary disk space meets the 128 MiB minimum."
      else make_check "temporary disk space" fail
          "Less than 128 MiB is free for bounded temporary validation."

  unfoldable pub check_disk : String → DoctorCheck → Action W (List DoctorCheck)
  unfolding disk_check
  check_disk runtime_directory directory = do
    free ← attempt (host.free_bytes runtime_directory)
    disk ← lift (disk_check free)
    pure (directory ∷ (disk ∷ []))

  -- After the directory, whose failure ends the checks.
  unfoldable pub checks_after : String → DoctorCheck → Action W (List DoctorCheck)
  unfolding check_disk is_fail
  checks_after runtime_directory directory =
      if is_fail directory then pure (directory ∷ []) else check_disk runtime_directory directory

  unfoldable pub runtime_checks : String → Action W (List DoctorCheck)
  unfolding directory_check checks_after
  runtime_checks runtime_directory = do
    made ← attempt (host.make_and_write runtime_directory)
    directory ← lift (directory_check made)
    checks_after runtime_directory directory

unfoldable pub dependency_check : List String → Result DoctorCheck
unfolding comma_separated
dependency_check [] =
    make_check "Python dependencies" pass "All required Python imports are available."
dependency_check (name ∷ names) =
    make_check "Python dependencies" fail
      ("Missing required imports: " <> comma_separated (name ∷ names) <> ".")

-- `a or b` on an optional text.
unfoldable pub text_or : Option String → String → String
text_or none default = default
text_or (some s) default = if s == "" then default else s

unfoldable pub probe_check : NativeProbeOutcome → Result DoctorCheck
unfolding text_or
probe_check probe =
    make_check "native CPUID probe"
      (elim probe.status [ available ↦ pass | missing ↦ warn | incompatible ↦ warn | error ↦ warn ])
      (elim probe.data_of [
        | none ↦ text_or probe.limitation "Native CPUID detail is unavailable."
        | some d ↦ "Native probe " <> d.probe_version <> " is compatible."
      ])

unfoldable pub temperature_check : CollectorCapability → Result DoctorCheck
unfolding text_or
temperature_check temperature =
    if temperature.available
    then make_check "temperature telemetry" pass "A temperature source is available."
    else make_check "temperature telemetry" warn
        (text_or temperature.limitation "Temperature telemetry is unavailable.")

-- `next(item for item in capabilities if item.metric == "temperature")`
unfoldable pub find_metric : String → List CollectorCapability → Result CollectorCapability
find_metric metric [] = raise stop_iteration ""
find_metric metric (c ∷ cs) = if c.metric == metric then ok c else find_metric metric cs

module _ {W : Type 0} (host : DoctorHost W) where
  -- The checks of Python and of the runtime directory.
  unfoldable pub required_checks : String → Action W (List DoctorCheck)
  unfolding python_check required_imports missing_imports dependency_check runtime_checks
  required_checks runtime_directory = do
    python ← lift (python_check host)
    absent ← query (missing_imports host required_imports)
    dependencies ← lift (dependency_check absent)
    resolved ← host.resolve runtime_directory
    runtime ← runtime_checks host resolved
    pure (python ∷ (dependencies ∷ runtime))

  -- The check of the sensors, with the capabilities.
  unfoldable pub sensor_check : Action W (DoctorCheck × List CollectorCapability)
  unfolding find_metric temperature_check discover_psutil_capabilities
  sensor_check = do
    frequency ← query host.frequency_available
    temperature ← query host.temperature_available
    let capabilities = discover_psutil_capabilities frequency temperature
    capability ← lift (find_metric "temperature" capabilities)
    thermal ← lift (temperature_check capability)
    pure (thermal, capabilities)

unfoldable pub make_report : List DoctorCheck → List CollectorCapability → DoctorReport
unfolding overall_status
make_report checks capabilities = record {
  overall_status = overall_status checks;
  checks = checks;
  capabilities = capabilities;
}

-- The checks and the report; the probe is invoked with its default timeout of five seconds.
module _ {F W : Type 0} ⦃o : Floats F⦄ (probe_host : ProbeHost F W) where
  unfoldable pub native_check : Option String → Action W DoctorCheck
  unfolding locate_native_probe invoke_native_probe probe_check
  native_check native_probe_path = do
    located ← locate_native_probe probe_host native_probe_path
    probe ← invoke_native_probe probe_host located (o.literal 5 0)
    lift (probe_check probe)

module _ {F W : Type 0} ⦃o : Floats F⦄ (host : DoctorHost W) (probe_host : ProbeHost F W) where
  unfoldable pub run_doctor : String → Option String → Action W DoctorReport
  unfolding required_checks native_check sensor_check make_report
  run_doctor runtime_directory native_probe_path = do
    required ← required_checks host runtime_directory
    native ← native_check probe_host native_probe_path
    sensors ← sensor_check host
    pure (make_report (required ++ (native ∷ (sensors.0 ∷ []))) sensors.1)
