-- ===== src/Tests/Doctor.antt =====
-- A probe that answers, and a doctor without free space.
use pc_platform_validation_t.Base.{
  nat_eq, string_eq, option_eq, Result, ok, ℕ, ◌+◌, ◌≡◌, refl, true, false, none, some, [], ◌∷◌,
  String,
}
use pc_platform_validation_t.Base.Int.{ℤ, pos}
use pc_platform_validation_t.NativeProbe.{
  NativeProbeData, join_words, take_text, summarize_stderr, completed, ProbeHost,
  invoke_native_probe,
}
use pc_platform_validation_t.NativeProbe.Outcome.{IsSound, invoke_native_probe-IsSound}
use pc_platform_validation_t.Doctor.{
  DoctorReport, DoctorHost, run_doctor, pass, warn, fail, DoctorCheck, required_imports,
  python_check, missing_imports, runtime_checks, dependency_check, required_checks, make_report,
  native_check, make_check,
}
use pc_platform_validation_t.Tests.Numbers.{whole_floats}
use pc_platform_validation_t.Doctor.Verdict.{IsVerdict, run_doctor-IsVerdict}
use pc_platform_validation_t.Collectors.{discover_psutil_capabilities}

abbrev test_data : NativeProbeData
test_data = record {
  schema_version = pos 1;
  probe_version = "1.0";
  architecture = "x86_64";
  vendor_id = "GenuineIntel";
  brand_string = none;
  max_basic_leaf = pos 13;
  max_extended_leaf = pos 0;
  features = record {
    sse2 = true;
    sse41 = true;
    sse42 = true;
    avx_hardware = true;
    avx2_hardware = false;
    avx_os_enabled = true;
    aes = true;
    vmx = false;
    svm = false;
    virtualization_hardware = false;
  };
  caches =
      record {
        level = pos 1;
        kind = "data";
        size_bytes = pos 32_768;
        line_size_bytes = pos 64;
        sets = pos 64;
        ways = pos 8;
        partitions = pos 1;
      }
      ∷ [];
}

abbrev test_probe_host : ProbeHost ℤ ℕ
test_probe_host = record {
  is_windows = false;
  resolve = λ path w. (ok path, w);
  which = λ name w. (none, w);
  is_file = λ path w. (true, w);
  run = λ path timeout_seconds w. (completed (pos 0) "{}" " late  warning ", w + 1);
  decimal = λ n. "n";
  general = λ x. "5";
  type_name = λ e. "ValueError";
  utf8_length = λ s. 2;
  load_document = λ s. ok test_data;
}

-- Python 3.12 with all its modules, and 7 free bytes.
abbrev test_doctor_host : DoctorHost ℕ
test_doctor_host = record {
  python_version = (3, 12);
  is_importable = λ name w. (true, w);
  resolve = λ path w. (ok path, w);
  make_and_write = λ path w. (ok tt, w + 1);
  free_bytes = λ path w. (ok 7, w);
  frequency_available = λ w. (true, w);
  temperature_available = λ w. (false, w);
  decimal = λ n. "3";
  type_name = λ e. "OSError";
}

summarize_stderr_words : summarize_stderr " late  warning " ≡ some "late warning"
unfolding summarize_stderr join_words take_text
summarize_stderr_words = refl

abbrev doctor_run : Result DoctorReport × ℕ
doctor_run = run_doctor test_doctor_host test_probe_host "run" (some "probe") 0

abbrev passed : String → String → DoctorCheck
passed name detail = record { name = name; status = pass; detail = detail }

abbrev doctor_report : DoctorReport
doctor_report =
    make_report
      (passed "Python version" "Python 3.3 is supported."
        ∷ passed "Python dependencies" "All required Python imports are available."
        ∷ passed "runtime directory" "Runtime directory is writable."
        ∷ record {
          name = "temporary disk space";
          status = fail;
          detail = "Less than 128 MiB is free for bounded temporary validation.";
        }
        ∷ passed "native CPUID probe" "Native probe 1.0 is compatible."
        ∷ record {
          name = "temperature telemetry";
          status = warn;
          detail =
              "A trustworthy temperature source is unavailable; runtime limits remain conservative.";
        }
        ∷ [])
      (discover_psutil_capabilities true false)

doctor_run_returns : doctor_run ≡ (ok doctor_report, 2)
unfolding run_doctor required_checks python_check missing_imports required_imports dependency_check
    runtime_checks native_check make_check
doctor_run_returns = refl

run_doctor-IsVerdict_example : IsVerdict doctor_report
run_doctor-IsVerdict_example =
    run_doctor-IsVerdict test_doctor_host test_probe_host "run" (some "probe") 0 {r = doctor_report}
      {w' = 2} doctor_run_returns

invoke_native_probe-IsSound_example :
    IsSound (invoke_native_probe test_probe_host (some "probe") (pos 5) 0).0
invoke_native_probe-IsSound_example =
    invoke_native_probe-IsSound test_probe_host (some "probe") (pos 5) 0
