-- ===== src/Tests/Sampler.antt =====
-- A sampler that is started, takes one sample and is stopped.
use pc_platform_validation_t.Base.{
  nat_eq, string_eq, option_eq, length, attribute_error, Result, ok, raise, ◌+◌, ◌≤◌, ◌≡◌, refl,
  true, false, List, [], ◌∷◌,
}
use pc_platform_validation_t.Base.Int.{ℤ, pos}
use pc_platform_validation_t.Models.Results.{Timestamp}
use pc_platform_validation_t.Models.Telemetry.{TelemetrySample}
use pc_platform_validation_t.Collectors.Sampler.{
  not_started, waiting, Sampler, Readings, make_sampler, start, thread_step, request_stop, stop,
}
use pc_platform_validation_t.Collectors.Sampler.Steps.{
  starts, goes_on, stops, Reaches, here, step, sampler_bounded, stopped_takes_one,
}
use pc_platform_validation_t.Collectors.Sampler.Stop.{stop_returns}
use pc_platform_validation_t.Tests.Numbers.{whole_floats}

abbrev now : Timestamp
now = record { instant = 5; has_offset = true }

abbrev test_readings : Readings ℤ
test_readings = record {
  cpu_frequency = raise attribute_error "";
  temperatures = ok (("acpi", (("", pos 40) ∷ [])) ∷ []);
  available_memory = ok 1024;
  process_memory = ok 64;
  disk_free = ok 512;
  elapsed_seconds = pos 1;
  timestamp = now;
  cpu_percent = ok (pos 12);
  per_core_percent = ok (pos 10 ∷ pos 14 ∷ []);
  process_percent = ok (pos 3);
  elapsed_at_error = pos 2;
  timestamp_at_error = now;
  type_name = λ e. "AttributeError";
  decimal = λ n. "0";
}

abbrev test_sampler : Sampler ℤ
test_sampler = record {
  interval = pos 1;
  max_samples = 2;
  stop_event = false;
  samples = [];
  thread = not_started;
}

abbrev started_sampler : Sampler ℤ
started_sampler = record test_sampler { thread = waiting }

abbrev sampled : Sampler ℤ
sampled = thread_step test_readings (thread_step test_readings started_sampler)

-- From the start to the stop, and the thread after it.
sampler_run : Reaches test_sampler (thread_step test_readings (request_stop sampled))
unfolding start
sampler_run = step (starts refl) (
    step (goes_on test_readings)
      (step (goes_on test_readings) (step stops (step (goes_on test_readings) here))))

sampler_bounded_example : length (thread_step test_readings (request_stop sampled)).samples ≤ 2
unfolding make_sampler
sampler_bounded_example = sampler_bounded (pos 1) 2 {s = test_sampler} refl sampler_run

stopped_takes_one_example :
    length (thread_step test_readings (request_stop sampled)).samples
    ≤ length (request_stop sampled).samples + 1
unfolding request_stop
stopped_takes_one_example =
    stopped_takes_one (request_stop sampled) refl (step (goes_on test_readings) here)

stop_returns_example :
    (stop (test_readings ∷ (test_readings ∷ [])) started_sampler).0
    ≡ ok (stop (test_readings ∷ (test_readings ∷ [])) started_sampler).1.samples
stop_returns_example = stop_returns test_readings test_readings [] started_sampler

abbrev stopped : Result (List (TelemetrySample ℤ)) × Sampler ℤ
stopped = stop (test_readings ∷ (test_readings ∷ [])) sampled
