-- ===== src/Collectors/Sampler.antt =====
-- The telemetry sampler (src/platval/collectors/sampler.py): a thread that appends samples until it
-- is told to stop or has enough of them.
pub mod Steps
pub mod Stop
use pc_platform_validation_t.Base
-- Where the background thread is: at the guard of its loop, between the guard and the append, or at
-- its end.
use pc_platform_validation_t.Base.{
  ltb, if◌then◌else◌, ◌==◌, nat_eq, string_eq, option_eq, length, ExceptionClass, value_error,
  runtime_error, attribute_error, psutil_error, Exception, is_runtime_error, is_os_error, Result,
  ok, raised, raise, ◌>>=◌, ◌>>◌, ℕ, zero, suc, ◌+◌, String, ◌<>◌, Bool, true, false, not, ◌&&◌,
  ◌||◌, Option, none, some, List, [], ◌∷◌, ◌++◌,
}
use pc_platform_validation_t.Base.Int.{ℤ, pos, negsuc}
use pc_platform_validation_t.Base.Floats.{Floats, float_le, zero_float}
use pc_platform_validation_t.Models.Results.{Timestamp}
use pc_platform_validation_t.Models.Telemetry.{
  SensorReading, TelemetrySample, core_utilization_is_percentage,
}

pub data Thread : Type 0 where
  not_started waiting collecting finished : Thread

pub record Sampler (F : Type 0) : Type 0 where
  pub interval : F
  pub max_samples : ℕ
  pub stop_event : Bool
  pub samples : List (TelemetrySample F)
  pub thread : Thread

-- What psutil and the clocks say for one sample; a call may raise.
pub record Readings (F : Type 0) : Type 0 where
  pub cpu_frequency : Result (Option F)
  pub temperatures : Result (List (String × List (String × F)))
  pub available_memory : Result ℕ
  pub process_memory : Result ℕ
  pub disk_free : Result ℕ
  pub elapsed_seconds : F
  pub timestamp : Timestamp
  pub cpu_percent : Result F
  pub per_core_percent : Result (List F)
  pub process_percent : Result F
  pub elapsed_at_error : F
  pub timestamp_at_error : Timestamp
  pub type_name : Exception → String
  pub decimal : ℕ → String

-- `except (AttributeError, NotImplementedError, OSError, RuntimeError)`
unfoldable pub is_unavailable : ExceptionClass → Bool
is_unavailable attribute_error = true
is_unavailable c = is_os_error c || is_runtime_error c

-- `except (OSError, RuntimeError, psutil.Error)`
unfoldable pub is_sample_error : ExceptionClass → Bool
is_sample_error psutil_error = true
is_sample_error c = is_os_error c || is_runtime_error c

-- A reading that a sample can do without, with the error to note.
unfoldable pub optional_reading :
    {A : Type 0} → (Exception → String) → String → A → Result A → Result (A × List String)
unfolding is_unavailable
optional_reading type_name label default (ok a) = ok (a, [])
optional_reading type_name label default (raised e) =
    if is_unavailable e.class then ok (default, (label <> ":" <> type_name e) ∷ []) else raised e

module _ {F : Type 0} where
  -- The entries of a source from `index` on.
  unfoldable pub readings_of :
      (ℕ → String) → String → ℕ → List (String × F) → List (SensorReading F)
  readings_of decimal source index [] = []
  readings_of decimal source index ((label, current) ∷ entries) =
      record {
        name = if label == "" then "sensor-" <> decimal index else label;
        value = current;
        unit = "degC";
        source = "psutil:" <> source;
      }
      ∷ readings_of decimal source (index + 1) entries

  unfoldable pub collect_temperatures :
      (ℕ → String) → List (String × List (String × F)) → List (SensorReading F)
  unfolding readings_of
  collect_temperatures decimal [] = []
  collect_temperatures decimal ((source, entries) ∷ sources) =
      readings_of decimal source 0 entries ++ collect_temperatures decimal sources

  unfoldable pub collect_sample : ⦃o : Floats F⦄ → Readings F → Result (TelemetrySample F)
  unfolding optional_reading collect_temperatures core_utilization_is_percentage
  collect_sample r = do
    (frequency, errors) ← optional_reading r.type_name "cpu_frequency" none r.cpu_frequency
    (sources, more_errors) ← optional_reading r.type_name "temperature" [] r.temperatures
    memory ← r.available_memory
    process_memory ← r.process_memory
    disk_free ← r.disk_free
    cpu ← r.cpu_percent
    cores ← r.per_core_percent
    process ← r.process_percent
    per_core ← core_utilization_is_percentage (some cores)
    ok (record {
      elapsed_seconds = r.elapsed_seconds;
      timestamp = r.timestamp;
      cpu_utilization_percent = some cpu;
      per_core_utilization_percent = per_core;
      cpu_frequency_mhz = frequency;
      process_cpu_percent = some process;
      process_memory_bytes = some process_memory;
      available_memory_bytes = some memory;
      disk_free_bytes = some disk_free;
      temperatures = collect_temperatures r.decimal sources;
      collector_errors = errors ++ more_errors;
    })

  -- The sample that stands for one that could not be collected.
  unfoldable pub error_sample : F → Timestamp → String → TelemetrySample F
  error_sample elapsed_seconds timestamp class_name = record {
    elapsed_seconds = elapsed_seconds;
    timestamp = timestamp;
    cpu_utilization_percent = none;
    per_core_utilization_percent = none;
    cpu_frequency_mhz = none;
    process_cpu_percent = none;
    process_memory_bytes = none;
    available_memory_bytes = none;
    disk_free_bytes = none;
    temperatures = [];
    collector_errors = ("sample:" <> class_name) ∷ [];
  }

  unfoldable pub make_sampler : ⦃o : Floats F⦄ → F → ℤ → Result (Sampler F)
  make_sampler interval_seconds max_samples =
      if float_le interval_seconds zero_float
      then raise value_error "sampling interval must be greater than zero"
      else elim max_samples [
        | pos zero ↦ raise value_error "maximum sample count must be greater than zero"
        | pos (suc n) ↦ ok (record {
          interval = interval_seconds;
          max_samples = suc n;
          stop_event = false;
          samples = [];
          thread = not_started;
        })
        | negsuc n ↦ raise value_error "maximum sample count must be greater than zero"
      ]

  unfoldable pub start : Sampler F → Result (Sampler F)
  start s = elim s.thread [
    | not_started ↦ ok (record s { thread = waiting })
    | waiting ↦ raise runtime_error "telemetry sampler has already started"
    | collecting ↦ raise runtime_error "telemetry sampler has already started"
    | finished ↦ raise runtime_error "telemetry sampler has already started"
  ]

  -- The guard of the loop.
  unfoldable pub check_guard : Sampler F → Sampler F
  check_guard s =
      if not s.stop_event && ltb (length s.samples) s.max_samples
      then record s { thread = collecting }
      else record s { thread = finished }

  -- The body of the loop: an exception that it does not catch ends the thread.
  unfoldable pub append_sample : Readings F → Result (TelemetrySample F) → Sampler F → Sampler F
  unfolding is_sample_error error_sample
  append_sample r (ok sample) s = record s {
    samples = s.samples ++ (sample ∷ []);
    thread = waiting;
  }
  append_sample r (raised e) s =
      if is_sample_error e.class
      then record s {
        samples =
            s.samples
            ++ (error_sample r.elapsed_at_error r.timestamp_at_error (r.type_name e) ∷ []);
        thread = waiting;
      }
      else record s { thread = finished }

  -- What the thread does next, by itself.
  unfoldable pub thread_step : ⦃o : Floats F⦄ → Readings F → Sampler F → Sampler F
  unfolding check_guard append_sample collect_sample
  thread_step r s = elim s.thread [
    | not_started ↦ s
    | waiting ↦ check_guard s
    | collecting ↦ append_sample r (collect_sample r) s
    | finished ↦ s
  ]

  unfoldable pub request_stop : Sampler F → Sampler F
  request_stop s = record s { stop_event = true }

  unfoldable pub is_alive : Sampler F → Bool
  is_alive s = elim s.thread [
    | not_started ↦ false
    | waiting ↦ true
    | collecting ↦ true
    | finished ↦ false
  ]

  -- What the thread does while `stop` waits for it, with the readings that it takes.
  unfoldable pub thread_steps : ⦃o : Floats F⦄ → List (Readings F) → Sampler F → Sampler F
  unfolding thread_step
  thread_steps [] s = s
  thread_steps (r ∷ rs) s = thread_steps rs (thread_step r s)

  unfoldable pub stop :
      ⦃o : Floats F⦄ → List (Readings F) → Sampler F → Result (List (TelemetrySample F)) × Sampler F
  unfolding request_stop thread_steps is_alive
  stop rs s =
      let s' = thread_steps rs (request_stop s) in
      (
        if is_alive s'
            then raise runtime_error "telemetry sampler did not stop within its bounded join time"
            else ok s'.samples,
        s',
      )
