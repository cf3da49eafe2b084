-- ===== src/Demo.antt =====
-- The plan of the failure demonstration (src/platval/demo.py).
use pc_platform_validation_t.Base.{
  nat_eq, string_eq, option_eq, Result, String, Bool, true, false, none, some, [], ◌∷◌,
}
use pc_platform_validation_t.Base.Int.{pos}
use pc_platform_validation_t.Base.Floats.{Floats}
use pc_platform_validation_t.Models.Scalar.{bool, integer, one}
use pc_platform_validation_t.Models.Plan.{
  equals, cpu, warning, checksum_mismatch, TestPlan, validate_plan,
}

module _ {F : Type 0} ⦃o : Floats F⦄ where
  -- The plan that is given to the validators, with the defaults of the other fields.
  unfoldable pub synthetic_plan : TestPlan F
  synthetic_plan = record {
    schema_version = 1;
    name = "synthetic-failure-demo";
    description = "Software-only checksum mismatch demonstrating labelled failure evidence.";
    sampling_interval_seconds = o.literal 1 1;
    extended = false;
    tests =
        record {
          id = "CPU-001";
          name = "Injected integer checksum mismatch";
          description = "Deliberately compares against an incorrect checksum.";
          category = cpu;
          enabled = true;
          timeout_seconds = o.of_int (pos 5);
          iterations = 1;
          parameters =
              ("workers", integer (pos 1))
              ∷ ("workload_size", integer (pos 16))
              ∷ ("block_size_bytes", integer (pos 4096))
              ∷ [];
          requirements =
              record {
                metric = "checksum_valid";
                operator = equals;
                expected = one (bool true);
                unit = none;
              }
              ∷ [];
          severity = warning;
          tags = "synthetic" ∷ "fault-injection" ∷ [];
          safety_limits = record {
            max_workers = none;
            max_memory_bytes = none;
            max_temporary_file_bytes = none;
            thermal_stop_celsius = none;
          };
          fault_injection = some checksum_mismatch;
        }
        ∷ [];
  }

  unfoldable pub failure_demo_plan : (String → Bool) → Result (TestPlan F)
  unfolding validate_plan synthetic_plan
  failure_demo_plan is_test_id = validate_plan is_test_id synthetic_plan
