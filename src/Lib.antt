-- ===== src/Lib.antt =====
-- PC Platform Validation Toolkit: the parts of src/platval that decide what a validation run,
-- its stored evidence and its comparison with a baseline say. Paths below are under src/platval.
--
-- A plan (models/plan.py) is a list of tests with requirements. The runner (runner/engine.py)
-- executes each test's case, lets the evaluator (evaluation/evaluator.py) judge the measurements
-- and collects the results (models/results.py) in a run, which the repository
-- (persistence/repository.py) stores. A baseline names a stored run, and the baseline service
-- (baselines/service.py) compares later runs with it.
--
-- The files:
--   Base          exceptions and results, calls with effects, dicts, numbers, tests.
--   Models        the records of plans, results, telemetry and platforms, with their validators
--                 (models/*.py); Models/Plan/Validation and Models/Results/Aggregate prove what
--                 the validators let through.
--   Evaluation    evaluate_requirement; Evaluation/Spec says what each operator means on its own,
--                 Evaluation/Laws and Evaluation/Met relate the two.
--   Workloads     limits (safety.py), tokens and deadlines (control.py), rates (timing.py), and of
--                 the workloads (cpu.py, memory.py, storage.py) the configurations, the division of
--                 operations among workers and the default allocation. Host is what the workloads
--                 call and do not implement; Integer, FloatingPoint, Stability, Memory and Storage are
--                 the bodies of cpu.py, memory.py and storage.py over it.
--   Collectors    the list of capabilities (collectors/capabilities.py), and in Sampler the
--                 telemetry sampler (collectors/sampler.py), whose thread and caller take steps in
--                 any order.
--   Inventory     the snapshot of a platform (inventory/collector.py).
--   NativeProbe   the call of the native CPUID probe and the validation of what it prints
--                 (inventory/native_probe.py).
--   Doctor        the checks of run_doctor and its report (doctor.py).
--   Runner        engine.py: Parameters for _parameter to _case_policy, Cases and Execute for
--                 _execute_case and what it calls, Telemetry and Test for _run_test, Run for
--                 run_validation_plan, PlanLoader for load_test_plan (runner/plan_loader.py).
--                 Machine is the record of what the runner calls and does not
--                 implement: clocks, file system, inventory, workloads and sampler over a world.
--   Persistence   Database for the tables, keys and cascades of schema.py, Repository for the
--                 methods of SQLiteRepository over them. Files is the file system that
--                 Locations and Artifacts (artifacts.py) call and do not implement.
--   Baselines     the policies and outcomes, Baselines/Service for the service's functions.
--   Reporting     View for the classes of reporting/view.py and _display, View/Platform,
--                 View/Telemetry and View/Chart for what it shows of the platform and the
--                 telemetry, View/Build for build_report_view; Markdown for renderers.py, Names
--                 for the texts of enumerations, and Service for generate_report (service.py).
--   Cli           the commands of cli.py, from parsed arguments to the exit code and the lines that
--                 are printed, over the record Services of what they call; ExitCodes says what the
--                 codes mean.
--   Demo          the plan of the failure demonstration (demo.py).
--   Tests         concrete inputs, and the theorems at them.
--
-- Python's values: ints are unbounded integers, and the counts and byte sizes that the program
-- checks to be at least 0 are natural numbers. Floats are a parameter, the record Floats, with the
-- laws of IEEE 754 that a theorem relies on in IsOrdered; that `float(n)` overflows on a huge int
-- is left out. The bounds of single fields are checked for plans, workload configurations and
-- artifacts, and left out for the records of results, samples and platforms. A datetime is its
-- instant in microseconds and whether it has a UTC offset.
-- Exceptions are values: a call returns, or it raises an exception of a class with a message, where
-- the values that an f-string inserts are kept out of the message if nothing reads them.
-- Loops are structural recursion over a list or a count; only range(start, stop, step) of the
-- memory workload and the two loops of the storage workload run on fuel. A positive step cannot
-- exhaust the `stop` that range is given, a positive block size not the size that the writing is
-- given, and the reading has one for each byte of the size and one for the empty block. A digest is
-- a function of the bytes that its hasher was given in all. The threads of the integer workload are
-- workers that take turns in the order of a schedule, an iteration a turn, and whose common clock
-- and token the turns read and write in that order.
--
-- A Repository call is a function of the database. A block of statements is atomic, the files and
-- locks of SQLite are not there, and an ORDER BY keeps the order of the table on ties. The JSON
-- texts of pydantic are the record Codec, the match of a baseline's name and `str.lower` are
-- arguments. The file system is the record Files with the laws IsFileSystem; looking an entry up
-- does not fail, and the directories that mkdir(parents=True) makes on the way are not undone.
--
-- Not modelled: Typer's parsing and Rich's layout, HTML reports and the collection of the inventory,
-- which are I/O or calls of libraries for the most part.
pub mod Base
pub mod Models
pub mod Evaluation
pub mod Workloads
pub mod Cli
pub mod Demo
pub mod Collectors
pub mod Inventory
pub mod NativeProbe
pub mod Doctor
pub mod Runner
pub mod Persistence
pub mod Baselines
pub mod Reporting
pub mod Tests
