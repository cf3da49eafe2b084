-- ===== src/Runner/PlanLoader.antt =====
-- `load_test_plan` (src/platval/runner/plan_loader.py). The file, YAML and pydantic's conversions
-- are parameters; the plan's own validators are those of Models/Plan.
pub mod Valid
use pc_platform_validation_t.Base.{
  ltb, if◌then◌else◌, ◌==◌, nat_eq, string_eq, option_eq, plan_load_error, Exception, is_os_error,
  Result, ok, raised, raise, raise_if, ℕ, ◌+◌, ◌*◌, String, ◌<>◌, ◌⊎◌, inl, inr, Bool, not, Option,
  none, some, List, map,
}
use pc_platform_validation_t.Base.Action.{Action, ◌>>=◌, ◌>>◌, lift}
use pc_platform_validation_t.Base.Floats.{Floats}
use pc_platform_validation_t.Models.Plan.{TestPlan, validate_plan}
use pc_platform_validation_t.Runner.Test.{class_name}
use pc_platform_validation_t.Reporting.Names.{join}

-- What `yaml.safe_load` gives: a mapping, another document, a YAMLError with its mark, or another
-- exception, such as the ValueError of a date that does not exist.
pub data Yaml (M : Type 0) : Type 0 where
  mapping : M → Yaml M
  other_document : Yaml M
  malformed : Option (ℕ × ℕ) → Yaml M
  escaped : Exception → Yaml M

-- pydantic's `loc` and `msg` of one error.
abbrev pub ErrorItem : Type 0
ErrorItem = List String × String

-- What the loader calls. `convert` gives the fields their types or says which have none, and
-- `errors_of` are the items of what a validator of the plan raised.
pub record PlanSource (W M F : Type 0) : Type 0 where
  pub file_size : String → Action W ℕ
  pub read_text : String → Action W String
  pub safe_load : String → Yaml M
  pub convert : M → List ErrorItem ⊎ TestPlan F
  pub errors_of : Exception → List ErrorItem
  pub is_test_id : String → Bool
  pub decimal : ℕ → String

-- `_validation_message`
unfoldable pub error_text : ErrorItem → String
error_text (loc, msg) =
    let location = join "." loc in (if location == "" then "<root>" else location) <> ": " <> msg

unfoldable pub validation_message : List ErrorItem → String
unfolding error_text
validation_message items = join "; " (map error_text items)

abbrev pub max_plan_bytes : ℕ
max_plan_bytes = 1024 * 1024

module _ {W M F : Type 0} ⦃o : Floats F⦄ (source : PlanSource W M F) where
  unfoldable pub read_bounded : String → Action W String
  read_bounded path = do
    size ← source.file_size path
    lift (
        raise_if (ltb max_plan_bytes size) plan_load_error "test plan exceeds the 1 MiB size limit")
    source.read_text path

  -- `except OSError as exc: raise PlanLoadError(...)`
  unfoldable pub unreadable : Result String × W → Result String × W
  unfolding class_name
  unreadable (ok text, w) = (ok text, w)
  unreadable (raised e, w) =
      if is_os_error e.class
      then (raise plan_load_error ("test plan could not be read (" <> class_name e.class <> ")"), w)
      else (raised e, w)

  abbrev pub location_text : Option (ℕ × ℕ) → String
  location_text none = ""
  location_text (some (line, column)) =
      " at line " <> source.decimal (line + 1) <> ", column " <> source.decimal (column + 1)

  -- `except ValidationError as exc: raise PlanLoadError(...)`
  unfoldable pub validated : TestPlan F → Result (TestPlan F)
  unfolding validate_plan validation_message
  validated plan = elim (validate_plan source.is_test_id plan) [
    | ok p ↦ ok p
    | raised e ↦ raise plan_load_error (validation_message (source.errors_of e))
  ]

  -- `TestPlan.model_validate(raw)`, from what pydantic's conversions gave.
  unfoldable pub converted : List ErrorItem ⊎ TestPlan F → Result (TestPlan F)
  unfolding validation_message validated
  converted (inl items) = raise plan_load_error (validation_message items)
  converted (inr plan) = validated plan

  unfoldable pub parse_plan : Yaml M → Result (TestPlan F)
  unfolding converted
  parse_plan (malformed mark) = raise plan_load_error ("invalid YAML" <> location_text mark)
  parse_plan (escaped e) = raised e
  parse_plan other_document = raise plan_load_error "test plan root must be a mapping"
  parse_plan (mapping raw) = converted (source.convert raw)

  unfoldable pub read_plan : String → Action W String
  unfolding read_bounded unreadable
  read_plan path w = unreadable (read_bounded path w)

  unfoldable pub load_test_plan : String → Action W (TestPlan F)
  unfolding read_plan parse_plan
  load_test_plan path = do raw_text ← read_plan path; lift (parse_plan (source.safe_load raw_text))
