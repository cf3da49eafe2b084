-- ===== src/Reporting/Names.antt =====
-- The values of the string enumerations that the renderers and the command line print
-- (src/platval/models/status.py, models/plan.py, reporting/view.py).
use pc_platform_validation_t.Base.{
  if◌then◌else◌, ◌==◌, nat_eq, string_eq, option_eq, String, ◌<>◌, Option, none, some, List, [],
  ◌∷◌,
}
use pc_platform_validation_t.Models.Status.{ResultStatus, pass, fail, warn, skip, error, status_eq}
use pc_platform_validation_t.Models.Plan.{
  RequirementOperator, equals, not_equals, greater_than, greater_than_or_equal, less_than,
  less_than_or_equal, between, present, contains,
}
use pc_platform_validation_t.Reporting.View.{
  ValueClass, measured, configured, derived, unavailable, simulated,
}

unfoldable pub status_value : ResultStatus → String
status_value pass = "PASS"
status_value fail = "FAIL"
status_value warn = "WARN"
status_value skip = "SKIP"
status_value error = "ERROR"

unfoldable pub operator_value : RequirementOperator → String
operator_value equals = "equals"
operator_value not_equals = "not_equals"
operator_value greater_than = "greater_than"
operator_value greater_than_or_equal = "greater_than_or_equal"
operator_value less_than = "less_than"
operator_value less_than_or_equal = "less_than_or_equal"
operator_value between = "between"
operator_value present = "present"
operator_value contains = "contains"

unfoldable pub class_value : ValueClass → String
class_value measured = "measured"
class_value configured = "configured"
class_value derived = "derived"
class_value unavailable = "unavailable"
class_value simulated = "simulated"

-- `s or default`, where None and the empty text are false.
abbrev pub or_else : Option String → String → String
or_else none default = default
or_else (some s) default = if s == "" then default else s

-- The lines that are there if the text is neither None nor empty.
abbrev pub if_filled : {A : Type 0} → Option String → (String → List A) → List A
if_filled none f = []
if_filled (some s) f = if s == "" then [] else f s

-- `separator.join(texts)`
abbrev pub join : String → List String → String
join separator [] = ""
join separator (s ∷ []) = s
join separator (s ∷ (t ∷ ts)) = s <> separator <> join separator (t ∷ ts)
