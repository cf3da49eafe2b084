-- ===== src/Models/Plan/Validation.antt =====
-- What the validators of a plan let through.
use pc_platform_validation_t.Base.{
  nat_eq, string_eq, option_eq, All, ok, ◌≢◌, ◌↔◌, ◌⊎◌, true, none, succeeds, succeeds-map_result,
  Bool,
}
use pc_platform_validation_t.Base.{
  ==_iff, member, length, ◌≤◌, String, ◌≡◌, refl, false, List, [], ◌∷◌, arith,
}
use pc_platform_validation_t.Models.Plan.{
  to_set, RequirementOperator, between, present, Requirement, TestDefinition, TestPlan, is_absent,
  validate_expected_shape, fault_is_supported_by_test, test_ids, is_pair, test_ids_are_unique,
  validate_test, validate_plan, require_fields, requirement_fields, validate_requirement,
  test_fields, plan_fields,
}
use pc_platform_validation_t.Models.Scalar.{Scalar, null, ExpectedValue, one, many}
use pc_platform_validation_t.Base.Floats.{Floats}

-- No text occurs twice.
abbrev pub Distinct : List String → Type 0
Distinct [] = Unit
Distinct (x ∷ xs) = (member x xs ≡ false) × Distinct xs

member-to_set : (a : String) (xs : List String) → member a (to_set xs) ≡ member a xs
unfolding to_set
member-to_set a [] = refl
member-to_set a (x ∷ xs) = ground (arith, member-to_set a xs, member-to_set x xs, ==_iff a x)

length-to_set-le : (xs : List String) → length (to_set xs) ≤ length xs
unfolding to_set
length-to_set-le [] = omega arith
length-to_set-le (x ∷ xs) = ground (arith, length-to_set-le xs)

Distinct-length : (xs : List String) → length xs ≡ length (to_set xs) → Distinct xs
unfolding to_set
Distinct-length [] h = tt
Distinct-length (x ∷ xs) h =
    ground (arith, length-to_set-le xs, member-to_set x xs, Distinct-length xs)

length-to_set-Distinct : (xs : List String) → Distinct xs → length xs ≡ length (to_set xs)
unfolding to_set
length-to_set-Distinct [] h = refl
length-to_set-Distinct (x ∷ xs) h =
    ground (arith, member-to_set x xs, length-to_set-Distinct xs h.1)

module _ {F : Type 0} where
  -- The shape of the expected value that each operator asks for.
  abbrev pub HasShape : RequirementOperator → ExpectedValue F → Type 0
  HasShape between e = (lower : Scalar F) × (upper : Scalar F) × (e ≡ many (lower ∷ upper ∷ []))
  HasShape present e = e ≡ one null
  HasShape _ e = e ≢ one null

  -- The fields are within their bounds, and the expected value has its operator's shape.
  abbrev pub IsValidRequirement : Requirement F → Type 0
  IsValidRequirement r = (requirement_fields r ≡ true) × HasShape r.operator r.expected

  -- A fault is injected only into an enabled integer test.
  abbrev pub IsValidFault : TestDefinition F → Type 0
  IsValidFault t =
      t.fault_injection ≢ none → (t.enabled ≡ true) × ((t.id ≡ "CPU-001") ⊎ (t.id ≡ "CPU-003"))

  pair_cases :
      (e : ExpectedValue F)
      → (is_pair e ≡ true)
        ↔ ((lower : Scalar F) × (upper : Scalar F) × (e ≡ many (lower ∷ upper ∷ [])))
  pair_cases (one s) = ground arith
  pair_cases (many []) = ground arith
  pair_cases (many (a ∷ [])) = ground arith
  pair_cases (many (a ∷ b ∷ [])) = (λ _. (a, b, refl), λ _. refl)
  pair_cases (many (a ∷ b ∷ c ∷ xs)) = ground arith

  absent_iff : (e : ExpectedValue F) → (is_absent e ≡ true) ↔ (e ≡ one null)
  absent_iff (one null) = ground arith
  absent_iff (one s) = ground arith
  absent_iff (many xs) = ground arith

  validate_expected_shape_iff :
      (r : Requirement F)
      → (succeeds (validate_expected_shape r) ≡ true) ↔ HasShape r.operator r.expected
  unfolding validate_expected_shape
  validate_expected_shape_iff r = ground (arith, pair_cases r.expected, absent_iff r.expected)

  fault_iff :
      (t : TestDefinition F) → (succeeds (fault_is_supported_by_test t) ≡ true) ↔ IsValidFault t
  unfolding fault_is_supported_by_test
  fault_iff t = ground (arith, ==_iff t.id "CPU-001", ==_iff t.id "CPU-003")

  validate_requirement_iff :
      (r : Requirement F) → (succeeds (validate_requirement r) ≡ true) ↔ IsValidRequirement r
  unfolding validate_requirement require_fields
  validate_requirement_iff r = ground (arith, validate_expected_shape_iff r)

  ids_iff : (p : TestPlan F) → (succeeds (test_ids_are_unique p) ≡ true) ↔ Distinct (test_ids p)
  unfolding test_ids_are_unique
  ids_iff p = ground (arith, Distinct-length (test_ids p), length-to_set-Distinct (test_ids p))

module _ {F : Type 0} ⦃o : Floats F⦄ (is_test_id : String → Bool) where
  pub record IsValidTest (t : TestDefinition F) : Type 0 where
    pub fields : test_fields is_test_id t ≡ true
    pub requirements : All IsValidRequirement t.requirements
    pub fault : IsValidFault t

  pub record IsValidPlan (p : TestPlan F) : Type 0 where
    pub fields : plan_fields is_test_id p ≡ true
    pub schema : p.schema_version ≡ 1
    pub tests : All IsValidTest p.tests
    pub ids : Distinct (test_ids p)

  validate_test_iff :
      (t : TestDefinition F) → (succeeds (validate_test is_test_id t) ≡ true) ↔ IsValidTest t
  unfolding validate_test require_fields
  validate_test_iff t = ground (
    arith,
    succeeds-map_result IsValidRequirement validate_requirement validate_requirement_iff
        t.requirements,
    fault_iff t,
  )

  -- A plan is accepted, as it stands, exactly when its fields and those of its tests and
  -- requirements are within their bounds, its schema version is 1, every requirement's expected
  -- value has the shape that its operator asks for, faults are injected only into enabled CPU-001
  -- and CPU-003 tests, and no test id occurs twice. No other plan is returned.
  pub validate_plan-IsValidPlan :
      (p q : TestPlan F) → (validate_plan is_test_id p ≡ ok q) ↔ ((q ≡ p) × IsValidPlan p)
  unfolding validate_plan require_fields
  validate_plan-IsValidPlan p q = ground (
    arith,
    succeeds-map_result IsValidTest (validate_test is_test_id) validate_test_iff p.tests,
    ids_iff p,
  )
