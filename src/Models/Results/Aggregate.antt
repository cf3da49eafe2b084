-- ===== src/Models/Results/Aggregate.antt =====
-- The overall status of a run is the worst of its tests' statuses, and its counts count them.
use mathlib.Core.List.{foldr}
use mathlib.Core.Path.{subst}
use pc_platform_validation_t.Base.{
  leb, if◌then◌else◌, ◌==◌, nat_eq, string_eq, option_eq, ℕ, ◌+◌, ◌<◌, ◌≡◌, ap, ◌∙◌, List, [], ◌∷◌,
  arith, ok, ◌≤◌, refl, true, ==_iff, sym, ◌↔◌, All, ◌⊎◌,
}
use pc_platform_validation_t.Base.Dict.{
  Dict, insert, lookup-insert, lookup_or, IsDict, insert-IsDict, dict_beq, dict_beq_self,
}
use pc_platform_validation_t.Models.Status.{ResultStatus, pass, fail, warn, skip, error, status_eq}
use pc_platform_validation_t.Models.Results.{
  aggregate_status, counter, statuses, RunResult, count_into, nonzero, make_run_result,
}

-- How consequential a status is; a skipped test counts for nothing.
abbrev pub severity : ResultStatus → ℕ
severity skip = 0
severity pass = 1
severity warn = 2
severity fail = 3
severity error = 4

abbrev pub worse : ResultStatus → ResultStatus → ResultStatus
worse a b = if leb (severity b) (severity a) then a else b

abbrev pub worst : List ResultStatus → ResultStatus
worst = foldr worse skip

aggregate_status-cons :
    (s : ResultStatus) (ss : List ResultStatus)
    → aggregate_status (s ∷ ss) ≡ worse s (aggregate_status ss)
unfolding aggregate_status
aggregate_status-cons pass ss = ground arith
aggregate_status-cons fail ss = ground arith
aggregate_status-cons warn ss = ground arith
aggregate_status-cons skip ss = ground arith
aggregate_status-cons error ss = ground arith

-- The overall status is the worst of the statuses, where SKIP < PASS < WARN < FAIL < ERROR, and
-- SKIP if there are none.
pub aggregate_status-eq-worst : (ss : List ResultStatus) → aggregate_status ss ≡ worst ss
unfolding aggregate_status
aggregate_status-eq-worst [] = refl
aggregate_status-eq-worst (s ∷ ss) =
    aggregate_status-cons s ss ∙ ap (worse s) (aggregate_status-eq-worst ss)

abbrev pub count : ResultStatus → List ResultStatus → ℕ
count s [] = 0
count s (x ∷ xs) = if s == x then count s xs + 1 else count s xs

-- Every count is at least 1.
abbrev IsPositive : Dict ResultStatus ℕ → Type 0
IsPositive [] = Unit
IsPositive ((s, n) ∷ d) = (0 < n) × IsPositive d

insert-IsPositive :
    (s : ResultStatus) (n : ℕ) (d : Dict ResultStatus ℕ)
    → 0 < n
    → IsPositive d
    → IsPositive (insert s n d)
insert-IsPositive s n [] p h = (p, tt)
insert-IsPositive s n ((j, m) ∷ d) p h = ground (arith, insert-IsPositive s n d p h.1)

count_into-IsPositive :
    (d : Dict ResultStatus ℕ) (ss : List ResultStatus) → IsPositive d → IsPositive (count_into d ss)
unfolding count_into
count_into-IsPositive d [] h = h
count_into-IsPositive d (s ∷ ss) h =
    count_into-IsPositive (insert s (lookup_or s 0 d + 1) d) ss
      (insert-IsPositive s (lookup_or s 0 d + 1) d (omega arith) h)

count_into-IsDict :
    (d : Dict ResultStatus ℕ) (ss : List ResultStatus) → IsDict d → IsDict (count_into d ss)
unfolding count_into
count_into-IsDict d [] h = h
count_into-IsDict d (s ∷ ss) h =
    count_into-IsDict (insert s (lookup_or s 0 d + 1) d) ss
      (insert-IsDict s (lookup_or s 0 d + 1) d h)

nonzero_of_IsPositive : (d : Dict ResultStatus ℕ) → IsPositive d → nonzero d ≡ d
unfolding nonzero
nonzero_of_IsPositive [] h = refl
nonzero_of_IsPositive ((s, n) ∷ d) h = ground (arith, nonzero_of_IsPositive d h.1)

lookup_or-count_into :
    (s : ResultStatus) (d : Dict ResultStatus ℕ) (ss : List ResultStatus)
    → lookup_or s 0 (count_into d ss) ≡ lookup_or s 0 d + count s ss
unfolding count_into
lookup_or-count_into s d [] = omega arith
lookup_or-count_into s d (x ∷ xs) = ground (
  arith,
  lookup-insert x s (lookup_or x 0 d + 1) d,
  lookup_or-count_into s (insert x (lookup_or x 0 d + 1) d) xs,
)

-- Looking a status up in the counter, with 0 by default, gives the number of its occurrences.
pub lookup_or-counter :
    (s : ResultStatus) (ss : List ResultStatus) → lookup_or s 0 (counter ss) ≡ count s ss
lookup_or-counter s ss = omega (arith, lookup_or-count_into s [] ss)

pub dict_beq-counter :
    (ss : List ResultStatus) → dict_beq (nonzero (counter ss)) (counter ss) ≡ true
dict_beq-counter ss =
    rw (nonzero_of_IsPositive (counter ss) (count_into-IsPositive [] ss tt))
      (dict_beq_self (counter ss) (count_into-IsDict [] ss tt))

module _ {F : Type 0} where
  -- A run whose status and counts are computed from its results passes the validators of its
  -- timestamps and its summary exactly when both of its timestamps have an offset and its end does
  -- not precede its start.
  pub make_run_result_computed :
      (run : RunResult F)
      → run.overall_status ≡ aggregate_status (statuses run.test_results)
      → run.result_counts ≡ counter (statuses run.test_results)
      → (make_run_result run ≡ ok run) ↔ (
          (run.started_at.has_offset ≡ true)
          × (run.ended_at.has_offset ≡ true)
          × (run.started_at.instant ≤ run.ended_at.instant))
  unfolding make_run_result
  make_run_result_computed run a c =
      let ss : List ResultStatus = statuses run.test_results in
      let same : dict_beq (nonzero run.result_counts) (counter ss) ≡ true =
        subst (λ d. dict_beq (nonzero d) (counter ss) ≡ true) (sym c) (dict_beq-counter ss) in
      ((λ h. ground arith), λ h. ground (arith, ==_iff run.overall_status (aggregate_status ss)))

mild_of_worst :
    (ss : List ResultStatus) → severity (worst ss) ≤ 1 → All (λ s. (s ≡ pass) ⊎ (s ≡ skip)) ss
mild_of_worst [] h = tt
mild_of_worst (pass ∷ ss) h = ground (arith, mild_of_worst ss)
mild_of_worst (skip ∷ ss) h = ground (arith, mild_of_worst ss)
mild_of_worst (warn ∷ ss) h = ground arith
mild_of_worst (fail ∷ ss) h = ground arith
mild_of_worst (error ∷ ss) h = ground arith

-- If the worst of some statuses is PASS, each of them is PASS or SKIP.
pub worst-pass : (ss : List ResultStatus) → worst ss ≡ pass → All (λ s. (s ≡ pass) ⊎ (s ≡ skip)) ss
worst-pass ss h = mild_of_worst ss (rw h (omega arith))
