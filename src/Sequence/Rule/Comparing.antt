-- ===== src/Sequence/Rule/Comparing.antt =====
-- The rules of `seq_rule_run` that compare a value with their operands.
use myreflection.Common.{◌≡◌, ◌≢◌, ◌↔◌, ◌⊎◌, List, arith}
use myreflection.Common.Int.{ℤ, ◌<ℤ◌, eq_of_parts}
use myreflection.Types.{Result, fail, value}
use myreflection.Sequence.Rule.{
  Operator, equal_to_n, not_equal_to_n, less_than_n, greater_than_n, range_n_to_m, Counters, Input,
  Memory, evaluate,
}

-- The result of a rule with these operands on a value.
abbrev on_value : Memory → List Input → Counters → Operator → ℤ → ℤ → ℤ → Result
on_value mem is c op n m v =
    (evaluate mem (record { operator = op; op_n = n; op_m = m }) is value v c).0

module _ (mem : Memory) (is : List Input) (c : Counters) (n m v : ℤ) where
  -- On a value, each comparing rule fails exactly on its own condition: EQUAL_TO_N, NOT_EQUAL_TO_N,
  -- LESS_THAN_N and GREATER_THAN_N on how the value stands to n, and RANGE_N_TO_M outside n to m.
  pub on_value-fails :
      (on_value mem is c equal_to_n n m v ≡ fail ↔ v ≡ n)
      × (on_value mem is c not_equal_to_n n m v ≡ fail ↔ v ≢ n)
      × (on_value mem is c less_than_n n m v ≡ fail ↔ v <ℤ n)
      × (on_value mem is c greater_than_n n m v ≡ fail ↔ n <ℤ v)
      × (on_value mem is c range_n_to_m n m v ≡ fail ↔ (v <ℤ n) ⊎ (m <ℤ v))
  unfolding evaluate
  on_value-fails = (
    (λ h. ground (arith, eq_of_parts v n), λ h. ground arith),
    (λ h. ground arith, λ h. ground (arith, eq_of_parts v n)),
    (λ h. ground arith, λ h. ground arith),
    (λ h. ground arith, λ h. ground arith),
    (λ h. ground arith, λ h. ground arith),
  )
