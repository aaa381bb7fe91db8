-- ===== src/Api/Operands.antt =====
-- The operator and the operands of a rule: `myrefl_rule_set_type` of src/myrefl_api.c.
pub mod Accepted
use myreflection.Common.{ℕ, Bool, true, false, not, ◌&&◌, Option, none, some, update, if◌then◌else◌}
use myreflection.Common.Int.{ℤ, pos, ltb_ℤ, ◌==ℤ◌}
use myreflection.Sequence.Rule.{
  Operator, on_fail, disable, equal_to_n, not_equal_to_n, less_than_n, greater_than_n, n_ever,
  n_in_row, n_in_m, range_n_to_m, n_in_time_m, fail_for_time_n, or, and, Rule,
}
use myreflection.Api.Linking.{Named, bad_name, no_object, object}

-- The fields of obj_rule_t that the call writes.
pub record Settings : Type 0 where
  pub operator : Operator
  pub default_operator : Operator
  pub op_n : ℤ
  pub op_m : ℤ
  pub default_op_n : ℤ
  pub default_op_m : ℤ

-- The checks of the operator and its operands, up to the lock.
unfoldable pub takes_operands : Operator → (n m : ℤ) → Bool
takes_operands Operator.invalid n m = false
takes_operands Operator.last n m = false
takes_operands on_fail n m = (n ==ℤ pos 0) && (m ==ℤ pos 0)
takes_operands disable n m = (n ==ℤ pos 0) && (m ==ℤ pos 0)
takes_operands equal_to_n n m = m ==ℤ pos 0
takes_operands not_equal_to_n n m = m ==ℤ pos 0
takes_operands less_than_n n m = m ==ℤ pos 0
takes_operands greater_than_n n m = m ==ℤ pos 0
takes_operands n_ever n m = (m ==ℤ pos 0) && not (ltb_ℤ n (pos 1))
takes_operands n_in_row n m = (m ==ℤ pos 0) && not (ltb_ℤ n (pos 1))
takes_operands range_n_to_m n m = not (ltb_ℤ m n)
takes_operands n_in_m n m = not (ltb_ℤ m n) && (not (ltb_ℤ n (pos 1)) && not (ltb_ℤ m (pos 1)))
takes_operands n_in_time_m n m = not (ltb_ℤ n (pos 1)) && not (ltb_ℤ m (pos 1))
takes_operands fail_for_time_n n m = true
takes_operands or n m = true
takes_operands and n m = true

abbrev pub settings : Operator → (n m : ℤ) → Settings
settings op n m = record {
  operator = op;
  default_operator = op;
  op_n = n;
  op_m = m;
  default_op_n = n;
  default_op_m = m;
}

-- The part under the lock, for the rule that its name gives.
unfoldable pub set_type_of : Named → Settings → (ℕ → Settings) → Option (ℕ → Settings)
set_type_of (object r) s rules = some (update rules r s)
set_type_of _ s rules = none

-- `myrefl_rule_set_type`; none where it returns with an error.
unfoldable pub rule_set_type : Named → Operator → (n m : ℤ) → (ℕ → Settings) → Option (ℕ → Settings)
rule_set_type rule op n m rules =
    if takes_operands op n m then set_type_of rule (settings op n m) rules else none

-- The rule that the sequencer evaluates.
abbrev pub rule_of : Settings → Rule
rule_of s = record { operator = s.operator; op_n = s.op_n; op_m = s.op_m }
