-- ===== src/Api/States/Guts.antt =====
-- The functions that enable, disable and default tests, actions and rules in src/myrefl_api.c.
use myreflection.Common.{ℕ, Bool, true, ◌&&◌, Option, List, ◌==◌}
use myreflection.Common.Int.{◌==ℤ◌}
use myreflection.Types.{enabled, disabled}
use myreflection.Sequence.Rule.{
  Operator, on_fail, equal_to_n, not_equal_to_n, less_than_n, greater_than_n, n_ever, n_in_row,
  n_in_m, range_n_to_m, n_in_time_m, fail_for_time_n, or, and,
}
use myreflection.Api.Operands.{Settings}
use myreflection.Api.States.{
  Object, Call, Who, note_asked, enable, disable, if_enabled, always_add, always_remove, no_calls,
  switch_states, Defaulting, defaulted,
}

-- `myrefl_api_test_enable_guts`.
unfoldable pub test_enable_guts :
    (cli : Bool) → (memory : Option ℕ) → Who → Object → Object × List Call
test_enable_guts cli memory who o =
    switch_states (enable cli) (note_asked cli enabled) (if_enabled o.is_polled) memory who o

-- `myrefl_api_test_disable_guts`.
unfoldable pub test_disable_guts :
    (cli : Bool) → (memory : Option ℕ) → Who → Object → Object × List Call
test_disable_guts cli memory who o =
    switch_states (disable cli) (note_asked cli disabled) (always_remove o.is_polled) memory who o

-- `myrefl_api_action_enable_guts`.
unfoldable pub action_enable_guts : (cli : Bool) → (memory : Option ℕ) → Who → Object → Object
action_enable_guts cli memory who o =
    (switch_states (enable cli) (note_asked cli enabled) no_calls memory who o).0

-- `myrefl_api_action_disable_guts`.
unfoldable pub action_disable_guts : (cli : Bool) → (memory : Option ℕ) → Who → Object → Object
action_disable_guts cli memory who o =
    (switch_states (disable cli) (note_asked cli disabled) no_calls memory who o).0

-- `myrefl_api_rule_enable_guts`.
unfoldable pub rule_enable_guts : (cli : Bool) → (memory : Option ℕ) → Who → Object → Object
rule_enable_guts cli memory who o =
    (switch_states (enable cli) (note_asked cli enabled) no_calls memory who o).0

-- `myrefl_api_rule_disable_guts`.
unfoldable pub rule_disable_guts : (cli : Bool) → (memory : Option ℕ) → Who → Object → Object
rule_disable_guts cli memory who o =
    (switch_states (disable cli) (note_asked cli disabled) no_calls memory who o).0

-- `myrefl_api_test_default`.
unfoldable pub test_default : Who → Object → Defaulting
test_default who o =
    defaulted (λ x. record x { period = x.default_period }) (o.period == o.default_period)
      (if_enabled o.is_polled) (always_add o.is_polled) who o

-- `myrefl_api_action_default`.
unfoldable pub action_default : Who → Object → Defaulting
action_default who o = defaulted (λ x. x) true no_calls no_calls who o

-- The values of myrefl_rule_operator_t.
unfoldable pub operator_code : Operator → ℕ
operator_code Operator.invalid = 0
operator_code on_fail = 1
operator_code Operator.disable = 2
operator_code equal_to_n = 3
operator_code not_equal_to_n = 4
operator_code less_than_n = 5
operator_code greater_than_n = 6
operator_code n_ever = 7
operator_code n_in_row = 8
operator_code n_in_m = 9
operator_code range_n_to_m = 10
operator_code n_in_time_m = 11
operator_code fail_for_time_n = 12
operator_code or = 13
operator_code and = 14
operator_code Operator.last = 15

unfoldable pub has_defaults : Settings → Bool
has_defaults s =
    operator_code s.operator == operator_code s.default_operator
    && (s.op_n ==ℤ s.default_op_n && s.op_m ==ℤ s.default_op_m)

abbrev pub with_defaults : Settings → Settings
with_defaults s = record s {
  operator = s.default_operator;
  op_n = s.default_op_n;
  op_m = s.default_op_m;
}

-- `myrefl_api_rule_default`.
unfoldable pub rule_default : Who → Object → Defaulting
rule_default who o =
    defaulted (λ x. record x { rule_settings = with_defaults x.rule_settings })
      (has_defaults o.rule_settings) no_calls no_calls who o
