-- ===== src/Tests/Rules.antt =====
-- Rules of src/myrefl_sequence.c on concrete histories of results.
use myreflection.Common.{◌≡◌, refl, true, none, some, List, [], ◌∷◌, arith}
use myreflection.Common.Int.{ℤ, pos}
use myreflection.Types.{Result, pass, fail, value, disabled, enabled}
use myreflection.Sequence.Rule.{
  Operator, n_ever, n_in_row, n_in_m, Rule, Counters, Input, Memory, evaluate, after,
}
use myreflection.Sequence.Rule.Counting.{fails, newest_fail, n_ever-fails, n_in_row-newest_fail}
use myreflection.Sequence.Rule.Window.{fails_in, n_in_m-fails_in}
use myreflection.Sequence.Rule.Resizing.{n_in_m_stuck}

abbrev granted : Memory
granted = record { table = true; data_block = true; bits = true }

abbrev rule_of : Operator → ℤ → ℤ → Rule
rule_of op n m = record { operator = op; op_n = n; op_m = m }

abbrev clear : Counters
clear = record { fail_count = 0; rule_data = none }

-- Fail, pass, fail: the newest stands first.
abbrev mixed : List (Result × ℤ)
mixed = (fail, pos 0) ∷ (pass, pos 0) ∷ (fail, pos 0) ∷ []

abbrev inputs : List Input
inputs =
    record { last_result = fail; state = disabled }
    ∷ record { last_result = pass; state = enabled }
    ∷ []

n_ever-fails_example :
    (evaluate granted
      (rule_of n_ever (pos 3) (pos 0))
      []
      fail
      (pos 0)
      (after granted (rule_of n_ever (pos 3) (pos 0)) [] clear mixed)).0
    ≡ fail
unfolding fails
n_ever-fails_example =
    n_ever-fails granted (rule_of n_ever (pos 3) (pos 0)) [] 3 refl refl (omega arith) (omega arith)
      clear mixed fail (pos 0) refl

n_in_row-newest_fail_example :
    (evaluate granted
      (rule_of n_in_row (pos 2) (pos 0))
      []
      fail
      (pos 0)
      (after granted (rule_of n_in_row (pos 2) (pos 0)) [] clear mixed)).0
    ≡ fail
unfolding newest_fail
n_in_row-newest_fail_example =
    n_in_row-newest_fail granted (rule_of n_in_row (pos 2) (pos 0)) [] 2 refl refl (omega arith)
      clear mixed fail (pos 0) refl (omega arith)

n_in_m-fails_in_example :
    (evaluate granted
      (rule_of n_in_m (pos 3) (pos 4))
      []
      fail
      (pos 0)
      (after granted (rule_of n_in_m (pos 3) (pos 4)) [] clear mixed)).0
    ≡ fail
unfolding fails_in
n_in_m-fails_in_example =
    n_in_m-fails_in granted (rule_of n_in_m (pos 3) (pos 4)) [] 4 refl refl refl refl refl
      (omega arith) clear mixed fail (pos 0) refl (tt, (tt, (tt, tt))) tt

abbrev on_seven : Operator → Result
on_seven op = (evaluate granted (rule_of op (pos 3) (pos 9)) [] value (pos 7) clear).0

-- One byte of history, for what was a window of four results and now is one of twenty.
abbrev resized : Counters
resized = record {
  fail_count = 0;
  rule_data = some (record { history = some (0 ∷ []); history_size = pos 1; position = 6 });
}

n_in_m_stuck_example :
    evaluate granted
      (rule_of n_in_m (pos 3) (pos 20))
      []
      fail
      (pos 0)
      (after granted (rule_of n_in_m (pos 3) (pos 20)) [] resized mixed)
    ≡ (pass, after granted (rule_of n_in_m (pos 3) (pos 20)) [] resized mixed)
n_in_m_stuck_example =
    n_in_m_stuck granted (rule_of n_in_m (pos 3) (pos 20)) [] 20 1 refl refl (omega arith) 6 resized
      mixed fail (pos 0) (omega arith) (_, _, refl, refl, refl, refl) (tt, (tt, (tt, tt))) tt
      (omega arith)
