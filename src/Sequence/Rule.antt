-- ===== src/Sequence/Rule.antt =====
-- The evaluation of a rule: the switch of `seq_rule_run` in src/myrefl_sequence.c, and the bit count
-- that it uses. Allocation outcomes and the input rules' current results are arguments.
pub mod Counting
pub mod Bits
pub mod Window
pub mod Combining
pub mod Comparing
pub mod Resizing
use Prim.Native.Nat.{bit_and, bit_or}
use myreflection.Common.{
  ℕ, zero, suc, ◌+◌, ◌-◌, ◌/◌, ◌%◌, ◌^◌, Bool, not, ◌&&◌, ◌||◌, Option, none, some, List, [], ◌∷◌,
  ltb, if◌then◌else◌, get_or, set, replicate,
}
use myreflection.Common.Int.{ℤ, pos, negsuc, ltb_ℤ, leb_ℤ, ◌==ℤ◌}
use myreflection.Types.{
  Result, pass, fail, abort, is_pass, is_fail, is_value, ObjState, is_enabled, u32,
}

-- myrefl_rule_operator_t.
pub data Operator : Type 0 where
  invalid on_fail disable equal_to_n not_equal_to_n less_than_n greater_than_n : Operator
  n_ever n_in_row n_in_m range_n_to_m n_in_time_m fail_for_time_n or and last : Operator

-- The fields of obj_rule_t that the evaluation reads.
pub record Rule : Type 0 where
  pub operator : Operator
  pub op_n : ℤ
  pub op_m : ℤ

-- obj_rule_data_t. `history` is none where the pointer is NULL.
pub record RuleData : Type 0 where
  pub history : Option (List ℕ)
  pub history_size : ℤ
  pub position : ℕ

-- The fields of obj_instance_t that the evaluation reads and writes.
pub record Counters : Type 0 where
  pub fail_count : ℕ
  pub rule_data : Option RuleData

-- An input's instance, as the OR and AND rules see it.
pub record Input : Type 0 where
  pub last_result : Result
  pub state : ObjState

-- Which of the allocations made on the way succeed: the table of `bit_count`, the rule data, and
-- the history bits.
pub record Memory : Type 0 where
  pub table : Bool
  pub data_block : Bool
  pub bits : Bool

-- The inner loop of `bit_count`: `rounds` more bits of `val`.
count_loop : (rounds val count : ℕ) → ℕ
count_loop zero val count = count
count_loop (suc k) val count = count_loop k (val / 2) (if ltb 0 (val % 2) then count + 1 else count)

-- The outer loop, which fills `bitvalues` from index j on.
fill : (rounds j : ℕ) → List ℕ
unfolding count_loop
fill zero j = []
fill (suc k) j = count_loop 8 j 0 ∷ fill k (j + 1)

-- `bit_count`: a lookup in `bitvalues`, or 0 where the table could not be allocated.
pub bit_count : Bool → ℕ → ℕ
unfolding fill
bit_count table b = if table then get_or (fill 256 0) b 0 else 0

-- The sum of the bit counts over the history's bytes.
pub sum_bits : Bool → List ℕ → ℕ
unfolding bit_count
sum_bits table [] = 0
sum_bits table (b ∷ bs) = bit_count table b + sum_bits table bs

-- `(rule->op_m / 8) + 1`, with C's division, which truncates towards 0. It is stored in an int,
-- which holds it where |op_m| < 2 ^ 34.
pub size_for : ℤ → ℤ
size_for (pos m) = pos (m / 8 + 1)
size_for (negsuc m) = if ltb (m + 1) 16 then pos (1 - (m + 1) / 8) else negsuc ((m + 1) / 8 - 2)

-- `calloc(1, history_size)`; a negative size is beyond what can be allocated.
pub calloc_bits : Bool → ℤ → Option (List ℕ)
calloc_bits granted (pos n) = if granted then some (replicate n 0) else none
calloc_bits granted (negsuc n) = none

-- The rule data, allocated the first time through.
pub rule_data_for : Memory → Rule → Option RuleData → Option RuleData
unfolding calloc_bits size_for
rule_data_for mem rule (some d) = some d
rule_data_for mem rule none =
    if mem.data_block
    then some (record {
      history = calloc_bits mem.bits (size_for rule.op_m);
      history_size = size_for rule.op_m;
      position = 0;
    })
    else none

-- The byte with one bit set or cleared, by the mask `1 << bit`.
pub mark : Result → ℕ → ℕ → ℕ
mark r bit b = if is_pass r then bit_and b (255 - 2 ^ bit) else bit_or b (2 ^ bit)

-- The history with this result recorded at the current position.
pub record_bit : Result → ℕ → List ℕ → List ℕ
unfolding mark
record_bit r p history = set history (p / 8) (mark r (p % 8) (get_or history (p / 8) 0))

-- `position++`, back to 0 at op_m.
pub advance : ℤ → ℕ → ℕ
advance m p = if leb_ℤ m (pos (p + 1)) then 0 else p + 1

-- The body of N_IN_M once there are rule data and history.
pub n_in_m_step : Bool → Rule → Result → RuleData → List ℕ → Result × RuleData
unfolding record_bit sum_bits advance
n_in_m_step table rule r d history =
    let written = record_bit r d.position history in
    if leb_ℤ d.history_size (pos (d.position / 8)) then (pass, d) else (
      (if leb_ℤ rule.op_n (pos (sum_bits table written)) then fail else pass),
      record d { history = some written; position = advance rule.op_m d.position },
    )

n_in_m_data : Bool → Rule → Result → RuleData → Option (List ℕ) → Result × RuleData
unfolding n_in_m_step
n_in_m_data table rule r d none = (abort, d)
n_in_m_data table rule r d (some history) = n_in_m_step table rule r d history

n_in_m_alloc : Bool → Rule → Result → Counters → Option RuleData → Result × Counters
unfolding n_in_m_data
n_in_m_alloc table rule r c none = (abort, record c { rule_data = none })
n_in_m_alloc table rule r c (some d) =
    let (out, d') = n_in_m_data table rule r d d.history in (out, record c { rule_data = some d' })

-- The case MYREFL_RULE_N_IN_M.
pub run_n_in_m : Memory → Rule → Result → Counters → Result × Counters
unfolding n_in_m_alloc rule_data_for
run_n_in_m mem rule r c =
    if is_pass r || is_fail r
    then n_in_m_alloc mem.table rule r c (rule_data_for mem rule c.rule_data)
    else (abort, c)

-- The case MYREFL_RULE_N_EVER. The unsigned count is compared as a long.
pub run_n_ever : Rule → Result → Counters → Result × Counters
run_n_ever rule r c =
    let count = u32 (c.fail_count + 1) in
    if is_fail r
    then (if leb_ℤ rule.op_n (pos count)
        then (fail, record c { fail_count = 0 })
        else (pass, record c { fail_count = count }))
    else (pass, c)

-- The case MYREFL_RULE_N_IN_ROW.
pub run_n_in_row : Rule → Result → Counters → Result × Counters
run_n_in_row rule r c =
    let count = u32 (c.fail_count + 1) in
    if is_fail r
    then ((if leb_ℤ rule.op_n (pos count) then fail else pass), record c { fail_count = count })
    else (pass, record c { fail_count = 0 })

-- The loop of the case MYREFL_RULE_OR.
pub run_or : List Input → Result
run_or [] = pass
run_or (i ∷ is) = if is_fail i.last_result && is_enabled i.state then fail else run_or is

-- The loop of the case MYREFL_RULE_AND.
pub run_and : List Input → Result
run_and [] = fail
run_and (i ∷ is) = if is_pass i.last_result && is_enabled i.state then pass else run_and is

abbrev fail_if : Bool → Result
fail_if b = if b then fail else pass

-- The switch on the operator.
dispatch : Operator → Memory → Rule → List Input → Result → ℤ → Counters → Result × Counters
unfolding run_n_in_m run_n_ever run_n_in_row run_or run_and
dispatch on_fail mem rule is r v c = (fail_if (is_fail r), c)
dispatch equal_to_n mem rule is r v c = (fail_if (is_value r && v ==ℤ rule.op_n), c)
dispatch not_equal_to_n mem rule is r v c = (fail_if (is_value r && not (v ==ℤ rule.op_n)), c)
dispatch less_than_n mem rule is r v c = (fail_if (is_value r && ltb_ℤ v rule.op_n), c)
dispatch greater_than_n mem rule is r v c = (fail_if (is_value r && ltb_ℤ rule.op_n v), c)
dispatch range_n_to_m mem rule is r v c =
    (fail_if (is_value r && (ltb_ℤ v rule.op_n || ltb_ℤ rule.op_m v)), c)
dispatch disable mem rule is r v c = (abort, c)
dispatch n_ever mem rule is r v c = run_n_ever rule r c
dispatch n_in_row mem rule is r v c = run_n_in_row rule r c
dispatch n_in_m mem rule is r v c = run_n_in_m mem rule r c
dispatch n_in_time_m mem rule is r v c = (abort, c)
dispatch fail_for_time_n mem rule is r v c = (abort, c)
dispatch or mem rule is r v c = (run_or is, c)
dispatch and mem rule is r v c = (run_and is, c)
dispatch invalid mem rule is r v c = (fail, c)
dispatch last mem rule is r v c = (fail, c)

-- The rule's result, and the instance's counters after it.
pub evaluate : Memory → Rule → List Input → Result → ℤ → Counters → Result × Counters
unfolding dispatch
evaluate mem rule is r v c = dispatch rule.operator mem rule is r v c

-- The counters after a history of results and values, the newest first.
pub after : Memory → Rule → List Input → Counters → List (Result × ℤ) → Counters
unfolding evaluate
after mem rule is c [] = c
after mem rule is c ((r, v) ∷ older) = (evaluate mem rule is r v (after mem rule is c older)).1
