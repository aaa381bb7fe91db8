-- ===== src/Api/Operands/Accepted.antt =====
-- Which operands `myrefl_rule_set_type` (src/myrefl_api.c) takes, and what they are good for in the
-- evaluation of the rule (src/myrefl_sequence.c).
use myreflection.Common.{
  ℕ, zero, suc, ◌≡◌, refl, sym, ◌∙◌, ◌↔◌, inl, inr, ap, Bool, true, false, some, none, List, [],
  ◌∷◌, arith, update, if◌then◌else◌, Bool-cases, some_injective,
}
use myreflection.Common.Int.{ℤ, pos, ◌≤ℤ◌, leb_ℤ, eq_of_parts}
use myreflection.Types.{Result, pass, fail}
use myreflection.Sequence.Rule.{
  Operator, on_fail, disable, equal_to_n, not_equal_to_n, less_than_n, greater_than_n, n_ever,
  n_in_row, n_in_m, range_n_to_m, n_in_time_m, fail_for_time_n, or, and, Memory, Input, Counters,
  evaluate, after,
}
use myreflection.Sequence.Rule.Bits.{IsVerdict}
use myreflection.Sequence.Rule.Window.{fails_in, AreVerdicts, n_in_m-fails_in}
use myreflection.Sequence.Rule.Counting.{newest_fail}
use myreflection.Api.Linking.{object}
use myreflection.Api.Operands.{
  Settings, takes_operands, settings, set_type_of, rule_set_type, rule_of,
}

-- The operands that are accepted for an operator.
unfoldable pub Fits : Operator → (n m : ℤ) → Type 0
Fits Operator.invalid n m = ⊥
Fits Operator.last n m = ⊥
Fits on_fail n m = (n ≡ pos 0) × (m ≡ pos 0)
Fits disable n m = (n ≡ pos 0) × (m ≡ pos 0)
Fits equal_to_n n m = m ≡ pos 0
Fits not_equal_to_n n m = m ≡ pos 0
Fits less_than_n n m = m ≡ pos 0
Fits greater_than_n n m = m ≡ pos 0
Fits n_ever n m = (pos 1 ≤ℤ n) × (m ≡ pos 0)
Fits n_in_row n m = (pos 1 ≤ℤ n) × (m ≡ pos 0)
Fits range_n_to_m n m = n ≤ℤ m
Fits n_in_m n m = (pos 1 ≤ℤ n) × (n ≤ℤ m)
Fits n_in_time_m n m = (pos 1 ≤ℤ n) × (pos 1 ≤ℤ m)
Fits fail_for_time_n n m = Unit
Fits or n m = Unit
Fits and n m = Unit

takes_operands_iff : (op : Operator) (n m : ℤ) → (takes_operands op n m ≡ true) ↔ Fits op n m
unfolding takes_operands Fits
takes_operands_iff Operator.invalid n m = (λ h. ground arith, λ h. absurd h)
takes_operands_iff Operator.last n m = (λ h. ground arith, λ h. absurd h)
takes_operands_iff fail_for_time_n n m = (λ h. tt, λ h. refl)
takes_operands_iff or n m = (λ h. tt, λ h. refl)
takes_operands_iff and n m = (λ h. tt, λ h. refl)
takes_operands_iff op n m =
    (λ h. ground (arith, eq_of_parts n (pos 0), eq_of_parts m (pos 0)), λ h. ground arith)

-- A call that is accepted sets this rule alone.
rule_set_type-Fits :
    (r : ℕ) (op : Operator) (n m : ℤ) (rules rules' : ℕ → Settings)
    → (rule_set_type (object r) op n m rules ≡ some rules')
      ↔ (Fits op n m × (rules' ≡ update rules r (settings op n m)))
unfolding rule_set_type set_type_of
rule_set_type-Fits r op n m rules rules' = (
  λ e. elim (Bool-cases (takes_operands op n m)) [
    | inl takes ↦ ((takes_operands_iff op n m).0 takes, sym (some_injective (rw takes at e)))
    | inr refuses ↦ absurd (ground (arith, e, refuses))
  ],
  λ h. rw ((takes_operands_iff op n m).1 h.0) (ap some (sym h.1)),
)

fails_in_all : (m : ℕ) (rs : List (Result × ℤ)) → newest_fail m rs ≡ true → fails_in m rs ≡ m
unfolding newest_fail fails_in
fails_in_all zero rs h = refl
fails_in_all (suc m) [] h = cc
fails_in_all (suc m) ((r, v) ∷ rs) h = ground (arith, fails_in_all m rs)

-- The newest m results are all failures, or none of them is.
unfoldable pub Uniform : (failing : Bool) → ℕ → List (Result × ℤ) → Type 0
Uniform true m rs = newest_fail m rs ≡ true
Uniform false m rs = fails_in m rs ≡ 0

Uniform-verdict :
    (failing : Bool) (n m : ℕ) (rs : List (Result × ℤ))
    → pos 1 ≤ℤ pos n
    → pos n ≤ℤ pos m
    → Uniform failing m rs
    → (if leb_ℤ (pos n) (pos (fails_in m rs)) then fail else pass)
      ≡ (if failing then fail else pass)
unfolding Uniform
Uniform-verdict true n m rs some_n within u = ground (arith, fails_in_all m rs u)
Uniform-verdict false n m rs some_n within u = ground (arith, u)

-- An N_IN_M rule with operands that a call has accepted, once its memory is allocated and from no
-- rule data, over a history of passes and fails: it fails where the newest M results are all
-- failures, and it passes where none of them is.
pub accepted_n_in_m-Uniform :
    (mem : Memory) (is : List Input) (r n m : ℕ) (rules rules' : ℕ → Settings) (c : Counters)
    (rs : List (Result × ℤ)) (q : Result) (v : ℤ) (failing : Bool)
    → mem.table ≡ true
    → mem.data_block ≡ true
    → mem.bits ≡ true
    → rule_set_type (object r) n_in_m (pos n) (pos m) rules ≡ some rules'
    → c.rule_data ≡ none
    → AreVerdicts rs
    → IsVerdict q
    → Uniform failing m ((q, v) ∷ rs)
    → (evaluate mem (rule_of (rules' r)) is q v (after mem (rule_of (rules' r)) is c rs)).0
      ≡ (if failing then fail else pass)
unfolding Fits
accepted_n_in_m-Uniform mem is r n m rules rules' c rs q v failing table block bits e clear vs
      verdict u =
    let (fits, stored) = (rule_set_type-Fits r n_in_m (pos n) (pos m) rules rules').0 e in
    let at : rules' r ≡ settings n_in_m (pos n) (pos m) = ap (λ f. f r) stored ∙ ground arith in
    n_in_m-fails_in mem (rule_of (rules' r)) is m table block bits (ap (λ s. s.operator) at)
      (ap (λ s. s.op_m) at) (omega (arith, fits)) c rs q v clear vs verdict
    ∙ ap (λ s. if leb_ℤ s.op_n (pos (fails_in m ((q, v) ∷ rs))) then fail else pass) at
    ∙ Uniform-verdict failing n m ((q, v) ∷ rs) fits.0 fits.1 u
