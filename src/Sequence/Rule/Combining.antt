-- ===== src/Sequence/Rule/Combining.antt =====
-- The rules OR and AND of `seq_rule_run`, whose result is found from their inputs' results.
use mathlib.Core.List.{Memᴰ}
use myreflection.Common.{◌≡◌, ◌↔◌, inl, inr, refl, subst, ◌&&◌, Bool-cases, List, [], ◌∷◌, arith}
use myreflection.Common.Int.{ℤ}
use myreflection.Types.{Result, pass, fail, is_pass, is_fail, enabled, is_enabled}
use myreflection.Sequence.Rule.{or, and, Rule, Counters, Input, Memory, run_or, run_and, evaluate}

-- Some input is enabled and last had this result.
abbrev pub SomeInput : Result → List Input → Type 0
SomeInput r is = (i : Input) × Memᴰ i is × (i.last_result ≡ r) × (i.state ≡ enabled)

run_or-fail : (is : List Input) → run_or is ≡ fail → SomeInput fail is
unfolding run_or
run_or-fail [] h = cc
run_or-fail (i ∷ is) h = elim (Bool-cases (is_fail i.last_result && is_enabled i.state)) [
  | inl hit ↦ (i, Memᴰ.head refl, ground arith, ground arith)
  | inr miss ↦ let (j, m, p, q) = run_or-fail is (ground arith) in (j, Memᴰ.tail m, p, q)
]

run_and-pass : (is : List Input) → run_and is ≡ pass → SomeInput pass is
unfolding run_and
run_and-pass [] h = cc
run_and-pass (i ∷ is) h = elim (Bool-cases (is_pass i.last_result && is_enabled i.state)) [
  | inl hit ↦ (i, Memᴰ.head refl, ground arith, ground arith)
  | inr miss ↦ let (j, m, p, q) = run_and-pass is (ground arith) in (j, Memᴰ.tail m, p, q)
]

run_or_of_some :
    {i : Input} {is : List Input}
    → Memᴰ i is
    → (i.last_result ≡ fail) × (i.state ≡ enabled)
    → run_or is ≡ fail
unfolding run_or
run_or_of_some {i} (Memᴰ.head {x} e) h =
    let x_fails : (x.last_result ≡ fail) × (x.state ≡ enabled) =
      subst (λ (y : Input). (y.last_result ≡ fail) × (y.state ≡ enabled)) e h in
    rw (x_fails.0, x_fails.1)
run_or_of_some (Memᴰ.tail m) h = ground (arith, run_or_of_some m h)

run_and_of_some :
    {i : Input} {is : List Input}
    → Memᴰ i is
    → (i.last_result ≡ pass) × (i.state ≡ enabled)
    → run_and is ≡ pass
unfolding run_and
run_and_of_some {i} (Memᴰ.head {x} e) h =
    let x_passes : (x.last_result ≡ pass) × (x.state ≡ enabled) =
      subst (λ (y : Input). (y.last_result ≡ pass) × (y.state ≡ enabled)) e h in
    rw (x_passes.0, x_passes.1)
run_and_of_some (Memᴰ.tail m) h = ground (arith, run_and_of_some m h)

module _ (mem : Memory) (rule : Rule) (r : Result) (v : ℤ) (c : Counters) where
  -- An OR rule fails exactly when some enabled input is failing, whatever the result that triggered
  -- it, and leaves the counters as they were.
  pub or-fails :
      (is : List Input)
      → rule.operator ≡ or
      → ((evaluate mem rule is r v c).0 ≡ fail ↔ SomeInput fail is)
        × ((evaluate mem rule is r v c).1 ≡ c)
  unfolding evaluate
  or-fails is op = rw op ((run_or-fail is, λ (i, m, p, q). run_or_of_some m (p, q)), refl)

  -- An AND rule passes exactly when some enabled input is passing, and leaves the counters as they
  -- were.
  pub and-passes :
      (is : List Input)
      → rule.operator ≡ and
      → ((evaluate mem rule is r v c).0 ≡ pass ↔ SomeInput pass is)
        × ((evaluate mem rule is r v c).1 ≡ c)
  unfolding evaluate
  and-passes is op = rw op ((run_and-pass is, λ (i, m, p, q). run_and_of_some m (p, q)), refl)
