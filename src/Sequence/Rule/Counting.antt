-- ===== src/Sequence/Rule/Counting.antt =====
-- What the rules N_EVER and N_IN_ROW of `seq_rule_run` do over a history of results.
use native.Mathlib.Nat.{mod-eq_of_lt, mod-add-mod, mod-lt, mod_self, zero-mod}
use myreflection.Common.{
  ℕ, zero, suc, ◌+◌, ◌%◌, ◌≤◌, ◌<◌, ◌≡◌, Bool, true, false, ◌&&◌, List, [], ◌∷◌, arith, leb, ◌==◌,
  if◌then◌else◌, length,
}
use myreflection.Common.Int.{ℤ, pos}
use myreflection.Types.{Result, pass, fail, is_fail}
use myreflection.Sequence.Rule.{n_ever, n_in_row, Rule, Counters, Input, Memory, evaluate, after}

-- How many of the results are failures.
unfoldable pub fails : List (Result × ℤ) → ℕ
fails [] = 0
fails ((r, v) ∷ rs) = if is_fail r then fails rs + 1 else fails rs

-- Are there n results, and the newest n all failures?
unfoldable pub newest_fail : ℕ → List (Result × ℤ) → Bool
newest_fail zero rs = true
newest_fail (suc n) [] = false
newest_fail (suc n) ((r, v) ∷ rs) = is_fail r && newest_fail n rs

-- How many of the newest results are failures, up to the first that is not.
streak : List (Result × ℤ) → ℕ
streak [] = 0
streak ((r, v) ∷ rs) = if is_fail r then streak rs + 1 else 0

streak-le : (rs : List (Result × ℤ)) → streak rs ≤ length rs
unfolding streak
streak-le [] = omega arith
streak-le ((r, v) ∷ rs) = ground (arith, streak-le rs)

newest_fail-streak : (n : ℕ) (rs : List (Result × ℤ)) → newest_fail n rs ≡ leb n (streak rs)
unfolding newest_fail streak
newest_fail-streak zero rs = ground arith
newest_fail-streak (suc n) [] = ground arith
newest_fail-streak (suc n) ((r, v) ∷ rs) = ground (arith, newest_fail-streak n rs)

mod_step : (k n : ℕ) → 0 < n → (k + 1) % n ≡ (if (k % n + 1) == n then 0 else k % n + 1)
mod_step k n h =
    ground (arith, mod-add-mod k n 1, mod-lt k h, mod_self n, mod-eq_of_lt {n = k % n + 1} {m = n})

module _ (mem : Memory) (rule : Rule) (is : List Input) (n : ℕ) (op_n : rule.op_n ≡ pos n) where
  module _ (op : rule.operator ≡ n_ever) (n_pos : 0 < n) (n_fits : n < 4294967296) where
    n_ever_step :
        (r : Result) (v : ℤ) (k : ℕ) (c : Counters)
        → c.fail_count ≡ k % n
        → ((evaluate mem rule is r v c).0 ≡ (if is_fail r && (k + 1) % n == 0 then fail else pass))
          × ((evaluate mem rule is r v c).1.fail_count ≡ (if is_fail r then k + 1 else k) % n)
    unfolding evaluate
    n_ever_step r v k c e = rw op (ground (arith, mod_step k n n_pos, mod-lt k n_pos))

    n_ever_count :
        (c : Counters) (rs : List (Result × ℤ))
        → c.fail_count ≡ 0
        → (after mem rule is c rs).fail_count ≡ fails rs % n
    unfolding after fails
    n_ever_count c [] e = ground (arith, zero-mod n)
    n_ever_count c ((r, v) ∷ rs) e =
        ground (arith, n_ever_step r v (fails rs) (after mem rule is c rs) (n_ever_count c rs e))

    -- From a clear counter, an N_EVER rule fails on exactly every n-th failing result of its
    -- history, whatever results stand between, and passes on all others (0 < n < 2 ^ 32).
    pub n_ever-fails :
        (c : Counters) (rs : List (Result × ℤ)) (r : Result) (v : ℤ)
        → c.fail_count ≡ 0
        → (evaluate mem rule is r v (after mem rule is c rs)).0
          ≡ (if is_fail r && fails ((r, v) ∷ rs) % n == 0 then fail else pass)
    unfolding fails
    n_ever-fails c rs r v e =
        ground (arith, n_ever_step r v (fails rs) (after mem rule is c rs) (n_ever_count c rs e))

  module _ (op : rule.operator ≡ n_in_row) (n_pos : 0 < n) where
    n_in_row_step :
        (r : Result) (v : ℤ) (k : ℕ) (c : Counters)
        → c.fail_count ≡ k
        → k + 1 < 4294967296
        → ((evaluate mem rule is r v c).0 ≡ (if is_fail r && leb n (k + 1) then fail else pass))
          × ((evaluate mem rule is r v c).1.fail_count ≡ (if is_fail r then k + 1 else 0))
    unfolding evaluate
    n_in_row_step r v k c e h = rw op (ground arith)

    n_in_row_count :
        (c : Counters) (rs : List (Result × ℤ))
        → c.fail_count ≡ 0
        → length rs < 4294967296
        → (after mem rule is c rs).fail_count ≡ streak rs
    unfolding after streak
    n_in_row_count c [] e h = e
    n_in_row_count c ((r, v) ∷ rs) e h =
        (n_in_row_step r v (streak rs) (after mem rule is c rs)
          (n_in_row_count c rs e (omega arith)) (omega (arith, streak-le rs))).1

    -- From a clear counter, an N_IN_ROW rule fails exactly when the newest n results of its
    -- history, this one among them, are all failures (0 < n, fewer than 2 ^ 32 results).
    pub n_in_row-newest_fail :
        (c : Counters) (rs : List (Result × ℤ)) (r : Result) (v : ℤ)
        → c.fail_count ≡ 0
        → length ((r, v) ∷ rs) < 4294967296
        → (evaluate mem rule is r v (after mem rule is c rs)).0
          ≡ (if newest_fail n ((r, v) ∷ rs) then fail else pass)
    unfolding streak
    n_in_row-newest_fail c rs r v e h = rw (newest_fail-streak n ((r, v) ∷ rs)) (
        ground (
          arith,
          (n_in_row_step r v (streak rs) (after mem rule is c rs)
              (n_in_row_count c rs e (omega arith)) (omega (arith, streak-le rs))).0,
        ))
