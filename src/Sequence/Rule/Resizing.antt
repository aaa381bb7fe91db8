-- ===== src/Sequence/Rule/Resizing.antt =====
-- An N_IN_M rule whose op_m is raised after its history was allocated: `myrefl_rule_set_type` keeps
-- the old history, and `seq_rule_run` gives up where it runs off its end.
use native.Mathlib.Decide.{dec_lt}
use myreflection.Common.{
  ℕ, suc, ◌+◌, ◌*◌, ◌≤◌, ◌<◌, ◌≡◌, refl, sym, ap, subst, List, [], ◌∷◌, some, arith, ltb,
  if◌then◌else◌, length,
}
use myreflection.Common.Int.{ℤ, pos}
use myreflection.Types.{Result, pass}
use myreflection.Sequence.Rule.{
  n_in_m, Rule, RuleData, Counters, Input, Memory, record_bit, evaluate, after,
}
use myreflection.Sequence.Rule.Bits.{IsVerdict}
use myreflection.Sequence.Rule.Window.{AreVerdicts}

module _ (mem : Memory) (rule : Rule) (is : List Input) (m size : ℕ) (op : rule.operator ≡ n_in_m)
    (op_m : rule.op_m ≡ pos m) (short : 8 * size < m) where
  -- The instance has rule data of this many bytes, and stands at this position.
  abbrev pub StandsAt : ℕ → Counters → Type 0
  StandsAt p c =
      (d : RuleData) × (bytes : List ℕ) × (c.rule_data ≡ some d)
      × (d.history ≡ some bytes)
      × (d.history_size ≡ pos size)
      × (d.position ≡ p)

  moves :
      (p : ℕ) (r : Result) (v : ℤ) (c : Counters)
      → IsVerdict r
      → p < 8 * size
      → StandsAt p c
      → StandsAt (p + 1) (evaluate mem rule is r v c).1
  unfolding evaluate
  moves p r v c verdict h (d, bytes, found, history, long, at) = (
    record d { history = some (record_bit r d.position bytes); position = d.position + 1 },
    record_bit r d.position bytes,
    ground (arith, op, op_m, verdict),
    refl,
    long,
    ground arith,
  )

  stays :
      (r : Result) (v : ℤ) (c : Counters)
      → IsVerdict r
      → StandsAt (8 * size) c
      → evaluate mem rule is r v c ≡ (pass, c)
  unfolding evaluate
  stays r v c verdict (d, bytes, found, history, long, at) = ground (arith, op, op_m, verdict)

  -- The position climbs with each verdict to the end of the old history.
  abbrev climbed : ℕ → ℕ → ℕ
  climbed p k = if ltb (p + k) (8 * size) then p + k else 8 * size

  climbs :
      (p : ℕ) (c : Counters) (rs : List (Result × ℤ))
      → p ≤ 8 * size
      → StandsAt p c
      → AreVerdicts rs
      → StandsAt (climbed p (length rs)) (after mem rule is c rs)
  unfolding after
  climbs p c [] h at vs = let e : climbed p 0 ≡ p = ground arith in rw e at
  climbs p c ((r, v) ∷ rs) h at vs =
      let before = climbs p c rs h at vs.1 in
      let k = length rs in
      elim (dec_lt (p + k) (8 * size)) [
        | yes lower ↦
            let e : climbed p k ≡ p + k = ground arith in
            let e' : climbed p (suc k) ≡ p + k + 1 = ground arith in
            rw e' (moves (p + k) r v (after mem rule is c rs) vs.0 lower (rw e at before))
        | no done ↦
            let e : climbed p k ≡ 8 * size = ground arith in
            let e' : climbed p (suc k) ≡ 8 * size = ground arith in
            let still = stays r v (after mem rule is c rs) vs.0 (rw e at before) in
            rw e' (subst (StandsAt (8 * size)) (sym (ap (λ t. t.1) still)) (rw e at before))
      ]

  -- An N_IN_M rule whose op_m exceeds the number of bits of the history that it holds (it was raised
  -- by myrefl_rule_set_type after the history was allocated) passes every verdict and counts no more
  -- once as many verdicts came as took it to the end of that history, failures though they all be.
  pub n_in_m_stuck :
      (p : ℕ) (c : Counters) (rs : List (Result × ℤ)) (r : Result) (v : ℤ)
      → p ≤ 8 * size
      → StandsAt p c
      → AreVerdicts rs
      → IsVerdict r
      → 8 * size ≤ p + length rs
      → evaluate mem rule is r v (after mem rule is c rs) ≡ (pass, after mem rule is c rs)
  n_in_m_stuck p c rs r v h at vs verdict full =
      let e : climbed p (length rs) ≡ 8 * size = ground arith in
      stays r v (after mem rule is c rs) verdict (rw e at (climbs p c rs h at vs))
