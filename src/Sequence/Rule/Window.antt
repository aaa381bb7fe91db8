-- ===== src/Sequence/Rule/Window.antt =====
-- The rule N_IN_M of `seq_rule_run` over a history of results: the ring of history bits is the
-- window of the newest M results.
use myreflection.Common.{
  ℕ, zero, suc, ◌+◌, ◌-◌, ◌/◌, ◌<◌, ◌≡◌, ◌≢◌, refl, sym, ap, ◌∙◌, Bool, true, false, none, some,
  List, [], ◌∷◌, arith, ltb, if◌then◌else◌, length, get_or, set, replicate, length-replicate,
  get_or-set_self, get_or-set_ne,
}
use myreflection.Common.Int.{ℤ, pos, leb_ℤ}
use myreflection.Types.{Result, pass, fail, is_fail}
use myreflection.Sequence.Rule.{
  n_in_m, Rule, RuleData, Counters, Input, Memory, record_bit, sum_bits, rule_data_for, evaluate,
  after,
}
use myreflection.Sequence.Rule.Bits.{
  IsVerdict, IsBytes, bits_of, trues, length-bits_of, sum_bits-trues, record_bit_bits,
  length-record_bit, zeros_clear, trues-set, one_if,
}

-- Is the k-th newest result a failure? False beyond the history.
unfoldable pub nth_fails : List (Result × ℤ) → ℕ → Bool
nth_fails [] k = false
nth_fails ((r, v) ∷ rs) zero = is_fail r
nth_fails ((r, v) ∷ rs) (suc k) = nth_fails rs k

-- How many of the newest m results are failures.
unfoldable pub fails_in : ℕ → List (Result × ℤ) → ℕ
fails_in zero rs = 0
fails_in (suc m) [] = 0
fails_in (suc m) ((r, v) ∷ rs) = if is_fail r then fails_in m rs + 1 else fails_in m rs

fails_in_nil : (m : ℕ) → 0 ≡ fails_in m []
unfolding fails_in
fails_in_nil zero = refl
fails_in_nil (suc m) = refl

-- A result that enters the window pushes the oldest one out.
fails_in_slide :
    (m : ℕ) (r : Result) (v : ℤ) (rs : List (Result × ℤ))
    → fails_in (suc m) ((r, v) ∷ rs) + one_if (nth_fails rs m)
      ≡ fails_in (suc m) rs + one_if (is_fail r)
unfolding fails_in nth_fails
fails_in_slide zero r v [] = ground arith
fails_in_slide zero r v ((s, w) ∷ rs) = ground arith
fails_in_slide (suc m) r v [] = ground arith
fails_in_slide (suc m) r v ((s, w) ∷ rs) = ground (arith, fails_in_slide m s w rs)

-- Where the k-th newest result stands when the next goes to p.
slot : (m p k : ℕ) → ℕ
slot m p k = if ltb k p then p - 1 - k else p + m - 1 - k

abbrev next_position : ℕ → ℕ → ℕ
next_position m p = if ltb (p + 1) m then p + 1 else 0

slot_newest : (m p : ℕ) → p < m → slot m (next_position m p) 0 ≡ p
unfolding slot
slot_newest m p h = ground arith

slot_older : (m p k : ℕ) → p < m → suc k < m → slot m (next_position m p) (suc k) ≡ slot m p k
unfolding slot
slot_older m p k h hk = ground arith

slot_ne : (m p k : ℕ) → suc k < m → p ≢ slot m p k
unfolding slot
slot_ne m p k hk = ground arith

slot_oldest : (m p : ℕ) → p < m → slot m p (m - 1) ≡ p
unfolding slot
slot_oldest m p h = ground arith

-- The history bits hold the newest m results and nothing else.
record Holds (m : ℕ) (rs : List (Result × ℤ)) (d : RuleData) (bytes : List ℕ) : Type 0 where
  history : d.history ≡ some bytes
  size : d.history_size ≡ pos (m / 8 + 1)
  long : length bytes ≡ m / 8 + 1
  small : IsBytes bytes
  within : d.position < m
  slots : (k : ℕ) → k < m → get_or (bits_of bytes) (slot m d.position k) false ≡ nth_fails rs k
  count : trues (bits_of bytes) ≡ fails_in m rs

module _ (m : ℕ) (rs : List (Result × ℤ)) (r : Result) (v : ℤ) (d : RuleData) (bytes : List ℕ)
    (h : Holds m rs d bytes) (verdict : IsVerdict r) where
  abbrev written : List ℕ
  written = record_bit r d.position bytes

  recorded : (bits_of written ≡ set (bits_of bytes) d.position (is_fail r)) × IsBytes written
  recorded = record_bit_bits r d.position bytes verdict h.small (omega (arith, h.within, h.long))

  room : d.position < length (bits_of bytes)
  room = omega (arith, h.within, h.long, length-bits_of bytes)

  slots_written :
      (k : ℕ)
      → k < m
      → get_or (bits_of written) (slot m (next_position m d.position) k) false
        ≡ nth_fails ((r, v) ∷ rs) k
  unfolding nth_fails
  slots_written zero hk =
      rw (recorded.0, slot_newest m d.position h.within) (get_or-set_self _ _ _ _ room)
  slots_written (suc k) hk =
      rw (recorded.0, slot_older m d.position k h.within hk)
        (get_or-set_ne _ _ _ _ false (slot_ne m d.position k hk) ∙ h.slots k (omega arith))

  count_written : trues (bits_of written) ≡ fails_in m ((r, v) ∷ rs)
  count_written =
      let p = d.position in
      let slide = fails_in_slide (m - 1) r v rs in
      let last : get_or (bits_of bytes) p false ≡ nth_fails rs (m - 1) =
        rw (sym (slot_oldest m p h.within)) (h.slots (m - 1) (omega (arith, h.within))) in
      let e : suc (m - 1) ≡ m = omega (arith, h.within) in
      rw (recorded.0) (
        omega (
          arith,
          trues-set (bits_of bytes) p (is_fail r) room,
          ap one_if last,
          rw e at slide,
          h.count,
        ))

  written-Holds :
      Holds m
        ((r, v) ∷ rs)
        (record d { history = some written; position = next_position m d.position })
        written
  written-Holds = record {
    history = refl;
    size = h.size;
    long = length-record_bit r d.position bytes ∙ h.long;
    small = recorded.1;
    within = ground (arith, h.within);
    slots = slots_written;
    count = count_written;
  }

-- All results are verdicts.
abbrev pub AreVerdicts : List (Result × ℤ) → Type 0
AreVerdicts [] = Unit
AreVerdicts ((r, v) ∷ rs) = IsVerdict r × AreVerdicts rs

module _ (mem : Memory) (rule : Rule) (is : List Input) (m : ℕ) (table : mem.table ≡ true)
    (data_block : mem.data_block ≡ true) (bits : mem.bits ≡ true) (op : rule.operator ≡ n_in_m)
    (op_m : rule.op_m ≡ pos m) (m_pos : 0 < m) where
  -- The rule data that the next evaluation finds or allocates hold the window.
  abbrev Ready : List (Result × ℤ) → Counters → Type 0
  Ready rs c =
      (d : RuleData) × (bytes : List ℕ) × (rule_data_for mem rule c.rule_data ≡ some d)
      × Holds m rs d bytes

  fresh : (c : Counters) → c.rule_data ≡ none → Ready [] c
  unfolding rule_data_for nth_fails
  fresh c e =
      let (bytes, clear, unset) = zeros_clear (m / 8 + 1) in
      (
        record {
          history = some (replicate (m / 8 + 1) 0);
          history_size = pos (m / 8 + 1);
          position = 0;
        },
        replicate (m / 8 + 1) 0,
        rw (e, data_block, op_m, bits),
        record {
          history = refl;
          size = refl;
          long = length-replicate (m / 8 + 1) 0;
          small = bytes;
          within = m_pos;
          slots = λ k hk. unset _;
          count = clear ∙ fails_in_nil m;
        },
      )

  evaluate_verdict :
      (rs : List (Result × ℤ)) (r : Result) (v : ℤ) (c : Counters) (d : RuleData) (bytes : List ℕ)
      → IsVerdict r
      → rule_data_for mem rule c.rule_data ≡ some d
      → Holds m rs d bytes
      → let written = record_bit r d.position bytes in
        evaluate mem rule is r v c ≡ (
          (if leb_ℤ rule.op_n (pos (sum_bits true written)) then fail else pass),
          record c {
            rule_data =
                some (record d { history = some written; position = next_position m d.position });
          },
        )
  unfolding evaluate rule_data_for
  evaluate_verdict rs r v c d bytes verdict found h =
      ground (arith, h.history, h.size, h.within, table, op, op_m, verdict)

  verdict_step :
      (rs : List (Result × ℤ)) (r : Result) (v : ℤ) (c : Counters)
      → IsVerdict r
      → Ready rs c
      → ((evaluate mem rule is r v c).0
          ≡ (if leb_ℤ rule.op_n (pos (fails_in m ((r, v) ∷ rs))) then fail else pass))
        × Ready ((r, v) ∷ rs) (evaluate mem rule is r v c).1
  unfolding rule_data_for
  verdict_step rs r v c verdict (d, bytes, found, h) =
      let holds = written-Holds m rs r v d bytes h verdict in
      let counted = sum_bits-trues (record_bit r d.position bytes) holds.small ∙ holds.count in
      rw (evaluate_verdict rs r v c d bytes verdict found h) (rw counted, (_, _, refl, holds))

  history_Ready :
      (rs : List (Result × ℤ)) (c : Counters)
      → c.rule_data ≡ none
      → AreVerdicts rs
      → Ready rs (after mem rule is c rs)
  unfolding after
  history_Ready [] c e vs = fresh c e
  history_Ready ((r, v) ∷ rs) c e vs =
      (verdict_step rs r v (after mem rule is c rs) vs.0 (history_Ready rs c e vs.1)).1

  -- Once its memory is allocated, an N_IN_M rule that started with no rule data fails on a pass or
  -- fail exactly when op_n or more of the newest M results of its history, this one among them, are
  -- failures (0 < M, and all earlier results were passes and fails too).
  pub n_in_m-fails_in :
      (c : Counters) (rs : List (Result × ℤ)) (r : Result) (v : ℤ)
      → c.rule_data ≡ none
      → AreVerdicts rs
      → IsVerdict r
      → (evaluate mem rule is r v (after mem rule is c rs)).0
        ≡ (if leb_ℤ rule.op_n (pos (fails_in m ((r, v) ∷ rs))) then fail else pass)
  n_in_m-fails_in c rs r v e vs verdict =
      (verdict_step rs r v (after mem rule is c rs) verdict (history_Ready rs c e vs)).0
