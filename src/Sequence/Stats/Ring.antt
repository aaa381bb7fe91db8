-- ===== src/Sequence/Stats/Ring.antt =====
-- The ring of result records in obj_stats_t: what the two functions that write it do to the records,
-- counted back from the newest.
use myreflection.Common.{
  ℕ, suc, ◌+◌, ◌-◌, ◌<◌, ◌≡◌, ◌≢◌, ◌∙◌, true, false, arith, leb, ◌==◌, if◌then◌else◌, length,
  get_or, set, length-set, get_or-set_self, get_or-set_ne,
}
use myreflection.Common.Int.{ℤ}
use myreflection.Types.{Result, same_result, Time, u32}
use myreflection.Sequence.Stats.{
  HistoryEntry, Stats, blank, new_history_record, update_history_record,
}

-- Where the k-th newest record stands.
unfoldable pub back : ℕ → ℕ → ℕ
back head k = if leb k head then head - k else head + 5 - k

-- The k-th newest record, for k < 5.
abbrev pub recent : Stats → ℕ → HistoryEntry
recent s k = get_or s.history (back s.history_head k) blank

-- The shape of a ring of records.
pub record IsRing (s : Stats) : Type 0 where
  pub sized : length s.history ≡ 5
  pub inside : s.history_head < 5

pub back_self : (head : ℕ) → back head 0 ≡ head
unfolding back
back_self head = ground arith

abbrev next_head : ℕ → ℕ
next_head head = if (head + 1) == 5 then 0 else head + 1

next_head_lt : (head : ℕ) → head < 5 → next_head head < 5
next_head_lt head h = ground arith

back_next : (head k : ℕ) → head < 5 → suc k < 5 → back (next_head head) (suc k) ≡ back head k
unfolding back
back_next head k h hk = ground arith

back_ne : (head k : ℕ) → head < 5 → suc k < 5 → next_head head ≢ back head k
unfolding back
back_ne head k h hk = ground arith

back_ne_self : (head k : ℕ) → head < 5 → suc k < 5 → head ≢ back head (suc k)
unfolding back
back_ne_self head k h hk = ground arith

module _ (now : Time) (r : Result) (v : ℤ) (s : Stats) (ring : IsRing s) where
  pub new_record :
      let s' = new_history_record now r v s in
      IsRing s'
      × (recent s' 0 ≡ record { time = now; result = r; count = 1; amount = v })
      × ((k : ℕ) → suc k < 5 → recent s' (suc k) ≡ recent s k)
  unfolding new_history_record
  new_record =
      let head = s.history_head in
      let next = next_head_lt head ring.inside in
      (
        record { sized = length-set s.history (next_head head) _ ∙ ring.sized; inside = next },
        rw (back_self (next_head head))
            (get_or-set_self s.history (next_head head) _ blank (omega (arith, ring.sized, next))),
        λ k hk. rw (back_next head k ring.inside hk) (
            get_or-set_ne s.history (next_head head) (back head k) _ blank
              (back_ne head k ring.inside hk)),
      )

  abbrev pub at_head : HistoryEntry
  at_head = get_or s.history s.history_head blank

  abbrev pub moved_on : HistoryEntry
  moved_on = record at_head {
    count = if same_result at_head.result r then u32 (at_head.count + 1) else at_head.count;
    amount = v;
  }

  pub update_fresh :
      at_head.count ≡ 0 → update_history_record now r v s ≡ new_history_record now r v s
  unfolding update_history_record
  update_fresh h = let e : (at_head.count == 0) ≡ true = ground arith in rw e

  update_equation :
      at_head.count ≢ 0
      → update_history_record now r v s
        ≡ record s { history = set s.history s.history_head moved_on }
  unfolding update_history_record
  update_equation h = let e : (at_head.count == 0) ≡ false = ground arith in rw e

  pub updated_record :
      at_head.count ≢ 0
      → let s' = update_history_record now r v s in
        IsRing s'
        × (recent s' 0 ≡ moved_on)
        × ((k : ℕ) → suc k < 5 → recent s' (suc k) ≡ recent s (suc k))
  updated_record h =
      let head = s.history_head in
      rw (update_equation h) (
        record { sized = length-set s.history head _ ∙ ring.sized; inside = ring.inside },
        rw (back_self head) (
            get_or-set_self s.history head moved_on blank (omega (arith, ring.sized, ring.inside))),
        λ k hk.
            get_or-set_ne s.history head (back head (suc k)) moved_on blank
              (back_ne_self head k ring.inside hk),
      )
