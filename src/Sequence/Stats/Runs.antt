-- ===== src/Sequence/Stats/Runs.antt =====
-- The result history of an instance: the ring of records in obj_stats_t holds the newest runs of
-- equal results.
use myreflection.Common.{
  ℕ, zero, suc, ◌+◌, ◌≤◌, ◌<◌, ◌≡◌, refl, subst, ◌∙◌, false, inl, inr, Option, none, some, List, [],
  ◌∷◌, arith, if◌then◌else◌, length, Bool-cases,
}
use myreflection.Common.Int.{ℤ}
use myreflection.Types.{
  Result, pass, fail, same_result, same_result-eq, same_result_self, ObjType, is_action, Time,
}
use myreflection.Sequence.Stats.{
  HistoryEntry, Stats, Instance, new_history_record, update_history_record, track,
}
use myreflection.Sequence.Rule.Bits.{IsVerdict}
use myreflection.Sequence.Stats.Ring.{
  IsRing, recent, back_self, new_record, update_fresh, at_head, updated_record,
}

-- A history of passes and fails, the newest first.
pub record Verdict : Type 0 where
  pub time : Time
  pub result : Result
  pub amount : ℤ
  pub is_verdict : IsVerdict result

-- A result joins the newest run, or begins one.
unfoldable pub extend : Result → List (Result × ℕ) → List (Result × ℕ)
extend r [] = (r, 1) ∷ []
extend r ((q, n) ∷ runs) = if same_result q r then (q, n + 1) ∷ runs else (r, 1) ∷ (q, n) ∷ runs

-- The runs of equal results with their lengths, the newest first.
unfoldable pub runs_of : List Verdict → List (Result × ℕ)
unfolding extend
runs_of [] = []
runs_of (e ∷ es) = extend e.result (runs_of es)

abbrev pub nth : List (Result × ℕ) → ℕ → Option (Result × ℕ)
nth [] k = none
nth (x ∷ xs) zero = some x
nth (x ∷ xs) (suc k) = nth xs k

abbrev Shows : HistoryEntry → Option (Result × ℕ) → Type 0
Shows e none = Unit
Shows e (some (r, n)) = (e.result ≡ r) × (e.count ≡ n)

-- The ring's records are the newest runs, and the last result is that of the newest.
pub record Recorded (runs : List (Result × ℕ)) (s : Stats) (last : Result) : Type 0 where
  pub ring : IsRing s
  pub shown : (k : ℕ) → k < 5 → Shows (recent s k) (nth runs k)
  pub newest : (q : Result) (n : ℕ) → nth runs 0 ≡ some (q, n) → last ≡ q
  pub unused : runs ≡ [] → (recent s 0).count ≡ 0

-- The newest run is of verdicts, has a length, and no more results than this.
abbrev Bounded : ℕ → List (Result × ℕ) → Type 0
Bounded m [] = Unit
Bounded m ((q, n) ∷ runs) = IsVerdict q × (0 < n) × (n ≤ m)

extend-Bounded :
    (m : ℕ) (r : Result) (runs : List (Result × ℕ))
    → IsVerdict r
    → Bounded m runs
    → Bounded (suc m) (extend r runs)
unfolding extend
extend-Bounded m r [] v h = (v, omega arith, omega arith)
extend-Bounded m r ((q, n) ∷ runs) v (w, low, high) = elim (Bool-cases (same_result q r)) [
  | inl same ↦ rw same (w, omega arith, omega arith)
  | inr other ↦ rw other (v, omega arith, omega arith)
]

runs_of-Bounded : (es : List Verdict) → Bounded (length es) (runs_of es)
unfolding runs_of
runs_of-Bounded [] = tt
runs_of-Bounded (e ∷ es) =
    extend-Bounded (length es) e.result (runs_of es) e.is_verdict (runs_of-Bounded es)

track_verdict_lem :
    (kind : ObjType) (now : Time) (r : Result) (v : ℤ) (i : Instance)
    → IsVerdict r
    → is_action kind ≡ false
    → let i' = (track kind now r v i).0 in
      (i'.stats ≡ (
        if same_result i.last_result r
        then update_history_record now r v i.stats
        else new_history_record now r v i.stats))
      × (i'.last_result ≡ r)
unfolding track
track_verdict_lem kind now pass v i w h = ground (arith, same_result-eq i.last_result pass)
track_verdict_lem kind now fail v i w h = ground (arith, same_result-eq i.last_result fail)
track_verdict_lem kind now _ v i w h = absurd w

module _ (now : Time) (r : Result) (v : ℤ) (s : Stats) (last : Result) where
  begun :
      (runs : List (Result × ℕ))
      → Recorded runs s last
      → Recorded ((r, 1) ∷ runs) (new_history_record now r v s) r
  begun runs h =
      let (ring, first, older) = new_record now r v s h.ring in
      record {
        ring = ring;
        shown = elim [
          | zero ↦ λ hk. rw first (refl, refl)
          | suc k ↦ λ hk. rw (older k hk) (h.shown k (omega arith))
        ];
        newest = λ q n e. ground arith;
        unused = λ e. cc;
      }

  begun_fresh : Recorded [] s last → Recorded ((r, 1) ∷ []) (update_history_record now r v s) r
  begun_fresh h =
      let e = rw (back_self s.history_head) at (h.unused refl) in
      rw (update_fresh now r v s h.ring e) (begun [] h)

  continued :
      (n : ℕ) (runs : List (Result × ℕ))
      → 0 < n
      → n + 1 < 4294967296
      → Recorded ((r, n) ∷ runs) s last
      → Recorded ((r, n + 1) ∷ runs) (update_history_record now r v s) r
  continued n runs n_pos small h =
      let top : Shows (at_head now r v s h.ring) (some (r, n)) =
        rw (back_self s.history_head) at (h.shown 0 (omega arith)) in
      let (ring, first, older) = updated_record now r v s h.ring (λ e. omega (arith, top.1)) in
      record {
        ring = ring;
        shown = elim [
          | zero ↦ λ hk. rw first (top.0, rw (top.0, top.1, same_result_self r) (omega arith))
          | suc k ↦ λ hk. rw (older k hk) (h.shown (suc k) hk)
        ];
        newest = λ q m e. ground arith;
        unused = λ e. cc;
      }

  -- One verdict, by the branch that `track` takes on the last result.
  Recorded-step :
      (m : ℕ) (runs : List (Result × ℕ))
      → IsVerdict r
      → m + 1 < 4294967296
      → Bounded m runs
      → Recorded runs s last
      → Recorded
          (extend r runs)
          (if same_result last r
            then update_history_record now r v s
            else new_history_record now r v s)
          r
  unfolding extend
  Recorded-step m [] w small b h = elim (Bool-cases (same_result last r)) [
    | inl same ↦ rw same (begun_fresh h)
    | inr other ↦ rw other (begun [] h)
  ]
  Recorded-step m ((q, n) ∷ runs) w small (_, low, high) h = elim (Bool-cases (same_result q r)) [
    | inl same ↦
        let e = same_result-eq q r same in
        let l : last ≡ r = h.newest q n refl ∙ e in
        rw (l, e, same_result_self r)
          (continued n runs low (omega arith) (subst (λ t. Recorded ((t, n) ∷ runs) s last) e h))
    | inr other ↦ rw (h.newest q n refl, other) (begun ((q, n) ∷ runs) h)
  ]

-- An instance after a history of verdicts, the newest first.
pub after_verdicts : ObjType → Instance → List Verdict → Instance
unfolding track
after_verdicts kind i [] = i
after_verdicts kind i (e ∷ es) = (track kind e.time e.result e.amount (after_verdicts kind i es)).0

-- The records of a test or a rule, read back from the newest, are the newest five runs of equal
-- results with their lengths, after any history of fewer than 2 ^ 32 passes and fails that starts
-- from an unused ring.
pub after_verdicts-Recorded :
    (kind : ObjType) (i : Instance) (es : List Verdict)
    → is_action kind ≡ false
    → length es < 4294967296
    → Recorded [] i.stats i.last_result
    → Recorded (runs_of es) (after_verdicts kind i es).stats (after_verdicts kind i es).last_result
unfolding after_verdicts runs_of
after_verdicts-Recorded kind i [] h small start = start
after_verdicts-Recorded kind i (e ∷ es) h small start =
    let i' = after_verdicts kind i es in
    let before = after_verdicts-Recorded kind i es h (omega arith) start in
    let now =
      Recorded-step e.time e.result e.amount i'.stats i'.last_result (length es) (runs_of es)
        e.is_verdict (omega arith) (runs_of-Bounded es) before in
    let (stats, last) = track_verdict_lem kind e.time e.result e.amount i' e.is_verdict h in
    rw (stats, last) now
