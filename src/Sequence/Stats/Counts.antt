-- ===== src/Sequence/Stats/Counts.antt =====
-- The counters of an object's instances over a history of results.
use myreflection.Common.{
  ℕ, suc, ◌+◌, ◌≡◌, Option, none, some, List, [], ◌∷◌, arith, if◌then◌else◌, length,
}
use myreflection.Common.Int.{ℤ}
use myreflection.Types.{Result, pass, fail, abort, same_result, ObjType, Time, u32}
use myreflection.Sequence.Stats.{
  Stats, Instance, Obj, count_result, track, summarise, update_base, update_member,
}

-- A result for the base instance (none) or for a member.
pub record Event : Type 0 where
  pub target : Option ℕ
  pub time : Time
  pub result : Result
  pub amount : ℤ

deliver : Option ℕ → Event → Obj → Obj
deliver none e o = (update_base e.time e.result e.amount o).0
deliver (some k) e o = (update_member e.time e.result e.amount k o).0

-- The object after a history of results, the newest first.
pub after_events : Obj → List Event → Obj
unfolding deliver
after_events o [] = o
after_events o (e ∷ es) = deliver e.target e (after_events o es)

-- How many of the results are this one.
unfoldable pub count_of : Result → List Event → ℕ
count_of r [] = 0
count_of r (e ∷ es) = if same_result e.result r then count_of r es + 1 else count_of r es

-- The four counters.
pub record HasCounts (s : Stats) (runs passes failures aborts : ℕ) : Type 0 where
  pub runs_eq : s.runs ≡ u32 runs
  pub passes_eq : s.passes ≡ u32 passes
  pub failures_eq : s.failures ≡ u32 failures
  pub aborts_eq : s.aborts ≡ u32 aborts

track-HasCounts :
    (kind : ObjType) (now : Time) (r : Result) (v : ℤ) (i : Instance) (n p f a : ℕ)
    → HasCounts i.stats n p f a
    → HasCounts (track kind now r v i).0.stats n p f a
unfolding track
track-HasCounts kind now r v i n p f a h = ground arith

count_result-HasCounts :
    (r : Result) (s : Stats) (n p f a : ℕ)
    → HasCounts s n p f a
    → HasCounts
        (count_result r s)
        (suc n)
        (if same_result r pass then p + 1 else p)
        (if same_result r fail then f + 1 else f)
        (if same_result r abort then a + 1 else a)
unfolding count_result
count_result-HasCounts pass s n p f a h = ground arith
count_result-HasCounts _ s n p f a h = ground arith

summarise_stats :
    (r : Result) (members : List Instance) (i : Instance)
    → (summarise r members i).0.stats ≡ i.stats
unfolding summarise
summarise_stats r members i = ground arith

-- The counters that a history should give.
abbrev pub Exact : Stats → List Event → Type 0
Exact s es = HasCounts s (length es) (count_of pass es) (count_of fail es) (count_of abort es)

deliver-Exact :
    (t : Option ℕ) (e : Event) (o : Obj) (es : List Event)
    → Exact o.base.stats es
    → Exact (deliver t e o).base.stats (e ∷ es)
unfolding deliver update_base update_member count_of
deliver-Exact none e o es h =
    track-HasCounts o.kind e.time e.result e.amount
      (record o.base { stats = count_result e.result o.base.stats }) _ _ _ _
      (count_result-HasCounts e.result o.base.stats _ _ _ _ h)
deliver-Exact (some k) e o es h =
    rw summarise_stats (count_result-HasCounts e.result o.base.stats _ _ _ _ h)

-- From cleared counters, and whatever mix of results its base and its members get, an object's base
-- instance has counted all of them: its runs, passes, failures and aborts are the numbers of such results, modulo 2 ^ 32.
pub after_events-Exact :
    (o : Obj) (es : List Event) → Exact o.base.stats [] → Exact (after_events o es).base.stats es
unfolding after_events
after_events-Exact o [] h = h
after_events-Exact o (e ∷ es) h =
    deliver-Exact e.target e (after_events o es) es (after_events-Exact o es h)
