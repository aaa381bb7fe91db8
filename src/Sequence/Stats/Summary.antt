-- ===== src/Sequence/Stats/Summary.antt =====
-- The base instance as a summary of the members.
use myreflection.Common.{
  ℕ, zero, suc, ◌<◌, ◌≡◌, refl, sym, ap, ◌∙◌, true, false, ◌||◌, List, [], ◌∷◌, arith,
  if◌then◌else◌, length, get_or, set,
}
use myreflection.Common.Int.{ℤ}
use myreflection.Types.{Result, pass, fail, is_pass, is_fail, ObjType, Time}
use myreflection.Sequence.Stats.{
  Instance, Obj, count_result, track, any_failing, summarise, update_member,
}

any_failing-set_failing :
    (is : List Instance) (k : ℕ) (i : Instance)
    → k < length is
    → i.last_result ≡ fail
    → any_failing (set is k i) ≡ true
unfolding any_failing
any_failing-set_failing [] k i h e = elim h [ ]
any_failing-set_failing (x ∷ is) zero i h e = rw e
any_failing-set_failing (x ∷ is) (suc k) i h e = ground (arith, any_failing-set_failing is k i)

-- A member that is not failing does not make the set fail.
any_failing-set_other :
    (is : List Instance) (k : ℕ) (i : Instance)
    → is_fail i.last_result ≡ false
    → any_failing (set is k i) ≡ true
    → any_failing is ≡ true
unfolding any_failing
any_failing-set_other [] k i e h = h
any_failing-set_other (x ∷ is) zero i e h = ground arith
any_failing-set_other (x ∷ is) (suc k) i e h = ground (arith, any_failing-set_other is k i)

-- A member whose result stays keeps the set as it was.
any_failing-set_same :
    (is : List Instance) (k : ℕ) (d i : Instance)
    → is_fail i.last_result ≡ is_fail (get_or is k d).last_result
    → any_failing (set is k i) ≡ any_failing is
unfolding any_failing
any_failing-set_same [] k d i e = refl
any_failing-set_same (x ∷ is) zero d i e = rw e
any_failing-set_same (x ∷ is) (suc k) d i e = rw (any_failing-set_same is k d i e)

-- The result that a tracked instance has afterwards.
track_last :
    (kind : ObjType) (now : Time) (r : Result) (v : ℤ) (i : Instance)
    → (track kind now r v i).0.last_result ≡ (if is_pass r || is_fail r then r else i.last_result)
unfolding track
track_last kind now pass v i = ground arith
track_last kind now fail v i = ground arith
track_last kind now _ v i = ground arith

-- The base fails exactly when some member does.
abbrev pub Summarises : Obj → Type 0
Summarises o = is_fail o.base.last_result ≡ any_failing o.members

summary_step :
    (r : Result) (is : List Instance) (base i d : Instance) (k : ℕ)
    → k < length is
    → i.last_result ≡ (if is_pass r || is_fail r then r else (get_or is k d).last_result)
    → is_fail base.last_result ≡ any_failing is
    → is_fail (summarise r (set is k i) base).0.last_result ≡ any_failing (set is k i)
unfolding summarise
summary_step pass is base i d k h e s = ground (arith, any_failing-set_other is k i (ap is_fail e))
summary_step fail is base i d k h e s = ground (arith, any_failing-set_failing is k i h e)
summary_step _ is base i d k h e s = s ∙ sym (any_failing-set_same is k d i (ap is_fail e))

-- If the base was failing exactly when some member was, so it is after any result for a member.
pub update_member-Summarises :
    (now : Time) (r : Result) (v : ℤ) (k : ℕ) (o : Obj)
    → k < length o.members
    → Summarises o
    → Summarises (update_member now r v k o).0
unfolding update_member
update_member-Summarises now r v k o h s =
    summary_step r o.members (record o.base { stats = count_result r o.base.stats }) _ o.base k h
      (track_last o.kind now r v _) s
