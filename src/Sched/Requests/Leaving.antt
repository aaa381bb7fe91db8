-- ===== src/Sched/Requests/Leaving.antt =====
-- Tests that leave their queue, or the order of it: removals, and runs at once.
use myreflection.Common.{
  ℕ, ◌≡◌, refl, false, Option, none, some, [], ◌∷◌, arith, ◌==◌, has, Bool-cases, inl, inr,
  has-append, Distinct-append_one,
}
use myreflection.Types.{Time}
use myreflection.Sched.{TestQueue, TestType, immediate, Scheduler, waiting}
use myreflection.Sched.Requests.{
  run_unqueued, take_off, unqueue, remove_test, push_immediate, run_at_once, test_immediate,
}
use myreflection.Sched.Requests.Filing.{IsFiled, IsOff, take_off-IsOff, if-IsFiled}

off-IsFiled : (i : ℕ) (s : Scheduler) → IsOff s i → (s.tests i).queued ≡ none → IsFiled s
off-IsFiled i s o e = record {
  filed = λ p j. elim (Bool-cases (j == i)) [
    | inl same ↦ ground (arith, o.off p, e, same)
    | inr other ↦ o.filed p j (ground (arith, other))
  ];
  once = o.once;
  created = o.created;
}

unqueue-IsFiled :
    (i : ℕ) (old : Option TestQueue) (s : Scheduler)
    → IsFiled s
    → (s.tests i).queued ≡ old
    → IsFiled (unqueue i old s) × (((unqueue i old s).tests i).queued ≡ none)
unfolding unqueue take_off
unqueue-IsFiled i none s f e = (f, e)
unqueue-IsFiled i (some q) s f e =
    let off : ((take_off i q none s).tests i).queued ≡ none = ground (arith, f.filed q i, e) in
    (off-IsFiled i (take_off i q none s) (take_off-IsOff i q none s f e) off, off)

-- myrefl_sched_remove_test leaves its test on no queue and unmarked, and all others on the one queue
-- that their mark names, once, where the queues exist.
pub remove_test-IsFiled :
    (now : Time) (i : ℕ) (s : Scheduler)
    → IsFiled s
    → IsFiled (remove_test now i s).0 × (((remove_test now i s).0.tests i).queued ≡ none)
unfolding remove_test
remove_test-IsFiled now i s f = unqueue-IsFiled i (s.tests i).queued s f refl

push_immediate-IsFiled :
    (now : Time) (i : ℕ) (s : Scheduler)
    → IsFiled s
    → (s.tests i).queued ≡ none
    → IsFiled (push_immediate now i s).0
unfolding push_immediate has
push_immediate-IsFiled now i s f e =
    let off : has i (waiting s immediate) ≡ false = ground (arith, f.filed immediate i, e) in
    let is_created = f.created immediate in
    if-IsFiled s.blocked (s, []) (_, _) f
      (record {
        filed = λ p j. ground (
          arith,
          f.filed p j,
          f.filed immediate j,
          e,
          is_created,
          has-append j (waiting s immediate) (i ∷ []),
        );
        once = λ p. ground (
          arith,
          f.once p,
          is_created,
          Distinct-append_one i (waiting s immediate) (f.once immediate) off,
        );
        created = λ p. ground (arith, f.created p, is_created);
      })

run_unqueued-IsFiled :
    (now : Time) (i : ℕ) (type : TestType) (s : Scheduler)
    → IsFiled s
    → (s.tests i).queued ≡ none
    → IsFiled (run_unqueued now i type s).0
unfolding run_unqueued
run_unqueued-IsFiled now i TestType.polled s f e = f
run_unqueued-IsFiled now i _ s f e = push_immediate-IsFiled now i s f e

run_at_once-IsFiled :
    (now : Time) (i : ℕ) (old : Option TestQueue) (s : Scheduler)
    → IsFiled s
    → (s.tests i).queued ≡ old
    → IsFiled (run_at_once now i old s).0
unfolding run_at_once
run_at_once-IsFiled now i none s f e = run_unqueued-IsFiled now i (s.tests i).type s f e
run_at_once-IsFiled now i (some immediate) s f e = f
run_at_once-IsFiled now i (some _) s f e =
    let (f', off) = remove_test-IsFiled now i s f in push_immediate-IsFiled now i _ f' off

-- myrefl_sched_test_immediate keeps every test on the one queue that its mark names, once, where the
-- queues exist.
pub test_immediate-IsFiled :
    (now : Time) (i : ℕ) (s : Scheduler) → IsFiled s → IsFiled (test_immediate now i s).0
unfolding test_immediate
test_immediate-IsFiled now i s f =
    if-IsFiled _ _ _ (run_at_once-IsFiled now i (s.tests i).queued s f refl) f
