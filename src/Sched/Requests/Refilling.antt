-- ===== src/Sched/Requests/Refilling.antt =====
-- The queues after `myrefl_sched_init` and `recover_schedular`.
use myreflection.Common.{
  ℕ, ◌≡◌, refl, Bool, true, false, none, List, [], ◌∷◌, arith, if◌then◌else◌, has, update,
}
use myreflection.Types.{Time}
use myreflection.Sched.{TestQueue, TestType, Test, Scheduler, Effect, waiting, all_queues}
use myreflection.Sched.Requests.{
  put_time, when_polled, unmark, clear_queues, refill_one, refill, recover_schedular, create_queues,
  enlist_one, enlist, sched_init,
}
use myreflection.Sched.Requests.Filing.{IsFiled, if-IsFiled, add_test-IsFiled}

unmarked :
    (xs : List ℕ) (tests : ℕ → Test) (i : ℕ)
    → (unmark xs tests i).queued ≡ (if has i xs then none else (tests i).queued)
unfolding unmark has
unmarked [] tests i = refl
unmarked (x ∷ xs) tests i =
    ground (arith, unmarked xs (update tests x (record (tests x) { queued = none })) i)

clear_queues-IsFiled :
    (qs : List TestQueue) (s : Scheduler) → IsFiled s → IsFiled (clear_queues qs s)
unfolding clear_queues has
clear_queues-IsFiled [] s f = f
clear_queues-IsFiled (q ∷ qs) s f = clear_queues-IsFiled qs _ (record {
  filed = λ p i.
      ground (arith, unmarked (waiting s q) s.tests i, f.filed p i, f.filed q i, f.created q);
  once = λ p. ground (arith, f.once p, f.created q);
  created = λ p. ground (arith, f.created p, f.created q);
})

put_time-IsFiled : (i : ℕ) (t : Time) (s : Scheduler) → IsFiled s → IsFiled (put_time i t s)
put_time-IsFiled i t s f = record {
  filed = λ p j. ground (arith, f.filed p j);
  once = λ p. f.once p;
  created = λ p. f.created p;
}

when_polled-IsFiled :
    (type : TestType) (r : Scheduler × List Effect) (s : Scheduler)
    → IsFiled r.0
    → IsFiled s
    → IsFiled (when_polled type r s).0
when_polled-IsFiled TestType.polled r s fr f = fr
when_polled-IsFiled _ r s fr f = f

refill-IsFiled :
    (now : Time) (is : List ℕ) (s : Scheduler) → IsFiled s → IsFiled (refill now is s).0
unfolding refill refill_one
refill-IsFiled now [] s f = f
refill-IsFiled now (i ∷ is) s f = refill-IsFiled now is _ (
    when_polled-IsFiled (s.tests i).type _ s
      (add_test-IsFiled now i true _ (put_time-IsFiled i (record { sec = 0; nsec = 0 }) s f)) f)

-- Nothing but the queues and the marks matters.
set_blocked : (b : Bool) (s : Scheduler) → IsFiled s → IsFiled (record s { blocked = b })
set_blocked b s f = record { filed = f.filed; once = f.once; created = f.created }

-- After recover_schedular every test stands on the one queue that its mark names, once, as before.
pub recover_schedular-IsFiled :
    (now : Time) (database : List ℕ) (s : Scheduler)
    → IsFiled s
    → IsFiled (recover_schedular now database s).0
unfolding recover_schedular
recover_schedular-IsFiled now database s f = set_blocked false _ (
    refill-IsFiled now database _
      (clear_queues-IsFiled all_queues (record s { blocked = true }) (set_blocked true s f)))

enlist-IsFiled :
    (now : Time) (is : List ℕ) (s : Scheduler) → IsFiled s → IsFiled (enlist now is s).0
unfolding enlist enlist_one
enlist-IsFiled now [] s f = f
enlist-IsFiled now (i ∷ is) s f = enlist-IsFiled now is _ (
    if-IsFiled _ _ _ (when_polled-IsFiled (s.tests i).type _ s (add_test-IsFiled now i false s f) f)
      f)

-- Where no test is marked before it, myrefl_sched_init leaves every test on the one queue that its
-- mark names, once.
pub sched_init-IsFiled :
    (now : Time) (database : List ℕ) (s : Scheduler)
    → ((i : ℕ) → (s.tests i).queued ≡ none)
    → IsFiled (sched_init now database s).0
unfolding sched_init create_queues has
sched_init-IsFiled now database s unmarked_all =
    enlist-IsFiled now database _ (record {
      filed = λ p i. ground (arith, unmarked_all i);
      once = λ p. tt;
      created = λ p. refl;
    })
