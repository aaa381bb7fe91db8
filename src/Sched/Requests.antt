-- ===== src/Sched/Requests.antt =====
-- The requests to the scheduler of src/myrefl_sched.c: to add and to remove tests, to run them at
-- once, and to clear and refill the queues. List elements find their memory.
pub mod Filing
pub mod Leaving
pub mod Refilling
pub mod Sorting
use myreflection.Common.{
  ℕ, ◌+◌, ◌*◌, ◌/◌, ◌%◌, Bool, true, false, not, ◌&&◌, ◌||◌, Option, none, some, List, [], ◌∷◌,
  ◌++◌, ◌==◌, if◌then◌else◌, has, remove, update, is_some,
}
use myreflection.Common.Int.{ℤ, pos, negsuc}
use myreflection.Types.{is_fail, is_enabled, Time}
use myreflection.Sched.{
  TestQueue, immediate, fast, normal, slow, user, same_queue, TestType, polled, Test, Scheduler,
  Effect, time_lt, put_queue, put_queued, waiting, all_queues, check_test_start_timer,
}

-- The queue for a polled test with this period: MYREFL_PERIOD_SLOW, _NORMAL, _FAST, or another.
abbrev pub queue_of_period : ℕ → TestQueue
queue_of_period period =
    if period == 1800000
    then slow
    else if period == 300000
    then normal
    else if period == 5000
    then fast
    else user

abbrev pub autopass_wait : Bool → ℤ → Option (TestQueue × ℕ)
autopass_wait failing (pos delay) = if failing then some (user, delay) else none
autopass_wait failing (negsuc _) = none

-- The queue that a test is to be added to, with its wait in milliseconds.
pub queue_for : Test → Option (TestQueue × ℕ)
queue_for t = elim t.type [
  | polled ↦ some (queue_of_period t.period, t.period)
  | _ ↦ autopass_wait (is_fail t.last_result) t.autopass
]

-- The wait from now on; the nanoseconds are not carried into seconds.
abbrev pub time_after : Time → ℕ → Time
time_after now wait = record {
  sec = now.sec + wait / 1000;
  nsec = now.nsec + (wait % 1000) * 1000000;
}

-- Before the first test that is due later.
pub insert_by : (ℕ → Test) → Time → ℕ → List ℕ → List ℕ
insert_by tests t i [] = i ∷ []
insert_by tests t i (j ∷ js) =
    if time_lt t (tests j).next_time then i ∷ j ∷ js else j ∷ insert_by tests t i js

-- `myrefl_list_remove` of a test from the queue that it is on, with its mark.
pub take_off : ℕ → TestQueue → Option TestQueue → Scheduler → Scheduler
take_off i q to s =
    if has i (waiting s q) then put_queued i to (put_queue q (remove i (waiting s q)) s) else s

-- What becomes of a test's old place; none where it stays on its queue.
pub leave : ℕ → TestQueue → Option TestQueue → Scheduler → Option Scheduler
unfolding take_off
leave i q none s = some (put_queued i (some q) s)
leave i q (some old) s =
    if not (same_queue old q) || same_queue q user then some (take_off i old (some q) s) else none

abbrev pub put_time : ℕ → Time → Scheduler → Scheduler
put_time i t s = record s { tests = update s.tests i (record (s.tests i) { next_time = t }) }

-- The test's new place; `myrefl_list_insert` refuses one that stands there already.
pub enter : ℕ → TestQueue → Time → Scheduler → Scheduler
unfolding insert_by
enter i q t s =
    let timed = put_time i t s in
    let xs = waiting s q in
    if same_queue q user
    then (if has i xs then timed else put_queue q (insert_by timed.tests t i xs) timed)
    else put_queue q (xs ++ (i ∷ [])) timed

-- From its old place, if it leaves that, to the new one.
pub move : Time → ℕ → TestQueue → Time → Scheduler → Option Scheduler → Scheduler × List Effect
unfolding enter check_test_start_timer
move now i q t s none = (s, [])
move now i q t s (some left) =
    let placed = enter i q t left in (placed, check_test_start_timer now placed)

pub queue_test : Time → ℕ → Option (TestQueue × ℕ) → Scheduler → Scheduler × List Effect
unfolding leave move
queue_test now i none s = (s, [])
queue_test now i (some (q, wait)) s =
    if is_some (s.queues q)
    then move now i q (time_after now wait) s (leave i q (s.tests i).queued s)
    else (s, [])

-- `myrefl_sched_add_test`.
pub add_test : Time → ℕ → (force : Bool) → Scheduler → Scheduler × List Effect
unfolding queue_for queue_test
add_test now i force s =
    if (s.tests i).valid && is_enabled (s.tests i).state
    then (if s.blocked && not force then (s, []) else queue_test now i (queue_for (s.tests i)) s)
    else (s, [])

pub unqueue : ℕ → Option TestQueue → Scheduler → Scheduler
unfolding take_off
unqueue i none s = s
unqueue i (some q) s = take_off i q none s

-- `myrefl_sched_remove_test`.
pub remove_test : Time → ℕ → Scheduler → Scheduler × List Effect
unfolding unqueue check_test_start_timer
remove_test now i s =
    let left = unqueue i (s.tests i).queued s in (left, check_test_start_timer now left)

-- The test at the tail of the immediate queue, unless the queues are blocked. Its mark is set even
-- where the queue is NULL.
pub push_immediate : Time → ℕ → Scheduler → Scheduler × List Effect
unfolding check_test_start_timer
push_immediate now i s =
    let marked = put_queued i (some immediate) (put_time i now s) in
    let pushed = record marked {
      queues = λ q.
          if same_queue q immediate
          then elim (s.queues immediate) [ none ↦ none | some xs ↦ some (xs ++ (i ∷ [])) ]
          else s.queues q;
    } in
    if s.blocked then (s, []) else (pushed, check_test_start_timer now pushed)

-- What is done for polled tests only.
abbrev pub when_polled : TestType → Scheduler × List Effect → Scheduler → Scheduler × List Effect
when_polled polled done s = done
when_polled _ done s = (s, [])

-- A test that is on no queue is running now, if it is polled.
pub run_unqueued : Time → ℕ → TestType → Scheduler → Scheduler × List Effect
unfolding push_immediate
run_unqueued now i polled s = (s, [])
run_unqueued now i _ s = push_immediate now i s

pub run_at_once : Time → ℕ → Option TestQueue → Scheduler → Scheduler × List Effect
unfolding remove_test push_immediate run_unqueued
run_at_once now i none s = run_unqueued now i (s.tests i).type s
run_at_once now i (some immediate) s = (s, [])
run_at_once now i (some _) s =
    let (left, first) = remove_test now i s in
    let (pushed, more) = push_immediate now i left in (pushed, first ++ more)

-- `myrefl_sched_test_immediate`.
pub test_immediate : Time → ℕ → Scheduler → Scheduler × List Effect
unfolding run_at_once
test_immediate now i s =
    if (s.tests i).valid then run_at_once now i (s.tests i).queued s else (s, [])

-- The tests of a queue that is popped until it is empty.
pub unmark : List ℕ → (ℕ → Test) → ℕ → Test
unmark [] tests = tests
unmark (i ∷ is) tests = unmark is (update tests i (record (tests i) { queued = none }))

-- The loop that empties the queues.
pub clear_queues : List TestQueue → Scheduler → Scheduler
unfolding unmark
clear_queues [] s = s
clear_queues (q ∷ qs) s = clear_queues qs (record s {
  tests = unmark (waiting s q) s.tests;
  queues = λ p.
      if same_queue p q then elim (s.queues q) [ none ↦ none | some _ ↦ some [] ] else s.queues p;
})

-- A polled test is due at once, and is added although the queues are blocked.
pub refill_one : Time → ℕ → Scheduler → Scheduler × List Effect
unfolding add_test
refill_one now i s =
    when_polled (s.tests i).type (add_test now i true (put_time i (record { sec = 0; nsec = 0 }) s))
      s

-- The loop over the tests of the database.
pub refill : Time → List ℕ → Scheduler → Scheduler × List Effect
unfolding refill_one
refill now [] s = (s, [])
refill now (i ∷ is) s =
    let (s', first) = refill_one now i s in
    let (last, more) = refill now is s' in (last, first ++ more)

-- `recover_schedular`, for a scheduler whose thread runs.
pub recover_schedular : Time → (database : List ℕ) → Scheduler → Scheduler × List Effect
unfolding clear_queues refill check_test_start_timer
recover_schedular now database s =
    let (filled, effects) =
      refill now database (clear_queues all_queues (record s { blocked = true })) in
    let opened = record filled { blocked = false } in
    (opened, effects ++ check_test_start_timer now opened)

-- `create_queues`, where the lists find their memory.
pub create_queues : Scheduler → Scheduler
create_queues s = record s { queues = λ q. some [] }

pub enlist_one : Time → ℕ → Scheduler → Scheduler × List Effect
unfolding add_test
enlist_one now i s =
    if (s.tests i).valid then when_polled (s.tests i).type (add_test now i false s) s else (s, [])

-- The loop of `myrefl_sched_init`.
pub enlist : Time → List ℕ → Scheduler → Scheduler × List Effect
unfolding enlist_one
enlist now [] s = (s, [])
enlist now (i ∷ is) s =
    let (s', first) = enlist_one now i s in
    let (last, more) = enlist now is s' in (last, first ++ more)

-- `myrefl_sched_init`, after its thread is started.
pub sched_init : Time → (database : List ℕ) → Scheduler → Scheduler × List Effect
unfolding create_queues enlist
sched_init now database s = enlist now database (create_queues s)
