-- ===== src/Tests/Queues.antt =====
-- A scheduler of src/myrefl_sched.c with three tests.
use myreflection.Common.{
  ℕ, ◌≡◌, refl, true, false, none, some, List, [], ◌∷◌, arith, ◌==◌, if◌then◌else◌, has,
}
use myreflection.Common.Int.{pos, negsuc}
use myreflection.Types.{pass, enabled, Time}
use myreflection.Sched.{
  fast, user, polled, Test, Scheduler, Effect, all_queues, check_queue_test_times,
}
use myreflection.Sched.Requests.{add_test, test_immediate, recover_schedular}
use myreflection.Sched.Requests.Refilling.{recover_schedular-IsFiled}
use myreflection.Sched.Requests.Filing.{IsFiled, add_test-IsFiled}
use myreflection.Sched.Requests.Leaving.{test_immediate-IsFiled}
use myreflection.Sched.Passes.{NoneDue, check_queue_test_times-NoneDue}

abbrev noon : Time
noon = record { sec = 43200; nsec = 0 }

abbrev dawn : Time
dawn = record { sec = 21600; nsec = 0 }

abbrev idle : Test
idle = record {
  valid = true;
  state = enabled;
  type = polled;
  period = 5000;
  autopass = negsuc 0;
  last_result = pass;
  last_value = pos 0;
  queued = none;
  next_time = dawn;
}

-- Test 1 waits on the fast queue, and test 2 on the user queue; all others on none.
abbrev busy : Scheduler
busy = record {
  tests = λ i.
      if i == 1
      then record idle { queued = some fast }
      else if i == 2
      then record idle { queued = some user; period = 70 }
      else idle;
  queues = λ q. elim q [ fast ↦ some (1 ∷ []) | user ↦ some (2 ∷ []) | _ ↦ some [] ];
  blocked = false;
  timer = true;
  thread = true;
}

busy-IsFiled : IsFiled busy
unfolding has
busy-IsFiled = record {
  filed = λ q i. ground arith;
  once = λ q. ground arith;
  created = λ q. ground arith;
}

add_test-IsFiled_example : IsFiled (add_test noon 3 false busy).0
add_test-IsFiled_example = add_test-IsFiled noon 3 false busy busy-IsFiled

test_immediate-IsFiled_example : IsFiled (test_immediate noon 2 busy).0
test_immediate-IsFiled_example = test_immediate-IsFiled noon 2 busy busy-IsFiled

-- Before its initialisation.
abbrev fresh : Scheduler
fresh = record {
  tests = λ i. idle;
  queues = λ q. none;
  blocked = false;
  timer = false;
  thread = true;
}

check_queue_test_times-NoneDue_example :
    (s' : Scheduler) × (effects : List Effect) × (check_queue_test_times 3 noon noon busy
      ≡ some (s', effects))
    × IsFiled s'
    × NoneDue noon s' all_queues
check_queue_test_times-NoneDue_example =
    check_queue_test_times-NoneDue 3 noon noon busy refl busy-IsFiled (λ i. ground arith)
      (omega arith)

-- Test 1 is due at noon, the others at dawn.
abbrev two_times : ℕ → Test
two_times i = if i == 1 then record idle { next_time = noon } else idle

recover_schedular-IsFiled_example : IsFiled (recover_schedular noon (1 ∷ 2 ∷ 3 ∷ []) busy).0
recover_schedular-IsFiled_example =
    recover_schedular-IsFiled noon (1 ∷ 2 ∷ 3 ∷ []) busy busy-IsFiled
