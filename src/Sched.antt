-- ===== src/Sched.antt =====
-- The scheduler of src/myrefl_sched.c: the queues of tests, the timer, and the passes over the queues.
-- A test instance is a number, and a queue is the sequence that its list holds. The clock's reading
-- is an argument; what is asked of the sequencer, the thread and the timer is part of the result.
pub mod Requests
pub mod Passes
pub mod Soonest
use myreflection.Common.{
  ℕ, zero, suc, ◌+◌, ◌-◌, Bool, true, false, not, ◌&&◌, ◌||◌, Option, none, some, List, [], ◌∷◌,
  ◌++◌, ltb, leb, ◌==◌, if◌then◌else◌, update,
}
use myreflection.Common.Int.{ℤ, pos, negsuc, ◌==ℤ◌}
use myreflection.Types.{Result, pass, ObjState, Time}

-- test_queue_t; TEST_QUEUE_NONE is none.
pub data TestQueue : Type 0 where
  immediate fast normal slow user : TestQueue

abbrev pub same_queue : TestQueue → TestQueue → Bool
same_queue immediate immediate = true
same_queue fast fast = true
same_queue normal normal = true
same_queue slow slow = true
same_queue user user = true
same_queue _ _ = false

-- obj_test_type_t.
pub data TestType : Type 0 where
  polled notification errmsg : TestType

-- A test's instance with its sched_test_t and its obj_test_t. `valid` is what the two validations
-- return for it.
pub record Test : Type 0 where
  pub valid : Bool
  pub state : ObjState
  pub type : TestType
  pub period : ℕ
  pub autopass : ℤ
  pub last_result : Result
  pub last_value : ℤ
  pub queued : Option TestQueue
  pub next_time : Time

-- The variables of the file. A queue is none before create_queues, and `timer` and `thread` say
-- whether those pointers are set.
pub record Scheduler : Type 0 where
  pub tests : ℕ → Test
  pub queues : TestQueue → Option (List ℕ)
  pub blocked : Bool
  pub timer : Bool
  pub thread : Bool

-- What is asked of the other parts: to run a test, to process its notified result, to release the
-- thread, to start the timer. A delay that no ulong holds is undefined, and a thread that is NULL
-- faults.
pub data Effect : Type 0 where
  run : ℕ → Effect
  notify : ℕ → Result → ℤ → Effect
  notify_rci : ℕ → Result → ℤ → Effect
  wake : Effect
  start_timer : Time → Effect
  undefined_delay : Effect
  fault : Effect

-- XOS_TIME_LT.
abbrev pub time_lt : Time → Time → Bool
time_lt a b = ltb a.sec b.sec || ((a.sec == b.sec) && ltb a.nsec b.nsec)

-- `myrefl_xos_time_diff`, for a start that is not after its end.
pub time_diff : (start end : Time) → Time
time_diff start end =
    if leb start.nsec end.nsec
    then record { sec = end.sec - start.sec; nsec = end.nsec - start.nsec }
    else record { sec = end.sec - start.sec - 1; nsec = 1000000000 + end.nsec - start.nsec }

abbrev pub put_queue : TestQueue → List ℕ → Scheduler → Scheduler
put_queue q xs s = record s { queues = λ p. if same_queue p q then some xs else s.queues p }

abbrev pub put_queued : ℕ → Option TestQueue → Scheduler → Scheduler
put_queued i q s = record s { tests = update s.tests i (record (s.tests i) { queued = q }) }

-- What a queue holds; nothing where its list is NULL.
abbrev pub listed : Option (List ℕ) → List ℕ
listed none = []
listed (some xs) = xs

abbrev pub waiting : Scheduler → TestQueue → List ℕ
waiting s q = listed (s.queues q)

abbrev pub all_queues : List TestQueue
all_queues = immediate ∷ fast ∷ normal ∷ slow ∷ user ∷ []

-- The next time of a queue's first test.
abbrev pub head_time : (ℕ → Test) → List ℕ → Option Time
head_time tests [] = none
head_time tests (i ∷ is) = some (tests i).next_time

-- The soonest of the time so far and a queue's.
abbrev pub sooner : Option Time → Option Time → Option Time
sooner best none = best
sooner none (some t) = some t
sooner (some b) (some t) = if time_lt t b then some t else some b

-- The loop for the next expiry time.
pub soonest : Scheduler → List TestQueue → Option Time → Option Time
soonest s [] best = best
soonest s (q ∷ qs) best = soonest s qs (sooner best (head_time s.tests (waiting s q)))

-- The timer for this delay, with the padding that is added to it.
pub padded : Time → Effect
padded d =
    if ltb 1000000000 (d.nsec + 100000000)
    then (if leb d.nsec 1100000000
        then start_timer (record { sec = d.sec + 1; nsec = 1100000000 - d.nsec })
        else undefined_delay)
    else start_timer (record { sec = d.sec; nsec = d.nsec + 100000000 })

expiry : Bool → Time → Option Time → List Effect
unfolding time_diff padded
expiry thread now none = []
expiry thread now (some t) =
    if time_lt t now then (if thread then wake else fault) ∷ [] else padded (time_diff now t) ∷ []

-- `check_test_start_timer`.
pub check_test_start_timer : Time → Scheduler → List Effect
unfolding soonest expiry
check_test_start_timer now s =
    if s.blocked || not s.timer then [] else expiry s.thread now (soonest s all_queues none)

-- What a test that was dequeued is for: a poll, an auto-pass, or a result fed back.
ask : ℕ → Test → List Effect
ask i t = elim t.type [
  | polled ↦ run i ∷ []
  | _ ↦ elim t.queued [
    | some user ↦ if t.autopass ==ℤ negsuc 0 then [] else notify i pass (pos 0) ∷ []
    | _ ↦ notify_rci i t.last_result t.last_value ∷ []
  ]
]

pub start_first : TestQueue → List ℕ → Scheduler → Scheduler × List Effect
unfolding ask
start_first q [] s = (s, [])
start_first q (i ∷ is) s =
    let popped = put_queue q is s in
    if (s.tests i).valid then (put_queued i none popped, ask i (s.tests i)) else (popped, [])

-- `dequeue_test_for_start`.
pub dequeue_test_for_start : TestQueue → Scheduler → Scheduler × List Effect
unfolding start_first
dequeue_test_for_start q s = start_first q (waiting s q) s

abbrev pub is_due : Time → Option Time → Bool
is_due now none = false
is_due now (some t) = time_lt t now

-- One round over the queues, and whether it found a test.
pub sweep : Time → List TestQueue → Scheduler → Scheduler × List Effect × Bool
unfolding dequeue_test_for_start
sweep now [] s = (s, [], false)
sweep now (q ∷ qs) s =
    let (s1, first) = dequeue_test_for_start q s in
    let due = is_due now (head_time s.tests (waiting s q)) in
    let (s2, more, found) = sweep now qs (if due then s1 else s) in
    (s2, if due then first ++ more else more, due || found)

-- The rounds, until one finds none; none where there are more than `fuel`.
pub rounds : ℕ → Time → Scheduler → Option (Scheduler × List Effect)
unfolding sweep
rounds zero now s = none
rounds (suc fuel) now s =
    let (s', first, found) = sweep now all_queues s in
    let rest = rounds fuel now s' in
    if found
    then elim rest [ none ↦ none | some (last, more) ↦ some (last, first ++ more) ]
    else some (s', first)

-- The timer is restarted after the rounds.
pub then_timer : Time → Option (Scheduler × List Effect) → Option (Scheduler × List Effect)
unfolding check_test_start_timer
then_timer later none = none
then_timer later (some (s, effects)) = some (s, effects ++ check_test_start_timer later s)

-- `check_queue_test_times`; `later` is the clock's reading for the timer.
pub check_queue_test_times : ℕ → (now later : Time) → Scheduler → Option (Scheduler × List Effect)
unfolding rounds then_timer
check_queue_test_times fuel now later s =
    if s.blocked then some (s, []) else then_timer later (rounds fuel now s)
