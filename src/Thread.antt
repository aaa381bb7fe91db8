-- ===== src/Thread.antt =====
-- The thread pool of src/myrefl_thread.c: `myrefl_thread_request` and `thread_main` as the steps
-- between which other threads may run, each with one operation on a queue. No thread is killed, and a
-- wait or a release does not fail. Threads and jobs are numbers, a queue is the sequence that its list
-- holds. Whether a push on a queue gets an element for it is part of the step.
pub mod Accounts
pub mod Moves
pub mod Discards
pub mod Jobs
use myreflection.Common.{
  ℕ, zero, suc, ◌+◌, ◌≡◌, Bool, true, false, Option, none, some, List, [], ◌∷◌, ◌++◌, ◌==◌,
  if◌then◌else◌, has, remove, update, ◌>>=◌,
}

-- Where a thread is: it waits; a request has taken it for a job and not released it; it runs a job; it
-- looks for another; it has found none; or it is off the executing queue and not free again.
pub data Phase : Type 0 where
  waiting : Phase
  chosen : ℕ → Phase
  running : ℕ → Phase
  looking : Phase
  resting : Phase
  leaving : Phase

-- The queues, and what is under way: threads that are released and not yet on the executing queue, and
-- jobs of requests that have found no thread. What was asked for, what has run and what was discarded
-- are kept in addition.
pub record Pool : Type 0 where
  pub free : List ℕ
  pub executing : List ℕ
  pub pending : List ℕ
  pub unlisted : List ℕ
  pub deferred : List ℕ
  pub phase : ℕ → Phase
  pub asked : List ℕ
  pub completed : List ℕ
  pub discarded : List ℕ

-- A step of a request for a job, or of a thread. A request is given memory for its job or not, and so
-- is a push for its element.
pub data Act : Type 0 where
  request : (granted : Bool) → (job : ℕ) → Act
  release : (thread : ℕ) → Act
  enlist : (granted : Bool) → (thread : ℕ) → Act
  defer : (granted : Bool) → (job : ℕ) → Act
  execute : (thread : ℕ) → Act
  look : (thread : ℕ) → Act
  delist : (thread : ℕ) → Act
  rejoin : (granted : Bool) → (thread : ℕ) → Act

-- `myrefl_list_push`, which changes nothing where it gets no element.
abbrev pub pushed : (granted : Bool) → ℕ → List ℕ → List ℕ
pushed true x xs = xs ++ x ∷ []
pushed false x xs = xs

-- The jobs discarded, with this one where it got no memory.
abbrev pub dropped : (granted : Bool) → ℕ → List ℕ → List ℕ
dropped true j js = js
dropped false j js = j ∷ js

abbrev pub put_phase : ℕ → Phase → Pool → Pool
put_phase t x p = record p { phase = update p.phase t x }

-- The request takes a free thread, or none is free.
unfoldable pub on_request : ℕ → List ℕ → Pool → Pool
on_request j [] p = record p { asked = j ∷ p.asked; deferred = j ∷ p.deferred }
on_request j (t ∷ ts) p = record p {
  asked = j ∷ p.asked;
  free = ts;
  phase = update p.phase t (chosen j);
}

-- The request releases its thread.
unfoldable pub on_release : ℕ → Phase → Pool → Option Pool
on_release t (chosen j) p =
    some (record p { phase = update p.phase t (running j); unlisted = t ∷ p.unlisted })
on_release t _ p = none

-- The thread has run its job.
unfoldable pub on_execute : ℕ → Phase → Pool → Option Pool
on_execute t (running j) p =
    some (record p { phase = update p.phase t looking; completed = j ∷ p.completed })
on_execute t _ p = none

-- The thread pops a job, if one is pending.
unfoldable pub on_look : ℕ → Phase → List ℕ → Pool → Option Pool
on_look t looking [] p = some (put_phase t resting p)
on_look t looking (j ∷ js) p =
    some (record p { phase = update p.phase t (running j); pending = js })
on_look t _ js p = none

-- It takes itself off the executing queue.
unfoldable pub on_delist : ℕ → Phase → Pool → Option Pool
on_delist t resting p =
    some (record p { phase = update p.phase t leaving; executing = remove t p.executing })
on_delist t _ p = none

-- It puts itself on the free queue, and waits.
unfoldable pub on_rejoin : (granted : Bool) → ℕ → Phase → Pool → Option Pool
on_rejoin granted t leaving p =
    some (record p { phase = update p.phase t waiting; free = pushed granted t p.free })
on_rejoin granted t _ p = none

-- A step, or none where it is not the thread's or the request's next one.
unfoldable pub step : Act → Pool → Option Pool
step (request false j) p = some (record p { asked = j ∷ p.asked; discarded = j ∷ p.discarded })
step (request true j) p = some (on_request j p.free p)
step (release t) p = on_release t (p.phase t) p
step (enlist granted t) p =
    if has t p.unlisted
    then some
        (record p { unlisted = remove t p.unlisted; executing = pushed granted t p.executing })
    else none
step (defer granted j) p =
    if has j p.deferred
    then some (record p {
      deferred = remove j p.deferred;
      pending = pushed granted j p.pending;
      discarded = dropped granted j p.discarded;
    })
    else none
step (execute t) p = on_execute t (p.phase t) p
step (look t) p = on_look t (p.phase t) p.pending p
step (delist t) p = on_delist t (p.phase t) p
step (rejoin granted t) p = on_rejoin granted t (p.phase t) p

-- The pool of these threads once they are created.
abbrev pub started : List ℕ → Pool
started threads = record {
  free = threads;
  executing = [];
  pending = [];
  unlisted = [];
  deferred = [];
  phase = λ t. waiting;
  asked = [];
  completed = [];
  discarded = [];
}

-- How often a step is refused memory for a job or for its place on the pending queue.
abbrev pub refused : Act → ℕ
refused (request false j) = 1
refused (defer false j) = 1
refused _ = 0

-- The pools that are reached in steps, so many of which were refused memory for a job.
pub data Reached (threads : List ℕ) : (refusals : ℕ) → Pool → Type 0 where
  start : Reached threads 0 (started threads)
  next :
      {n : ℕ} {p q : Pool}
      → (a : Act) → Reached threads n p
      → step a p ≡ some q
      → Reached threads (refused a + n) q
