-- ===== src/Tests/Threads.antt =====
-- Interleavings in the thread pool with threads 1 and 2, and with thread 1 alone.
use myreflection.Common.{
  ℕ, ◌≡◌, refl, true, Option, some, length, List, [], ◌∷◌, has, remove, update, ◌>>=◌,
}
use myreflection.Thread.{
  Phase, Phase, waiting, chosen, running, Pool, Act, request, release, enlist, defer, execute, look,
  delist, rejoin, on_request, on_release, on_execute, on_look, on_delist, on_rejoin, step, started,
  Reached, start, next,
}
use myreflection.Thread.Accounts.{IsAccounted}
use myreflection.Thread.Jobs.{Reached-IsAccounted}

abbrev steps : List Act → Pool → Option Pool
steps [] p = some p
steps (a ∷ later) p = step a p >>= steps later

-- Thread 1 runs job 7, and job 8 finds thread 2.
abbrev busy : Pool
busy = record {
  free = [];
  executing = [];
  pending = [];
  unlisted = 1 ∷ [];
  deferred = [];
  phase = update (update (update (λ t. waiting) 1 (chosen 7)) 1 (running 7)) 2 (chosen 8);
  asked = 8 ∷ 7 ∷ [];
  completed = [];
  discarded = [];
}

busy-Reached : Reached (1 ∷ 2 ∷ []) 0 busy
unfolding step on_request on_release
busy-Reached = next (request true 8) (next (release 1) (next (request true 7) start refl) refl) refl

Reached-IsAccounted_example : IsAccounted (1 ∷ 2 ∷ []) busy × (length busy.discarded ≡ 0)
unfolding has
Reached-IsAccounted_example =
    Reached-IsAccounted (1 ∷ 2 ∷ []) (refl, (refl, tt)) 0 busy busy-Reached

abbrev queues : Pool → List ℕ × List ℕ
queues p = (p.free, p.executing)

abbrev idle : Pool → List ℕ × Phase × List ℕ
idle p = (p.free, p.phase 1, p.pending)

-- A released thread that is done before its request has put it on the executing queue stays there, and
-- is free as well.
on_both_queues :
    (steps
        (request true 7
          ∷ release 1
          ∷ execute 1
          ∷ look 1
          ∷ delist 1
          ∷ rejoin true 1
          ∷ enlist true 1
          ∷ [])
        (started (1 ∷ []))
      >>= λ p. some (queues p))
    ≡ some (1 ∷ [], 1 ∷ [])
unfolding step on_request on_release on_execute on_look on_delist on_rejoin has remove
on_both_queues = refl

-- A job that is put on the pending queue after the last thread has looked there waits for the next
-- request, although the thread is free.
left_pending :
    (steps
        (request true 7
          ∷ release 1
          ∷ enlist true 1
          ∷ request true 8
          ∷ execute 1
          ∷ look 1
          ∷ defer true 8
          ∷ delist 1
          ∷ rejoin true 1
          ∷ [])
        (started (1 ∷ []))
      >>= λ p. some (idle p))
    ≡ some (1 ∷ [], waiting, 8 ∷ [])
unfolding step on_request on_release on_execute on_look on_delist on_rejoin has remove
left_pending = refl
