-- ===== src/Thread/Jobs.antt =====
-- No job of the thread pool (src/myrefl_thread.c) is lost or run twice, however its steps interleave.
use myreflection.Common.{
  ℕ, ◌+◌, ◌≡◌, refl, ap, ◌∙◌, length, subst, true, false, some, List, [], ◌∷◌, arith, has, Distinct,
  some_injective,
}
use myreflection.Thread.{
  waiting, Pool, Act, request, release, enlist, defer, execute, look, delist, rejoin, step, Reached,
  refused, start, next,
}
use myreflection.Thread.Accounts.{
  tally, holds, held, tally-append, tally-remove, IsAccounted, on_request-IsAccounted,
}
use myreflection.Thread.Discards.{if-some, step-discarded}
use myreflection.Thread.Moves.{
  on_release-IsAccounted, on_execute-IsAccounted, on_look-IsAccounted, on_delist-IsAccounted,
  on_rejoin-IsAccounted,
}

module _ (threads : List ℕ) (distinct : Distinct threads) where
  step-IsAccounted :
      (a : Act) (p q : Pool) → IsAccounted threads p → step a p ≡ some q → IsAccounted threads q
  unfolding step tally
  step-IsAccounted (request false j) p q i s =
      subst (IsAccounted threads) (some_injective s) (record {
        jobs = λ k. omega (arith, i.jobs k);
        waits = i.waits;
        once = i.once;
        known = i.known;
        busy = i.busy;
      })
  step-IsAccounted (request true j) p q i s =
      subst (IsAccounted threads) (some_injective s)
        (on_request-IsAccounted threads distinct j p.free p refl i)
  step-IsAccounted (release t) p q i s =
      on_release-IsAccounted threads distinct t (p.phase t) p q refl i s
  step-IsAccounted (enlist granted t) p q i s =
      let (listed, e) = if-some (has t p.unlisted) _ q s in
      subst (IsAccounted threads) e
        (record { jobs = i.jobs; waits = i.waits; once = i.once; known = i.known; busy = i.busy })
  step-IsAccounted (defer true j) p q i s =
      let (there, e) = if-some (has j p.deferred) _ q s in
      subst (IsAccounted threads) e (record {
        jobs = λ k.
            omega (
              arith,
              i.jobs k,
              tally-remove k j p.deferred there,
              tally-append k p.pending (j ∷ []),
            );
        waits = i.waits;
        once = i.once;
        known = i.known;
        busy = i.busy;
      })
  step-IsAccounted (defer false j) p q i s =
      let (there, e) = if-some (has j p.deferred) _ q s in
      subst (IsAccounted threads) e (record {
        jobs = λ k. omega (arith, i.jobs k, tally-remove k j p.deferred there);
        waits = i.waits;
        once = i.once;
        known = i.known;
        busy = i.busy;
      })
  step-IsAccounted (execute t) p q i s =
      on_execute-IsAccounted threads distinct t (p.phase t) p q refl i s
  step-IsAccounted (look t) p q i s =
      on_look-IsAccounted threads distinct t (p.phase t) p.pending p q refl refl i s
  step-IsAccounted (delist t) p q i s =
      on_delist-IsAccounted threads distinct t (p.phase t) p q refl i s
  step-IsAccounted (rejoin granted t) p q i s =
      on_rejoin-IsAccounted threads distinct granted t (p.phase t) p q refl i s

  idle-held : (j : ℕ) (ts : List ℕ) → held j ts (λ t. waiting) ≡ 0
  unfolding held holds
  idle-held j [] = refl
  idle-held j (t ∷ ts) = omega (arith, idle-held j ts)

  -- However the steps of requests and threads interleave, where no thread is killed and no wait or
  -- release fails, each job that was asked for has run, or is pending, or is with a request or a
  -- thread, or was discarded, as often in all as it was asked for: none is run twice. As many jobs
  -- were discarded as requests were refused memory for a job or for its place on the pending queue,
  -- so that without such a refusal none is lost. A free thread waits, and is free once.
  pub Reached-IsAccounted :
      (n : ℕ) (p : Pool) → Reached threads n p → IsAccounted threads p × (length p.discarded ≡ n)
  unfolding tally
  Reached-IsAccounted n p start = (
    record {
      jobs = λ j. omega (arith, idle-held j threads);
      waits = λ t m. refl;
      once = distinct;
      known = λ t m. m;
      busy = λ t b. absurd (b refl);
    },
    refl,
  )
  Reached-IsAccounted n q (next {n = k} {p = p} a r e) =
      let (before, count) = Reached-IsAccounted k p r in
      (step-IsAccounted a p q before e, step-discarded a p q e ∙ ap (λ x. refused a + x) count)
