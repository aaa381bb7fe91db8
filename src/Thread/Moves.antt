-- ===== src/Thread/Moves.antt =====
-- The steps of a busy thread in the pool of src/myrefl_thread.c, and where its job goes.
use myreflection.Common.{
  ℕ, ◌≡◌, ◌≢◌, refl, subst, inl, inr, Bool, true, false, some, List, [], ◌∷◌, arith, ◌==◌, has,
  remove, update, Distinct, Distinct-append_one, has-append, Bool-cases, ==_iff, some_injective,
}
use myreflection.Thread.{
  Phase, waiting, chosen, running, looking, resting, leaving, Pool, on_release, on_execute, on_look,
  on_delist, on_rejoin, pushed,
}
use myreflection.Thread.Accounts.{
  tally, holds, held-update, IsAccounted, moved-busy, moved-IsAccounted,
}

module _ (threads : List ℕ) (distinct : Distinct threads) where
  pub on_release-IsAccounted :
      (t : ℕ) (x : Phase) (p q : Pool)
      → p.phase t ≡ x
      → IsAccounted threads p
      → on_release t x p ≡ some q
      → IsAccounted threads q
  unfolding on_release holds
  on_release-IsAccounted t (chosen j) p q e a s = subst (IsAccounted threads) (some_injective s) (
      moved-IsAccounted threads distinct p t (running j) p.completed p.pending p.executing
        (t ∷ p.unlisted) a (rw e (λ c. cc c)) (λ k. rw e refl))
  on_release-IsAccounted t waiting p q e a s = absurd (cc s)
  on_release-IsAccounted t (running j) p q e a s = absurd (cc s)
  on_release-IsAccounted t looking p q e a s = absurd (cc s)
  on_release-IsAccounted t resting p q e a s = absurd (cc s)
  on_release-IsAccounted t leaving p q e a s = absurd (cc s)

  pub on_execute-IsAccounted :
      (t : ℕ) (x : Phase) (p q : Pool)
      → p.phase t ≡ x
      → IsAccounted threads p
      → on_execute t x p ≡ some q
      → IsAccounted threads q
  unfolding on_execute holds tally
  on_execute-IsAccounted t (running j) p q e a s = subst (IsAccounted threads) (some_injective s) (
      moved-IsAccounted threads distinct p t looking (j ∷ p.completed) p.pending p.executing
        p.unlisted a (rw e (λ c. cc c)) (λ k. rw e (omega arith)))
  on_execute-IsAccounted t waiting p q e a s = absurd (cc s)
  on_execute-IsAccounted t (chosen j) p q e a s = absurd (cc s)
  on_execute-IsAccounted t looking p q e a s = absurd (cc s)
  on_execute-IsAccounted t resting p q e a s = absurd (cc s)
  on_execute-IsAccounted t leaving p q e a s = absurd (cc s)

  pub on_look-IsAccounted :
      (t : ℕ) (x : Phase) (js : List ℕ) (p q : Pool)
      → p.phase t ≡ x
      → p.pending ≡ js
      → IsAccounted threads p
      → on_look t x js p ≡ some q
      → IsAccounted threads q
  unfolding on_look holds tally
  on_look-IsAccounted t looking [] p q e n a s = subst (IsAccounted threads) (some_injective s) (
      moved-IsAccounted threads distinct p t resting p.completed p.pending p.executing p.unlisted a
        (rw e (λ c. cc c)) (λ k. rw e refl))
  on_look-IsAccounted t looking (j ∷ js) p q e n a s =
      subst (IsAccounted threads) (some_injective s) (
        moved-IsAccounted threads distinct p t (running j) p.completed js p.executing p.unlisted a
          (rw e (λ c. cc c)) (λ k. rw (e, n) (omega arith)))
  on_look-IsAccounted t waiting js p q e n a s = absurd (cc s)
  on_look-IsAccounted t (chosen j) js p q e n a s = absurd (cc s)
  on_look-IsAccounted t (running j) js p q e n a s = absurd (cc s)
  on_look-IsAccounted t resting js p q e n a s = absurd (cc s)
  on_look-IsAccounted t leaving js p q e n a s = absurd (cc s)

  pub on_delist-IsAccounted :
      (t : ℕ) (x : Phase) (p q : Pool)
      → p.phase t ≡ x
      → IsAccounted threads p
      → on_delist t x p ≡ some q
      → IsAccounted threads q
  unfolding on_delist holds
  on_delist-IsAccounted t resting p q e a s = subst (IsAccounted threads) (some_injective s) (
      moved-IsAccounted threads distinct p t leaving p.completed p.pending (remove t p.executing)
        p.unlisted a (rw e (λ c. cc c)) (λ k. rw e refl))
  on_delist-IsAccounted t waiting p q e a s = absurd (cc s)
  on_delist-IsAccounted t (chosen j) p q e a s = absurd (cc s)
  on_delist-IsAccounted t (running j) p q e a s = absurd (cc s)
  on_delist-IsAccounted t looking p q e a s = absurd (cc s)
  on_delist-IsAccounted t leaving p q e a s = absurd (cc s)

  -- A thread that gets no place on the free queue waits for ever.
  stranded-IsAccounted :
      (p : Pool) (t : ℕ)
      → IsAccounted threads p
      → p.phase t ≡ leaving
      → IsAccounted threads (record p { phase = update p.phase t waiting })
  unfolding holds
  stranded-IsAccounted p t a e =
      let busy : p.phase t ≢ waiting = rw e (λ c. cc c) in
      let there = a.busy t busy in
      record {
        jobs = λ k.
            let none_before : holds k (p.phase t) ≡ 0 = rw e refl in
            omega (
              arith,
              a.jobs k,
              none_before,
              held-update k t waiting threads p.phase distinct there,
            );
        waits = λ u m. elim (Bool-cases (u == t)) [
          | inl same ↦ rw same refl
          | inr other ↦ rw other (a.waits u m)
        ];
        once = a.once;
        known = a.known;
        busy = moved-busy threads distinct p t waiting a there;
      }

  rejoined-IsAccounted :
      (granted : Bool) (p : Pool) (t : ℕ)
      → IsAccounted threads p
      → p.phase t ≡ leaving
      → IsAccounted threads
          (record p { phase = update p.phase t waiting; free = pushed granted t p.free })
  unfolding holds has
  rejoined-IsAccounted false p t a e = stranded-IsAccounted p t a e
  rejoined-IsAccounted true p t a e =
      let busy : p.phase t ≢ waiting = rw e (λ c. cc c) in
      let there = a.busy t busy in
      let out : has t p.free ≡ false = elim (Bool-cases (has t p.free)) [
        | inl m ↦ absurd (busy (a.waits t m))
        | inr m ↦ m
      ] in
      record {
        jobs = λ k.
            let none_before : holds k (p.phase t) ≡ 0 = rw e refl in
            omega (
              arith,
              a.jobs k,
              none_before,
              held-update k t waiting threads p.phase distinct there,
            );
        waits = λ u m. elim (Bool-cases (u == t)) [
          | inl same ↦ rw same refl
          | inr other ↦
              rw other (a.waits u (ground (arith, m, other, has-append u p.free (t ∷ []))))
        ];
        once = Distinct-append_one t p.free a.once out;
        known = λ u m. elim (Bool-cases (t == u)) [
          | inl same ↦ subst (λ v. has v threads ≡ true) ((==_iff t u).0 same) there
          | inr other ↦ a.known u (ground (arith, m, other, has-append u p.free (t ∷ [])))
        ];
        busy = moved-busy threads distinct p t waiting a there;
      }

  pub on_rejoin-IsAccounted :
      (granted : Bool) (t : ℕ) (x : Phase) (p q : Pool)
      → p.phase t ≡ x
      → IsAccounted threads p
      → on_rejoin granted t x p ≡ some q
      → IsAccounted threads q
  unfolding on_rejoin
  on_rejoin-IsAccounted granted t leaving p q e a s =
      subst (IsAccounted threads) (some_injective s) (rejoined-IsAccounted granted p t a e)
  on_rejoin-IsAccounted granted t waiting p q e a s = absurd (cc s)
  on_rejoin-IsAccounted granted t (chosen j) p q e a s = absurd (cc s)
  on_rejoin-IsAccounted granted t (running j) p q e a s = absurd (cc s)
  on_rejoin-IsAccounted granted t looking p q e a s = absurd (cc s)
  on_rejoin-IsAccounted granted t resting p q e a s = absurd (cc s)
