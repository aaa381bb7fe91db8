-- ===== src/Thread/Accounts.antt =====
-- Where the jobs of the thread pool (src/myrefl_thread.c) are.
use myreflection.Common.{
  ℕ, ◌+◌, ◌≡◌, ◌≢◌, refl, sym, ap, subst, ◌∙◌, inl, inr, true, false, List, [], ◌∷◌, ◌++◌, arith,
  ◌==◌, if◌then◌else◌, has, remove, update, Distinct, Bool-cases, ==_iff,
}
use myreflection.Thread.{Phase, waiting, chosen, running, Pool, on_request}

-- How often the job stands in a list.
unfoldable pub tally : ℕ → List ℕ → ℕ
tally j [] = 0
tally j (x ∷ xs) = (if x == j then 1 else 0) + tally j xs

unfoldable pub holds : ℕ → Phase → ℕ
holds j (chosen k) = if k == j then 1 else 0
holds j (running k) = if k == j then 1 else 0
holds j _ = 0

-- How many threads have the job.
unfoldable pub held : ℕ → List ℕ → (ℕ → Phase) → ℕ
held j [] phase = 0
held j (t ∷ ts) phase = holds j (phase t) + held j ts phase

pub tally-append : (j : ℕ) (xs ys : List ℕ) → tally j (xs ++ ys) ≡ tally j xs + tally j ys
unfolding tally
tally-append j [] ys = omega arith
tally-append j (x ∷ xs) ys = omega (arith, tally-append j xs ys)

pub tally-remove :
    (j k : ℕ) (xs : List ℕ)
    → has k xs ≡ true
    → tally j xs ≡ (if k == j then 1 else 0) + tally j (remove k xs)
unfolding tally has remove
tally-remove j k [] m = cc m
tally-remove j k (x ∷ xs) m = ground (arith, tally-remove j k xs, m)

held-off :
    (j t : ℕ) (x : Phase) (ts : List ℕ) (phase : ℕ → Phase)
    → has t ts ≡ false
    → held j ts (update phase t x) ≡ held j ts phase
unfolding held has
held-off j t x [] phase out = refl
held-off j t x (u ∷ ts) phase out =
    let rest = held-off j t x ts phase (ground (arith, out)) in
    let other : (u == t) ≡ false = ground (arith, out) in rw (other, rest) refl

pub held-update :
    (j t : ℕ) (x : Phase) (ts : List ℕ) (phase : ℕ → Phase)
    → Distinct ts
    → has t ts ≡ true
    → held j ts (update phase t x) + holds j (phase t) ≡ held j ts phase + holds j x
unfolding held has
held-update j t x [] phase d m = cc m
held-update j t x (u ∷ ts) phase d m = elim (Bool-cases (u == t)) [
  | inl same ↦
      let e : u ≡ t = (==_iff u t).0 same in
      let there : holds j (phase u) ≡ holds j (phase t) = ap (λ v. holds j (phase v)) e in
      let off = held-off j t x ts phase (subst (λ v. has v ts ≡ false) e d.0) in
      rw same (omega (arith, off, there))
  | inr other ↦
      let rest = held-update j t x ts phase d.1 (ground (arith, m, other)) in
      rw other (omega (arith, rest))
]

-- Each job that was asked for has run, or is pending, with a request or with a thread, or was
-- discarded, as often in all as it was asked for; a free thread waits, and is free once.
pub record IsAccounted (threads : List ℕ) (p : Pool) : Type 0 where
  pub jobs :
      (j : ℕ)
      → tally j p.asked
        ≡ tally j p.completed
          + tally j p.pending
          + tally j p.deferred
          + held j threads p.phase
          + tally j p.discarded
  pub waits : (t : ℕ) → has t p.free ≡ true → p.phase t ≡ waiting
  pub once : Distinct p.free
  pub known : (t : ℕ) → has t p.free ≡ true → has t threads ≡ true
  pub busy : (t : ℕ) → p.phase t ≢ waiting → has t threads ≡ true

module _ (threads : List ℕ) (distinct : Distinct threads) where
  -- A busy thread that stays busy.
  moved-waits :
      (p : Pool) (t : ℕ) (x : Phase)
      → IsAccounted threads p
      → p.phase t ≢ waiting
      → (u : ℕ) → has u p.free ≡ true
      → update p.phase t x u ≡ waiting
  moved-waits p t x a busy u m = elim (Bool-cases (u == t)) [
    | inl same ↦ absurd (busy (ap p.phase (sym ((==_iff u t).0 same)) ∙ a.waits u m))
    | inr other ↦ rw other (a.waits u m)
  ]

  pub moved-busy :
      (p : Pool) (t : ℕ) (x : Phase)
      → IsAccounted threads p
      → has t threads ≡ true
      → (u : ℕ) → update p.phase t x u ≢ waiting
      → has u threads ≡ true
  moved-busy p t x a m u busy = elim (Bool-cases (u == t)) [
    | inl same ↦ subst (λ v. has v threads ≡ true) (sym ((==_iff u t).0 same)) m
    | inr other ↦ a.busy u (λ w. busy (rw other w))
  ]

  pub on_request-IsAccounted :
      (j : ℕ) (ts : List ℕ) (p : Pool)
      → p.free ≡ ts
      → IsAccounted threads p
      → IsAccounted threads (on_request j ts p)
  unfolding on_request tally holds has
  on_request-IsAccounted j [] p e a = record {
    jobs = λ k. omega (arith, a.jobs k);
    waits = a.waits;
    once = a.once;
    known = a.known;
    busy = a.busy;
  }
  on_request-IsAccounted j (t ∷ ts) p e a =
      let here : has t p.free ≡ true = rw e (ground arith) in
      let wait = a.waits t here in
      let once = subst Distinct e a.once in
      let in_free : (u : ℕ) → has u ts ≡ true → has u p.free ≡ true =
        λ u m. rw e (ground (arith, m)) in
      record {
        jobs = λ k.
            let moved = held-update k t (chosen j) threads p.phase distinct (a.known t here) in
            let none_before : holds k (p.phase t) ≡ 0 = rw wait refl in
            omega (arith, a.jobs k, moved, none_before);
        waits = λ u m. elim (Bool-cases (u == t)) [
          | inl same ↦ absurd (ground (arith, same, m, once.0))
          | inr other ↦ rw other (a.waits u (in_free u m))
        ];
        once = once.1;
        known = λ u m. a.known u (in_free u m);
        busy = moved-busy p t (chosen j) a (a.known t here);
      }

  -- A busy thread moves on, and what it had goes where it is accounted for.
  pub moved-IsAccounted :
      (p : Pool) (t : ℕ) (x : Phase) (done queue listed new : List ℕ)
      → IsAccounted threads p
      → p.phase t ≢ waiting
      → ((k : ℕ)
          → tally k p.completed + tally k p.pending + holds k (p.phase t)
            ≡ tally k done + tally k queue + holds k x)
      → IsAccounted threads (record p {
        phase = update p.phase t x;
        completed = done;
        pending = queue;
        executing = listed;
        unlisted = new;
      })
  moved-IsAccounted p t x done queue listed new a busy same = record {
    jobs = λ k.
        omega (arith, a.jobs k, same k, held-update k t x threads p.phase distinct (a.busy t busy));
    waits = moved-waits p t x a busy;
    once = a.once;
    known = a.known;
    busy = moved-busy p t x a (a.busy t busy);
  }
