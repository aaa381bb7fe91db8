-- ===== src/Sched/Passes.antt =====
-- The passes of `check_queue_test_times` over the queues: they end, leave nothing that is due, and
-- keep every test on the queue that its mark names.
use myreflection.Common.{
  ℕ, zero, suc, ◌+◌, ◌<◌, ◌≡◌, refl, sym, subst, ap, ◌∙◌, ◌⊎◌, inl, inr, Bool, true, false, Option,
  some, List, [], ◌∷◌, ◌++◌, arith, if◌then◌else◌, length, has, Bool-cases,
}
use myreflection.Types.{Time}
use myreflection.Sched.{
  TestQueue, immediate, fast, normal, slow, user, Scheduler, Effect, waiting, all_queues, head_time,
  start_first, dequeue_test_for_start, is_due, sweep, rounds, check_queue_test_times,
  check_test_start_timer, then_timer,
}
use myreflection.Sched.Requests.Filing.{IsFiled}

-- Every test is a valid object.
abbrev pub AllValid : Scheduler → Type 0
AllValid s = (i : ℕ) → (s.tests i).valid ≡ true

-- How many tests wait.
abbrev pub total : Scheduler → ℕ
total s =
    length (waiting s immediate)
    + length (waiting s fast)
    + length (waiting s normal)
    + length (waiting s slow)
    + length (waiting s user)

-- Is the first test of this queue due?
abbrev pub due : Time → Scheduler → TestQueue → Bool
due now s q = is_due now (head_time s.tests (waiting s q))

-- What starting a test does to the queues.
record Started (s s' : Scheduler) : Type 0 where
  filed : IsFiled s'
  all_valid : AllValid s'
  fewer : total s' < total s

start_first-Started :
    (now : Time) (q : TestQueue) (xs : List ℕ) (s : Scheduler)
    → waiting s q ≡ xs
    → is_due now (head_time s.tests xs) ≡ true
    → IsFiled s
    → AllValid s
    → Started s (start_first q xs s).0
unfolding start_first has
start_first-Started now q [] s e d f v = absurd (ground (arith, d))
start_first-Started now q (i ∷ is) s e d f v = rw (v i) (record {
  filed = record {
    filed = λ p j. ground (arith, e, f.filed p j, f.filed q j, f.filed p i, f.once q);
    once = λ p. ground (arith, e, f.once p, f.once q);
    created = λ p. ground (arith, f.created p);
  };
  all_valid = λ j. ground (arith, v j, v i);
  fewer = ground (arith, e);
})

-- No queue of these has a first test that is due.
abbrev pub NoneDue : Time → Scheduler → List TestQueue → Type 0
NoneDue now s [] = Unit
NoneDue now s (q ∷ qs) = (due now s q ≡ false) × NoneDue now s qs

-- What a round does: it starts tests, or there are none to start.
abbrev Swept : Time → List TestQueue → Scheduler → Scheduler × List Effect × Bool → Type 0
Swept now qs s (s', effects, found) =
    ((found ≡ true) × Started s s') ⊎ ((found ≡ false) × (s' ≡ s) × NoneDue now s qs)

Started-Swept :
    (now : Time) (qs : List TestQueue) (s s1 : Scheduler) (r : Scheduler × List Effect × Bool)
    → Started s s1
    → Swept now qs s1 r
    → Started s r.0
Started-Swept now qs s s1 r first (inl (e, more)) = record {
  filed = more.filed;
  all_valid = more.all_valid;
  fewer = omega (arith, first.fewer, more.fewer);
}
Started-Swept now qs s s1 r first (inr (e, same, nothing)) = subst (Started s) (sym same) first

sweep-Swept :
    (now : Time) (qs : List TestQueue) (s : Scheduler)
    → IsFiled s
    → AllValid s
    → Swept now qs s (sweep now qs s)
unfolding sweep dequeue_test_for_start
sweep-Swept now [] s f v = inr (refl, refl, tt)
sweep-Swept now (q ∷ qs) s f v = elim (Bool-cases (due now s q)) [
  | inl d ↦
      let first = start_first-Started now q (waiting s q) s refl d f v in
      let s1 = (start_first q (waiting s q) s).0 in
      let more = sweep-Swept now qs s1 first.filed first.all_valid in
      rw d (inl (refl, Started-Swept now qs s s1 (sweep now qs s1) first more))
  | inr d ↦ elim (sweep-Swept now qs s f v) [
    | inl more ↦ rw d (inl more)
    | inr (e, same, nothing) ↦ rw d (inr (e, same, (refl, nothing)))
  ]
]

-- What the rounds come to.
abbrev Finished : Time → Option (Scheduler × List Effect) → Type 0
Finished now o =
    (s : Scheduler) × (effects : List Effect) × (o ≡ some (s, effects))
    × IsFiled s
    × NoneDue now s all_queues

rounds-Finished :
    (fuel : ℕ) (now : Time) (s : Scheduler)
    → IsFiled s
    → AllValid s
    → total s < fuel
    → Finished now (rounds fuel now s)
unfolding rounds
rounds-Finished zero now s f v h = absurd (omega arith)
rounds-Finished (suc fuel) now s f v h = elim (sweep-Swept now all_queues s f v) [
  | inl (e, more) ↦
      let (last, effects, ends, filed, nothing) =
        rounds-Finished fuel now (sweep now all_queues s).0 more.filed more.all_valid
          (omega (arith, more.fewer, h)) in
      rw (e, ends) (last, _, refl, filed, nothing)
  | inr (e, same, nothing) ↦ rw (e, same) (s, _, refl, f, nothing)
]

not_taken {ℓ} : {A : Type ℓ} (b : Bool) (x y : A) → b ≡ false → (if b then x else y) ≡ y
not_taken true x y e = cc
not_taken false x y e = refl

-- With its queues open, every test filed and valid, and more rounds than tests that wait,
-- check_queue_test_times returns; it leaves every test on the queue that its mark names, and on no
-- queue a first test that is due.
pub check_queue_test_times-NoneDue :
    (fuel : ℕ) (now later : Time) (s : Scheduler)
    → s.blocked ≡ false
    → IsFiled s
    → AllValid s
    → total s < fuel
    → (s' : Scheduler) × (effects : List Effect) × (check_queue_test_times fuel now later s
        ≡ some (s', effects))
      × IsFiled s'
      × NoneDue now s' all_queues
unfolding check_queue_test_times then_timer
check_queue_test_times-NoneDue fuel now later s free f v h =
    let (last, effects, ends, filed, nothing) = rounds-Finished fuel now s f v h in
    (
      last,
      effects ++ check_test_start_timer later last,
      not_taken s.blocked _ _ free ∙ ap (then_timer later) ends,
      filed,
      nothing,
    )
