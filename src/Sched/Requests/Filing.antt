-- ===== src/Sched/Requests/Filing.antt =====
-- A test stands on the one queue that its mark names, once, whatever is asked of the scheduler.
use myreflection.Common.{
  ℕ, ◌≡◌, ◌≢◌, refl, ◌∙◌, Bool, true, false, not, ◌||◌, Option, none, some, List, [], ◌∷◌, arith,
  ◌==◌, if◌then◌else◌, has, Distinct, is_some, Bool-cases, inl, inr, has-append, has-remove_ne,
  has-remove_self, Distinct-remove, Distinct-append_one,
}
use myreflection.Types.{Time}
use myreflection.Sched.{TestQueue, Effect, user, same_queue, Test, Scheduler, waiting}
use myreflection.Sched.Requests.{
  move, queue_for, time_after, insert_by, take_off, leave, enter, put_time, queue_test, add_test,
}

-- Does the mark name this queue?
abbrev pub is_in : TestQueue → Option TestQueue → Bool
is_in q none = false
is_in q (some p) = same_queue p q

-- Every queue exists and holds, once each, exactly the tests that are marked to be on it.
pub record IsFiled (s : Scheduler) : Type 0 where
  pub filed : (q : TestQueue) (i : ℕ) → has i (waiting s q) ≡ is_in q (s.tests i).queued
  pub once : (q : TestQueue) → Distinct (waiting s q)
  pub created : (q : TestQueue) → is_some (s.queues q) ≡ true

-- So do they but for one test, which is on none.
pub record IsOff (s : Scheduler) (i : ℕ) : Type 0 where
  pub filed : (q : TestQueue) (j : ℕ) → j ≢ i → has j (waiting s q) ≡ is_in q (s.tests j).queued
  pub off : (q : TestQueue) → has i (waiting s q) ≡ false
  pub once : (q : TestQueue) → Distinct (waiting s q)
  pub created : (q : TestQueue) → is_some (s.queues q) ≡ true

pub take_off-IsOff :
    (i : ℕ) (q : TestQueue) (to : Option TestQueue) (s : Scheduler)
    → IsFiled s
    → (s.tests i).queued ≡ some q
    → IsOff (take_off i q to s) i
unfolding take_off
take_off-IsOff i q to s f e =
    let here : has i (waiting s q) ≡ true = f.filed q i ∙ ground (arith, e) in
    rw here (record {
      filed =
          λ p j ne. ground (arith, has-remove_ne j i (waiting s q) ne, f.filed p j, f.filed q j);
      off = λ p. ground (arith, has-remove_self i (waiting s q) (f.once q), f.filed p i, e);
      once = λ p. ground (arith, Distinct-remove i (waiting s q) (f.once q), f.once p);
      created = λ p. ground (arith, f.created p);
    })

has-insert_by :
    (tests : ℕ → Test) (t : Time) (i j : ℕ) (xs : List ℕ)
    → has j (insert_by tests t i xs) ≡ ((i == j) || has j xs)
unfolding insert_by has
has-insert_by tests t i j [] = refl
has-insert_by tests t i j (x ∷ xs) = ground (arith, has-insert_by tests t i j xs)

Distinct-insert_by :
    (tests : ℕ → Test) (t : Time) (i : ℕ) (xs : List ℕ)
    → Distinct xs
    → has i xs ≡ false
    → Distinct (insert_by tests t i xs)
unfolding insert_by has
Distinct-insert_by tests t i [] d h = (refl, tt)
Distinct-insert_by tests t i (x ∷ xs) d h =
    ground (arith, Distinct-insert_by tests t i xs d.1, has-insert_by tests t i x xs)

-- The test that left its place is off, and marked for its next.
abbrev Left : ℕ → TestQueue → Option Scheduler → Type 0
Left i q none = Unit
Left i q (some s) = IsOff s i × ((s.tests i).queued ≡ some q)

marked :
    (i : ℕ) (q p : TestQueue) (s : Scheduler)
    → IsFiled s
    → (s.tests i).queued ≡ some p
    → ((take_off i p (some q) s).tests i).queued ≡ some q
unfolding take_off
marked i q p s f e = ground (arith, f.filed p i, e)

leave-Left :
    (i : ℕ) (q : TestQueue) (old : Option TestQueue) (s : Scheduler)
    → IsFiled s
    → (s.tests i).queued ≡ old
    → Left i q (leave i q old s)
unfolding leave
leave-Left i q none s f e = (
  record {
    filed = λ p j ne. ground (arith, f.filed p j);
    off = λ p. ground (arith, f.filed p i, e);
    once = λ p. f.once p;
    created = λ p. f.created p;
  },
  ground arith,
)
leave-Left i q (some p) s f e = elim (Bool-cases (not (same_queue p q) || same_queue q user)) [
  | inl go ↦ rw go (take_off-IsOff i p (some q) s f e, marked i q p s f e)
  | inr stay ↦ rw stay tt
]

enter-IsFiled :
    (i : ℕ) (q : TestQueue) (t : Time) (s : Scheduler)
    → IsOff s i
    → (s.tests i).queued ≡ some q
    → IsFiled (enter i q t s)
unfolding enter has
enter-IsFiled i q t s o e = elim (Bool-cases (same_queue q user)) [
  | inl u ↦
      rw (u, o.off q)
        (record {
          filed = λ p j. ground (
            arith,
            o.filed p j,
            o.off p,
            e,
            has-insert_by (put_time i t s).tests t i j (waiting s q),
          );
          once = λ p. ground (
            arith,
            Distinct-insert_by (put_time i t s).tests t i (waiting s q) (o.once q) (o.off q),
            o.once p,
          );
          created = λ p. ground (arith, o.created p);
        })
  | inr other ↦ rw other (record {
    filed = λ p j. ground (arith, o.filed p j, o.off p, e, has-append j (waiting s q) (i ∷ []));
    once = λ p. ground (arith, Distinct-append_one i (waiting s q) (o.once q) (o.off q), o.once p);
    created = λ p. ground (arith, o.created p);
  })
]

pub if-IsFiled :
    (b : Bool) (x y : Scheduler × List Effect)
    → IsFiled x.0
    → IsFiled y.0
    → IsFiled (if b then x else y).0
if-IsFiled true x y fx fy = fx
if-IsFiled false x y fx fy = fy

move-IsFiled :
    (now : Time) (i : ℕ) (q : TestQueue) (t : Time) (s : Scheduler) (o : Option Scheduler)
    → IsFiled s
    → Left i q o
    → IsFiled (move now i q t s o).0
unfolding move
move-IsFiled now i q t s none f l = f
move-IsFiled now i q t s (some left) f (off, e) = enter-IsFiled i q t left off e

queue_test-IsFiled :
    (now : Time) (i : ℕ) (place : Option (TestQueue × ℕ)) (s : Scheduler)
    → IsFiled s
    → IsFiled (queue_test now i place s).0
unfolding queue_test
queue_test-IsFiled now i none s f = f
queue_test-IsFiled now i (some (q, wait)) s f =
    if-IsFiled _ _ _
      (move-IsFiled now i q (time_after now wait) s _ f
        (leave-Left i q (s.tests i).queued s f refl))
      f

-- myrefl_sched_add_test, forced or not and on every branch, keeps every test on the one queue that
-- its mark names, once, where the queues exist.
pub add_test-IsFiled :
    (now : Time) (i : ℕ) (force : Bool) (s : Scheduler)
    → IsFiled s
    → IsFiled (add_test now i force s).0
unfolding add_test
add_test-IsFiled now i force s f =
    if-IsFiled _ _ _ (if-IsFiled _ _ _ f (queue_test-IsFiled now i (queue_for (s.tests i)) s f)) f
