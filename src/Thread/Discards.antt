-- ===== src/Thread/Discards.antt =====
-- Which steps of the pool of src/myrefl_thread.c discard a job: those that get no memory for it.
use myreflection.Common.{
  ℕ, ◌+◌, ◌≡◌, refl, ap, ◌∙◌, Bool, true, false, none, some, List, [], ◌∷◌, if◌then◌else◌, has,
  length, some_injective, arith,
}
use myreflection.Thread.{
  Phase, chosen, running, looking, resting, leaving, Pool, on_request, on_release, on_execute,
  on_look, on_delist, on_rejoin, Act, request, release, enlist, defer, execute, look, delist,
  rejoin, step, refused,
}

pub if-some :
    {A : Type 0} (b : Bool) (x y : A) → (if b then some x else none) ≡ some y → (b ≡ true) × (x ≡ y)
if-some true x y e = (refl, some_injective e)
if-some false x y e = absurd (cc e)

-- A thread's step discards none.
release-same :
    (t : ℕ) (x : Phase) (p q : Pool) → on_release t x p ≡ some q → p.discarded ≡ q.discarded
unfolding on_release
release-same t (chosen j) p q e = ap (λ r. r.discarded) (some_injective e)
release-same t _ p q e = absurd (cc e)

execute-same :
    (t : ℕ) (x : Phase) (p q : Pool) → on_execute t x p ≡ some q → p.discarded ≡ q.discarded
unfolding on_execute
execute-same t (running j) p q e = ap (λ r. r.discarded) (some_injective e)
execute-same t _ p q e = absurd (cc e)

look-same :
    (t : ℕ) (x : Phase) (js : List ℕ) (p q : Pool)
    → on_look t x js p ≡ some q
    → p.discarded ≡ q.discarded
unfolding on_look
look-same t looking [] p q e = ap (λ r. r.discarded) (some_injective e)
look-same t looking (j ∷ js) p q e = ap (λ r. r.discarded) (some_injective e)
look-same t _ js p q e = absurd (cc e)

delist-same :
    (t : ℕ) (x : Phase) (p q : Pool) → on_delist t x p ≡ some q → p.discarded ≡ q.discarded
unfolding on_delist
delist-same t resting p q e = ap (λ r. r.discarded) (some_injective e)
delist-same t _ p q e = absurd (cc e)

rejoin-same :
    (granted : Bool) (t : ℕ) (x : Phase) (p q : Pool)
    → on_rejoin granted t x p ≡ some q
    → p.discarded ≡ q.discarded
unfolding on_rejoin
rejoin-same granted t leaving p q e = ap (λ r. r.discarded) (some_injective e)
rejoin-same granted t _ p q e = absurd (cc e)

request-same : (j : ℕ) (ts : List ℕ) (p : Pool) → p.discarded ≡ (on_request j ts p).discarded
unfolding on_request
request-same j [] p = refl
request-same j (t ∷ ts) p = refl

pub step-discarded :
    (a : Act) (p q : Pool) → step a p ≡ some q → length q.discarded ≡ refused a + length p.discarded
unfolding step
step-discarded (request false j) p q e =
    omega (arith, ap (λ r. length r.discarded) (some_injective e))
step-discarded (request true j) p q e =
    omega (arith, ap length (request-same j p.free p ∙ ap (λ r. r.discarded) (some_injective e)))
step-discarded (release t) p q e = omega (arith, ap length (release-same t (p.phase t) p q e))
step-discarded (enlist granted t) p q e =
    omega (arith, ap (λ r. length r.discarded) (if-some (has t p.unlisted) _ q e).1)
step-discarded (defer true j) p q e =
    omega (arith, ap (λ r. length r.discarded) (if-some (has j p.deferred) _ q e).1)
step-discarded (defer false j) p q e =
    omega (arith, ap (λ r. length r.discarded) (if-some (has j p.deferred) _ q e).1)
step-discarded (execute t) p q e = omega (arith, ap length (execute-same t (p.phase t) p q e))
step-discarded (look t) p q e = omega (arith, ap length (look-same t (p.phase t) p.pending p q e))
step-discarded (delist t) p q e = omega (arith, ap length (delist-same t (p.phase t) p q e))
step-discarded (rejoin granted t) p q e =
    omega (arith, ap length (rejoin-same granted t (p.phase t) p q e))
