-- ===== src/Sched/Requests/Sorting.antt =====
-- The user queue stays in the order of the times at which its tests are due.
use myreflection.Common.{ℕ, ◌≡◌, false, List, [], ◌∷◌, arith, Bool-cases, inl, inr}
use myreflection.Types.{Time}
use myreflection.Sched.{Test, time_lt}
use myreflection.Sched.Requests.{insert_by}

-- Not before the test, if there is one, that stands behind it.
abbrev InOrder : (ℕ → Test) → Time → List ℕ → Type 0
InOrder tests t [] = Unit
InOrder tests t (j ∷ js) = time_lt (tests j).next_time t ≡ false

-- No test is due before the one in front of it.
abbrev pub IsSorted : (ℕ → Test) → List ℕ → Type 0
IsSorted tests [] = Unit
IsSorted tests (i ∷ is) = InOrder tests (tests i).next_time is × IsSorted tests is

insert_by-first :
    (tests : ℕ → Test) (t u : Time) (i : ℕ) (js : List ℕ)
    → (tests i).next_time ≡ t
    → time_lt t u ≡ false
    → InOrder tests u js
    → InOrder tests u (insert_by tests t i js)
unfolding insert_by
insert_by-first tests t u i [] e h o = rw e h
insert_by-first tests t u i (j ∷ js) e h o = ground (arith, e, h, o)

-- The place that myrefl_sched_add_test finds in a sorted user queue keeps it sorted.
pub insert_by-IsSorted :
    (tests : ℕ → Test) (t : Time) (i : ℕ) (js : List ℕ)
    → (tests i).next_time ≡ t
    → IsSorted tests js
    → IsSorted tests (insert_by tests t i js)
unfolding insert_by
insert_by-IsSorted tests t i [] e o = (tt, tt)
insert_by-IsSorted tests t i (j ∷ js) e o = elim (Bool-cases (time_lt t (tests j).next_time)) [
  | inl lt ↦ rw lt (ground (arith, e, lt), o)
  | inr ge ↦ rw ge (insert_by-first tests t _ i js e ge o.0, insert_by-IsSorted tests t i js e o.1)
]
