-- ===== src/Rci/Map/Steps.antt =====
-- Traversals of src/myrefl_rci.c for their effect: functions that always return TRUE.
use myreflection.Common.{
  ℕ, ◌≡◌, refl, ap, subst, ◌∙◌, inl, inr, true, false, Bool, Option, some, List, [], ◌∷◌, arith,
  has, ◌==◌, ==_iff, Bool-cases,
}
use myreflection.Rci.Map.{World, Site, Direction, dependencies, Job, apply_all, targets, map_rules}
use myreflection.Rci.Map.Leads.{Finds, IsSite}
use myreflection.Rci.Map.Traversed.{Contract, Applies}
use myreflection.Rci.Map.Explored.{Enough, Reached, map_rules-Explored}

-- The function returns TRUE, keeps `inv`, leaves `mark` at the instance and keeps it at others.
abbrev pub Steps :
    (World → Type 0) → (ℕ → World → Type 0) → (ℕ → World → Option (Bool × World)) → Type 0
Steps inv mark function =
    (i : ℕ) (w : World)
    → inv w
    → (w' : World) × (function i w ≡ some (true, w'))
      × inv w'
      × ((k : ℕ) → mark k w → mark k w')
      × mark i w'

module _ (s : Site) (function : ℕ → World → Option (Bool × World)) (name : Option ℕ)
    (inv : World → Type 0) (mark : ℕ → World → Type 0) (steps : Steps inv mark function) where
  abbrev job : Job
  job = record { site = s; function = function; instance_name = name; default_state = true }

  apply_all-steps :
      (is : List ℕ) (r : Bool) (w : World)
      → inv w
      → (w' : World) × (apply_all job is r w ≡ some (r, w'))
        × inv w'
        × ((k : ℕ) → mark k w → mark k w')
        × ((k : ℕ) → has k is ≡ true → mark k w')
  unfolding apply_all has
  apply_all-steps [] r w i = (w, refl, i, λ k m. m, λ k m. cc m)
  apply_all-steps (x ∷ is) r w i =
      let (w1, e1, i1, stays1, mark1) = steps x w i in
      let (w2, e2, i2, stays2, marks2) = apply_all-steps is r w1 i1 in
      rw e1 (
        w2,
        e2,
        i2,
        λ k m. stays2 k (stays1 k m),
        λ k m. elim (Bool-cases (x == k)) [
          | inl same ↦ subst (λ y. mark y w2) ((==_iff x k).0 same) (stays2 x mark1)
          | inr other ↦ marks2 k (ground (arith, m, other))
        ],
      )

  abbrev contract : Contract
  contract = record {
    inv = inv;
    mark = λ a w. (k : ℕ) → has k (targets s name (s.graph.kind a) a) ≡ true → mark k w;
    fine = λ a. Unit;
    bad = λ a. true ≡ false;
  }

  -- A first call with such a function returns TRUE, with the marks at all instances reached.
  pub map_rules-steps :
      (d : Direction) (fuel i : ℕ) (w : World) (objects : List ℕ) (depth : ℕ → ℕ) (top : ℕ)
      → IsSite s objects depth top
      → ((xs : List ℕ) × (dependencies s.graph d (s.graph.kind (s.owner i)) (s.owner i) ≡ some xs))
      → Enough fuel s objects depth top i
      → inv w
      → (w' : World) × (map_rules fuel job d i w ≡ some (true, w'))
        × inv w'
        × ((k : ℕ) → Reached s name d i k → mark k w')
  map_rules-steps d fuel i w objects depth top site deps k start =
      let applies : Applies contract job (Finds s d i) = λ o r v f at.
        let (v', e, at', stays, marks) =
          apply_all-steps (targets s name (s.graph.kind o) o) r v at in
        (r, v', e, at', λ a m x t. stays x (m x t), marks, inl (refl, tt)) in
      let (r, w', e, (at, marks, verdict)) =
        map_rules-Explored contract job d fuel i w objects depth top site applies deps start k in
      elim verdict [
        | inl (same, fine) ↦ (w', e ∙ ap (λ b. some (b, w')) same, at, λ x (a, f, m). marks a f x m)
        | inr (differs, (a, f, bad)) ↦ absurd (cc bad)
      ]
