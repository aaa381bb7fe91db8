-- ===== src/Rci/Run/Propagated.antt =====
-- The propagation of a rule's change to those above it: `rci_propagate_rule_change` of
-- src/myrefl_rci.c.
use myreflection.Common.{
  ℕ, ◌≡◌, ◌≢◌, refl, ◌⊎◌, inl, true, false, Bool, ◌||◌, ◌&&◌, some, List, [], ◌∷◌, arith, ◌==◌,
}
use myreflection.Types.{Result, is_pass, is_fail}
use myreflection.Rci.Map.{
  root_cause_not, root_cause_candidate, root_cause, Request, retest, found, World, Site, parents,
  dependencies,
}
use myreflection.Rci.Map.Leads.{IsSite}
use myreflection.Rci.Map.Explored.{Enough, Reached}
use myreflection.Rci.Map.Steps.{Steps, map_rules-steps}
use myreflection.Rci.Run.{is_root_cause, is_not, instance_name, apply_change, propagate}

-- Was the scheduler asked to test the instance again?
unfoldable pub requested : ℕ → List Request → Bool
requested k [] = false
requested k (retest i ∷ rs) = (i == k) || requested k rs
requested k (found i ∷ rs) = requested k rs

-- Only root causes other than the instance are cleared.
abbrev pub OnlyCleared : ℕ → World → World → Type 0
OnlyCleared i w w' =
    (k : ℕ)
    → (w'.root_cause k ≡ w.root_cause k)
      ⊎ ((k ≢ i) × (w.root_cause k ≡ root_cause) × (w'.root_cause k ≡ root_cause_not))

-- Only failing instances that were no root cause become candidates.
abbrev pub OnlyRaised : Site → World → World → Type 0
OnlyRaised s w w' =
    (k : ℕ)
    → (w'.root_cause k ≡ w.root_cause k)
      ⊎ ((is_fail (s.last_result k) ≡ true)
          × (w.root_cause k ≡ root_cause_not)
          × (w'.root_cause k ≡ root_cause_candidate)
          × (requested k w'.requests ≡ true))

-- An instance above a failing rule is no root cause, and is tested again if it passes.
abbrev pub IsBelowed : Site → ℕ → ℕ → World → Type 0
IsBelowed s i k w =
    k ≢ i
    → (is_root_cause (w.root_cause k) ≡ false)
      × (is_pass (s.last_result k) ≡ true → requested k w.requests ≡ true)

clear-Steps :
    (s : Site) (i : ℕ) (w0 : World)
    → Steps
        (OnlyCleared i w0)
        (IsBelowed s i)
        (λ k w. some (true, apply_change s i Result.fail k w))
unfolding apply_change requested
clear-Steps s i w0 k w only = (
  apply_change s i Result.fail k w,
  refl,
  λ x. ground (arith, only x),
  λ x m ne. (ground (arith, m ne), λ p. ground (arith, (m ne).1 p)),
  λ ne. (ground (arith, ne), λ p. ground (arith, ne, p)),
)

raise-Steps :
    (s : Site) (i : ℕ) (w0 : World)
    → Steps
        (OnlyRaised s w0)
        (λ k w. is_fail (s.last_result k) && is_not (w.root_cause k) ≡ false)
        (λ k w. some (true, apply_change s i Result.pass k w))
unfolding apply_change requested
raise-Steps s i w0 k w only = (
  apply_change s i Result.pass k w,
  refl,
  λ x. ground (arith, only x),
  λ x m. ground (arith, m),
  ground arith,
)

-- On a site and to a depth that is enough, where a pass is propagated from a rule, every enabled
-- rule reached above it that fails and is no root cause becomes a candidate, and its tests are
-- asked for; no other root_cause changes.
pub propagate-raises :
    (s : Site) (fuel i : ℕ) (w : World) (objects : List ℕ) (depth : ℕ → ℕ) (top : ℕ)
    → IsSite s objects depth top
    → ((xs : List ℕ) × (dependencies s.graph parents (s.graph.kind (s.owner i)) (s.owner i)
          ≡ some xs))
    → Enough fuel s objects depth top i
    → (w' : World) × (propagate fuel s i Result.pass w ≡ some w')
      × OnlyRaised s w w'
      × ((k : ℕ)
          → Reached s (instance_name s i) parents i k
          → is_fail (s.last_result k) && is_not (w'.root_cause k) ≡ false)
unfolding propagate
propagate-raises s fuel i w objects depth top site deps enough =
    let (w', e, only, marks) =
      map_rules-steps s _ (instance_name s i) (OnlyRaised s w)
        (λ k v. is_fail (s.last_result k) && is_not (v.root_cause k) ≡ false) (raise-Steps s i w)
        parents fuel i w objects depth top site deps enough (λ k. inl refl) in
    rw e (w', refl, only, marks)

-- On a site and to a depth that is enough, a failure that is propagated from a rule takes the root
-- cause from every other enabled rule reached above it, and asks for the tests of those that pass;
-- no other root_cause changes.
pub propagate-clears :
    (s : Site) (fuel i : ℕ) (w : World) (objects : List ℕ) (depth : ℕ → ℕ) (top : ℕ)
    → IsSite s objects depth top
    → ((xs : List ℕ) × (dependencies s.graph parents (s.graph.kind (s.owner i)) (s.owner i)
          ≡ some xs))
    → Enough fuel s objects depth top i
    → (w' : World) × (propagate fuel s i Result.fail w ≡ some w')
      × OnlyCleared i w w'
      × ((k : ℕ) → Reached s (instance_name s i) parents i k → IsBelowed s i k w')
unfolding propagate
propagate-clears s fuel i w objects depth top site deps enough =
    let (w', e, only, marks) =
      map_rules-steps s _ (instance_name s i) (OnlyCleared i w) (IsBelowed s i) (clear-Steps s i w)
        parents fuel i w objects depth top site deps enough (λ k. inl refl) in
    rw e (w', refl, only, marks)
