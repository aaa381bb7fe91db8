-- ===== src/Api/Components/Contained.antt =====
-- What a request about a component does to the objects that it contains (src/myrefl_api.c).
use myreflection.Common.{
  ℕ, zero, suc, ◌<◌, ◌≡◌, refl, sym, ◌∙◌, ap, subst, true, false, Option, none, some, List, [], ◌∷◌,
  ◌++◌, ◌==◌, ==_iff, Bool-cases, inl, inr, arith, has, length,
}
use myreflection.Api.States.{Object, Call, change_all}
use myreflection.Api.Chaining.{Store}
use myreflection.Api.Containment.{Containment, Place}
use myreflection.Api.Containment.Listed.{Visits}
use myreflection.Api.Components.{Asking, parent_in, change_member, member_calls, change_contained}

-- No object stands in the list twice, or before its parent.
unfoldable pub ParentsFirst : Containment → List ℕ → Type 0
ParentsFirst t [] = Unit
ParentsFirst t (o ∷ os) =
    (has o os ≡ false)
    × ((p : ℕ) → t.parent_comp o ≡ some p → has p (o ∷ os) ≡ false)
    × ParentsFirst t os

module _ (r : Asking) (t : Containment) where
  -- The objects in this order.
  unfoldable pub visit : List ℕ → Store → Store × List Call
  visit [] st = (st, [])
  visit (o ∷ os) st =
      let rest = visit os (change_member r t o st) in
      (rest.0, member_calls r o (change_member r t o st) ++ rest.1)

  -- The loop returns once it has visited them all.
  pub change_contained-visit :
      (top fuel : ℕ) (w : Place) (os : List ℕ) (st : Store)
      → Visits t top w os
      → length os < fuel
      → change_contained fuel r t top w st ≡ some (visit os st)
  unfolding change_contained visit Visits
  change_contained-visit top zero w os st v h = absurd (omega (arith, h))
  change_contained-visit top (suc n) w [] st v h = rw v refl
  change_contained-visit top (suc n) w (o ∷ os) st (e, (w', next, later)) h =
      let rest =
        change_contained-visit top n w' os (change_member r t o st) later (omega (arith, h)) in
      rw e (rw (next n) (rw rest refl))

  pub visit-other : (os : List ℕ) (st : Store) (x : ℕ) → has x os ≡ false → (visit os st).0 x ≡ st x
  unfolding visit has
  visit-other [] st x e = refl
  visit-other (o ∷ os) st x e =
      visit-other os (change_member r t o st) x (ground (arith, e)) ∙ ground (arith, e)

  same_parent :
      (is : Option ℕ) (st st' : Store)
      → ((p : ℕ) → is ≡ some p → st' p ≡ st p)
      → parent_in r.is_wanted st is ≡ parent_in r.is_wanted st' is
  same_parent none st st' same = refl
  same_parent (some p) st st' same = ap (λ o. r.is_wanted o.base.state) (sym (same p refl))

  -- An object after the request, whose parent has its state by then.
  abbrev pub asked_for : Store → ℕ → Object → Object
  asked_for st' x o = change_all (r.on_member (parent_in r.is_wanted st' (t.parent_comp x))) o

  -- The parent of the first object is not changed with it, or after it.
  parent-same :
      (o : ℕ) (os : List ℕ) (st : Store) (p : ℕ)
      → has p (o ∷ os) ≡ false
      → (visit os (change_member r t o st)).0 p ≡ st p
  unfolding has
  parent-same o os st p out =
      visit-other os (change_member r t o st) p (ground (arith, out)) ∙ ground (arith, out)

  first-member :
      (o : ℕ) (os : List ℕ) (st : Store)
      → has o os ≡ false
      → ((p : ℕ) → t.parent_comp o ≡ some p → has p (o ∷ os) ≡ false)
      → (visit os (change_member r t o st)).0 o
        ≡ asked_for (visit os (change_member r t o st)).0 o (st o)
  first-member o os st once parent =
      let same =
        same_parent (t.parent_comp o) st (visit os (change_member r t o st)).0
          (λ p e. parent-same o os st p (parent p e)) in
      visit-other os (change_member r t o st) o once
      ∙ rw ((==_iff o o).1 refl) (ap (λ b. change_all (r.on_member b) (st o)) same)

  pub visit-member :
      (os : List ℕ) (st : Store) (x : ℕ)
      → ParentsFirst t os
      → has x os ≡ true
      → (visit os st).0 x ≡ asked_for (visit os st).0 x (st x)
  unfolding visit has ParentsFirst
  visit-member [] st x first m = absurd (cc)
  visit-member (o ∷ os) st x (once, parent, first) m = elim (Bool-cases (x == o)) [
    | inl hit ↦
        subst
          (λ y.
            (visit os (change_member r t o st)).0 y
            ≡ asked_for (visit os (change_member r t o st)).0 y (st y))
          (sym ((==_iff x o).0 hit)) (first-member o os st once parent)
    | inr miss ↦
        visit-member os (change_member r t o st) x first (ground (arith, m, miss))
        ∙ ap (asked_for (visit os (change_member r t o st)).0 x) (rw miss refl)
  ]
