-- ===== src/Api/Components/Halted.antt =====
-- A component that the CLI disables (src/myrefl_api.c).
use myreflection.Common.{
  ℕ, ◌≡◌, refl, sym, ◌∙◌, ap, subst, true, false, Option, none, some, List, [], ◌∷◌, ◌==◌, ==_iff,
  Bool-cases, inl, inr, arith, has,
}
use myreflection.Types.{comp, is_enabled}
use myreflection.Api.States.{Instance, is_disabled, change_all, each, instances, running, phase_of}
use myreflection.Api.Chaining.{Store}
use myreflection.Api.Containment.{Containment}
use myreflection.Api.Components.{
  is_created, parent_in, change_member, disable_member, disable_request,
}
use myreflection.Api.Components.Contained.{visit, visit-other, ParentsFirst}

-- Nothing of an object runs, or runs once its parts are ready.
abbrev pub Halted : List Instance → Type 0
Halted [] = Unit
Halted (i ∷ is) = (is_enabled i.state ≡ false) × (is_created i.state ≡ false) × Halted is

disabled-halts :
    (i : Instance)
    → (is_enabled (disable_member true true i).state ≡ false)
      × (is_created (disable_member true true i).state ≡ false)
unfolding disable_member
disabled-halts i = (ground arith, ground arith)

each-Halted : (is : List Instance) → Halted (each (disable_member true true) is)
unfolding each
each-Halted [] = tt
each-Halted (i ∷ is) = ((disabled-halts i).0, (disabled-halts i).1, each-Halted is)

running-disabled :
    (i : Instance)
    → phase_of i.state ≡ running
    → is_disabled (disable_member true true i).state ≡ true
unfolding disable_member
running-disabled i e = ground (arith, e)

module _ (t : Containment) where
  -- Each object has one of the objects before it as its parent, which is a component.
  unfoldable pub Below : (before : List ℕ) → List ℕ → Type 0
  Below seen [] = Unit
  Below seen (o ∷ os) =
      ((p : ℕ) → t.parent_comp o ≡ some p → (has p seen ≡ true) × (t.kind p ≡ comp))
      × Below (o ∷ seen) os

  -- The components among these objects are not forward references.
  abbrev pub AllRunning : List ℕ → Store → Type 0
  AllRunning os st =
      (o : ℕ) → has o os ≡ true → t.kind o ≡ comp → phase_of (st o).base.state ≡ running

  abbrev pub AllDisabled : List ℕ → Store → Type 0
  AllDisabled os st =
      (o : ℕ) → has o os ≡ true → t.kind o ≡ comp → is_disabled (st o).base.state ≡ true

  below_disabled :
      (is : Option ℕ) (seen : List ℕ) (st : Store)
      → ((p : ℕ) → is ≡ some p → (has p seen ≡ true) × (t.kind p ≡ comp))
      → AllDisabled seen st
      → parent_in is_disabled st is ≡ true
  below_disabled none seen st below all = refl
  below_disabled (some p) seen st below all = all p (below p refl).0 (below p refl).1

  abbrev disabling : ℕ → Store → Store
  disabling = change_member (disable_request true) t

  disabling-same :
      (o : ℕ) (os : List ℕ) (st : Store) (x : ℕ)
      → has o os ≡ false
      → has x os ≡ true
      → disabling o st x ≡ st x
  disabling-same o os st x once m = elim (Bool-cases (x == o)) [
    | inl hit ↦
        let clash : true ≡ false = sym m ∙ (ap (λ y. has y os) ((==_iff x o).0 hit) ∙ once) in
        absurd (cc)
    | inr miss ↦ rw miss refl
  ]

  disabling-own :
      (o : ℕ) (st : Store)
      → parent_in is_disabled st (t.parent_comp o) ≡ true
      → disabling o st o ≡ change_all (disable_member true true) (st o)
  unfolding disable_request
  disabling-own o st e = rw ((==_iff o o).1 refl) (rw e refl)

  disabling-AllDisabled :
      (o : ℕ) (seen os : List ℕ) (st : Store)
      → parent_in is_disabled st (t.parent_comp o) ≡ true
      → AllRunning (o ∷ os) st
      → AllDisabled seen st
      → AllDisabled (o ∷ seen) (disabling o st)
  unfolding has
  disabling-AllDisabled o seen os st below run all p m is = elim (Bool-cases (p == o)) [
    | inl hit ↦
        let same = (==_iff p o).0 hit in
        subst (λ y. is_disabled (disabling o st y).base.state ≡ true) (sym same)
          (ap (λ k. is_disabled k.base.state) (disabling-own o st below)
            ∙ running-disabled (st o).base
                (run o (rw ((==_iff o o).1 refl) refl) (subst (λ y. t.kind y ≡ comp) same is)))
    | inr miss ↦ rw miss (all p (ground (arith, m, miss)) is)
  ]

  pub visit-halts :
      (seen os : List ℕ) (st : Store)
      → ParentsFirst t os
      → Below seen os
      → AllRunning os st
      → AllDisabled seen st
      → (x : ℕ) → has x os ≡ true
      → Halted (instances ((visit (disable_request true) t os st).0 x))
  unfolding visit has ParentsFirst Below each
  visit-halts seen [] st first below run all x m = absurd (cc)
  visit-halts seen (o ∷ os) st (once, parent, first) (under, below) run all x m =
      let up = below_disabled (t.parent_comp o) seen st under all in
      elim (Bool-cases (x == o)) [
        | inl hit ↦
            subst
              (λ y. Halted (instances ((visit (disable_request true) t os (disabling o st)).0 y)))
              (sym ((==_iff x o).0 hit))
              (subst (λ k. Halted (instances k))
                (sym (
                  visit-other (disable_request true) t os (disabling o st) o once
                  ∙ disabling-own o st up))
                (each-Halted (instances (st o))))
        | inr miss ↦
            visit-halts (o ∷ seen) os (disabling o st) first below
              (λ y y_in kind.
                subst (λ k. phase_of k.base.state ≡ running)
                  (sym (disabling-same o os st y once y_in)) (run y (ground (arith, y_in)) kind))
              (disabling-AllDisabled o seen os st up run all) x (ground (arith, m, miss))
      ]
