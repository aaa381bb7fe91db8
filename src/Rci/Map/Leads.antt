-- ===== src/Rci/Map/Leads.antt =====
-- Which objects a traversal of src/myrefl_rci.c is led to, and from which sites it comes back.
use myreflection.Common.{
  ℕ, zero, suc, ◌+◌, ◌≤◌, ◌<◌, ◌≡◌, refl, ◌⊎◌, inl, inr, true, false, Bool, ◌&&◌, some, List, [],
  ◌∷◌, arith, has, if◌then◌else◌, Option-cases, is_some,
}
use myreflection.Types.{is_enabled, ObjType, comp}
use myreflection.Rci.Depend.{Graph, depends}
use myreflection.Rci.Map.{
  Site, Direction, settled, outer, dependencies, boundary, parents, children, comp_parents,
  comp_children,
}

-- Does the traversal enter the instance?
abbrev pub is_open : Site → ℕ → Bool
is_open s i = is_enabled (s.state i) && s.valid (s.owner i)

-- From an instance, the dependencies lead to an object, those of the components included on whose
-- boundary it lies.
pub data Leads (s : Site) : Direction → ℕ → ℕ → Type 0 where
  along :
      {d : Direction} {i b : ℕ} {xs : List ℕ}
      → is_open s i ≡ true
      → dependencies s.graph d (s.graph.kind (s.owner i)) (s.owner i) ≡ some xs
      → has b xs ≡ true
      → Leads s d i b
  outward :
      {d : Direction} {i b k : ℕ}
      → is_open s i ≡ true
      → boundary s.graph d (s.owner i) ≡ some k
      → Leads s (outer d) (s.base k) b
      → Leads s d i b

pub Leads-cases :
    {s : Site} {d : Direction} {i b : ℕ}
    → Leads s d i b
    → (is_open s i ≡ true)
      × (((xs : List ℕ) × (dependencies s.graph d (s.graph.kind (s.owner i)) (s.owner i) ≡ some xs)
            × (has b xs ≡ true))
          ⊎ ((k : ℕ) × (boundary s.graph d (s.owner i) ≡ some k) × Leads s (outer d) (s.base k) b))
Leads-cases (along o e m) = (o, inl (_, e, m))
Leads-cases (outward o e l) = (o, inr (_, e, l))

-- The objects that are found from an instance, in one step or in several.
pub data Finds (s : Site) (d : Direction) (i : ℕ) : ℕ → Type 0 where
  first : {b : ℕ} → Leads s d i b → Finds s d i b
  next : {a b : ℕ} → Finds s d i a → Leads s (settled d) (s.base a) b → Finds s d i b

-- A site of these objects, with components no deeper in one another than `top`: the dependencies are
-- among them and have a type that may have dependencies, and a component that contains an object is
-- of less depth.
pub record IsSite (s : Site) (objects : List ℕ) (depth : ℕ → ℕ) (top : ℕ) : Type 0 where
  pub owned : (o : ℕ) → s.owner (s.base o) ≡ o
  pub contained :
      (o k : ℕ) → s.graph.parent_comp o ≡ some k → (s.graph.kind k ≡ comp) × (depth k < depth o)
  pub typed : (o : ℕ) → has o objects ≡ true → depends (s.graph.kind o) ≡ true
  pub lists :
      (d : Direction) (o b : ℕ) (xs : List ℕ)
      → dependencies s.graph d (s.graph.kind o) o ≡ some xs
      → has b xs ≡ true
      → has b objects ≡ true
  pub bounded : (o : ℕ) → depth o ≤ top

-- How many of the objects are not in the history.
unfoldable pub unvisited : List ℕ → List ℕ → ℕ
unvisited [] h = 0
unvisited (o ∷ os) h = let rest = unvisited os h in if has o h then rest else suc rest

pub unvisited-le :
    (os h h' : List ℕ)
    → ((a : ℕ) → has a h ≡ true → has a h' ≡ true)
    → unvisited os h' ≤ unvisited os h
unfolding unvisited
unvisited-le [] h h' kept = omega arith
unvisited-le (o ∷ os) h h' kept = ground (arith, unvisited-le os h h' kept, kept o)

pub unvisited-lt :
    (os h : List ℕ) (o : ℕ)
    → has o os ≡ true
    → has o h ≡ false
    → unvisited os (o ∷ h) < unvisited os h
unfolding unvisited has
unvisited-lt [] h o m out = cc
unvisited-lt (x ∷ os) h o m out =
    ground
      (arith, unvisited-lt os h o, unvisited-le os h (o ∷ h) (λ a n. ground (arith, n)), out, m)

-- The depth of calls that these many objects and this depth of components allow for.
unfoldable pub calls : (top objects : ℕ) → ℕ
calls top zero = 0
calls top (suc n) = calls top n + (top + 1)

pub calls-le : (top a b : ℕ) → a ≤ b → calls top a ≤ calls top b
unfolding calls
calls-le top zero b h = omega arith
calls-le top (suc a) zero h = absurd (omega (arith, h))
calls-le top (suc a) (suc b) h = omega (arith, calls-le top a b (omega (arith, h)))

pub calls-lt : (top a b : ℕ) → a < b → calls top a + top < calls top b
unfolding calls
calls-lt top a zero h = absurd (omega (arith, h))
calls-lt top a (suc b) h = omega (arith, calls-le top a b (omega (arith, h)))

pub boundary-parent_comp :
    (g : Graph) (d : Direction) (o k : ℕ) → boundary g d o ≡ some k → g.parent_comp o ≡ some k
unfolding boundary
boundary-parent_comp g d o k h = ground (arith, h)

pub dependencies-comp :
    (g : Graph) (d : Direction) (k : ℕ)
    → (xs : List ℕ) × (dependencies g (outer d) comp k ≡ some xs)
unfolding dependencies
dependencies-comp g parents k = (_, refl)
dependencies-comp g comp_parents k = (_, refl)
dependencies-comp g children k = (_, refl)
dependencies-comp g comp_children k = (_, refl)

dependencies-is_some :
    (g : Graph) (d : Direction) (t : ObjType) (o : ℕ)
    → depends t ≡ true
    → is_some (dependencies g (settled d) t o) ≡ true
unfolding dependencies
dependencies-is_some g d t o h = ground (arith, h)

pub dependencies-settled :
    (g : Graph) (d : Direction) (t : ObjType) (o : ℕ)
    → depends t ≡ true
    → (xs : List ℕ) × (dependencies g (settled d) t o ≡ some xs)
dependencies-settled g d t o h = elim (Option-cases (dependencies g (settled d) t o)) [
  | inl e ↦ absurd (ground (arith, e, dependencies-is_some g d t o h))
  | inr some_xs ↦ some_xs
]

pub settled-outer : (d : Direction) → settled (outer d) ≡ settled d
settled-outer d = ground arith

pub settled_twice : (d : Direction) → settled (settled d) ≡ settled d
settled_twice d = ground arith
