-- ===== src/Rci/Map/Explored.antt =====
-- First calls of `rci_map_function` (src/myrefl_rci.c): what they have done once they return.
use myreflection.Common.{
  ℕ, ◌+◌, ◌<◌, ◌≡◌, refl, ap, subst, ◌∙◌, ◌⊎◌, inl, inr, true, false, Bool, not, Option, some, List,
  [], ◌∷◌, arith, has, ◌==◌, Bool-cases, ==_iff,
}
use myreflection.Rci.Map.{
  World, Site, Direction, settled, dependencies, Trip, Job, note, apply_all, targets, map_rules,
}
use myreflection.Rci.Map.Leads.{Leads, along, outward, Finds, first, next, IsSite, unvisited, calls}
use myreflection.Rci.Map.Traversed.{Contract, Applies, Traversed}
use myreflection.Rci.Map.Reach.{map_function-Returns}

Leads-member :
    {s : Site} {d : Direction} {i b : ℕ} {objects : List ℕ} {depth : ℕ → ℕ} {top : ℕ}
    → IsSite s objects depth top
    → Leads s d i b
    → has b objects ≡ true
Leads-member {s = s} site (along {d = d} {i = i} o e m) = site.lists d (s.owner i) _ _ e m
Leads-member site (outward o e l) = Leads-member site l

Finds-member :
    {s : Site} {d : Direction} {i b : ℕ} {objects : List ℕ} {depth : ℕ → ℕ} {top : ℕ}
    → IsSite s objects depth top
    → Finds s d i b
    → has b objects ≡ true
Finds-member site (first l) = Leads-member site l
Finds-member site (next f l) = Leads-member site l

-- The depth of calls that is enough from an instance.
abbrev pub Enough : ℕ → Site → List ℕ → (ℕ → ℕ) → ℕ → ℕ → Type 0
Enough fuel s objects depth top i = calls top (unvisited objects []) + depth (s.owner i) < fuel

-- The function's contract at all objects that are found, and the verdict on them.
abbrev pub Explored : Contract → Job → Direction → ℕ → Bool × World → Type 0
Explored c j d i (r, w) =
    c.inv w
    × ((a : ℕ) → Finds j.site d i a → c.mark a w)
    × (((r ≡ j.default_state) × ((a : ℕ) → Finds j.site d i a → c.fine a))
        ⊎ ((r ≡ not j.default_state) × ((a : ℕ) × Finds j.site d i a × c.bad a)))

Explored-all :
    (c : Contract) (j : Job) (d : Direction) (i : ℕ) (w : World) (t : Trip)
    → Traversed c j (settled d) (Finds j.site d i) [] w j.default_state t
    → ((b : ℕ) → Leads j.site d i b → has b t.history ≡ true)
    → Explored c j d i (t.retval, t.world)
unfolding has
Explored-all c j d i w t done leads = (
  done.inv,
  λ a f. done.marked a (all f, refl),
  elim done.verdict [
    | inl (e, fine) ↦ inl (e, λ a f. fine a (all f, refl))
    | inr (e, (a, n, bad)) ↦ inr (e, (a, done.inside a n, bad))
  ],
)
  where
    all : {a : ℕ} → Finds j.site d i a → has a t.history ≡ true
    all (first {b = b} l) = leads b l
    all (next {a = a} {b = b} f l) = done.closed a b (all f, refl) l

-- A first call returns, even where dependencies form a cycle: each of the objects counts for the
-- components that it may lie in.
pub map_rules-Explored :
    (c : Contract) (j : Job) (d : Direction) (fuel i : ℕ) (w : World) (objects : List ℕ)
    (depth : ℕ → ℕ) (top : ℕ)
    → IsSite j.site objects depth top
    → Applies c j (Finds j.site d i)
    → ((xs : List ℕ) × (dependencies j.site.graph d
            (j.site.graph.kind (j.site.owner i))
            (j.site.owner i)
          ≡ some xs))
    → c.inv w
    → Enough fuel j.site objects depth top i
    → (r : Bool) × (w' : World) × (map_rules fuel j d i w ≡ some (r, w')) × Explored c j d i (r, w')
unfolding map_rules
map_rules-Explored c j d fuel i w objects depth top site applies deps inv k =
    let (t, e, done, leads) =
      map_function-Returns c j (settled d) (Finds j.site d i) objects depth top site
        (λ a f. Finds-member site f) (λ a b f l. next f l) applies fuel d i [] w refl deps
        (λ b l. first l) inv k in
    rw e (t.retval, t.world, refl, Explored-all c j d i w t done leads)

-- A test of instances that changes nothing.
abbrev pub testing : Site → (ℕ → World → Bool) → Option ℕ → Bool → Job
testing s test name default = record {
  site = s;
  function = λ i w. some (test i w, w);
  instance_name = name;
  default_state = default;
}

-- The instance is enabled, of a rule that is found, and has the name if its rule has names.
abbrev pub Reached : Site → Option ℕ → Direction → (i k : ℕ) → Type 0
Reached s name d i k = (a : ℕ) × Finds s d i a × (has k (targets s name (s.graph.kind a) a) ≡ true)

abbrev tested : Site → (ℕ → World → Bool) → Option ℕ → Bool → World → Contract
tested s test name default w0 = record {
  inv = λ w. w ≡ w0;
  mark = λ a w. Unit;
  fine = λ a. (k : ℕ) → has k (targets s name (s.graph.kind a) a) ≡ true → test k w0 ≡ default;
  bad =
      λ a. (k : ℕ) × (has k (targets s name (s.graph.kind a) a) ≡ true) × (test k w0 ≡ not default);
}

default-or : (b d : Bool) → (b ≡ d) ⊎ (b ≡ not d)
default-or true true = inl refl
default-or true false = inr refl
default-or false true = inr refl
default-or false false = inl refl

apply_all-tested :
    (s : Site) (test : ℕ → World → Bool) (name : Option ℕ) (default : Bool) (is : List ℕ) (r : Bool)
    (w : World)
    → (r' : Bool) × (apply_all (testing s test name default) is r w ≡ some (r', w))
      × (((r' ≡ r) × ((k : ℕ) → has k is ≡ true → test k w ≡ default))
          ⊎ ((r' ≡ not default) × ((k : ℕ) × (has k is ≡ true) × (test k w ≡ not default))))
unfolding apply_all has
apply_all-tested s test name default [] r w = (r, refl, inl (refl, λ k m. cc m))
apply_all-tested s test name default (i ∷ is) r w =
    let (r', e, all) = apply_all-tested s test name default is (note default (test i w) r) w in
    (
      r',
      e,
      elim (default-or (test i w) default) [
        | inl fine ↦ elim all [
          | inl (e', others) ↦ inl (
            ground (arith, e', fine),
            λ k m. elim (Bool-cases (i == k)) [
              | inl same ↦ subst (λ x. test x w ≡ default) ((==_iff i k).0 same) fine
              | inr other ↦ others k (ground (arith, m, other))
            ],
          )
          | inr (e', (k, m, bad)) ↦ inr (e', (k, ground (arith, m), bad))
        ]
        | inr bad ↦ elim all [
          | inl (e', others) ↦ inr (ground (arith, e', bad), (i, ground arith, bad))
          | inr (e', (k, m, worse)) ↦ inr (e', (k, ground (arith, m), worse))
        ]
      ],
    )

-- On a site (IsSite) and to a depth of calls that is enough (Enough), a test mapped over all that is
-- found gives the default exactly where it does at every instance reached,
-- and returns even where dependencies form a cycle.
pub map_rules-tests :
    (s : Site) (test : ℕ → World → Bool) (name : Option ℕ) (default : Bool) (d : Direction)
    (fuel i : ℕ) (w : World) (objects : List ℕ) (depth : ℕ → ℕ) (top : ℕ)
    → IsSite s objects depth top
    → ((xs : List ℕ) × (dependencies s.graph d (s.graph.kind (s.owner i)) (s.owner i) ≡ some xs))
    → Enough fuel s objects depth top i
    → (r : Bool) × (map_rules fuel (testing s test name default) d i w ≡ some (r, w))
      × (((r ≡ default) × ((k : ℕ) → Reached s name d i k → test k w ≡ default))
          ⊎ ((r ≡ not default) × ((k : ℕ) × Reached s name d i k × (test k w ≡ not default))))
map_rules-tests s test name default d fuel i w objects depth top site deps k =
    let applies : Applies (tested s test name default w) (testing s test name default)
        (Finds s d i) =
      λ o r v f same.
        let (r', e, all) =
          apply_all-tested s test name default (targets s name (s.graph.kind o) o) r v in
        (
          r',
          v,
          e,
          same,
          λ a m. m,
          tt,
          subst
              (λ u.
                ((r' ≡ r)
                  × ((k : ℕ)
                      → has k (targets s name (s.graph.kind o) o) ≡ true
                      → test k u ≡ default))
                ⊎ ((r' ≡ not default)
                    × ((k : ℕ) × (has k (targets s name (s.graph.kind o) o) ≡ true)
                        × (test k u ≡ not default))))
              same all,
        ) in
    let (r, w', e, (same, marks, verdict)) =
      map_rules-Explored (tested s test name default w) (testing s test name default) d fuel i w
        objects depth top site applies deps refl k in
    (
      r,
      e ∙ ap (λ v. some (r, v)) same,
      elim verdict [
        | inl (e', fine) ↦ inl (e', λ k (a, f, m). fine a f k m)
        | inr (e', (a, f, (k, m, bad))) ↦ inr (e', (k, (a, f, m), bad))
      ],
    )
