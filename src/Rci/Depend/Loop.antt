-- ===== src/Rci/Depend/Loop.antt =====
-- Where the loop detection of `myrefl_depend_create` misses a loop: a domain records what it reaches
-- when a dependency is made, but not what the domain that it then leads to had reached before.
use myreflection.Common.{
  ℕ, ◌≡◌, ◌≢◌, refl, Bool, true, false, ◌&&◌, ◌||◌, Option, some, List, [], ◌∷◌, arith, ◌==◌, has,
}
use myreflection.Rci.Depend.{
  Domain, Graph, is_obj_in_tree, passed, walk_domains, done, connect, Memory, depends,
  depend_create,
}
use myreflection.Rci.Depend.Search.{Reaches, here, down}
use myreflection.Rci.Depend.Acyclic.{with_edge}
use myreflection.Rci.Depend.Create.{lists, connect_children}

-- Without that record the search's answer is not asked for.
walk_unlisted :
    (search : Option Bool) (dp dc : ℕ) (ds : List Domain)
    → dp ≢ dc
    → lists ds dc dp ≡ false
    → (walk_domains search dp dc ds).1 ≡ passed
unfolding walk_domains lists
walk_unlisted search dp dc [] ne h = refl
walk_unlisted search dp dc (d ∷ ds) ne h = ground (arith, walk_unlisted search dp dc ds ne)

has-with_edge_old :
    (children : ℕ → List ℕ) (p c a b : ℕ)
    → has b (children a) ≡ true
    → has b (with_edge children p c a) ≡ true
unfolding has
has-with_edge_old children p c a b h = ground arith

has-with_edge_new : (children : ℕ → List ℕ) (p c : ℕ) → has c (with_edge children p c p) ≡ true
unfolding has
has-with_edge_new children p c = ground arith

Reaches-with_edge :
    {children : ℕ → List ℕ} (p c : ℕ) {a b : ℕ}
    → Reaches children a b
    → Reaches (with_edge children p c) a b
Reaches-with_edge p c here = here
Reaches-with_edge {children} p c (down {a} {b} m r) =
    down (has-with_edge_old children p c a b m) (Reaches-with_edge p c r)

-- For a parent and a child in two different domains, where the child's domain does not list the
-- parent's, myrefl_depend_create makes the dependency even if the child already leads to the parent:
-- the graph it leaves has a cycle.
pub depend_create_loop :
    (g : Graph) (p c fuel : ℕ) (mem : Memory)
    → depends (g.kind p) && depends (g.kind c) ≡ true
    → (p == c) || (has c (g.child_depend p) || has p (g.parent_depend c)) ≡ false
    → g.domain p ≢ 0
    → g.domain c ≢ 0
    → g.domain p ≢ g.domain c
    → lists g.domains (g.domain c) (g.domain p) ≡ false
    → Reaches g.child_depend c p
    → (g' : Graph) × (depend_create fuel mem (some p) (some c) g ≡ done g')
      × (has c (g'.child_depend p) ≡ true)
      × Reaches g'.child_depend c p
unfolding depend_create
depend_create_loop g p c fuel mem kinds new dp dc apart unlisted r =
    let search = is_obj_in_tree fuel g.child_depend p c in
    let walked = walk_domains search (g.domain p) (g.domain c) g.domains in
    let end = walk_unlisted search (g.domain p) (g.domain c) g.domains apart unlisted in
    let g' = record g { domains = walked.0 } in
    let e = connect_children p c g' in
    (
      connect p c g',
      ground (arith, end),
      rw e (has-with_edge_new g.child_depend p c),
      rw e (Reaches-with_edge p c r),
    )
