-- ===== src/Rci/Depend/Mirror.antt =====
-- The two lists of a dependency agree: a parent lists its child exactly when the child lists its
-- parent.
use myreflection.Common.{
  update, ℕ, ◌≡◌, Bool, true, false, ◌&&◌, ◌||◌, Option, none, some, List, arith, ◌==◌, has,
  Distinct, Bool-cases, ◌+◌, inl, inr,
}
use myreflection.Rci.Depend.{
  Domain, Graph, list_add, is_obj_in_tree, WalkEnd, passed, looped, stuck, walk_domains, Outcome,
  done, connect, connect_checked, connect_walked, Memory, new_domain, join_domains, depends,
  depend_create,
}
use myreflection.Types.{u32}

-- Every edge stands on both sides, and no list holds an object twice.
pub record IsMirrored (g : Graph) : Type 0 where
  pub mirrored : (a b : ℕ) → has b (g.child_depend a) ≡ has a (g.parent_depend b)
  pub children_once : (a : ℕ) → Distinct (g.child_depend a)
  pub parents_once : (a : ℕ) → Distinct (g.parent_depend a)

-- Whatever graph the call leaves.
abbrev pub After : (Graph → Type 0) → Outcome → Type 0
After P (done g) = P g
After P _ = Unit

connect_parents :
    (p c : ℕ) (g : Graph)
    → (connect p c g).parent_depend ≡ update g.parent_depend c (list_add p (g.parent_depend c))
unfolding connect
connect_parents p c g = ground arith

connect_children :
    (p c : ℕ) (g : Graph)
    → (connect p c g).child_depend ≡ update g.child_depend p (list_add c (g.child_depend p))
unfolding connect
connect_children p c g = ground arith

Distinct-list_add : (x : ℕ) (xs : List ℕ) → Distinct xs → Distinct (list_add x xs)
Distinct-list_add x xs d = ground arith

mirror_edge :
    (children parents : ℕ → List ℕ) (p c a b : ℕ)
    → has b (children a) ≡ has a (parents b)
    → has c (children p) ≡ has p (parents c)
    → has b (update children p (list_add c (children p)) a)
      ≡ has a (update parents c (list_add p (parents c)) b)
unfolding has
mirror_edge children parents p c a b h k = ground arith

connect-IsMirrored : (p c : ℕ) (g : Graph) → IsMirrored g → IsMirrored (connect p c g)
connect-IsMirrored p c g m = record {
  mirrored = λ a b.
      rw (connect_parents p c g, connect_children p c g)
        (mirror_edge g.child_depend g.parent_depend p c a b (m.mirrored a b) (m.mirrored p c));
  children_once = λ a. rw (connect_children p c g) (
      ground
        (arith, Distinct-list_add c (g.child_depend p) (m.children_once p), m.children_once a));
  parents_once = λ a. rw (connect_parents p c g) (
      ground (arith, Distinct-list_add p (g.parent_depend c) (m.parents_once c), m.parents_once a));
}

-- The domains do not matter.
with_domains :
    (g : Graph) (domain' : ℕ → ℕ) (domains' : List Domain) (next : ℕ)
    → IsMirrored g
    → IsMirrored (record g { domain = domain'; domains = domains'; next_domain = next })
with_domains g domain' domains' next m = record {
  mirrored = m.mirrored;
  children_once = m.children_once;
  parents_once = m.parents_once;
}

walked-IsMirrored :
    (end : WalkEnd) (p c : ℕ) (g : Graph)
    → IsMirrored g
    → After IsMirrored (connect_walked end p c g)
unfolding connect_walked
walked-IsMirrored passed p c g m = connect-IsMirrored p c g m
walked-IsMirrored looped p c g m = m
walked-IsMirrored stuck p c g m = tt

checked-IsMirrored :
    (search : Option Bool) (p c : ℕ) (g : Graph)
    → IsMirrored g
    → After IsMirrored (connect_checked search p c g)
unfolding connect_checked
checked-IsMirrored none p c g m = tt
checked-IsMirrored (some true) p c g m = m
checked-IsMirrored (some false) p c g m = connect-IsMirrored p c g m

new_domain-IsMirrored :
    (fuel : ℕ) (mem : Memory) (p c : ℕ) (g : Graph)
    → (g.domain p == 0) ≡ true
    → (g.domain c == 0) ≡ true
    → IsMirrored g
    → After IsMirrored (join_domains fuel mem p c g)
unfolding join_domains
new_domain-IsMirrored fuel mem p c g dp dc m = elim (Bool-cases mem.domain_block) [
  | inr no_block ↦ rw (dp, dc, no_block) m
  | inl block ↦ elim (Bool-cases mem.reachable_list) [
    | inl l ↦
        let fresh = new_domain p c g in
        rw (dp, dc, block, l)
          (connect-IsMirrored p c fresh
            (with_domains g fresh.domain fresh.domains fresh.next_domain m))
    | inr l ↦ rw (dp, dc, block, l) (with_domains g g.domain g.domains (u32 (g.next_domain + 1)) m)
  ]
]

join_domains-IsMirrored :
    (fuel : ℕ) (mem : Memory) (p c : ℕ) (g : Graph)
    → IsMirrored g
    → After IsMirrored (join_domains fuel mem p c g)
unfolding join_domains
join_domains-IsMirrored fuel mem p c g m = elim (Bool-cases (g.domain p == 0)) [
  | inl dp ↦ elim (Bool-cases (g.domain c == 0)) [
    | inl dc ↦ new_domain-IsMirrored fuel mem p c g dp dc m
    | inr dc ↦
        let domain' = update g.domain p (g.domain c) in
        rw (dp, dc)
          (connect-IsMirrored p c (record g { domain = domain' })
            (with_domains g domain' g.domains g.next_domain m))
  ]
  | inr dp ↦ elim (Bool-cases (g.domain c == 0)) [
    | inl dc ↦
        let domain' = update g.domain c (g.domain p) in
        rw (dp, dc)
          (connect-IsMirrored p c (record g { domain = domain' })
            (with_domains g domain' g.domains g.next_domain m))
    | inr dc ↦ elim (Bool-cases (g.domain c == g.domain p)) [
      | inl same ↦ rw (dp, dc, same) (checked-IsMirrored _ p c g m)
      | inr other ↦
          let search = is_obj_in_tree fuel g.child_depend p c in
          let walked = walk_domains search (g.domain p) (g.domain c) g.domains in
          rw (dp, dc, other)
            (walked-IsMirrored walked.1 p c (record g { domains = walked.0 })
              (with_domains g g.domain walked.0 g.next_domain m))
    ]
  ]
]

-- Whatever its outcome, memory and depth, myrefl_depend_create keeps the children's and the parents'
-- lists the mirror of one another, each without repetitions.
pub depend_create-IsMirrored :
    (fuel : ℕ) (mem : Memory) (p c : Option ℕ) (g : Graph)
    → IsMirrored g
    → After IsMirrored (depend_create fuel mem p c g)
unfolding depend_create
depend_create-IsMirrored fuel mem none c g m = tt
depend_create-IsMirrored fuel mem (some p) none g m = elim (Bool-cases (depends (g.kind p))) [
  | inl good ↦ rw good tt
  | inr bad ↦ rw bad m
]
depend_create-IsMirrored fuel mem (some p) (some c) g m =
    elim (Bool-cases (depends (g.kind p) && depends (g.kind c))) [
      | inr bad ↦ rw bad m
      | inl good ↦
          elim (Bool-cases ((p == c) || (has c (g.child_depend p) || has p (g.parent_depend c)))) [
            | inl old ↦ rw (good, old) m
            | inr new ↦ rw (good, new) (join_domains-IsMirrored fuel mem p c g m)
          ]
    ]
