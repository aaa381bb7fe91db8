-- ===== src/Tests/Graphs.antt =====
-- Dependency graphs made by `myrefl_depend_create` of src/myrefl_rci.c.
use myreflection.Common.{
  update, ℕ, ◌≡◌, refl, ◌⊎◌, inl, true, false, none, some, [], ◌∷◌, arith, ◌==◌, if◌then◌else◌, has,
}
use myreflection.Types.{rule}
use myreflection.Rci.Depend.{
  Graph, any_child, is_obj_in_tree, walk_domains, Outcome, done, leave_boundary, connect,
  connect_checked, connect_walked, Memory, join_domains, depend_create,
}
use myreflection.Rci.Depend.Search.{Reaches, here, down, IsRanked, search_decides}
use myreflection.Rci.Depend.Create.{lists, IsSound, Keeps, depend_create-Keeps}
use myreflection.Rci.Depend.Attached.{depend_create-IsSound}
use myreflection.Rci.Depend.Mirror.{IsMirrored, After, depend_create-IsMirrored}
use myreflection.Rci.Depend.Loop.{depend_create_loop}

abbrev granted : Memory
granted = record { domain_block = true; reachable_list = true }

abbrev empty : Graph
empty = record {
  kind = λ x. rule;
  child_depend = λ x. [];
  parent_depend = λ x. [];
  domain = λ x. 0;
  parent_comp = λ x. none;
  comp_valid = λ x. false;
  top_depend = λ x. [];
  bottom_depend = λ x. [];
  domains = [];
  next_domain = 1;
}

-- One dependency, of 1 on 2.
abbrev one_edge : Graph
one_edge = record empty {
  child_depend = update (λ x. []) 1 (2 ∷ []);
  parent_depend = update (λ x. []) 2 (1 ∷ []);
  domain = λ x. 1;
  domains = record { number = 1; reachable = [] } ∷ [];
  next_domain = 2;
}

abbrev height : ℕ → ℕ
height n = if n == 1 then 1 else 0

one_edge-IsRanked : IsRanked one_edge.child_depend height
unfolding has
one_edge-IsRanked = λ a b h. ground arith

one_edge-IsSound : IsSound one_edge height
one_edge-IsSound = record {
  ranked = one_edge-IsRanked;
  placed = λ a b h. (λ e. omega (arith, e), λ e. omega (arith, e));
  covered = λ a b r apart. absurd (apart refl);
}

search_decides_example :
    ((is_obj_in_tree 2 one_edge.child_depend 2 1 ≡ some true) × Reaches one_edge.child_depend 1 2)
    ⊎ ((is_obj_in_tree 2 one_edge.child_depend 2 1 ≡ some false)
        × (¬ Reaches one_edge.child_depend 1 2))
search_decides_example =
    search_decides one_edge.child_depend height 2 2 1 one_edge-IsRanked (omega arith)

depend_create-Keeps_example :
    Keeps granted 2 1 one_edge (depend_create 2 granted (some 2) (some 1) one_edge)
depend_create-Keeps_example =
    depend_create-Keeps one_edge height 2 1 2 granted one_edge-IsSound (omega arith)

empty-IsSound : IsSound empty (λ x. 0)
unfolding has
empty-IsSound = record {
  ranked = λ a b m. cc m;
  placed = λ a b m. cc m;
  covered = λ a b r apart. absurd (apart refl);
}

-- The first dependency, of 1 on 2.
depend_create-IsSound_example :
    (g' : Graph) × (rank' : ℕ → ℕ) × (depend_create 0 granted (some 1) (some 2) empty ≡ done g')
    × IsSound g' rank'
depend_create-IsSound_example =
    depend_create-IsSound empty (λ x. 0) 1 2 0 granted empty-IsSound (inl refl)
      (λ e. absurd (omega (arith, e)))

one_edge-IsMirrored : IsMirrored one_edge
unfolding has
one_edge-IsMirrored = record {
  mirrored = λ a b. ground arith;
  children_once = λ a. ground arith;
  parents_once = λ a. ground arith;
}

depend_create-IsMirrored_example :
    After IsMirrored (depend_create 2 granted (some 2) (some 3) one_edge)
depend_create-IsMirrored_example =
    depend_create-IsMirrored 2 granted (some 2) (some 3) one_edge one_edge-IsMirrored

-- The graph that a call leaves.
abbrev graph_of : Outcome → Graph
graph_of (done g) = g
graph_of _ = empty

abbrev depend : ℕ → ℕ → Graph → Graph
depend p c g = graph_of (depend_create 9 granted (some p) (some c) g)

-- Three domains, of which the first comes to reach the second after that reaches the third.
abbrev chained : Graph
chained = depend 1 3 (depend 3 5 (depend 5 6 (depend 3 4 (depend 1 2 empty))))

depend_create_loop_example :
    (g' : Graph) × (depend_create 9 granted (some 5) (some 1) chained ≡ done g')
    × (has 1 (g'.child_depend 5) ≡ true)
    × Reaches g'.child_depend 1 5
unfolding depend_create join_domains connect leave_boundary connect_checked connect_walked
    walk_domains is_obj_in_tree any_child has lists
depend_create_loop_example =
    depend_create_loop chained 5 1 9 granted refl refl (omega arith) (omega arith) (omega arith)
      refl (down {a = 1} {b = 3} {c = 5} refl (down {a = 3} {b = 5} {c = 5} refl here))
