-- ===== src/Tests/Causes.antt =====
-- Root cause identification where rule 1 depends on component 4, in which rule 2 lies.
use myreflection.Common.{
  ℕ, ◌≡◌, refl, ◌⊎◌, true, false, Bool, not, ◌&&◌, none, some, List, [], ◌∷◌, arith, has,
  if◌then◌else◌, ◌==◌, ◌>>=◌,
}
use myreflection.Types.{Result, fail, is_fail, enabled, rule, comp, is_enabled}
use myreflection.Rci.Depend.{Graph}
use myreflection.Rci.Map.{
  RootCause, root_cause_not, root_cause_candidate, root_cause, Request, found, World, Site, parents,
  children, dependencies, boundary, targets, only_enabled, map_function, map_rules, walk, expand,
  step_out, visit_element, apply_all,
}
use myreflection.Rci.Map.Leads.{IsSite, unvisited, calls}
use myreflection.Rci.Map.Explored.{Enough, Reached, testing, map_rules-tests}
use myreflection.Rci.Run.{
  is_candidate, instance_name, passed, propagate, determine_if_root_cause, determine, settle,
  is_found, apply_change,
}
use myreflection.Rci.Run.Propagated.{OnlyCleared, IsBelowed, propagate-clears}
use myreflection.Rci.Run.Determined.{Determined, determine_if_root_cause-Determined}

abbrev network : Graph
network = record {
  kind = λ o. if o == 4 then comp else rule;
  child_depend = λ o. if o == 1 then 4 ∷ [] else [];
  parent_depend = λ o. if o == 4 then 1 ∷ [] else [];
  domain = λ o. 0;
  parent_comp = λ o. if o == 2 then some 4 else none;
  comp_valid = λ o. true;
  top_depend = λ o. if o == 4 then 2 ∷ [] else [];
  bottom_depend = λ o. if o == 4 then 2 ∷ [] else [];
  domains = [];
  next_domain = 1;
}

-- All rules fail.
abbrev failing : Site
failing = record {
  graph = network;
  valid = λ o. true;
  base = λ o. o;
  members = λ o. [];
  owner = λ i. i;
  name = λ i. i;
  state = λ i. enabled;
  last_result = λ i. fail;
  last_result_count = λ i. 1;
}

-- Rule 1 was the root cause, and rule 2 is a candidate.
abbrev suspected : World
suspected = record {
  root_cause =
      λ i. if i == 1 then root_cause else if i == 2 then root_cause_candidate else root_cause_not;
  requests = [];
}

abbrev depth : ℕ → ℕ
depth o = if o == 2 then 1 else 0

failing-IsSite : IsSite failing (1 ∷ 2 ∷ 4 ∷ []) depth 1
unfolding dependencies has
failing-IsSite = record {
  owned = λ o. refl;
  contained = λ o k e. (ground (arith, e), ground (arith, e));
  typed = λ o m. ground (arith, m);
  lists = λ d o b xs e m. ground (arith, e, m);
  bounded = λ o. ground arith;
}

-- The depth of calls is enough from rule 2.
Enough-at_2 : Enough 8 failing (1 ∷ 2 ∷ 4 ∷ []) depth 1 2
unfolding calls unvisited has
Enough-at_2 = omega arith

Enough-at_1 : Enough 8 failing (1 ∷ 2 ∷ 4 ∷ []) depth 1 1
unfolding calls unvisited has
Enough-at_1 = omega arith

map_rules-tests_example :
    (r : Bool) × (map_rules 8 (testing failing (passed failing) none true) children 1 suspected
      ≡ some (r, suspected))
    × (((r ≡ true)
          × ((k : ℕ) → Reached failing none children 1 k → passed failing k suspected ≡ true))
        ⊎ ((r ≡ not true)
            × ((k : ℕ) × Reached failing none children 1 k
                × (passed failing k suspected ≡ not true))))
unfolding dependencies
map_rules-tests_example =
    map_rules-tests failing (passed failing) none true children 8 1 suspected (1 ∷ 2 ∷ 4 ∷ []) depth
      1 failing-IsSite (4 ∷ [], refl) Enough-at_1

determine_if_root_cause-Determined_example :
    (w' : World) × (determine_if_root_cause 8 failing 2 suspected ≡ some (true, w'))
    × (((is_enabled (failing.state 2)
              && (is_candidate (suspected.root_cause 2) && is_fail (failing.last_result 2))
            ≡ true)
          × Determined failing 2 suspected w')
        ⊎ ((is_enabled (failing.state 2)
                && (is_candidate (suspected.root_cause 2) && is_fail (failing.last_result 2))
              ≡ false)
            × (w' ≡ suspected)))
determine_if_root_cause-Determined_example =
    determine_if_root_cause-Determined failing 8 2 suspected (1 ∷ 2 ∷ 4 ∷ []) depth 1 failing-IsSite
      refl Enough-at_2

propagate-clears_example :
    (w' : World) × (propagate 8 failing 2 Result.fail suspected ≡ some w')
    × OnlyCleared 2 suspected w'
    × ((k : ℕ) → Reached failing (instance_name failing 2) parents 2 k → IsBelowed failing 2 k w')
unfolding dependencies
propagate-clears_example =
    propagate-clears failing 8 2 suspected (1 ∷ 2 ∷ 4 ∷ []) depth 1 failing-IsSite ([], refl)
      Enough-at_2

abbrev causes : Bool × World → RootCause × RootCause × List Request
causes (_, w) = (w.root_cause 1, w.root_cause 2, w.requests)

-- Rule 2 is the root cause, and rule 1, beyond the component, is one no more.
above_is_cleared :
    (determine_if_root_cause 8 failing 2 suspected >>= λ r. some (causes r))
    ≡ some (root_cause_not, root_cause, found 2 ∷ [])
unfolding determine_if_root_cause determine settle is_found propagate map_rules map_function expand
    walk visit_element step_out dependencies boundary targets only_enabled apply_all apply_change
    has
above_is_cleared = refl
