-- ===== src/Tests/Contained.antt =====
-- Component 1 has test 2 and the components 3 and 6; component 3 has rule 4 and component 5.
use myreflection.Common.{
  ℕ, ◌<◌, ◌≡◌, refl, sym, subst, true, Option, none, some, List, [], ◌∷◌, ◌==◌, if◌then◌else◌, has,
  arith, length,
}
use myreflection.Common.Int.{pos}
use myreflection.Types.{ObjType, any, test, rule, action, comp, created, enabled, initialized}
use myreflection.Sequence.Rule.{on_fail}
use myreflection.Api.Operands.{settings}
use myreflection.Api.States.{Call, instances}
use myreflection.Api.Chaining.{Store}
use myreflection.Api.Containment.{
  Containment, Place, at, null_read, climb_from, comp_get_next_contained, comp_get_first_contained,
}
use myreflection.Api.Containment.Listed.{
  Forest, empty, component, Contents, members, listing, HasContents, Listed, Laid, Visits,
}
use myreflection.Api.Containment.Walk.{contained-Visits}
use myreflection.Api.Components.{
  enable_request, disable_request, comp_enable_guts, comp_disable_guts,
}
use myreflection.Api.Components.Contained.{ParentsFirst}
use myreflection.Api.Components.Halted.{Halted, Below}
use myreflection.Api.Components.Settled.{contained, Settled, comp_guts-Settled, comp_disable-halts}

abbrev tree : Containment
tree = record {
  kind = λ o. if o == 2 then test else if o == 4 then rule else comp;
  head = λ c k. heads c k;
  next_in_comp = λ o. if o == 3 then some 6 else none;
  parent_comp =
      λ o. if o == 1 then none else if o == 4 then some 3 else if o == 5 then some 3 else some 1;
  system_comp = 1;
}
  where
    heads : ℕ → ObjType → Option ℕ
    heads c ObjType.test = if c == 1 then some 2 else none
    heads c ObjType.rule = if c == 3 then some 4 else none
    heads c ObjType.comp = if c == 1 then some 3 else if c == 3 then some 5 else none
    heads c _ = none

abbrev items : Contents
items c ObjType.test = if c == 1 then 2 ∷ [] else []
items c ObjType.rule = if c == 3 then 4 ∷ [] else []
items c _ = []

abbrev inside : Forest
inside = component 3 (component 5 empty empty) (component 6 empty empty)

tree-HasContents : (c : ℕ) → c ≡ 1 → HasContents tree items c
unfolding Listed
tree-HasContents c e =
    subst (λ k. HasContents tree items k) (sym e)
      record { nones = refl; tests = (refl, refl, refl, refl); rules = refl; actions = refl }

barren :
    (c : ℕ)
    → (tree.head c ObjType.none ≡ none)
    → (tree.head c test ≡ none)
    → (tree.head c rule ≡ none)
    → (tree.head c action ≡ none)
    → (items c test ≡ [])
    → (items c rule ≡ [])
    → HasContents tree items c
unfolding Listed
barren c n e r a no_tests no_rules = record {
  nones = refl;
  tests = rw no_tests e;
  rules = rw no_rules r;
  actions = a;
}

tree-Laid : Laid tree items 1 1 (tree.head 1 comp) inside
unfolding Laid Listed
tree-Laid = (
  refl,
  refl,
  refl,
  (λ e. absurd (omega (arith, e))),
  refl,
  record { nones = refl; tests = refl; rules = (refl, refl, refl, refl); actions = refl },
  (
    refl,
    refl,
    refl,
    (λ e. absurd (omega (arith, e))),
    refl,
    barren 5 refl refl refl refl refl refl,
    refl,
    refl,
  ),
  (
    refl,
    refl,
    refl,
    (λ e. absurd (omega (arith, e))),
    refl,
    barren 6 refl refl refl refl refl refl,
    refl,
    refl,
  ),
)

contained_here : contained items 1 inside ≡ 2 ∷ 3 ∷ 4 ∷ 5 ∷ 6 ∷ []
unfolding members listing
contained_here = refl

contained-Visits_example :
    (w : Place) × (comp_get_first_contained 0 tree (some 1) any ≡ some w)
    × Visits tree 1 w (contained items 1 inside)
contained-Visits_example =
    contained-Visits tree items 1 inside 0 (tree-HasContents 1 refl) tree-Laid

abbrev all_created : Store
all_created o = record {
  is_polled = o == 2;
  base = record {
    ident = o;
    name = o;
    state = created;
    default_state = enabled;
    cli_state = initialized;
  };
  members = [];
  period = 5;
  default_period = 5;
  rule_settings = settings on_fail (pos 0) (pos 0);
}

tree-ParentsFirst : ParentsFirst tree (contained items 1 inside)
unfolding ParentsFirst members listing has
tree-ParentsFirst = (
  refl,
  (λ p e. ground (arith, e)),
  (
    refl,
    (λ p e. ground (arith, e)),
    (
      refl,
      (λ p e. ground (arith, e)),
      (refl, (λ p e. ground (arith, e)), (refl, (λ p e. ground (arith, e)), tt)),
    ),
  ),
)

tree-Below : Below tree (1 ∷ []) (contained items 1 inside)
unfolding Below members listing has
tree-Below = (
  (λ p e. (ground (arith, e), ground (arith, e))),
  (
    (λ p e. (ground (arith, e), ground (arith, e))),
    (
      (λ p e. (ground (arith, e), ground (arith, e))),
      (
        (λ p e. (ground (arith, e), ground (arith, e))),
        ((λ p e. (ground (arith, e), ground (arith, e))), tt),
      ),
    ),
  ),
)

-- There are five objects.
enough : length (contained items 1 inside) < 6
unfolding members listing
enough = omega arith

comp_guts-Settled_example :
    ((st' : Store) × (calls : List Call) × (comp_enable_guts 6 true tree (some 1) all_created
        ≡ some (st', calls))
      × Settled (enable_request true) tree 1 (contained items 1 inside) all_created st')
    × ((st' : Store) × (calls : List Call) × (comp_disable_guts 6 true tree (some 1) all_created
          ≡ some (st', calls))
        × Settled (disable_request true) tree 1 (contained items 1 inside) all_created st')
unfolding has members listing
comp_guts-Settled_example =
    comp_guts-Settled tree items 1 inside 6 true all_created (tree-HasContents 1 refl) tree-Laid
      tree-ParentsFirst refl enough refl

comp_disable-halts_example :
    (st' : Store) × (calls : List Call) × (comp_disable_guts 6 true tree (some 1) all_created
      ≡ some (st', calls))
    × ((x : ℕ) → has x (contained items 1 inside) ≡ true → Halted (instances (st' x)))
unfolding has members listing
comp_disable-halts_example =
    comp_disable-halts tree items 1 inside 6 all_created (tree-HasContents 1 refl) tree-Laid
      tree-ParentsFirst tree-Below refl (λ o m k. refl) enough refl

-- The tree that the comment of comp_get_next_contained shows: after component 6, the last one, its
-- parent's peer is read, which does not exist.
abbrev shown : Containment
shown = record {
  kind = λ o. comp;
  head =
      λ c k. if c == 1 then some 2 else if c == 2 then some 3 else if c == 5 then some 6 else none;
  next_in_comp = λ o. if o == 2 then some 5 else if o == 3 then some 4 else none;
  parent_comp = λ o.
      if o == 1
      then none
      else if o == 2
      then some 1
      else if o == 5
      then some 1
      else if o == 6
      then some 5
      else some 2;
  system_comp = 1;
}

shown-null_read :
    (comp_get_next_contained shown 1 5 ≡ at 6) × (comp_get_next_contained shown 1 6 ≡ null_read)
unfolding comp_get_next_contained climb_from
shown-null_read = (refl, refl)
