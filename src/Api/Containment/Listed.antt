-- ===== src/Api/Containment/Listed.antt =====
-- The contents of a component as a list of what the walk over it meets (src/myrefl_obj.c).
use myreflection.Common.{
  ℕ, ◌≡◌, refl, sym, ◌≢◌, subst, Bool, true, false, not, ◌||◌, Option, none, some, List, [], ◌∷◌,
  ◌++◌,
}
use myreflection.Types.{ObjType, any, test, rule, action, comp}
use myreflection.Api.Containment.{
  Containment, Place, at, finished, place_or, comp_get_next_contained, first_found,
  comp_get_next_any, is_comp, next_any_from, next_from, get_next_contained, or_system,
}

-- Components with the components that they contain, and with their peers that follow.
pub data Forest : Type 0 where
  empty : Forest
  component : ℕ → (contained peers : Forest) → Forest

abbrev pub is_empty : Forest → Bool
is_empty empty = true
is_empty (component c kids peers) = false

-- The objects of a component by type.
abbrev pub Contents : Type 0
Contents = ℕ → ObjType → List ℕ

-- The objects of a component that are no components, in the order of their types, before others.
unfoldable pub members : Contents → ℕ → (others : List ℕ) → List ℕ
members s c rest = s c ObjType.none ++ (s c test ++ (s c rule ++ (s c action ++ rest)))

-- Each component before its objects, these before the components in it, before others.
unfoldable pub listing : Contents → Forest → (others : List ℕ) → List ℕ
listing s empty rest = rest
listing s (component c kids peers) rest = c ∷ members s c (listing s kids (listing s peers rest))

module _ (t : Containment) where
  -- The pointer leads to the list of these objects, which have this type and this parent.
  unfoldable pub Listed : (component : ℕ) → ObjType → Option ℕ → List ℕ → Type 0
  Listed c k h [] = h ≡ none
  Listed c k h (o ∷ os) =
      (h ≡ some o) × (t.kind o ≡ k) × (t.parent_comp o ≡ some c) × Listed c k (t.next_in_comp o) os

  pub record HasContents (s : Contents) (c : ℕ) : Type 0 where
    pub nones : Listed c ObjType.none (t.head c ObjType.none) (s c ObjType.none)
    pub tests : Listed c test (t.head c test) (s c test)
    pub rules : Listed c rule (t.head c rule) (s c rule)
    pub actions : Listed c action (t.head c action) (s c action)

  -- The pointer leads to the list of these components, each with its contents and this parent, and
  -- none of them the top one. Those of them that contain components have a peer that follows.
  unfoldable pub Laid : Contents → (top parent : ℕ) → Option ℕ → Forest → Type 0
  Laid s top p h empty = h ≡ none
  Laid s top p h (component c kids peers) =
      (h ≡ some c)
      × (t.kind c ≡ comp)
      × (t.parent_comp c ≡ some p)
      × (c ≢ top)
      × (is_empty kids || not (is_empty peers) ≡ true)
      × HasContents s c
      × Laid s top c (t.head c comp) kids
      × Laid s top p (t.next_in_comp c) peers

  -- From this place, the calls of myrefl_comp_get_next_contained meet these objects and end.
  unfoldable pub Visits : (top : ℕ) → Place → List ℕ → Type 0
  Visits top w [] = w ≡ finished
  Visits top w (o ∷ os) =
      (w ≡ at o)
      × ((w' : Place) × ((fuel : ℕ) → get_next_contained fuel t (some top) (some o) any ≡ some w')
          × Visits top w' os)

  pub next_any :
      (fuel top o p : ℕ)
      → t.parent_comp o ≡ some p
      → get_next_contained fuel t (some top) (some o) any ≡ some (next_any_from t top o p)
  unfolding get_next_contained next_from or_system
  next_any fuel top o p e = rw e refl

  list-Visits :
      (top c : ℕ) (k : ObjType) (h : Option ℕ) (os rest : List ℕ)
      → is_comp k ≡ false
      → Listed c k h os
      → Visits top (place_or (comp_get_next_contained t top c) (comp_get_next_any t k c)) rest
      → Visits top
          (place_or (place_or (comp_get_next_contained t top c) (comp_get_next_any t k c)) h)
          (os ++ rest)
  unfolding Listed Visits next_any_from
  list-Visits top c k h [] rest plain e v = rw e v
  list-Visits top c k h (o ∷ os) rest plain (e, is, parent, l) v = rw e (
    refl,
    (
      next_any_from t top o c,
      (λ fuel. next_any fuel top o c parent),
      rw is (rw plain (list-Visits top c k (t.next_in_comp o) os rest plain l v)),
    ),
  )

  later-first :
      (x : Place) (a b : Option ℕ) → place_or x (first_found a b) ≡ place_or (place_or x b) a
  later-first x none b = refl
  later-first x (some o) b = refl

  pub moved : (top : ℕ) (os : List ℕ) {w w' : Place} → w ≡ w' → Visits top w os → Visits top w' os
  moved top os e v = subst (λ w. Visits top w os) e v

  -- After a component, the objects in it.
  pub members-Visits :
      (s : Contents) (top c : ℕ) (rest : List ℕ)
      → HasContents s c
      → Visits top (comp_get_next_contained t top c) rest
      → Visits top
          (place_or (comp_get_next_contained t top c) (comp_get_next_any t comp c))
          (members s c rest)
  unfolding members comp_get_next_any
  members-Visits s top c rest has v =
      let x = comp_get_next_contained t top c in
      let hr = t.head c rule in
      let ha = t.head c action in
      let of_actions = s c action ++ rest in
      let of_rules = s c rule ++ of_actions in
      let of_tests = s c test ++ of_rules in
      let actions : Visits top (place_or x ha) of_actions =
        list-Visits top c action ha (s c action) rest refl has.actions v in
      let rules : Visits top (place_or (place_or x ha) hr) of_rules =
        list-Visits top c rule hr (s c rule) of_actions refl has.rules actions in
      let tests : Visits top (place_or (place_or x (first_found hr ha)) (t.head c test)) of_tests =
        list-Visits top c test (t.head c test) (s c test) of_rules refl has.tests
          (moved top of_rules (sym (later-first x hr ha)) rules) in
      moved top (members s c rest) (sym (later-first x (t.head c ObjType.none) _)) (
        list-Visits top c ObjType.none (t.head c ObjType.none) (s c ObjType.none) of_tests refl
          has.nones
          (moved top of_tests (sym (later-first x (t.head c test) (first_found hr ha))) tests))
