-- ===== src/Api/Containment/Walk.antt =====
-- What the walk over the contents of a component meets (`myrefl_comp_get_first_contained` and
-- `myrefl_comp_get_next_contained` of src/myrefl_obj.c for OBJ_TYPE_ANY).
use myreflection.Common.{
  ℕ, suc, ◌≡◌, refl, sym, ◌≢◌, ◌∙◌, ap, true, not, ◌||◌, Option, none, some, List, [], ◌==◌, ==_iff,
  Bool-cases, Option-cases, inl, inr,
}
use myreflection.Types.{ObjType, any, test, rule, action, comp}
use myreflection.Api.Containment.{
  Containment, Place, at, finished, place_or, climb_from, comp_get_next_contained, first_found,
  first_any, next_any_contained, comp_get_next_type_contained, comp_get_first_contained,
  comp_get_next_any, next_any_from, or_system,
}
use myreflection.Api.Containment.Listed.{
  Forest, empty, component, is_empty, Contents, members, listing, HasContents, Laid, Visits,
  next_any, moved, members-Visits,
}

module _ (t : Containment) where
  climb-past :
      (top c d : ℕ) → c ≢ top → t.next_in_comp c ≡ some d → climb_from t top (some c) ≡ at d
  unfolding climb_from
  climb-past top c d ne e = elim (Bool-cases (c == top)) [
    | inl same ↦ absurd (ne ((==_iff c top).0 same))
    | inr other ↦ rw other (rw e refl)
  ]

  next-kids : (top c k : ℕ) → t.head c comp ≡ some k → comp_get_next_contained t top c ≡ at k
  unfolding comp_get_next_contained
  next-kids top c k e = rw e refl

  next-peers :
      (top c p : ℕ)
      → c ≢ top
      → t.parent_comp c ≡ some p
      → t.head c comp ≡ none
      → comp_get_next_contained t top c ≡ place_or (climb_from t top (some p)) (t.next_in_comp c)
  unfolding comp_get_next_contained
  next-peers top c p ne parent e = elim (Bool-cases (top == c)) [
    | inl same ↦ absurd (ne (sym ((==_iff top c).0 same)))
    | inr other ↦ rw e (rw other (rw parent refl))
  ]

  -- After the objects of a component, the components in it.
  inside-Visits :
      (s : Contents) (top p c : ℕ) (kids peers : Forest) (rest : List ℕ)
      → c ≢ top
      → t.parent_comp c ≡ some p
      → is_empty kids || not (is_empty peers) ≡ true
      → Laid t s top c (t.head c comp) kids
      → Laid t s top p (t.next_in_comp c) peers
      → (Visits t top (climb_from t top (some c)) rest
          → Visits t top
              (place_or (climb_from t top (some c)) (t.head c comp))
              (listing s kids rest))
      → Visits t top (place_or (climb_from t top (some p)) (t.next_in_comp c)) rest
      → Visits t top (comp_get_next_contained t top c) (listing s kids rest)
  unfolding Laid listing
  inside-Visits s top p c empty peers rest ne parent peer under behind kids_visited v =
      moved t top rest (sym (next-peers top c p ne parent under)) v
  inside-Visits s top p c (component k kids more) empty rest ne parent peer under behind
        kids_visited v =
      absurd (cc)
  inside-Visits s top p c (component k kids more) (component d _ _) rest ne parent peer under behind
        kids_visited v =
      let past = climb-past top c d ne behind.0 in
      let listed = kids_visited (moved t top rest (ap (place_or _) behind.0 ∙ sym past) v) in
      moved t top _ (ap (place_or _) under.0 ∙ sym (next-kids top c k under.0)) listed

  forest-Visits :
      (s : Contents) (top p : ℕ) (h : Option ℕ) (f : Forest) (rest : List ℕ)
      → Laid t s top p h f
      → Visits t top (climb_from t top (some p)) rest
      → Visits t top (place_or (climb_from t top (some p)) h) (listing s f rest)
  unfolding Laid listing Visits next_any_from
  forest-Visits s top p h empty rest e v = rw e v
  forest-Visits s top p h (component c kids peers) rest
        (e, is, parent, ne, peer, has, under, behind) v =
      let later = forest-Visits s top p (t.next_in_comp c) peers rest behind v in
      let inside =
        inside-Visits s top p c kids peers (listing s peers rest) ne parent peer under behind
          (forest-Visits s top c (t.head c comp) kids (listing s peers rest) under) later in
      rw e (
        refl,
        (
          next_any_from t top c p,
          (λ fuel. next_any t fuel top c p parent),
          rw is (members-Visits t s top c _ has inside),
        ),
      )

  top-first :
      (x : Place) (n e r a h : Option ℕ)
      → place_or (place_or x h) (first_found n (first_found e (first_found r a)))
        ≡ place_or x (first_found n (first_found e (first_found r (first_found a h))))
  top-first x none none none none h = refl
  top-first x none none none (some o) h = refl
  top-first x none none (some o) a h = refl
  top-first x none (some o) r a h = refl
  top-first x (some o) e r a h = refl

  last-none :
      (n e r a h : Option ℕ)
      → first_found n (first_found e (first_found r (first_found a h))) ≡ none
      → h ≡ none
  last-none none none none none h q = q
  last-none none none none (some o) h q = absurd (cc)
  last-none none none (some o) a h q = absurd (cc)
  last-none none (some o) r a h q = absurd (cc)
  last-none (some o) e r a h q = absurd (cc)

  own-next : (c : ℕ) → comp_get_next_contained t c c ≡ place_or finished (t.head c comp)
  unfolding comp_get_next_contained
  own-next c = rw ((==_iff c c).1 refl) refl

  top-place :
      (c : ℕ)
      → place_or (comp_get_next_contained t c c) (comp_get_next_any t comp c)
        ≡ place_or finished (first_any t c)
  unfolding comp_get_next_any first_any
  top-place c =
      ap (λ u. place_or u (comp_get_next_any t comp c)) (own-next c)
      ∙ top-first finished (t.head c ObjType.none) (t.head c test) (t.head c rule) (t.head c action)
          (t.head c comp)

  first-place :
      (n c : ℕ) → next_any_contained (suc (suc n)) t c (at c) ≡ place_or finished (first_any t c)
  unfolding next_any_contained first_any
  first-place n c = elim (Option-cases (first_any t c)) [
    | inl nothing ↦
        let alone =
          own-next c
          ∙ ap (place_or finished) (
              last-none (t.head c ObjType.none) (t.head c test) (t.head c rule) (t.head c action)
                (t.head c comp) nothing) in
        rw nothing (ap (next_any_contained (suc n) t c) alone)
    | inr (o, e) ↦ rw e refl
  ]

-- Let the lists of a component and of the components in it be laid out as a forest, with the types and
-- parents of what is in them and without the component itself, where a component that is contained and
-- contains components has a peer that follows it. Then
-- myrefl_comp_get_first_contained for OBJ_TYPE_ANY returns, with its bound on rounds, and from there
-- the calls of myrefl_comp_get_next_contained meet exactly the objects of the component, and then,
-- for each component of the forest, parents before their contents, the component itself and its
-- objects by their types. They then return NULL, and never read through a NULL pointer.
pub contained-Visits :
    (t : Containment) (s : Contents) (c : ℕ) (f : Forest) (fuel : ℕ)
    → HasContents t s c
    → Laid t s c c (t.head c comp) f
    → (w : Place) × (comp_get_first_contained fuel t (some c) any ≡ some w)
      × Visits t c w (members s c (listing s f []))
unfolding comp_get_first_contained comp_get_next_type_contained or_system climb_from Visits
    first_any comp_get_next_any
contained-Visits t s c f fuel has laid =
    let up : climb_from t c (some c) ≡ finished = rw ((==_iff c c).1 refl) refl in
    let inside = forest-Visits t s c c (t.head c comp) f [] laid up in
    let next = own-next t c ∙ ap (λ u. place_or u (t.head c comp)) (sym up) in
    let all =
      members-Visits t s c c (listing s f []) has (moved t c (listing s f []) (sym next) inside) in
    (
      place_or finished (first_any t c),
      ap some (first-place t 254 c),
      moved t c (members s c (listing s f [])) (top-place t c) all,
    )
