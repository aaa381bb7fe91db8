-- ===== src/Rci/Depend/Search.antt =====
-- The search `is_obj_in_tree` against reachability in the dependency graph.
use myreflection.Common.{
  ℕ, zero, suc, ◌<◌, ◌≡◌, refl, ◌⊎◌, inl, inr, Bool, ◌||◌, true, false, Option, some, List, [], ◌∷◌,
  arith, ◌==◌, has, Bool-cases, Option-cases, ==_iff, subst,
}
use myreflection.Rci.Depend.{any_child, is_obj_in_tree}

-- There is a path of dependencies from one object down to another.
pub data Reaches (children : ℕ → List ℕ) : ℕ → ℕ → Type 0 where
  here : {a : ℕ} → Reaches children a a
  down : {a b c : ℕ} → has b (children a) ≡ true → Reaches children b c → Reaches children a c

pub Reaches-cases :
    {children : ℕ → List ℕ} {a c : ℕ}
    → Reaches children a c
    → (a ≡ c) ⊎ ((b : ℕ) × (has b (children a) ≡ true) × Reaches children b c)
Reaches-cases here = inl refl
Reaches-cases (down m r) = inr (_, m, r)

pub Reaches-trans :
    {children : ℕ → List ℕ} {a b c : ℕ}
    → Reaches children a b
    → Reaches children b c
    → Reaches children a c
Reaches-trans here s = s
Reaches-trans (down m r) s = down m (Reaches-trans r s)

-- Every dependency leads to an object of lower rank: there is no cycle.
abbrev pub IsRanked : (ℕ → List ℕ) → (ℕ → ℕ) → Type 0
IsRanked children rank = (a b : ℕ) → has b (children a) ≡ true → rank b < rank a

any_child-true :
    (search : ℕ → Option Bool) (cs : List ℕ)
    → any_child search cs ≡ some true
    → (c : ℕ) × (has c cs ≡ true) × (search c ≡ some true)
unfolding any_child has
any_child-true search [] h = cc
any_child-true search (c ∷ cs) h = elim (Option-cases (search c)) [
  | inl e ↦ absurd (ground (arith, e))
  | inr (true, e) ↦ (c, ground arith, e)
  | inr (false, e) ↦
      let (b, m, found) = any_child-true search cs (ground (arith, e)) in (b, ground arith, found)
]

any_child-false :
    (search : ℕ → Option Bool) (cs : List ℕ) (c : ℕ)
    → any_child search cs ≡ some false
    → has c cs ≡ true
    → search c ≡ some false
unfolding any_child has
any_child-false search [] c h m = cc
any_child-false search (x ∷ cs) c h m = ground (arith, any_child-false search cs c)

any_child_total :
    (search : ℕ → Option Bool) (cs : List ℕ)
    → ((c : ℕ) → has c cs ≡ true → (b : Bool) × (search c ≡ some b))
    → (b : Bool) × (any_child search cs ≡ some b)
unfolding any_child has
any_child_total search [] all = (false, refl)
any_child_total search (c ∷ cs) all =
    let (found, e) = all c (ground arith) in
    let (later, rest) = any_child_total search cs (λ x m. all x (ground arith)) in
    (found || later, ground (arith, e, rest))

module _ (children : ℕ → List ℕ) (target : ℕ) where
  -- A search that finds its target has walked a path to it.
  pub search-true :
      (fuel tree : ℕ)
      → is_obj_in_tree fuel children target tree ≡ some true
      → Reaches children tree target
  unfolding is_obj_in_tree
  search-true zero tree h = cc
  search-true (suc fuel) tree h = elim (Bool-cases (tree == target)) [
    | inl same ↦ subst (Reaches children tree) ((==_iff tree target).0 same) here
    | inr other ↦
        let (c, m, found) = any_child-true _ (children tree) (rw other at h) in
        down m (search-true fuel c found)
  ]

  -- A search that returns without finding its target has excluded every path to it.
  pub search-false :
      (fuel : ℕ) {tree : ℕ}
      → is_obj_in_tree fuel children target tree ≡ some false
      → ¬ Reaches children tree target
  unfolding is_obj_in_tree
  search-false zero h r = cc
  search-false (suc fuel) {tree} h r = elim (Bool-cases (tree == target)) [
    | inl same ↦ absurd (ground (arith, same))
    | inr other ↦ elim (Reaches-cases r) [
      | inl e ↦ absurd (ground (arith, other))
      | inr (c, m, below) ↦
          search-false fuel (any_child-false _ (children tree) c (rw other at h) m) below
    ]
  ]

  -- A search deep enough for the rank of its start returns.
  pub search_total :
      (rank : ℕ → ℕ)
      → IsRanked children rank
      → (fuel tree : ℕ) → rank tree < fuel
      → (b : Bool) × (is_obj_in_tree fuel children target tree ≡ some b)
  unfolding is_obj_in_tree
  search_total rank ranked zero tree h = absurd (omega arith)
  search_total rank ranked (suc fuel) tree h = elim (Bool-cases (tree == target)) [
    | inl same ↦ (true, rw same)
    | inr other ↦ rw other (
        any_child_total _ (children tree)
          λ c m. search_total rank ranked fuel c (omega (arith, ranked tree c m)))
  ]

decided :
    (children : ℕ → List ℕ) (fuel target tree : ℕ) (b : Bool)
    → is_obj_in_tree fuel children target tree ≡ some b
    → ((is_obj_in_tree fuel children target tree ≡ some true) × Reaches children tree target)
      ⊎ ((is_obj_in_tree fuel children target tree ≡ some false) × (¬ Reaches children tree target))
decided children fuel target tree true e = inl (e, search-true children target fuel tree e)
decided children fuel target tree false e = inr (e, search-false children target fuel e)

-- On a graph without cycles, and given depth enough for the rank of its start, the search returns,
-- and it returns true exactly when a path of dependencies leads from its start to its target.
pub search_decides :
    (children : ℕ → List ℕ) (rank : ℕ → ℕ) (fuel target tree : ℕ)
    → IsRanked children rank
    → rank tree < fuel
    → ((is_obj_in_tree fuel children target tree ≡ some true) × Reaches children tree target)
      ⊎ ((is_obj_in_tree fuel children target tree ≡ some false) × (¬ Reaches children tree target))
search_decides children rank fuel target tree ranked h =
    let (b, e) = search_total children target rank ranked fuel tree h in
    decided children fuel target tree b e
