-- ===== src/Api/Linking/Search.antt =====
-- `rule_input_search` (src/myrefl_api.c) against reachability along the inputs.
use myreflection.Common.{
  ℕ, zero, suc, ◌≡◌, refl, ◌≢◌, ◌↔◌, ◌⊎◌, inl, inr, Bool, true, false, List, [], ◌∷◌, arith, ◌==◌,
  has, Bool-cases, subst,
}
use myreflection.Rci.Depend.Search.{Reaches, here, down, Reaches-cases}
use myreflection.Api.Linking.{any_input, rule_input_search}

-- The target is an input, or stands behind one.
abbrev pub Below : (ℕ → List ℕ) → (target obj : ℕ) → Type 0
Below inputs t o = (b : ℕ) × (has b (inputs o) ≡ true) × Reaches inputs b t

-- A chain of so many inputs starts at the object.
pub data Deep (inputs : ℕ → List ℕ) : ℕ → ℕ → Type 0 where
  enough : {o : ℕ} → Deep inputs 0 o
  deeper : {k o b : ℕ} → has b (inputs o) ≡ true → Deep inputs k b → Deep inputs (suc k) o

any_input-true :
    (search : ℕ → Bool) (t : ℕ) (is : List ℕ)
    → any_input search t is ≡ true
    → (b : ℕ) × (has b is ≡ true) × ((b ≡ t) ⊎ (search b ≡ true))
unfolding any_input has
any_input-true search t [] h = cc
any_input-true search t (i ∷ is) h = elim (Bool-cases (i == t)) [
  | inl hit ↦ (i, ground arith, inl (ground (arith, hit)))
  | inr miss ↦ elim (Bool-cases (search i)) [
    | inl found ↦ (i, ground arith, inr found)
    | inr not_found ↦
        let (b, m, how) = any_input-true search t is (ground (arith, miss, not_found)) in
        (b, ground arith, how)
  ]
]

any_input-hit :
    (search : ℕ → Bool) (t b : ℕ) (is : List ℕ)
    → has b is ≡ true
    → (b ≡ t) ⊎ (search b ≡ true)
    → any_input search t is ≡ true
unfolding any_input has
any_input-hit search t b [] m how = cc
any_input-hit search t b (i ∷ is) m how = ground (arith, any_input-hit search t b is)

module _ (inputs : ℕ → List ℕ) (t : ℕ) where
  search-true :
      (k o : ℕ) → rule_input_search k inputs t o ≡ true → Below inputs t o ⊎ Deep inputs k o
  unfolding rule_input_search
  search-true zero o h = inr enough
  search-true (suc k) o h =
      let (b, m, how) = any_input-true _ t (inputs o) h in
      elim how [
        | inl e ↦ inl (b, m, subst (Reaches inputs b) e here)
        | inr found ↦ elim (search-true k b found) [
          | inl (c, n, path) ↦ inl (b, m, down n path)
          | inr deep ↦ inr (deeper m deep)
        ]
      ]

  search-Deep : {k o : ℕ} → Deep inputs k o → rule_input_search k inputs t o ≡ true
  unfolding rule_input_search
  search-Deep enough = refl
  search-Deep {o = o} (deeper {b = b} m d) = any_input-hit _ t b (inputs o) m (inr (search-Deep d))

  search-Below :
      (k o : ℕ) {b : ℕ}
      → has b (inputs o) ≡ true
      → Reaches inputs b t
      → rule_input_search k inputs t o ≡ true
  unfolding rule_input_search
  search-Below zero o m r = refl
  search-Below (suc k) o {b} m here = any_input-hit _ t b (inputs o) m (inl refl)
  search-Below (suc k) o {b} m (down n r) =
      any_input-hit _ t b (inputs o) m (inr (search-Below k b n r))

  -- The search returns true exactly when the target is found among the inputs, their inputs and so
  -- on, or when a chain of inputs as long as the depth that is left starts at its object.
  pub rule_input_search_decides :
      (k o : ℕ) → (rule_input_search k inputs t o ≡ true) ↔ (Below inputs t o ⊎ Deep inputs k o)
  rule_input_search_decides k o = (
    search-true k o,
    λ where_found. elim where_found [
      | inl (b, m, r) ↦ search-Below k o m r
      | inr deep ↦ search-Deep deep
    ],
  )

  -- A search without success from another object has excluded every path to the target.
  pub search-excludes :
      (k o : ℕ) → rule_input_search k inputs t o ≡ false → o ≢ t → ¬ Reaches inputs o t
  search-excludes k o h ne r = elim (Reaches-cases r) [
    | inl e ↦ ne e
    | inr (b, m, below) ↦ absurd (let found = search-Below k o m below in cc)
  ]
