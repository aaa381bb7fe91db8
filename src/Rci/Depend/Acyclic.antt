-- ===== src/Rci/Depend/Acyclic.antt =====
-- A new dependency in a graph without cycles.
use myreflection.Common.{
  update, ℕ, suc, ◌+◌, ◌≤◌, ◌≡◌, ◌⊎◌, inl, inr, Bool, true, Option, some, List, arith, has,
}
use myreflection.Rci.Depend.{list_add, is_obj_in_tree}
use myreflection.Rci.Depend.Search.{Reaches, here, down, IsRanked, search_decides}

-- The children after `p` got the child `c`.
abbrev pub with_edge : (ℕ → List ℕ) → ℕ → ℕ → ℕ → List ℕ
with_edge children p c = update children p (list_add c (children p))

pub has-with_edge :
    (children : ℕ → List ℕ) (p c a b : ℕ)
    → has b (with_edge children p c a) ≡ true
    → (has b (children a) ≡ true) ⊎ ((a ≡ p) × (b ≡ c))
unfolding has
has-with_edge children p c a b h = ground arith

-- What reaches `p` is lifted above everything that `c` reaches.
lift : Option Bool → ℕ → ℕ → ℕ
lift (some true) k n = n + suc k
lift _ k n = n

module _ (children : ℕ → List ℕ) (rank : ℕ → ℕ) (ranked : IsRanked children rank) (p c : ℕ)
    (no_path : ¬ Reaches children c p) where
  pub new_rank : ℕ → ℕ
  unfolding lift
  new_rank x = lift (is_obj_in_tree (suc (rank x)) children p x) (rank c) (rank x)

  new_rank_cases :
      (x : ℕ)
      → ((new_rank x ≡ rank x + suc (rank c)) × Reaches children x p)
        ⊎ ((new_rank x ≡ rank x) × (¬ Reaches children x p))
  unfolding new_rank
  new_rank_cases x = elim (search_decides children rank (suc (rank x)) p x ranked (omega arith)) [
    | inl (e, r) ↦ inl (rw e, r)
    | inr (e, n) ↦ inr (rw e, n)
  ]

  pub new_rank-le : (x : ℕ) → new_rank x ≤ rank x + suc (rank c)
  new_rank-le x = elim (new_rank_cases x) [
    | inl (e, r) ↦ omega (arith, e)
    | inr (e, n) ↦ omega (arith, e)
  ]

  -- A dependency without a path back leaves the graph without cycles.
  pub IsRanked-with_edge : IsRanked (with_edge children p c) new_rank
  IsRanked-with_edge a b h = elim (has-with_edge children p c a b h) [
    | inl old ↦ elim (new_rank_cases a) [
      | inl (ea, ra) ↦ elim (new_rank_cases b) [
        | inl (eb, rb) ↦ omega (arith, ranked a b old)
        | inr (eb, nb) ↦ omega (arith, ranked a b old)
      ]
      | inr (ea, na) ↦ elim (new_rank_cases b) [
        | inl (eb, rb) ↦ absurd (na (down old rb))
        | inr (eb, nb) ↦ omega (arith, ranked a b old)
      ]
    ]
    | inr (e, f) ↦
        let low : new_rank c ≡ rank c = elim (new_rank_cases c) [
          | inl (ec, rc) ↦ absurd (no_path rc)
          | inr (ec, nc) ↦ ec
        ] in
        let high : new_rank p ≡ rank p + suc (rank c) = elim (new_rank_cases p) [
          | inl (ep, rp) ↦ ep
          | inr (ep, np) ↦ absurd (np here)
        ] in
        rw (e, f) (omega (arith, low, high))
  ]
