-- ===== src/Sequence/Health/Consistency.antt =====
-- `seq_comp_health` keeps every component's health what its members make it.
use myreflection.Common.{
  ℕ, zero, suc, ◌<◌, ◌≡◌, ◌≢◌, refl, sym, ap, ◌∙◌, Bool, true, false, Option, none, some, List, [],
  ◌∷◌, ◌++◌, arith, inl, inr, ◌==◌, ==_iff, has, update, Bool-cases,
}
use myreflection.Common.Int.{ℤ}
use myreflection.Sequence.Health.{
  Component, less_comps, health_of, refresh, Notice, Outcome, done, preceded, comp_health,
}

-- The component's health is what its members give it.
abbrev pub IsConsistent : (ℕ → Component) → ℕ → Type 0
IsConsistent w k = (w k).health ≡ health_of w (w k)

-- The members of a component have it for their parent, and parents rank below their members.
pub record IsTree (w : ℕ → Component) (rank : ℕ → ℕ) : Type 0 where
  pub member_parent : (a b : ℕ) → has b (w a).comps ≡ true → (w b).parent ≡ some a
  pub ranked : (a b : ℕ) → (w b).parent ≡ some a → rank a < rank b

update_at : (w : ℕ → Component) (k : ℕ) (c : Component) → update w k c k ≡ c
update_at w k c = ground arith

update_off : (w : ℕ → Component) (k j : ℕ) (c : Component) → j ≢ k → update w k c j ≡ w j
update_off w k j c h = ground arith

-- A component that is no member has no say.
less_comps_off :
    (w : ℕ → Component) (k : ℕ) (c : Component) (ks : List ℕ) (h : ℤ)
    → has k ks ≡ false
    → less_comps (update w k c) ks h ≡ less_comps w ks h
unfolding less_comps has
less_comps_off w k c [] h absent = refl
less_comps_off w k c (j ∷ js) h absent =
    let ne : j ≢ k = ground (arith, absent) in
    rw (update_off w k j c ne) (less_comps_off w k c js _ (ground (arith, absent)))

module _ (w : ℕ → Component) (rank : ℕ → ℕ) (tree : IsTree w rank) (k : ℕ) (delta : ℤ) where
  abbrev changed : ℕ → Component
  changed = update w k (refresh w delta (w k))

  -- What the change keeps.
  same_shape : (j : ℕ) → ((changed j).parent ≡ (w j).parent) × ((changed j).comps ≡ (w j).comps)
  unfolding refresh
  same_shape j = ground arith

  changed-IsTree : IsTree changed rank
  changed-IsTree = record {
    member_parent =
        λ a b h. (same_shape b).0 ∙ tree.member_parent a b (ap (has b) (sym (same_shape a).1) ∙ h);
    ranked = λ a b h. tree.ranked a b (sym (same_shape b).0 ∙ h);
  }

  no_member : (j : ℕ) → (w k).parent ≢ some j → has k (w j).comps ≡ false
  no_member j h = elim (Bool-cases (has k (w j).comps)) [
    | inl e ↦ absurd (h (tree.member_parent j k e))
    | inr e ↦ e
  ]

  not_own_parent : (w k).parent ≢ some k
  not_own_parent e = omega (arith, tree.ranked k k e)

  refreshed-IsConsistent : IsConsistent changed k
  unfolding refresh health_of
  refreshed-IsConsistent =
      rw (update_at w k (refresh w delta (w k)))
        (sym (less_comps_off w k _ (w k).comps _ (no_member k not_own_parent)))

  others-IsConsistent :
      (j : ℕ) → j ≢ k → (w k).parent ≢ some j → IsConsistent w j → IsConsistent changed j
  unfolding health_of
  others-IsConsistent j ne h e =
      rw (update_off w k j (refresh w delta (w k)) ne)
        (e ∙ sym (less_comps_off w k _ (w j).comps _ (no_member j h)))

  all_but :
      ((j : ℕ) → j ≢ k → IsConsistent w j)
      → (j : ℕ) → (w k).parent ≢ some j
      → IsConsistent changed j
  all_but others j h = elim (Bool-cases (j == k)) [
    | inl same ↦ rw ((==_iff j k).0 same) refreshed-IsConsistent
    | inr other ↦ let ne : j ≢ k = ground (arith, other) in others-IsConsistent j ne h (others j ne)
  ]

-- The call returns, with components that are so.
abbrev pub Settles : ((ℕ → Component) → Type 0) → Outcome → Type 0
Settles P o = (w : ℕ → Component) × (ns : List Notice) × (o ≡ done w ns) × P w

pub preceded-Settles :
    (P : (ℕ → Component) → Type 0) (ns : List Notice) (o : Outcome)
    → Settles P o
    → Settles P (preceded ns o)
unfolding preceded
preceded-Settles P ns o (w, more, e, h) = (w, ns ++ more, ap (preceded ns) e, h)

-- The last step of a call, given the rest of the climb.
pub climbed :
    (P : (ℕ → Component) → Type 0) (above : ℕ → (ℕ → Component) → Outcome) (parent : Option ℕ)
    (w : ℕ → Component)
    → (parent ≡ none → P w)
    → ((p : ℕ) → parent ≡ some p → Settles P (above p w))
    → Settles P (elim parent [ none ↦ done w [] | some p ↦ above p w ])
climbed P above none w top rest = (w, [], refl, top refl)
climbed P above (some p) w top rest = rest p refl

other_parent : (o : Option ℕ) (p j : ℕ) → o ≡ some p → j ≢ p → o ≢ some j
other_parent o p j e ne = ground arith

no_parent : (o : Option ℕ) (j : ℕ) → o ≡ none → o ≢ some j
no_parent o j e = ground arith

-- On a tree of components of which all but one have the health that their members give them,
-- seq_comp_health on that one returns, given depth enough for its rank, and then all do, its
-- ancestors included.
pub comp_health-Settles :
    (fuel : ℕ) (valid_test : ℕ → Bool) (k : ℕ) (delta : ℤ) (w : ℕ → Component) (rank : ℕ → ℕ)
    → IsTree w rank
    → rank k < fuel
    → ((j : ℕ) → j ≢ k → IsConsistent w j)
    → Settles (λ v. (j : ℕ) → IsConsistent v j) (comp_health fuel valid_test k delta w)
unfolding comp_health
comp_health-Settles zero valid_test k delta w rank tree h others = absurd (omega arith)
comp_health-Settles (suc fuel) valid_test k delta w rank tree h others =
    let w' = update w k (refresh w delta (w k)) in
    let all = all_but w rank tree k delta others in
    preceded-Settles _ _ _ (
      climbed _ (λ p v. comp_health fuel valid_test p delta v) (w k).parent w'
        (λ e j. all j (no_parent (w k).parent j e))
        λ p e.
          comp_health-Settles fuel valid_test p delta w' rank (changed-IsTree w rank tree k delta)
            (omega (arith, h, tree.ranked p k e))
            λ j ne. all j (other_parent (w k).parent p j e ne))
