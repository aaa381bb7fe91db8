-- ===== src/Sequence/Health/Confidence.antt =====
-- How `seq_comp_health` lets the confidence in a component follow its health.
use native.Mathlib.Decide.{dec_lt}
use myreflection.Common.{
  ℕ, zero, suc, ◌+◌, ◌≤◌, ◌<◌, ◌≡◌, refl, sym, ap, ◌⊎◌, ◌∙◌, Bool, true, ◌&&◌, some, List, [], ◌∷◌,
  arith, ◌==◌, if◌then◌else◌, has, update, length, Bool-cases, inl, inr,
}
use myreflection.Common.Int.{ℤ, pos, pos_part, neg_part, +ℤ_parts, -ℤ_parts, ltb_ℤ, ◌+ℤ◌, ◌≤ℤ◌}
use myreflection.Types.{is_enabled}
use myreflection.Sequence.Health.{
  Component, health_of, increment, least_confident, follow, at_most_1000, refresh, comp_health,
}
use myreflection.Sequence.Health.Consistency.{Settles, preceded-Settles, climbed}

-- A confidence is from 0 to 1000, and no higher than the health, unless that is negative.
pub record IsConfident (c : Component) : Type 0 where
  pub positive : pos 0 ≤ℤ c.confidence
  pub bounded : c.confidence ≤ℤ pos 1000
  pub followed : c.confidence ≤ℤ (if ltb_ℤ (pos 0) c.health then c.health else pos 0)

-- One step of the third loop.
abbrev lesser : Component → ℤ → ℤ
lesser c x = if c.valid && (is_enabled c.state && ltb_ℤ c.confidence x) then c.confidence else x

lesser_le : (c : Component) (x : ℤ) → lesser c x ≤ℤ x
lesser_le c x = ground arith

lesser_ge : (c : Component) (x : ℤ) → pos 0 ≤ℤ c.confidence → pos 0 ≤ℤ x → pos 0 ≤ℤ lesser c x
lesser_ge c x h k = ground arith

least_confident_le : (w : ℕ → Component) (ks : List ℕ) (x : ℤ) → least_confident w ks x ≤ℤ x
unfolding least_confident
least_confident_le w [] x = omega arith
least_confident_le w (k ∷ ks) x =
    omega (arith, least_confident_le w ks (lesser (w k) x), lesser_le (w k) x)

least_confident_ge :
    (w : ℕ → Component) (ks : List ℕ) (x : ℤ)
    → ((j : ℕ) → pos 0 ≤ℤ (w j).confidence)
    → pos 0 ≤ℤ x
    → pos 0 ≤ℤ least_confident w ks x
unfolding least_confident
least_confident_ge w [] x all h = h
least_confident_ge w (k ∷ ks) x all h =
    least_confident_ge w ks (lesser (w k) x) all (lesser_ge (w k) x (all k) h)

-- The step towards the health does not pass it.
increment_le : (h c : ℤ) → ltb_ℤ c h ≡ true → (0 < increment h c) × (c +ℤ pos (increment h c) ≤ℤ h)
increment_le h c e = ground (arith, e, -ℤ_parts h c, +ℤ_parts c (pos (increment h c)))

-- Members that are sure do not hold their component back.
least_confident_sure :
    (w : ℕ → Component) (ks : List ℕ) (x : ℤ)
    → ((j : ℕ) → has j ks ≡ true → (w j).confidence ≡ pos 1000)
    → x ≤ℤ pos 1000
    → least_confident w ks x ≡ x
unfolding least_confident has
least_confident_sure w [] x sure h = refl
least_confident_sure w (k ∷ ks) x sure h =
    let same : lesser (w k) x ≡ x = ground (arith, sure k (ground arith)) in
    rw same (least_confident_sure w ks x (λ j m. sure j (ground (arith, m))) h)

follow_lem :
    (w : ℕ → Component) (ks : List ℕ) (health confidence : ℤ)
    → ((j : ℕ) → pos 0 ≤ℤ (w j).confidence)
    → pos 0 ≤ℤ confidence
    → (pos 0 ≤ℤ follow w ks health confidence)
      × (follow w ks health confidence ≤ℤ (if ltb_ℤ (pos 0) health then health else pos 0))
unfolding follow
follow_lem w ks health confidence all h =
    let raised = confidence +ℤ pos (increment health confidence) in
    elim (Bool-cases (ltb_ℤ health confidence)) [
      | inl falls ↦ rw falls (ground arith, ground arith)
      | inr keeps ↦ elim (Bool-cases (ltb_ℤ confidence health)) [
        | inl rises ↦
            let (up, top) = increment_le health confidence rises in
            let up' : pos 0 ≤ℤ raised =
              omega (arith, h, +ℤ_parts confidence (pos (increment health confidence))) in
            let le = least_confident_le w ks raised in
            rw (keeps, rises)
              (least_confident_ge w ks raised all up', ground (arith, le, top, rises, h))
        | inr stays ↦ rw (keeps, stays) (h, ground (arith, keeps, stays, h))
      ]
    ]

refresh-IsConfident :
    (w : ℕ → Component) (delta : ℤ) (c : Component)
    → ((j : ℕ) → IsConfident (w j))
    → IsConfident c
    → IsConfident (refresh w delta c)
unfolding refresh
refresh-IsConfident w delta c all h =
    let (low, high) =
      follow_lem w c.comps (health_of w c) c.confidence (λ j. (all j).positive) h.positive in
    record {
      positive = ground (arith, low);
      bounded = ground arith;
      followed = ground (arith, high);
    }

update-IsConfident :
    (w : ℕ → Component) (k : ℕ) (c : Component)
    → ((j : ℕ) → IsConfident (w j))
    → IsConfident c
    → (j : ℕ) → IsConfident (update w k c j)
update-IsConfident w k c all h j = elim (Bool-cases (j == k)) [
  | inl e ↦ rw e h
  | inr e ↦ rw e (all j)
]

same_parent :
    (w : ℕ → Component) (k : ℕ) (delta : ℤ) (b : ℕ)
    → (update w k (refresh w delta (w k)) b).parent ≡ (w b).parent
unfolding refresh
same_parent w k delta b = ground arith

-- Given depth enough for the component's rank, seq_comp_health returns, and whatever the change was,
-- it leaves every component with a confidence from 0 to 1000 and no higher than its health, unless
-- that is negative, if all had such a one.
pub comp_health-IsConfident :
    (fuel : ℕ) (valid_test : ℕ → Bool) (k : ℕ) (delta : ℤ) (w : ℕ → Component) (rank : ℕ → ℕ)
    → ((a b : ℕ) → (w b).parent ≡ some a → rank a < rank b)
    → rank k < fuel
    → ((j : ℕ) → IsConfident (w j))
    → Settles (λ v. (j : ℕ) → IsConfident (v j)) (comp_health fuel valid_test k delta w)
unfolding comp_health
comp_health-IsConfident zero valid_test k delta w rank ranked h all = absurd (omega arith)
comp_health-IsConfident (suc fuel) valid_test k delta w rank ranked h all =
    let c = refresh w delta (w k) in
    let all' = update-IsConfident w k c all (refresh-IsConfident w delta (w k) all (all k)) in
    preceded-Settles _ _ _ (
      climbed _ (λ p v. comp_health fuel valid_test p delta v) (w k).parent (update w k c)
        (λ e. all')
        λ p e.
          comp_health-IsConfident fuel valid_test p delta (update w k c) rank
            (λ a b q. ranked a b (sym (same_parent w k delta b) ∙ q))
            (omega (arith, h, ranked p k e)) all')

-- The component after a series of changes, the newest first, among members that stay as they are.
pub after_changes : (ℕ → Component) → Component → List ℤ → Component
unfolding refresh
after_changes w c [] = c
after_changes w c (delta ∷ deltas) = refresh w delta (after_changes w c deltas)

module _ (w : ℕ → Component) (c : Component) (healthy : health_of w c ≡ pos 1000)
    (sure : (j : ℕ) → has j c.comps ≡ true → (w j).confidence ≡ pos 1000) where
  same_members :
      (deltas : List ℤ)
      → ((after_changes w c deltas).comps ≡ c.comps)
        × (health_of w (after_changes w c deltas) ≡ pos 1000)
  unfolding after_changes refresh health_of
  same_members [] = (refl, healthy)
  same_members (delta ∷ deltas) = same_members deltas

  climb :
      (n : ℕ)
      → n < 1000
      → (m : ℕ) × (follow w c.comps (pos 1000) (pos n) ≡ pos m) × (n < m) × (m ≤ 1000)
  unfolding follow ◌+ℤ◌
  climb n h =
      let step = increment (pos 1000) (pos n) in
      let (up, top) = increment_le (pos 1000) (pos n) (ground arith) in
      let sum : pos n +ℤ pos step ≡ pos (n + step) = ground arith in
      let high : n + step ≤ 1000 = ground (arith, ap pos_part sum, ap neg_part sum, top) in
      let same = least_confident_sure w c.comps (pos (n + step)) sure (omega (arith, high)) in
      (n + step, ground (arith, sum, same), omega (arith, up), high)

  refreshed :
      (delta : ℤ) (deltas : List ℤ)
      → (after_changes w c (delta ∷ deltas)).confidence
        ≡ at_most_1000 (follow w c.comps (pos 1000) (after_changes w c deltas).confidence)
  unfolding after_changes refresh
  refreshed delta deltas =
      let d = after_changes w c deltas in
      let (members, health) = same_members deltas in
      ap (λ ks. at_most_1000 (follow w ks (health_of w d) d.confidence)) members
      ∙ ap (λ h. at_most_1000 (follow w c.comps h d.confidence)) health

  at_top : follow w c.comps (pos 1000) (pos 1000) ≡ pos 1000
  unfolding follow
  at_top = refl

  climbs :
      (q : ℕ)
      → c.confidence ≡ pos q
      → q ≤ 1000
      → (deltas : List ℤ)
      → (m : ℕ) × ((after_changes w c deltas).confidence ≡ pos m)
        × (m ≤ 1000)
        × ((m ≡ 1000) ⊎ (q + length deltas ≤ m))
  unfolding after_changes
  climbs q e h [] = (q, e, h, inr (omega arith))
  climbs q e h (delta ∷ deltas) =
      let (m, now, top, reached) = climbs q e h deltas in
      elim (dec_lt m 1000) [
        | yes lower ↦
            let (m', next, up, top') = climb m lower in
            (
              m',
              rw (refreshed delta deltas, now, next) (ground arith),
              top',
              inr (ground (arith, reached)),
            )
        | no done ↦
            let full : m ≡ 1000 = omega arith in
            (1000, rw (refreshed delta deltas, now, full, at_top) refl, omega arith, inl refl)
      ]

  -- A component whose health is 1000 and whose members are all fully confident, and stay so, is
  -- itself fully confident after as many refreshes as its confidence, from 0 to 1000, was short.
  pub after_changes-confident :
      (q : ℕ) (deltas : List ℤ)
      → c.confidence ≡ pos q
      → q ≤ 1000
      → 1000 ≤ q + length deltas
      → (after_changes w c deltas).confidence ≡ pos 1000
  after_changes-confident q deltas e h enough =
      let (m, now, top, reached) = climbs q e h deltas in
      let full : m ≡ 1000 = ground arith in now ∙ ap pos full
