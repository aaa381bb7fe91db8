-- ===== src/Tests/Components.antt =====
-- Trees of components whose health `seq_comp_health` of src/myrefl_sequence.c updates.
use myreflection.Common.{
  ℕ, ◌≡◌, refl, true, false, none, some, [], ◌∷◌, arith, ◌==◌, if◌then◌else◌, has, Bool-cases,
  ==_iff, inl, inr,
}
use myreflection.Common.Int.{pos, negsuc, ◌-ℤ◌}
use myreflection.Types.{fail, enabled}
use myreflection.Sequence.Health.{Tally, Component, less_rules, less_comps, health_of, comp_health}
use myreflection.Sequence.Health.Consistency.{IsConsistent, IsTree, Settles, comp_health-Settles}
use myreflection.Sequence.Health.Confidence.{
  IsConfident, comp_health-IsConfident, after_changes, after_changes-confident,
}

abbrev no_tally : Tally
no_tally = record { catastrophic = 0; critical = 0; high = 0; medium = 0; low = 0; positive = 0 }

-- A component with nothing in it.
abbrev leaf : Component
leaf = record {
  valid = true;
  state = enabled;
  parent = none;
  rules = [];
  comps = [];
  interested = [];
  health = pos 1000;
  confidence = pos 1000;
  tally = no_tally;
}

-- Component 0 has the member 1, of which a rule of severity 200 has just failed.
abbrev pair_tree : ℕ → Component
pair_tree k =
    if k == 0
    then record leaf { comps = 1 ∷ [] }
    else if k == 1
    then record leaf {
      parent = some 0;
      rules = record { valid = true; state = enabled; last_result = fail; severity = pos 200 } ∷ [];
    }
    else leaf

pair_tree-IsTree : IsTree pair_tree (λ k. k)
unfolding has
pair_tree-IsTree = record { member_parent = λ a b h. ground arith; ranked = λ a b h. ground arith }

pair_tree-IsConfident : (k : ℕ) → IsConfident (pair_tree k)
pair_tree-IsConfident k = record {
  positive = ground arith;
  bounded = ground arith;
  followed = ground arith;
}

others_agree : (j : ℕ) → ¬ (j ≡ 1) → IsConsistent pair_tree j
unfolding health_of less_comps less_rules ◌-ℤ◌
others_agree j ne = elim (Bool-cases (j == 0)) [
  | inl e ↦ rw ((==_iff j 0).0 e) refl
  | inr e ↦ let e' : (j == 1) ≡ false = ground (arith, ne) in rw (e, e') refl
]

comp_health-Settles_example :
    Settles (λ v. (j : ℕ) → IsConsistent v j) (comp_health 2 (λ t. true) 1 (negsuc 199) pair_tree)
comp_health-Settles_example =
    comp_health-Settles 2 (λ t. true) 1 (negsuc 199) pair_tree (λ k. k) pair_tree-IsTree
      (omega arith) others_agree

comp_health-IsConfident_example :
    Settles (λ v. (j : ℕ) → IsConfident (v j)) (comp_health 2 (λ t. true) 1 (negsuc 199) pair_tree)
comp_health-IsConfident_example =
    comp_health-IsConfident 2 (λ t. true) 1 (negsuc 199) pair_tree (λ k. k) pair_tree-IsTree.ranked
      (omega arith) pair_tree-IsConfident

-- A leaf that lost two points of confidence.
abbrev shaken : Component
shaken = record leaf { confidence = pos 998 }

shaken-healthy : health_of pair_tree shaken ≡ pos 1000
unfolding health_of less_comps less_rules
shaken-healthy = refl

no_members : (j : ℕ) → has j shaken.comps ≡ true → (pair_tree j).confidence ≡ pos 1000
unfolding has
no_members j h = ground arith

after_changes-confident_example :
    (after_changes pair_tree shaken (pos 0 ∷ pos 0 ∷ [])).confidence ≡ pos 1000
after_changes-confident_example =
    after_changes-confident pair_tree shaken shaken-healthy no_members 998 (pos 0 ∷ pos 0 ∷ []) refl
      (omega arith) (omega arith)
