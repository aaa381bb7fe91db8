-- ===== src/Sequence/Sequencer/Wired.antt =====
-- How rules feed rules in `seq_sequencer` (src/myrefl_sequence.c), and when the walk over them returns.
use myreflection.Common.{
  ℕ, ◌≤◌, ◌<◌, ◌≡◌, refl, sym, ap, subst, ◌∙◌, inl, inr, true, Bool, Option, some, List, [], ◌∷◌,
  arith, has, if◌then◌else◌, ◌==◌, ==_iff, Bool-cases, if-holds,
}
use myreflection.Common.Int.{ℤ}
use myreflection.Types.{Result, invalid, pass, fail, abort, in_progress, ignore}
use myreflection.Sequence.Sequencer.{
  rule_run, rule_run_rci, Wiring, Engine, find_instance, obj_instance, instances_for, for_each,
  Self, to_rule, to_rules,
}

-- An object's instances are its own, and what a rule feeds stands lower than the rule.
pub record IsWired (w : Wiring) (height : ℕ → ℕ) (top : ℕ) : Type 0 where
  pub owned : (o : ℕ) → w.owner (w.base o) ≡ o
  pub members_owned : (o m : ℕ) → has m (w.members o) ≡ true → w.owner m ≡ o
  pub lower :
      (r o q : ℕ) → w.output r ≡ some o → has q (o ∷ w.behind o) ≡ true → height q < height r
  pub bounded : (r : ℕ) → height r ≤ top

-- It gives a state.
abbrev pub Gives {ℓ} : {S : Type ℓ} → Option S → Type ℓ
Gives {S = S} o = (s : S) × (o ≡ some s)

pub for_each-Gives :
    {S : Type 0} (f : ℕ → S → Option S) (xs : List ℕ) (s : S)
    → ((x : ℕ) (s' : S) → has x xs ≡ true → Gives (f x s'))
    → Gives (for_each f xs s)
unfolding for_each has
for_each-Gives f [] s h = (s, refl)
for_each-Gives f (x ∷ xs) s h =
    let (s1, e) = h x s (ground arith) in
    rw e (for_each-Gives f xs s1 (λ y s' m. h y s' (ground (arith, m))))

pub if-Gives :
    {S : Type 0} (b : Bool) (x y : Option S) → Gives x → Gives y → Gives (if b then x else y)
if-Gives = if-holds Gives

find_instance-owner :
    (w : Wiring) (n d o : ℕ) (ms : List ℕ)
    → w.owner d ≡ o
    → ((m : ℕ) → has m ms ≡ true → w.owner m ≡ o)
    → w.owner (find_instance w.name n d ms) ≡ o
unfolding find_instance has
find_instance-owner w n d o [] e own = e
find_instance-owner w n d o (m ∷ ms) e own = elim (Bool-cases (w.name m == n)) [
  | inl hit ↦ rw hit (own m (ground arith))
  | inr miss ↦ rw miss (find_instance-owner w n d o ms e (λ k h. own k (ground (arith, h))))
]

module _ {S : Type 0} (e : Engine S) (w : Wiring) (height : ℕ → ℕ) (top : ℕ)
    (wired : IsWired w height top) where
  obj_instance-owner : (o i : ℕ) → w.owner (obj_instance w o i) ≡ o
  unfolding obj_instance
  obj_instance-owner o i = elim (Bool-cases (w.base (w.owner i) == i)) [
    | inl same ↦ rw same (wired.owned o)
    | inr other ↦ rw other (
        find_instance-owner w (w.name i) (w.base o) o (w.members o) (wired.owned o)
          (wired.members_owned o))
  ]

  pub instances_for-owner : (o i k : ℕ) → has k (instances_for w o i) ≡ true → w.owner k ≡ o
  unfolding instances_for has
  instances_for-owner o i k m = elim (Bool-cases (w.base o == obj_instance w o i)) [
    | inl same ↦ elim (Bool-cases (w.base o == k)) [
      | inl hit ↦ ap w.owner (sym ((==_iff (w.base o) k).0 hit)) ∙ wired.owned o
      | inr miss ↦ wired.members_owned o k (ground (arith, m, same, miss))
    ]
    | inr other ↦ ap w.owner (ground (arith, m, other)) ∙ obj_instance-owner o i
  ]

  -- The sequencer's calls for rules of at most this height return.
  abbrev pub RulesReturn : Self S → ℕ → Type 0
  RulesReturn self h =
      (i : ℕ) (rci : Bool) (r : Result) (v : ℤ) (s : S)
      → height (w.owner i) ≤ h
      → Gives (self (if rci then rule_run_rci else rule_run) i r v s)

  to_rule-Gives :
      (self : Self S) (h : ℕ) (rci : Bool) (r : Result) (v : ℤ) (k : ℕ) (s : S)
      → RulesReturn self h
      → height (w.owner k) ≤ h
      → Gives (to_rule e w self rci r v k s)
  unfolding to_rule
  to_rule-Gives self h rci Result.abort v k s calls le = (e.run_rci k abort s, refl)
  to_rule-Gives self h rci Result.invalid v k s calls le = calls k rci invalid v s le
  to_rule-Gives self h rci Result.pass v k s calls le = calls k rci pass v s le
  to_rule-Gives self h rci Result.fail v k s calls le = calls k rci fail v s le
  to_rule-Gives self h rci Result.value v k s calls le = calls k rci Result.value v s le
  to_rule-Gives self h rci Result.in_progress v k s calls le = calls k rci in_progress v s le
  to_rule-Gives self h rci Result.ignore v k s calls le = calls k rci ignore v s le
  to_rule-Gives self h rci Result.last v k s calls le = calls k rci Result.last v s le

  pub to_rules-Gives :
      (self : Self S) (h : ℕ) (rci : Bool) (r : Result) (v : ℤ) (i : ℕ) (rules : List ℕ) (s : S)
      → RulesReturn self h
      → ((q : ℕ) → has q rules ≡ true → height q ≤ h)
      → Gives (to_rules e w self rci r v i rules s)
  unfolding to_rules
  to_rules-Gives self h rci r v i rules s calls low = for_each-Gives _ rules s (λ q s' m.
      for_each-Gives _ (instances_for w q i) s' (λ k s'' n.
        to_rule-Gives self h rci r v k s'' calls
          (subst (λ x. height x ≤ h) (sym (instances_for-owner q i k n)) (low q m))))
