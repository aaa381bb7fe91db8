-- ===== src/Sequence/Sequencer/Spread.antt =====
-- How often `seq_sequencer` (src/myrefl_sequence.c) runs the instances of a rule that another feeds.
use myreflection.Common.{
  ℕ, suc, ◌≡◌, refl, sym, ap, subst, some_injective, if-holds, ◌∙◌, inl, inr, true, false, ◌&&◌,
  Option, none, some, List, [], ◌∷◌, ◌++◌, arith, has, Distinct, if◌then◌else◌, ◌==◌, ==_iff,
  Bool-cases, Option-cases, ◌>>=◌,
}
use myreflection.Common.Int.{ℤ, pos}
use myreflection.Types.{Result, is_pass, any, rule}
use myreflection.Sequence.Sequencer.{
  rule_process_input, rule_result, Wiring, Engine, find_instance, obj_instance, instances_for,
  for_each, to_rule, to_rules, on_process_input, to_output, on_rule_result, on_event, sequencer,
}

-- What the instances are called.
unfoldable pub names : (ℕ → ℕ) → List ℕ → List ℕ
names called [] = []
names called (m ∷ ms) = called m ∷ names called ms

>>=-some : {S : Type 0} (o : Option S) → (o >>= λ s. some s) ≡ o
>>=-some none = refl
>>=-some (some s) = refl

then-same :
    {S : Type 0} (o : Option S) (f g : S → Option S)
    → ((s : S) → o ≡ some s → f s ≡ g s)
    → (o >>= f) ≡ (o >>= g)
then-same none f g h = refl
then-same (some s) f g h = h s refl

for_each-append :
    {S : Type 0} (f : ℕ → S → Option S) (xs ys : List ℕ) (s : S)
    → for_each f (xs ++ ys) s ≡ (for_each f xs s >>= for_each f ys)
unfolding for_each
for_each-append f [] ys s = refl
for_each-append f (x ∷ xs) ys s = elim (Option-cases (f x s)) [
  | inl e ↦ rw e refl
  | inr (s', e) ↦ rw e (for_each-append f xs ys s')
]

-- Steps that keep a property of the states.
abbrev Keeps : {S : Type 0} → (S → Type 0) → (ℕ → S → Option S) → Type 0
Keeps {S} alive f = (x : ℕ) (s s' : S) → alive s → f x s ≡ some s' → alive s'

for_each-keeps :
    {S : Type 0} (alive : S → Type 0) (f : ℕ → S → Option S) (xs : List ℕ) (s s' : S)
    → Keeps alive f
    → alive s
    → for_each f xs s ≡ some s'
    → alive s'
unfolding for_each
for_each-keeps alive f [] s s' keeps live e = subst alive (some_injective e) live
for_each-keeps alive f (x ∷ xs) s s' keeps live e = elim (Option-cases (f x s)) [
  | inl stuck ↦ absurd (cc (rw stuck at e))
  | inr (s1, first) ↦
      for_each-keeps alive f xs s1 s' keeps (keeps x s s1 live first) (rw first at e)
]

for_each-same :
    {S : Type 0} (alive : S → Type 0) (f g : ℕ → S → Option S) (xs : List ℕ) (s : S)
    → Keeps alive g
    → alive s
    → ((x : ℕ) (s' : S) → has x xs ≡ true → alive s' → f x s' ≡ g x s')
    → for_each f xs s ≡ for_each g xs s
unfolding for_each has
for_each-same alive f g [] s keeps live h = refl
for_each-same alive f g (x ∷ xs) s keeps live h = elim (Option-cases (g x s)) [
  | inl e ↦ rw (h x s (ground arith) live, e) refl
  | inr (s', e) ↦
      rw (h x s (ground arith) live, e)
        (for_each-same alive f g xs s' keeps (keeps x s s' live e)
          (λ y t m. h y t (ground (arith, m))))
]

has-names : (f : ℕ → ℕ) (m : ℕ) (ms : List ℕ) → has m ms ≡ true → has (f m) (names f ms) ≡ true
unfolding has names
has-names f m [] h = cc h
has-names f m (x ∷ ms) h = ground (arith, has-names f m ms, h)

find_instance_self :
    (called : ℕ → ℕ) (m default : ℕ) (ms : List ℕ)
    → Distinct (names called ms)
    → has m ms ≡ true
    → find_instance called (called m) default ms ≡ m
unfolding find_instance has names
find_instance_self called m default [] d h = cc h
find_instance_self called m default (x ∷ ms) d h =
    ground (arith, find_instance_self called m default ms, has-names called m ms, d, h)

-- The object has members with names of their own, and owns its instances.
pub record IsNamed (w : Wiring) (o : ℕ) : Type 0 where
  pub owned : w.owner (w.base o) ≡ o
  pub members_owned : (m : ℕ) → has m (w.members o) ≡ true → w.owner m ≡ o
  pub others : has (w.base o) (w.members o) ≡ false
  pub distinct : Distinct (names w.name (w.members o))

instances_for-base :
    (w : Wiring) (o i : ℕ) → w.base (w.owner i) ≡ i → instances_for w o i ≡ w.base o ∷ w.members o
unfolding instances_for obj_instance
instances_for-base w o i e = ground (arith, e)

instances_for-member :
    (w : Wiring) (o m : ℕ) → IsNamed w o → has m (w.members o) ≡ true → instances_for w o m ≡ m ∷ []
unfolding instances_for obj_instance
instances_for-member w o m n h =
    let mine = n.members_owned m h in
    let other : (w.base o == m) ≡ false = elim (Bool-cases (w.base o == m)) [
      | inl same ↦
          absurd (cc (n.others, ap (λ x. has x (w.members o)) ((==_iff (w.base o) m).0 same), h))
      | inr differs ↦ differs
    ] in
    let found = find_instance_self w.name m (w.base o) (w.members o) n.distinct h in
    let here : (w.base (w.owner m) == m) ≡ false = rw mine other in rw (here, found, other) refl

-- States of the engine in which the rule and its instances are valid, and stay so when action_run of
-- this instance is cleared and when instances are run on a result.
pub record StaysValid {S : Type 0} (e : Engine S) (w : Wiring) (o i : ℕ) (r : Result)
    (alive : S → Type 0) : Type 0 where
  pub rule_valid : (s : S) → alive s → e.validate o rule s ≡ true
  pub instances_valid :
      (k : ℕ) (s : S) → alive s → w.owner k ≡ o → e.instance_validate k any s ≡ true
  pub marks : (s : S) → alive s → alive (e.set_run i false s)
  pub runs_keep :
      (fuel k : ℕ) (s s' : S)
      → alive s
      → to_rule e w (sequencer e w fuel) false r (pos 0) k s ≡ some s'
      → alive s'

module _ {S : Type 0} (e : Engine S) (w : Wiring) (o i : ℕ) (r : Result) (named : IsNamed w o)
    (is_rule_o : w.kind o ≡ rule) (alone : w.behind o ≡ []) (alive : S → Type 0)
    (stays : StaysValid e w o i r alive) where
  -- An instance of the rule takes an input to all instances that match it.
  input-run :
      (fuel k : ℕ) (v : ℤ) (s : S)
      → w.owner k ≡ o
      → alive s
      → sequencer e w (suc fuel) rule_process_input k r v s
        ≡ for_each (to_rule e w (sequencer e w fuel) false r v) (instances_for w o k) s
  unfolding sequencer on_event on_process_input to_rules for_each
  input-run fuel k v s own live =
      rw (stays.instances_valid k s live own, own, is_rule_o, alone)
        (>>=-some (for_each (to_rule e w (sequencer e w fuel) false r v) (instances_for w o k) s))

  abbrev takes_input : ℕ → ℕ → S → Option S
  takes_input fuel k s = sequencer e w (suc fuel) rule_process_input k r (pos 0) s

  abbrev pub runs : ℕ → ℕ → S → Option S
  runs fuel = to_rule e w (sequencer e w fuel) false r (pos 0)

  members-run :
      (fuel : ℕ) (s : S)
      → alive s
      → for_each (takes_input fuel) (w.members o) s ≡ for_each (runs fuel) (w.members o) s
  unfolding for_each
  members-run fuel s live =
      for_each-same alive (takes_input fuel) (runs fuel) (w.members o) s (stays.runs_keep fuel) live
        (λ m s' h live'.
          input-run fuel m (pos 0) s' (named.members_owned m h) live'
          ∙ ap (λ ks. for_each (runs fuel) ks s') (instances_for-member w o m named h)
          ∙ >>=-some (runs fuel m s'))

  output-runs :
      (fuel : ℕ) (s : S)
      → alive s
      → for_each (takes_input fuel) (w.base o ∷ w.members o) s
        ≡ for_each (runs fuel) ((w.base o ∷ w.members o) ++ w.members o) s
  unfolding for_each
  output-runs fuel s live =
      let all = w.base o ∷ w.members o in
      let first : takes_input fuel (w.base o) s ≡ for_each (runs fuel) all s =
        input-run fuel (w.base o) (pos 0) s named.owned live
        ∙ ap (λ ks. for_each (runs fuel) ks s)
            (instances_for-base w o (w.base o) (ap w.base named.owned)) in
      ap (λ x. x >>= for_each (takes_input fuel) (w.members o)) first
      ∙ then-same (for_each (runs fuel) all s) _ _ (λ t e.
        members-run fuel t (for_each-keeps alive (runs fuel) all s t (stays.runs_keep fuel) live e))
      ∙ sym (for_each-append (runs fuel) all (w.members o) s)

  -- Let a rule take the output of another one, be the only one to do so, and have members with names
  -- of their own; and let it and its instances be valid, and stay so while they run on this result.
  -- Then this result of the other rule's valid base instance runs the base instance of the first rule
  -- once and each of its members twice, before root cause identification learns of the result.
  pub rule_result-runs_twice :
      (fuel : ℕ) (v : ℤ) (s : S)
      → alive s
      → e.instance_validate i any s ≡ true
      → w.base (w.owner i) ≡ i
      → w.kind (w.owner i) ≡ rule
      → w.output (w.owner i) ≡ some o
      → sequencer e w (suc (suc fuel)) rule_result i r v s ≡ (
          for_each
            (runs fuel)
            ((w.base o ∷ w.members o) ++ w.members o)
            (if is_pass r && e.has_run i s then e.set_run i false s else s)
          >>= λ s'. some (e.run_rci i r s'))
  unfolding sequencer on_event on_rule_result to_output
  rule_result-runs_twice fuel v s live valid based kind out =
      let s1 = if is_pass r && e.has_run i s then e.set_run i false s else s in
      let live1 =
        if-holds alive (is_pass r && e.has_run i s) (e.set_run i false s) s (stays.marks s live)
          live in
      rw (valid, kind, out, stays.rule_valid s1 live1)
        (ap (λ x. x >>= λ s'. some (e.run_rci i r s'))
          (ap (λ ks. for_each (takes_input fuel) ks s1) (instances_for-base w o i based)
            ∙ output-runs fuel s1 live1))
