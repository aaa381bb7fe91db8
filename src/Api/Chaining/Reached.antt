-- ===== src/Api/Chaining/Reached.antt =====
-- `myrefl_obj_chain_update_state` (src/myrefl_obj.c) ends, and reaches all that a test leads to.
use myreflection.Common.{
  ℕ, ◌≡◌, refl, sym, ◌≢◌, ◌⊎◌, inl, inr, subst, Bool, true, Option, none, some, List, [], ◌∷◌,
  arith, ◌==◌, ==_iff, has, Bool-cases, some_injective, ◌>>=◌,
}
use myreflection.Types.{ObjState, initialized, deleted, test, rule, action}
use myreflection.Sequence.Sequencer.{for_each}
use myreflection.Api.Linking.{Links}
use myreflection.Api.Chaining.{Store, settle_at, follow_link, update_by_type}
use myreflection.Api.Chaining.Settled.{
  Leads, itself, by_test, by_next, by_action, by_output, IsSane, Changed, Changed-none,
  Changed-then, Changed-at, Changed-iff, settled_object-IsSane,
}

pub Leads-live : (l : Links) (live : ℕ → Bool) {o x : ℕ} → Leads l live o x → live x ≡ true
Leads-live l live (itself alive k) = alive
Leads-live l live (by_test alive k e p) = Leads-live l live p
Leads-live l live (by_next alive k e p) = Leads-live l live p
Leads-live l live (by_action alive k e p) = Leads-live l live p
Leads-live l live (by_output alive k e p) = Leads-live l live p

module _ (l : Links) (live valid : ℕ → Bool) (s : ObjState) (s_live : s ≢ deleted)
    (s_set : s ≢ initialized) where
  -- What a pointer leads to, and what the members of a list do.
  Behind : Option ℕ → ℕ → Type 0
  Behind p x = (r : ℕ) × (p ≡ some r) × Leads l live r x

  Among : List ℕ → ℕ → Type 0
  Among xs x = (a : ℕ) × (has a xs ≡ true) × Leads l live a x

  -- It gives a store in which exactly these objects have been settled.
  unfoldable pub Settles : (ℕ → Type 0) → Store → Option Store → Type 0
  Settles L st o = (st' : Store) × (o ≡ some st') × Changed s s_live s_set L st st'

  abbrev pub SettlesAll : (ℕ → Store → Option Store) → ℕ → Type 0
  SettlesAll self o = (st : Store) → IsSane valid live st → Settles (Leads l live o) st (self o st)

  follow_link-Settles :
      (self : ℕ → Store → Option Store) (p : Option ℕ) (st : Store)
      → ((r : ℕ) → p ≡ some r → SettlesAll self r)
      → IsSane valid live st
      → Settles (Behind p) st (follow_link self p st)
  unfolding Settles Behind
  follow_link-Settles self none st calls sane = (
    st,
    refl,
    Changed-iff s s_live s_set (λ x. ⊥) (Behind none) st st (λ x h. absurd h)
        (λ x (r, e, p). absurd (cc)) (Changed-none s s_live s_set st),
  )
  follow_link-Settles self (some r) st calls sane =
      let (st', e, c) = calls r refl st sane in
      (
        st',
        e,
        Changed-iff s s_live s_set (Leads l live r) (Behind (some r)) st st' (λ x p. (r, refl, p))
            (λ x (q, e', p). subst (λ y. Leads l live y x) (sym (some_injective e')) p) c,
      )

  Behind-live : (p : Option ℕ) (x : ℕ) → Behind p x → live x ≡ true
  unfolding Behind
  Behind-live p x (r, e, path) = Leads-live l live path

  Among-live : (xs : List ℕ) (x : ℕ) → Among xs x → live x ≡ true
  unfolding Among
  Among-live xs x (a, m, path) = Leads-live l live path

  for_each-Settles :
      (self : ℕ → Store → Option Store) (xs : List ℕ) (st : Store)
      → ((a : ℕ) → has a xs ≡ true → SettlesAll self a)
      → IsSane valid live st
      → Settles (Among xs) st (for_each self xs st)
  unfolding Settles Among for_each has
  for_each-Settles self [] st calls sane = (
    st,
    refl,
    Changed-iff s s_live s_set (λ x. ⊥) (Among []) st st (λ x h. absurd h)
        (λ x (a, m, p). absurd (cc)) (Changed-none s s_live s_set st),
  )
  for_each-Settles self (b ∷ bs) st calls sane =
      let (st1, e1, c1) = calls b (ground arith) st sane in
      let sane1 =
        settled_object-IsSane s s_live s_set valid live (Leads l live b) st st1
          (λ x p. Leads-live l live p) sane c1 in
      let (st2, e2, c2) = for_each-Settles self bs st1 (λ a m. calls a (ground (arith, m))) sane1 in
      (
        st2,
        rw e1 e2,
        Changed-iff s s_live s_set _ (Among (b ∷ bs)) st st2
            (λ x h. elim h [
              | inl p ↦ (b, ground arith, p)
              | inr (a, m, p) ↦ (a, ground (arith, m), p)
            ])
            (λ x (a, m, p). elim (Bool-cases (b == a)) [
              | inl hit ↦ inl (subst (λ y. Leads l live y x) (sym ((==_iff b a).0 hit)) p)
              | inr miss ↦ inr (a, ground (arith, m, miss), p)
            ])
            (Changed-then s s_live s_set (Leads l live b) (Among bs) st st1 st2 c1 c2),
      )

  -- A step that settles some objects, and then the object itself.
  then_itself :
      (L M : ℕ → Type 0) (o : ℕ) (st : Store) (r : Option Store)
      → Settles L st r
      → ((x : ℕ) → L x ⊎ (x ≡ o) → M x)
      → ((x : ℕ) → M x → L x ⊎ (x ≡ o))
      → Settles M st (r >>= λ st1. some (settle_at s o st1))
  unfolding Settles
  then_itself L M o st r (st1, e, c) f g = (
    settle_at s o st1,
    rw e refl,
    Changed-iff s s_live s_set _ M st (settle_at s o st1) f g (
        Changed-then s s_live s_set L (λ x. x ≡ o) st st1 (settle_at s o st1) c
          (Changed-at s s_live s_set o st1)),
  )

  -- One step and another.
  then_Settles :
      (L M : ℕ → Type 0) (st : Store) (r : Option Store) (f : Store → Option Store)
      → ((x : ℕ) → L x → live x ≡ true)
      → IsSane valid live st
      → Settles L st r
      → ((st1 : Store) → IsSane valid live st1 → Settles M st1 (f st1))
      → Settles (λ x. L x ⊎ M x) st (r >>= f)
  unfolding Settles
  then_Settles L M st r f lives sane (st1, e, c) next =
      let (st2, e2, c2) =
        next st1 (settled_object-IsSane s s_live s_set valid live L st st1 lives sane c) in
      (st2, rw e e2, Changed-then s s_live s_set L M st st1 st2 c c2)

  Settles-iff :
      (L M : ℕ → Type 0) (st : Store) (r : Option Store)
      → ((x : ℕ) → L x → M x)
      → ((x : ℕ) → M x → L x)
      → Settles L st r
      → Settles M st r
  unfolding Settles
  Settles-iff L M st r f g (st1, e, c) = (st1, e, Changed-iff s s_live s_set L M st st1 f g c)

  test_cases : {o x : ℕ} → l.kind o ≡ test → Leads l live o x → Behind (l.test_rule o) x ⊎ (x ≡ o)
  unfolding Behind
  test_cases k (itself alive k') = inr refl
  test_cases k (by_test alive k' e p) = inl (_, e, p)
  test_cases k (by_next alive k' e p) = absurd (cc)
  test_cases k (by_action alive k' e p) = absurd (cc)
  test_cases k (by_output alive k' e p) = absurd (cc)

  rule_cases :
      {o x : ℕ}
      → l.kind o ≡ rule
      → Leads l live o x
      → Behind (l.next_in_input o) x
        ⊎ (Among (l.action_list o) x ⊎ (Behind (l.output o) x ⊎ (x ≡ o)))
  unfolding Behind Among
  rule_cases k (itself alive k') = inr (inr (inr refl))
  rule_cases k (by_test alive k' e p) = absurd (cc)
  rule_cases k (by_next alive k' e p) = inl (_, e, p)
  rule_cases k (by_action alive k' e p) = inr (inl (_, e, p))
  rule_cases k (by_output alive k' e p) = inr (inr (inl (_, e, p)))

  rule_back :
      {o x : ℕ}
      → live o ≡ true
      → l.kind o ≡ rule
      → Behind (l.next_in_input o) x
        ⊎ (Among (l.action_list o) x ⊎ (Behind (l.output o) x ⊎ (x ≡ o)))
      → Leads l live o x
  unfolding Behind Among
  rule_back alive k (inl (r, e, p)) = by_next alive k e p
  rule_back alive k (inr (inl (a, m, p))) = by_action alive k m p
  rule_back alive k (inr (inr (inl (r, e, p)))) = by_output alive k e p
  rule_back {o = o} alive k (inr (inr (inr e))) =
      subst (λ y. Leads l live o y) (sym e) (itself alive (inr (inl k)))

  pub other_cases :
      {o x : ℕ}
      → l.kind o ≢ test
      → l.kind o ≢ rule
      → Leads l live o x
      → (x ≡ o) × (l.kind o ≡ action)
  other_cases n m (itself alive (inl k)) = absurd (n k)
  other_cases n m (itself alive (inr (inl k))) = absurd (m k)
  other_cases n m (itself alive (inr (inr k))) = (refl, k)
  other_cases n m (by_test alive k e p) = absurd (n k)
  other_cases n m (by_next alive k e p) = absurd (m k)
  other_cases n m (by_action alive k e p) = absurd (m k)
  other_cases n m (by_output alive k e p) = absurd (m k)

  pub test_Settles :
      (self : ℕ → Store → Option Store) (o : ℕ) (st : Store)
      → live o ≡ true
      → l.kind o ≡ test
      → ((r : ℕ) → l.test_rule o ≡ some r → SettlesAll self r)
      → IsSane valid live st
      → Settles (Leads l live o) st (update_by_type l self test s o st)
  unfolding update_by_type Behind
  test_Settles self o st alive k calls sane =
      then_itself (Behind (l.test_rule o)) (Leads l live o) o st
        (follow_link self (l.test_rule o) st)
        (follow_link-Settles self (l.test_rule o) st calls sane)
        (λ x h. elim h [
          | inl (r, e, p) ↦ by_test alive k e p
          | inr e ↦ subst (λ y. Leads l live o y) (sym e) (itself alive (inl k))
        ])
        (λ x p. test_cases k p)

  pub rule_Settles :
      (self : ℕ → Store → Option Store) (o : ℕ) (st : Store)
      → live o ≡ true
      → l.kind o ≡ rule
      → ((r : ℕ) → l.next_in_input o ≡ some r → SettlesAll self r)
      → ((a : ℕ) → has a (l.action_list o) ≡ true → SettlesAll self a)
      → ((r : ℕ) → l.output o ≡ some r → SettlesAll self r)
      → IsSane valid live st
      → Settles (Leads l live o) st (update_by_type l self rule s o st)
  unfolding update_by_type
  rule_Settles self o st alive k next actions output sane =
      let tail = λ (st2 : Store) (sane2 : IsSane valid live st2).
        then_itself (Behind (l.output o)) (λ x. Behind (l.output o) x ⊎ (x ≡ o)) o st2
          (follow_link self (l.output o) st2)
          (follow_link-Settles self (l.output o) st2 output sane2) (λ x h. h) (λ x h. h) in
      let middle = λ (st1 : Store) (sane1 : IsSane valid live st1).
        then_Settles (Among (l.action_list o)) (λ x. Behind (l.output o) x ⊎ (x ≡ o)) st1
          (for_each self (l.action_list o) st1)
          (λ st2. follow_link self (l.output o) st2 >>= λ st3. some (settle_at s o st3))
          (Among-live (l.action_list o)) sane1
          (for_each-Settles self (l.action_list o) st1 actions sane1) tail in
      Settles-iff _ (Leads l live o) st _ (λ x h. rule_back alive k h) (λ x p. rule_cases k p)
        (then_Settles (Behind (l.next_in_input o))
          (λ x. Among (l.action_list o) x ⊎ (Behind (l.output o) x ⊎ (x ≡ o))) st
          (follow_link self (l.next_in_input o) st)
          (λ st1. for_each self (l.action_list o) st1 >>= λ st2.
            follow_link self (l.output o) st2 >>= λ st3. some (settle_at s o st3))
          (Behind-live (l.next_in_input o)) sane
          (follow_link-Settles self (l.next_in_input o) st next sane) middle)
