-- ===== src/Api/Chaining/Settled.antt =====
-- What `myrefl_obj_chain_update_state` (src/myrefl_obj.c) changes.
use myreflection.Common.{
  ℕ, ◌<◌, ◌≡◌, refl, sym, ◌≢◌, ◌∙◌, ◌⊎◌, inl, inr, ap, Bool, true, false, not, ◌&&◌, some, List, [],
  ◌∷◌, arith, ◌==◌, ==_iff, has, Bool-cases,
}
use myreflection.Types.{ObjState, initialized, deleted, test, rule, action}
use myreflection.Api.Linking.{Links}
use myreflection.Api.States.{Instance, Object, each, change_all}
use myreflection.Api.Chaining.{is_deleted, settle_instance, Store, settle_at}

-- Objects are valid and not deleted, by this function.
module _ (l : Links) (live : ℕ → Bool) where
  -- A live test, rule or action leads to itself, and to what its pointers lead to.
  pub data Leads : ℕ → ℕ → Type 0 where
    itself :
        {o : ℕ}
        → live o ≡ true
        → (l.kind o ≡ test) ⊎ ((l.kind o ≡ rule) ⊎ (l.kind o ≡ action))
        → Leads o o
    by_test :
        {o r x : ℕ}
        → live o ≡ true
        → l.kind o ≡ test
        → l.test_rule o ≡ some r
        → Leads r x
        → Leads o x
    by_next :
        {o r x : ℕ}
        → live o ≡ true
        → l.kind o ≡ rule
        → l.next_in_input o ≡ some r
        → Leads r x
        → Leads o x
    by_action :
        {o a x : ℕ}
        → live o ≡ true
        → l.kind o ≡ rule
        → has a (l.action_list o) ≡ true
        → Leads a x
        → Leads o x
    by_output :
        {o r x : ℕ} → live o ≡ true → l.kind o ≡ rule → l.output o ≡ some r → Leads r x → Leads o x

-- The pointers lead downwards.
pub record IsOrdered (l : Links) (height : ℕ → ℕ) : Type 0 where
  pub test_rule : (o r : ℕ) → l.kind o ≡ test → l.test_rule o ≡ some r → height r < height o
  pub next : (o r : ℕ) → l.kind o ≡ rule → l.next_in_input o ≡ some r → height r < height o
  pub output : (o r : ℕ) → l.kind o ≡ rule → l.output o ≡ some r → height r < height o
  pub actions : (o a : ℕ) → l.kind o ≡ rule → has a (l.action_list o) ≡ true → height a < height o

-- Which objects are live, and nobody asks for their deletion.
pub record IsSane (valid live : ℕ → Bool) (st : Store) : Type 0 where
  pub same : (o : ℕ) → live o ≡ (valid o && not (is_deleted (st o).base.state))
  pub cli : (o : ℕ) → (st o).base.cli_state ≢ deleted
  pub default : (o : ℕ) → (st o).base.default_state ≢ deleted

module _ (s : ObjState) (s_live : s ≢ deleted) (s_set : s ≢ initialized) where
  settle_twice : (i : Instance) → settle_instance s (settle_instance s i) ≡ settle_instance s i
  unfolding settle_instance
  settle_twice i = ground (arith, s_set)

  each_twice :
      (is : List Instance)
      → each (settle_instance s) (each (settle_instance s) is) ≡ each (settle_instance s) is
  unfolding each
  each_twice [] = refl
  each_twice (i ∷ is) = λ j. settle_twice i j ∷ each_twice is j

  unfoldable pub settled_object : Object → Object
  settled_object = change_all (settle_instance s)

  settled_twice : (o : Object) → settled_object (settled_object o) ≡ settled_object o
  unfolding settled_object
  settled_twice o = λ j. record o { base = settle_twice o.base j; members = each_twice o.members j }

  -- Exactly these objects have been settled.
  unfoldable pub Changed : (ℕ → Type 0) → Store → Store → Type 0
  Changed L st st' = (x : ℕ) → (L x × (st' x ≡ settled_object (st x))) ⊎ ((¬ L x) × (st' x ≡ st x))

  pub Changed-none : (st : Store) → Changed (λ x. ⊥) st st
  unfolding Changed
  Changed-none st x = inr (λ h. h, refl)

  pub Changed-then :
      (L M : ℕ → Type 0) (st st1 st2 : Store)
      → Changed L st st1
      → Changed M st1 st2
      → Changed (λ x. L x ⊎ M x) st st2
  unfolding Changed
  Changed-then L M st st1 st2 c d x = elim (c x) [
    | inl (lx, e) ↦ elim (d x) [
      | inl (mx, f) ↦ inl (inl lx, f ∙ ap settled_object e ∙ settled_twice (st x))
      | inr (nm, f) ↦ inl (inl lx, f ∙ e)
    ]
    | inr (nl, e) ↦ elim (d x) [
      | inl (mx, f) ↦ inl (inr mx, f ∙ ap settled_object e)
      | inr (nm, f) ↦ inr (λ h. elim h [ inl lx ↦ nl lx | inr mx ↦ nm mx ], f ∙ e)
    ]
  ]

  pub Changed-at : (o : ℕ) (st : Store) → Changed (λ x. x ≡ o) st (settle_at s o st)
  unfolding Changed settled_object
  Changed-at o st x = elim (Bool-cases (x == o)) [
    | inl hit ↦
        let same = (==_iff x o).0 hit in
        inl (same, rw hit (ap (λ y. change_all (settle_instance s) (st y)) (sym same)))
    | inr miss ↦ inr (λ e. ground (arith, miss, e), rw miss refl)
  ]

  pub Changed-iff :
      (L M : ℕ → Type 0) (st st' : Store)
      → ((x : ℕ) → L x → M x)
      → ((x : ℕ) → M x → L x)
      → Changed L st st'
      → Changed M st st'
  unfolding Changed
  Changed-iff L M st st' f g c x = elim (c x) [
    | inl (lx, e) ↦ inl (f x lx, e)
    | inr (nl, e) ↦ inr (λ m. nl (g x m), e)
  ]

  settle_live :
      (i : Instance)
      → is_deleted i.state ≡ false
      → i.cli_state ≢ deleted
      → i.default_state ≢ deleted
      → (is_deleted (settle_instance s i).state ≡ false)
        × ((settle_instance s i).cli_state ≡ i.cli_state)
        × ((settle_instance s i).default_state ≢ deleted)
  unfolding settle_instance
  settle_live i d c f = ground (arith, s_live)

  pub settled_object-IsSane :
      (valid live : ℕ → Bool) (L : ℕ → Type 0) (st st' : Store)
      → ((x : ℕ) → L x → live x ≡ true)
      → IsSane valid live st
      → Changed L st st'
      → IsSane valid live st'
  unfolding Changed settled_object
  settled_object-IsSane valid live L st st' lives sane c =
      let before = λ (o : ℕ) (lo : L o).
        let alive = lives o lo in
        let e : is_deleted (st o).base.state ≡ false = ground (arith, alive, sane.same o) in e in
      let facts =
        λ (o : ℕ) (lo : L o). settle_live (st o).base (before o lo) (sane.cli o) (sane.default o) in
      record {
        same = λ o. elim (c o) [
          | inl (lo, e) ↦
              sane.same o
              ∙ ap (λ b. valid o && not b)
                  (before o lo
                    ∙ sym (facts o lo).0
                    ∙ ap (λ (y : Object). is_deleted y.base.state) (sym e))
          | inr (no_l, e) ↦
              sane.same o ∙ ap (λ (y : Object). valid o && not (is_deleted y.base.state)) (sym e)
        ];
        cli = λ o h. elim (c o) [
          | inl (lo, e) ↦
              sane.cli o (sym (facts o lo).1 ∙ ap (λ (y : Object). y.base.cli_state) (sym e) ∙ h)
          | inr (no_l, e) ↦ sane.cli o (ap (λ (y : Object). y.base.cli_state) (sym e) ∙ h)
        ];
        default = λ o h. elim (c o) [
          | inl (lo, e) ↦ (facts o lo).2 (ap (λ (y : Object). y.base.default_state) (sym e) ∙ h)
          | inr (no_l, e) ↦ sane.default o (ap (λ (y : Object). y.base.default_state) (sym e) ∙ h)
        ];
      }
