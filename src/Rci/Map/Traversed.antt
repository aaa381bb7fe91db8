-- ===== src/Rci/Map/Traversed.antt =====
-- What a part of a traversal of src/myrefl_rci.c has done: the objects that it has added to the
-- history, the function's effect at each of them, and the verdict.
use myreflection.Common.{
  ℕ, ◌≡◌, refl, ◌∙◌, sym, ◌⊎◌, inl, inr, true, false, Bool, not, some, List, ◌∷◌, arith, has,
  Bool-cases, ==_iff, subst, ◌==◌,
}
use myreflection.Rci.Map.{World, Direction, Trip, Job, note, targets, apply_all}
use myreflection.Rci.Map.Leads.{Leads}

-- What the function is expected to keep, `inv`, what it leaves behind at an object, `mark`, and
-- what makes it return the default at an object or not, `fine` and `bad`.
pub record Contract : Type 1 where
  pub inv : World → Type 0
  pub mark : ℕ → World → Type 0
  pub fine : ℕ → Type 0
  pub bad : ℕ → Type 0

-- An object that this part of the traversal has added.
abbrev pub New : (before after : List ℕ) → ℕ → Type 0
New h h' a = (has a h' ≡ true) × (has a h ≡ false)

-- Either everything is fine and the return value stays, or something is bad and it is not the default.
abbrev pub Verdict : (ℕ → Type 0) → (ℕ → Type 0) → Bool → (ℕ → Type 0) → Bool → Bool → Type 0
Verdict fine bad default added r r' =
    ((r' ≡ r) × ((a : ℕ) → added a → fine a)) ⊎ ((r' ≡ not default) × ((a : ℕ) × added a × bad a))

-- The function's contract at the objects of the traversal.
abbrev pub Applies : Contract → Job → (ℕ → Type 0) → Type 0
Applies c j within =
    (o : ℕ) (r : Bool) (w : World)
    → within o
    → c.inv w
    → (r' : Bool) × (w' : World) × (apply_all j
          (targets j.site j.instance_name (j.site.graph.kind o) o) r w
        ≡ some (r', w'))
      × c.inv w'
      × ((a : ℕ) → c.mark a w → c.mark a w')
      × c.mark o w'
      × (((r' ≡ r) × c.fine o) ⊎ ((r' ≡ not j.default_state) × c.bad o))

pub record Traversed (c : Contract) (j : Job) (dir : Direction) (within : ℕ → Type 0) (h : List ℕ)
    (w : World) (r : Bool) (t : Trip) : Type 0 where
  pub kept : (a : ℕ) → has a h ≡ true → has a t.history ≡ true
  pub inv : c.inv t.world
  pub stays : (a : ℕ) → c.mark a w → c.mark a t.world
  pub marked : (a : ℕ) → New h t.history a → c.mark a t.world
  pub closed :
      (a b : ℕ) → New h t.history a → Leads j.site dir (j.site.base a) b → has b t.history ≡ true
  pub inside : (a : ℕ) → New h t.history a → within a
  pub verdict : Verdict c.fine c.bad j.default_state (New h t.history) r t.retval

module _ (c : Contract) (j : Job) (dir : Direction) (within : ℕ → Type 0) where
  not_new : {A : Type 0} (h : List ℕ) (a : ℕ) → New h h a → A
  not_new h a n = absurd (cc (n.0, n.1))

  pub Traversed-none :
      (h : List ℕ) (w : World) (r : Bool)
      → c.inv w
      → Traversed c j dir within h w r (record { retval = r; history = h; world = w })
  Traversed-none h w r inv = record {
    kept = λ a m. m;
    inv = inv;
    stays = λ a m. m;
    marked = λ a n. not_new h a n;
    closed = λ a b n l. not_new h a n;
    inside = λ a n. not_new h a n;
    verdict = inl (refl, λ a n. not_new h a n);
  }

  -- What one part or the next has added.
  split-New : (h h' h'' : List ℕ) (a : ℕ) → New h h'' a → New h h' a ⊎ New h' h'' a
  split-New h h' h'' a n = elim (Bool-cases (has a h')) [
    | inl e ↦ inl (e, n.1)
    | inr e ↦ inr (n.0, e)
  ]

  verdict-then :
      (h h1 h2 : List ℕ) (r r1 r2 : Bool)
      → ((a : ℕ) → has a h ≡ true → has a h1 ≡ true)
      → ((a : ℕ) → has a h1 ≡ true → has a h2 ≡ true)
      → Verdict c.fine c.bad j.default_state (New h h1) r r1
      → Verdict c.fine c.bad j.default_state (New h1 h2) r1 r2
      → Verdict c.fine c.bad j.default_state (New h h2) r r2
  verdict-then h h1 h2 r r1 r2 k1 k2 (inl (e, fine)) (inl (e', fine')) =
      inl (e' ∙ e, λ a n. elim (split-New h h1 h2 a n) [ inl m ↦ fine a m | inr m ↦ fine' a m ])
  verdict-then h h1 h2 r r1 r2 k1 k2 (inr (e, (a, n, bad))) (inl (e', fine')) =
      inr (e' ∙ e, (a, (k2 a n.0, n.1), bad))
  verdict-then h h1 h2 r r1 r2 k1 k2 v (inr (e', (a, n, bad))) = inr (
    e',
    (a, (n.0, elim (Bool-cases (has a h)) [ inl m ↦ absurd (cc (k1 a m, n.1)) | inr m ↦ m ]), bad),
  )

  pub Traversed-then :
      (h : List ℕ) (w : World) (r : Bool) (t1 t2 : Trip)
      → Traversed c j dir within h w r t1
      → Traversed c j dir within t1.history t1.world t1.retval t2
      → Traversed c j dir within h w r t2
  Traversed-then h w r t1 t2 p q = record {
    kept = λ a m. q.kept a (p.kept a m);
    inv = q.inv;
    stays = λ a m. q.stays a (p.stays a m);
    marked = λ a n. elim (split-New h t1.history t2.history a n) [
      | inl m ↦ q.stays a (p.marked a m)
      | inr m ↦ q.marked a m
    ];
    closed = λ a b n l. elim (split-New h t1.history t2.history a n) [
      | inl m ↦ q.kept b (p.closed a b m l)
      | inr m ↦ q.closed a b m l
    ];
    inside = λ a n. elim (split-New h t1.history t2.history a n) [
      | inl m ↦ p.inside a m
      | inr m ↦ q.inside a m
    ];
    verdict =
        verdict-then h t1.history t2.history r t1.retval t2.retval p.kept q.kept p.verdict
          q.verdict;
  }

  -- A part that started with the default state, as a part of one that did not.
  pub Traversed-note :
      (h : List ℕ) (w : World) (r : Bool) (t : Trip)
      → Traversed c j dir within h w j.default_state t
      → Traversed c j dir within h w r (record t { retval = note j.default_state t.retval r })
  Traversed-note h w r t p = record {
    kept = p.kept;
    inv = p.inv;
    stays = p.stays;
    marked = p.marked;
    closed = p.closed;
    inside = p.inside;
    verdict = elim p.verdict [
      | inl (e, fine) ↦ inl (ground (arith, e), fine)
      | inr (e, bad) ↦ inr (ground (arith, e), bad)
    ];
  }

  -- An object is added, the function applied to it, and then a part of the traversal.
  added_or : (o a : ℕ) (h h' : List ℕ) → New h h' a → (o ≡ a) ⊎ New (o ∷ h) h' a
  unfolding has
  added_or o a h h' n = elim (Bool-cases (o == a)) [
    | inl e ↦ inl ((==_iff o a).0 e)
    | inr e ↦ inr (n.0, ground (arith, e, n.1))
  ]

  verdict-element :
      (o : ℕ) (h h' : List ℕ) (r r' r2 : Bool)
      → New h h' o
      → ((r' ≡ r) × c.fine o) ⊎ ((r' ≡ not j.default_state) × c.bad o)
      → Verdict c.fine c.bad j.default_state (New (o ∷ h) h') r' r2
      → Verdict c.fine c.bad j.default_state (New h h') r r2
  unfolding has
  verdict-element o h h' r r' r2 n (inl (e, fine)) (inl (e', fine')) = inl (
    e' ∙ e,
    λ a m. elim (added_or o a h h' m) [
      | inl same ↦ subst c.fine same fine
      | inr later ↦ fine' a later
    ],
  )
  verdict-element o h h' r r' r2 n (inr (e, bad)) (inl (e', fine')) = inr (e' ∙ e, (o, n, bad))
  verdict-element o h h' r r' r2 n v (inr (e', (a, m, bad))) =
      inr (e', (a, (m.0, ground (arith, m.1)), bad))

  pub Traversed-element :
      (o : ℕ) (h : List ℕ) (w : World) (r r' : Bool) (w' : World) (t : Trip)
      → has o h ≡ false
      → within o
      → ((a : ℕ) → c.mark a w → c.mark a w')
      → c.mark o w'
      → ((r' ≡ r) × c.fine o) ⊎ ((r' ≡ not j.default_state) × c.bad o)
      → Traversed c j dir within (o ∷ h) w' r' t
      → ((b : ℕ) → Leads j.site dir (j.site.base o) b → has b t.history ≡ true)
      → Traversed c j dir within h w r t
  unfolding has
  Traversed-element o h w r r' w' t out win stays mark v p leads =
      let n : New h t.history o = (p.kept o (ground arith), out) in
      record {
        kept = λ a m. p.kept a (ground (arith, m));
        inv = p.inv;
        stays = λ a m. p.stays a (stays a m);
        marked = λ a m. elim (added_or o a h t.history m) [
          | inl same ↦ subst (λ x. c.mark x t.world) same (p.stays o mark)
          | inr later ↦ p.marked a later
        ];
        closed = λ a b m l. elim (added_or o a h t.history m) [
          | inl same ↦ leads b (subst (λ x. Leads j.site dir (j.site.base x) b) (sym same) l)
          | inr later ↦ p.closed a b later l
        ];
        inside = λ a m. elim (added_or o a h t.history m) [
          | inl same ↦ subst within same win
          | inr later ↦ p.inside a later
        ];
        verdict = verdict-element o h t.history r r' t.retval n v p.verdict;
      }
