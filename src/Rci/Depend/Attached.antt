-- ===== src/Rci/Depend/Attached.antt =====
-- `myrefl_depend_create` on an object that is in no domain yet.
use myreflection.Common.{
  update, ℕ, ◌+◌, ◌≡◌, ◌≢◌, refl, sym, ap, subst, ◌∙◌, ◌⊎◌, inl, inr, true, false, ◌&&◌, ◌||◌, List,
  [], ◌∷◌, arith, ◌==◌, ==_iff, has, Bool-cases, some,
}
use myreflection.Types.{u32}
use myreflection.Rci.Depend.{
  Domain, Graph, Outcome, done, connect, Memory, new_domain, join_domains, depends, depend_create,
}
use myreflection.Rci.Depend.Search.{Reaches, here, down, Reaches-cases}
use myreflection.Rci.Depend.Acyclic.{with_edge, has-with_edge, new_rank, IsRanked-with_edge}
use myreflection.Rci.Depend.Create.{lists, IsSound, last_edge, connect_children}

connect_domain : (p c : ℕ) (g : Graph) → (connect p c g).domain ≡ g.domain
unfolding connect
connect_domain p c g = ground arith

connect_domains : (p c : ℕ) (g : Graph) → (connect p c g).domains ≡ g.domains
unfolding connect
connect_domains p c g = ground arith

-- A path over the new dependency has an old part before it and one behind it.
Reaches-with_edge :
    {children : ℕ → List ℕ} {p c a b : ℕ}
    → Reaches (with_edge children p c) a b
    → Reaches children a b ⊎ (Reaches children a p × Reaches children c b)
Reaches-with_edge here = inl here
Reaches-with_edge {children} {p} {c} {a} {b} (down {b = x} m r) =
    elim (has-with_edge children p c a x m) [
      | inl old ↦ elim (Reaches-with_edge r) [
        | inl later ↦ inl (down old later)
        | inr (before, behind) ↦ inr (down old before, behind)
      ]
      | inr (is_p, is_c) ↦
          let from : Reaches children a p = subst (λ y. Reaches children a y) is_p here in
          elim (Reaches-with_edge r) [
            | inl later ↦ inr (from, subst (λ y. Reaches children y b) is_c later)
            | inr (before, behind) ↦ inr (from, behind)
          ]
    ]

update-off : (f : ℕ → ℕ) (k v x : ℕ) → f k ≡ 0 → f x ≢ 0 → update f k v x ≡ f x
update-off f k v x e ne = elim (Bool-cases (x == k)) [
  | inl same ↦ absurd (ne (ap f ((==_iff x k).0 same) ∙ e))
  | inr other ↦ rw other refl
]

update-at : (f : ℕ → ℕ) (k v : ℕ) → update f k v k ≡ v
update-at f k v = rw ((==_iff k k).1 refl) refl

lists-more :
    (d : Domain) (ds : List Domain) (x y : ℕ) → lists ds x y ≡ true → lists (d ∷ ds) x y ≡ true
unfolding lists
lists-more d ds x y h = ground (arith, h)

module _ (g : Graph) (rank : ℕ → ℕ) (sound : IsSound g rank) (p c : ℕ) (ne : p ≢ c)
    (fresh : (g.domain p ≡ 0) ⊎ (g.domain c ≡ 0)) where
  -- Paths lead from no object outside all domains, and to none.
  ends_placed :
      (a b : ℕ) → Reaches g.child_depend a b → (a ≡ b) ⊎ ((g.domain a ≢ 0) × (g.domain b ≢ 0))
  ends_placed a b r = elim (Reaches-cases r) [
    | inl same ↦ inl same
    | inr (x, m, rest) ↦ elim (last_edge r) [
      | inl same ↦ inl same
      | inr (y, n) ↦ inr ((sound.placed a x m).0, (sound.placed y b n).1)
    ]
  ]

  no_way_back : ¬ Reaches g.child_depend c p
  no_way_back r = elim (ends_placed c p r) [
    | inl same ↦ ne (sym same)
    | inr (placed_c, placed_p) ↦ elim fresh [ inl e ↦ placed_p e | inr e ↦ placed_c e ]
  ]

  module _ (g' : Graph) (keeps : (x : ℕ) → g.domain x ≢ 0 → g'.domain x ≡ g.domain x)
      (joined : g'.domain p ≡ g'.domain c)
      (more : (x y : ℕ) → lists g.domains x y ≡ true → lists g'.domains x y ≡ true) where
    old_covered :
        (a b : ℕ)
        → Reaches g.child_depend a b
        → g'.domain a ≢ g'.domain b
        → lists g'.domains (g'.domain a) (g'.domain b) ≡ true
    old_covered a b r apart = elim (ends_placed a b r) [
      | inl same ↦ absurd (apart (ap g'.domain same))
      | inr (at_a, at_b) ↦
          let apart_before : g.domain a ≢ g.domain b =
            λ z. apart (keeps a at_a ∙ z ∙ sym (keeps b at_b)) in
          rw (keeps a at_a, keeps b at_b)
            (more (g.domain a) (g.domain b) (sound.covered a b r apart_before))
    ]

    -- Of a path over the new dependency, the part on the side of the object that was in no domain is
    -- empty.
    new_covered :
        (a b : ℕ)
        → Reaches g.child_depend a p
        → Reaches g.child_depend c b
        → g'.domain a ≢ g'.domain b
        → lists g'.domains (g'.domain a) (g'.domain b) ≡ true
    new_covered a b before behind apart = elim fresh [
      | inl e ↦ elim (ends_placed a p before) [
        | inr (at_a, at_p) ↦ absurd (at_p e)
        | inl same ↦
            let there : g'.domain a ≡ g'.domain c = ap g'.domain same ∙ joined in
            subst (λ d. lists g'.domains d (g'.domain b) ≡ true) (sym there)
              (old_covered c b behind (λ z. apart (there ∙ z)))
      ]
      | inr e ↦ elim (ends_placed c b behind) [
        | inr (at_c, at_b) ↦ absurd (at_c e)
        | inl same ↦
            let there : g'.domain p ≡ g'.domain b = joined ∙ ap g'.domain same in
            subst (λ d. lists g'.domains (g'.domain a) d ≡ true) there
              (old_covered a p before (λ z. apart (z ∙ there)))
      ]
    ]

  -- A graph with the new dependency, in which both objects are in one domain, and all that were in a
  -- domain before are in the same.
  attached-IsSound :
      (g' : Graph)
      → g'.child_depend ≡ with_edge g.child_depend p c
      → ((x : ℕ) → g.domain x ≢ 0 → g'.domain x ≡ g.domain x)
      → g'.domain p ≡ g'.domain c
      → g'.domain p ≢ 0
      → ((x y : ℕ) → lists g.domains x y ≡ true → lists g'.domains x y ≡ true)
      → IsSound g' (new_rank g.child_depend rank sound.ranked p c no_way_back)
  attached-IsSound g' e keeps joined some_domain more = record {
    ranked = rw e (IsRanked-with_edge g.child_depend rank sound.ranked p c no_way_back);
    placed = λ a b m. elim (has-with_edge g.child_depend p c a b (rw e at m)) [
      | inl old ↦
          let (at_a, at_b) = sound.placed a b old in
          (λ z. at_a (sym (keeps a at_a) ∙ z), λ z. at_b (sym (keeps b at_b) ∙ z))
      | inr (is_p, is_c) ↦ (
        λ z. some_domain (ap g'.domain (sym is_p) ∙ z),
        λ z. some_domain (joined ∙ ap g'.domain (sym is_c) ∙ z),
      )
    ];
    covered = λ a b r apart. elim (Reaches-with_edge (subst (λ ch. Reaches ch a b) e r)) [
      | inl old ↦ old_covered g' keeps joined more a b old apart
      | inr (before, behind) ↦ new_covered g' keeps joined more a b before behind apart
    ];
  }

  -- The call leaves a sound graph.
  abbrev LeavesSound : Outcome → Type 0
  LeavesSound o = (g' : Graph) × (rank' : ℕ → ℕ) × (o ≡ done g') × IsSound g' rank'

  connected-LeavesSound :
      (g1 : Graph)
      → g1.child_depend ≡ g.child_depend
      → ((x : ℕ) → g.domain x ≢ 0 → g1.domain x ≡ g.domain x)
      → g1.domain p ≡ g1.domain c
      → g1.domain p ≢ 0
      → ((x y : ℕ) → lists g.domains x y ≡ true → lists g1.domains x y ≡ true)
      → LeavesSound (done (connect p c g1))
  connected-LeavesSound g1 same keeps joined some_domain more =
      let at : (x : ℕ) → (connect p c g1).domain x ≡ g1.domain x =
        λ x. ap (λ f. f x) (connect_domain p c g1) in
      (
        connect p c g1,
        new_rank g.child_depend rank sound.ranked p c no_way_back,
        refl,
        attached-IsSound (connect p c g1)
            (connect_children p c g1 ∙ ap (λ ch. with_edge ch p c) same) (λ x h. at x ∙ keeps x h)
            (at p ∙ joined ∙ sym (at c)) (λ z. some_domain (sym (at p) ∙ z))
            (λ x y h. rw (connect_domains p c g1) (more x y h)),
      )

  unchanged_domains :
      (g' : Graph)
      → g'.child_depend ≡ g.child_depend
      → g'.domain ≡ g.domain
      → g'.domains ≡ g.domains
      → LeavesSound (done g')
  unchanged_domains g' same_children same_domain same_domains = (
    g',
    rank,
    refl,
    record {
      ranked = rw same_children sound.ranked;
      placed = rw (same_children, same_domain) sound.placed;
      covered = rw (same_children, same_domain, same_domains) sound.covered;
    },
  )

  -- Neither object is in a domain: both are put into a new one.
  new_domain-LeavesSound :
      g.domain p ≡ 0
      → g.domain c ≡ 0
      → g.next_domain ≢ 0
      → LeavesSound (done (connect p c (new_domain p c g)))
  new_domain-LeavesSound dp dc some_number =
      let n = g.next_domain in
      let inner : (x : ℕ) → g.domain x ≢ 0 → update g.domain c n x ≡ g.domain x =
        λ x h. update-off g.domain c n x dc h in
      let other : (c == p) ≡ false = ground (arith, ne) in
      let at_p : (new_domain p c g).domain p ≡ n = update-at (update g.domain c n) p n in
      let at_c : (new_domain p c g).domain c ≡ n = rw other (update-at g.domain c n) in
      connected-LeavesSound (new_domain p c g) refl
        (λ x h. elim (Bool-cases (x == p)) [
          | inl same ↦ absurd (h (ap g.domain ((==_iff x p).0 same) ∙ dp))
          | inr off ↦ rw off (inner x h)
        ])
        (at_p ∙ sym at_c) (λ z. some_number (sym at_p ∙ z))
        (λ x y h. lists-more (record { number = n; reachable = [] }) g.domains x y h)

  -- One is in no domain: it is put into the other's.
  taken-LeavesSound :
      (k d : ℕ)
      → g.domain k ≡ 0
      → d ≢ 0
      → update g.domain k d p ≡ d
      → update g.domain k d c ≡ d
      → LeavesSound (done (connect p c (record g { domain = update g.domain k d })))
  taken-LeavesSound k d e some_domain at_p at_c =
      connected-LeavesSound (record g { domain = update g.domain k d }) refl
        (λ x h. update-off g.domain k d x e h) (at_p ∙ sym at_c) (λ z. some_domain (sym at_p ∙ z))
        (λ x y h. h)

  join_domains-LeavesSound :
      (fuel : ℕ) (mem : Memory) → g.next_domain ≢ 0 → LeavesSound (join_domains fuel mem p c g)
  unfolding join_domains
  join_domains-LeavesSound fuel mem some_number = elim (Bool-cases (g.domain p == 0)) [
    | inl dp ↦
        let zp : g.domain p ≡ 0 = (==_iff _ _).0 dp in
        elim (Bool-cases (g.domain c == 0)) [
          | inl dc ↦ elim (Bool-cases mem.domain_block) [
            | inl m ↦ elim (Bool-cases mem.reachable_list) [
              | inl l ↦
                  rw (dp, dc, m, l) (new_domain-LeavesSound zp ((==_iff _ _).0 dc) some_number)
              | inr l ↦
                  rw (dp, dc, m, l)
                    (unchanged_domains (record g { next_domain = u32 (g.next_domain + 1) }) refl
                      refl refl)
            ]
            | inr m ↦ rw (dp, dc, m) (unchanged_domains g refl refl refl)
          ]
          | inr dc ↦
              let off : (c == p) ≡ false = ground (arith, ne) in
              rw (dp, dc)
                (taken-LeavesSound p (g.domain c) zp (ground (arith, dc))
                  (update-at g.domain p (g.domain c)) (rw off refl))
        ]
    | inr dp ↦
        let zc : g.domain c ≡ 0 = elim fresh [
          | inl e ↦ absurd (ground (arith, dp, e))
          | inr e ↦ e
        ] in
        let off : (p == c) ≡ false = ground (arith, ne) in
        rw (dp, (==_iff (g.domain c) 0).1 zc)
          (taken-LeavesSound c (g.domain p) zc (ground (arith, dp)) (rw off refl)
            (update-at g.domain c (g.domain p)))
  ]

-- Let a graph have no cycle, let objects outside all domains have no dependencies, and let each domain
-- list all others that can be reached from it. Where the parent or the child is in no domain yet, and
-- the number of the next domain is not 0, myrefl_depend_create returns at any depth, whatever memory
-- it gets, and all of this holds of the graph that it leaves: a dependency of an object that is new to
-- the graph, or on it, keeps the graph free of cycles.
pub depend_create-IsSound :
    (g : Graph) (rank : ℕ → ℕ) (p c fuel : ℕ) (mem : Memory)
    → IsSound g rank
    → (g.domain p ≡ 0) ⊎ (g.domain c ≡ 0)
    → g.next_domain ≢ 0
    → (g' : Graph) × (rank' : ℕ → ℕ) × (depend_create fuel mem (some p) (some c) g ≡ done g')
      × IsSound g' rank'
unfolding depend_create
depend_create-IsSound g rank p c fuel mem sound fresh some_number =
    let unchanged : (g' : Graph) × (rank' : ℕ → ℕ) × (done g ≡ done g') × IsSound g' rank' =
      (g, rank, refl, sound) in
    elim (Bool-cases (depends (g.kind p) && depends (g.kind c))) [
      | inr bad ↦ rw bad unchanged
      | inl good ↦ elim (Bool-cases (p == c)) [
        | inl same ↦ rw (good, same) unchanged
        | inr other ↦ elim (Bool-cases (has c (g.child_depend p) || has p (g.parent_depend c))) [
          | inl old ↦ rw (good, other, old) unchanged
          | inr new ↦
              let ne : p ≢ c = ground (arith, other) in
              rw (good, other, new)
                (join_domains-LeavesSound g rank sound p c ne fresh fuel mem some_number)
        ]
      ]
    ]
