-- ===== src/Rci/Depend/Create.antt =====
-- `myrefl_depend_create` keeps the dependency graph free of cycles.
use myreflection.Common.{
  update, ℕ, ◌+◌, ◌<◌, ◌≡◌, ◌≢◌, refl, sym, ap, subst, ◌∙◌, ◌⊎◌, inl, inr, Bool, true, false, ◌&&◌,
  ◌||◌, some, List, [], ◌∷◌, arith, ◌==◌, ==_iff, if◌then◌else◌, has, Bool-cases,
}
use myreflection.Types.{u32}
use myreflection.Rci.Depend.{
  Domain, Graph, is_obj_in_tree, passed, looped, walk_domains, Outcome, done, connect, Memory,
  new_domain, join_domains, depends, depend_create,
}
use myreflection.Rci.Depend.Search.{Reaches, here, down, Reaches-cases, IsRanked, search_decides}
use myreflection.Rci.Depend.Acyclic.{with_edge, new_rank, IsRanked-with_edge}

-- Is there a domain of this number that lists the other as reachable?
unfoldable pub lists : List Domain → ℕ → ℕ → Bool
lists [] x y = false
lists (d ∷ ds) x y = (d.number == x && has y d.reachable) || lists ds x y

-- The walk ends in a loop exactly when the search found one and the child's domain lists the
-- parent's.
walk_end :
    (b : Bool) (dp dc : ℕ) (ds : List Domain)
    → dp ≢ dc
    → (walk_domains (some b) dp dc ds).1 ≡ (if b && lists ds dc dp then looped else passed)
unfolding walk_domains lists
walk_end true dp dc [] ne = refl
walk_end false dp dc [] ne = refl
walk_end b dp dc (d ∷ ds) ne = ground (arith, walk_end b dp dc ds ne)

pub connect_children :
    (p c : ℕ) (g : Graph) → (connect p c g).child_depend ≡ with_edge g.child_depend p c
unfolding connect
connect_children p c g = ground arith

-- The graph has no cycle; objects outside all domains have no dependencies; and the domains list
-- what can be reached from them.
pub record IsSound (g : Graph) (rank : ℕ → ℕ) : Type 0 where
  pub ranked : IsRanked g.child_depend rank
  pub placed : (a b : ℕ) → has b (g.child_depend a) ≡ true → (g.domain a ≢ 0) × (g.domain b ≢ 0)
  pub covered :
      (a b : ℕ)
      → Reaches g.child_depend a b
      → g.domain a ≢ g.domain b
      → lists g.domains (g.domain a) (g.domain b) ≡ true

-- Why a dependency is not made.
pub data Refusal (mem : Memory) (g : Graph) (p c : ℕ) : Type 0 where
  wrong_type : depends (g.kind p) && depends (g.kind c) ≡ false → Refusal mem g p c
  itself : p ≡ c → Refusal mem g p c
  linked : has c (g.child_depend p) || has p (g.parent_depend c) ≡ true → Refusal mem g p c
  no_memory : mem.domain_block && mem.reachable_list ≡ false → Refusal mem g p c
  loop : Reaches g.child_depend c p → Refusal mem g p c

-- The call returns; the graph has no cycle; and the dependency was made, where the child does not
-- lead back to the parent, or was not, for a reason.
abbrev pub Keeps : Memory → ℕ → ℕ → Graph → Outcome → Type 0
Keeps mem p c g o =
    (g' : Graph) × (rank' : ℕ → ℕ) × (o ≡ done g')
    × IsRanked g'.child_depend rank'
    × (((g'.child_depend ≡ g.child_depend) × Refusal mem g p c)
        ⊎ ((g'.child_depend ≡ with_edge g.child_depend p c) × (¬ Reaches g.child_depend c p)))

-- A path that is not empty has a last dependency.
pub last_edge :
    {children : ℕ → List ℕ} {a b : ℕ}
    → Reaches children a b
    → (a ≡ b) ⊎ ((x : ℕ) × (has b (children x) ≡ true))
last_edge here = inl refl
last_edge {children} (down {a} m r) = elim (last_edge r) [
  | inl e ↦ inr (a, subst (λ y. has y (children a) ≡ true) e m)
  | inr found ↦ inr found
]

module _ (g : Graph) (rank : ℕ → ℕ) (sound : IsSound g rank) (p c : ℕ) (ne : p ≢ c)
    (mem : Memory) where
  made :
      (g' : Graph)
      → g'.child_depend ≡ g.child_depend
      → ¬ Reaches g.child_depend c p
      → Keeps mem p c g (done (connect p c g'))
  made g' same no_path =
      let e : (connect p c g').child_depend ≡ with_edge g.child_depend p c =
        connect_children p c g' ∙ ap (λ ch. with_edge ch p c) same in
      (
        connect p c g',
        new_rank g.child_depend rank sound.ranked p c no_path,
        refl,
        rw e (IsRanked-with_edge g.child_depend rank sound.ranked p c no_path),
        inr (e, no_path),
      )

  kept :
      (g' : Graph)
      → g'.child_depend ≡ g.child_depend
      → Refusal mem g p c
      → Keeps mem p c g (done g')
  kept g' same why = (g', rank, refl, rw same sound.ranked, inl (same, why))

  unplaced_parent : g.domain p ≡ 0 → ¬ Reaches g.child_depend c p
  unplaced_parent e r = elim (last_edge r) [
    | inl same ↦ ne (sym same)
    | inr (x, m) ↦ (sound.placed x p m).1 e
  ]

  unplaced_child : g.domain c ≡ 0 → ¬ Reaches g.child_depend c p
  unplaced_child e r = elim (Reaches-cases r) [
    | inl same ↦ ne (sym same)
    | inr (x, m, rest) ↦ (sound.placed c x m).0 e
  ]

  module _ (fuel : ℕ) (enough : rank c < fuel) where
    search_cases :
        ((is_obj_in_tree fuel g.child_depend p c ≡ some true) × Reaches g.child_depend c p)
        ⊎ ((is_obj_in_tree fuel g.child_depend p c ≡ some false) × (¬ Reaches g.child_depend c p))
    search_cases = search_decides g.child_depend rank fuel p c sound.ranked enough

    -- Neither object is in a domain yet.
    both_unplaced : g.domain p ≡ 0 → g.domain c ≡ 0 → Keeps mem p c g (join_domains fuel mem p c g)
    unfolding join_domains
    both_unplaced dp dc = elim (Bool-cases mem.domain_block) [
      | inl m ↦ elim (Bool-cases mem.reachable_list) [
        | inl l ↦
            let e : join_domains fuel mem p c g ≡ done (connect p c (new_domain p c g)) =
              rw (dp, dc, m, l) in
            subst (Keeps mem p c g) (sym e) (made (new_domain p c g) refl (unplaced_parent dp))
        | inr l ↦
            let counted = record g { next_domain = u32 (g.next_domain + 1) } in
            let e : join_domains fuel mem p c g ≡ done counted = rw (dp, dc, m, l) in
            subst (Keeps mem p c g) (sym e) (kept counted refl (no_memory (ground (arith, m, l))))
      ]
      | inr m ↦
          let e : join_domains fuel mem p c g ≡ done g = rw (dp, dc, m) in
          subst (Keeps mem p c g) (sym e) (kept g refl (no_memory (ground (arith, m))))
    ]

    -- Both are in the same one.
    same_domain :
        (g.domain p == 0) ≡ false
        → (g.domain c == 0) ≡ false
        → (g.domain c == g.domain p) ≡ true
        → Keeps mem p c g (join_domains fuel mem p c g)
    unfolding join_domains
    same_domain dp dc same = elim search_cases [
      | inl (e, r) ↦ rw (dp, dc, same, e) (kept g refl (loop r))
      | inr (e, n) ↦ rw (dp, dc, same, e) (made g refl n)
    ]

    -- They are in different ones.
    other_domain :
        (g.domain p == 0) ≡ false
        → (g.domain c == 0) ≡ false
        → (g.domain c == g.domain p) ≡ false
        → Keeps mem p c g (join_domains fuel mem p c g)
    unfolding join_domains
    other_domain dp dc other =
        let apart : g.domain p ≢ g.domain c = ground (arith, other) in
        elim search_cases [
          | inl (e, r) ↦
              let listed = sound.covered c p r (λ q. apart (sym q)) in
              let end = walk_end true (g.domain p) (g.domain c) g.domains apart in
              rw (dp, dc, other, e, end, listed) (kept _ refl (loop r))
          | inr (e, n) ↦
              let end = walk_end false (g.domain p) (g.domain c) g.domains apart in
              let walked = walk_domains (some false) (g.domain p) (g.domain c) g.domains in
              rw (dp, dc, other, e, end) (made (record g { domains = walked.0 }) refl n)
        ]

    join_domains-Keeps : Keeps mem p c g (join_domains fuel mem p c g)
    unfolding join_domains
    join_domains-Keeps = elim (Bool-cases (g.domain p == 0)) [
      | inl dp ↦
          let zp = (==_iff _ _).0 dp in
          elim (Bool-cases (g.domain c == 0)) [
            | inl dc ↦ both_unplaced zp ((==_iff _ _).0 dc)
            | inr dc ↦
                rw (dp, dc)
                  (made (record g { domain = update g.domain p (g.domain c) }) refl
                    (unplaced_parent zp))
          ]
      | inr dp ↦ elim (Bool-cases (g.domain c == 0)) [
        | inl dc ↦
            rw (dp, dc)
              (made (record g { domain = update g.domain c (g.domain p) }) refl
                (unplaced_child ((==_iff _ _).0 dc)))
        | inr dc ↦ elim (Bool-cases (g.domain c == g.domain p)) [
          | inl same ↦ same_domain dp dc same
          | inr other ↦ other_domain dp dc other
        ]
      ]
    ]

-- Let a graph have no cycle, let objects outside all domains have no dependencies, and let each domain
-- list all others that can be reached from it. Then, given depth enough for the child's rank,
-- myrefl_depend_create returns, for any two objects and whatever memory it gets, and the graph it
-- leaves has no cycle. It makes the dependency only where no path led from the child to the parent,
-- and refuses it, with the dependencies as they were, only for a wrong type, equal objects, an old
-- link between them, lack of memory, or such a path. That the domains of the new graph list what can
-- be reached from them is not stated.
pub depend_create-Keeps :
    (g : Graph) (rank : ℕ → ℕ) (p c fuel : ℕ) (mem : Memory)
    → IsSound g rank
    → rank c < fuel
    → Keeps mem p c g (depend_create fuel mem (some p) (some c) g)
unfolding depend_create
depend_create-Keeps g rank p c fuel mem sound enough =
    let unchanged : Refusal mem g p c → Keeps mem p c g (done g) =
      λ why. (g, rank, refl, sound.ranked, inl (refl, why)) in
    elim (Bool-cases (depends (g.kind p) && depends (g.kind c))) [
      | inr bad ↦ rw bad (unchanged (wrong_type bad))
      | inl good ↦ elim (Bool-cases (p == c)) [
        | inl same ↦ rw (good, same) (unchanged (itself ((==_iff p c).0 same)))
        | inr other ↦ elim (Bool-cases (has c (g.child_depend p) || has p (g.parent_depend c))) [
          | inl old ↦ rw (good, other, old) (unchanged (linked old))
          | inr new ↦
              let ne : p ≢ c = ground (arith, other) in
              rw (good, other, new) (join_domains-Keeps g rank sound p c ne mem fuel enough)
        ]
      ]
    ]
