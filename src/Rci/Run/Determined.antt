-- ===== src/Rci/Run/Determined.antt =====
-- Whether a candidate is the root cause: `rci_determine_if_root_cause` of src/myrefl_rci.c.
use myreflection.Common.{
  ℕ, ◌≡◌, refl, ap, ◌∙◌, ◌⊎◌, inl, inr, true, false, Bool, ◌&&◌, Option, none, some, List, [], ◌∷◌,
  arith, has, if◌then◌else◌, Bool-cases, ◌>>=◌,
}
use myreflection.Types.{is_pass, is_fail, ObjState, is_enabled, ObjType}
use myreflection.Rci.Map.{
  root_cause_not, root_cause, Request, found, World, Site, parents, children, targets, only_enabled,
}
use myreflection.Rci.Map.Leads.{IsSite, dependencies-settled}
use myreflection.Rci.Map.Explored.{Enough, Reached, map_rules-tests}
use myreflection.Rci.Run.{
  is_candidate, set_root_cause, request, instance_name, passed, not_rcc, is_found, settle,
  determine, determine_if_root_cause, enabled, start_or_found, handle_failed,
  schedule_dependent_rules,
}
use myreflection.Rci.Depend.{depends}
use myreflection.Rci.Run.Propagated.{IsBelowed, requested, propagate-clears}

only_enabled-enabled :
    (state : ℕ → ObjState) (is : List ℕ) (k : ℕ)
    → has k (only_enabled state is) ≡ true
    → is_enabled (state k) ≡ true
unfolding only_enabled has
only_enabled-enabled state [] k m = cc m
only_enabled-enabled state (i ∷ is) k m = ground (arith, only_enabled-enabled state is k, m)

targets-enabled :
    (s : Site) (n : Option ℕ) (t : ObjType) (o k : ℕ)
    → has k (targets s n t o) ≡ true
    → is_enabled (s.state k) ≡ true
unfolding targets has
targets-enabled s n ObjType.rule o k m = only_enabled-enabled s.state _ k m
targets-enabled s n ObjType.any o k m = cc m
targets-enabled s n ObjType.none o k m = cc m
targets-enabled s n ObjType.test o k m = cc m
targets-enabled s n ObjType.action o k m = cc m
targets-enabled s n ObjType.comp o k m = cc m

-- A failing candidate, once it is determined: some instance reached below it does not pass, and it is
-- a candidate no more; or all of them pass, but one is a candidate, and nothing changes; or all pass
-- and none is a candidate, so that it is the root cause, the sequencer is told so, and no instance
-- reached above it is one any more.
abbrev pub Determined : Site → ℕ → World → World → Type 0
Determined s i w w' =
    ((k : ℕ) × Reached s (instance_name s i) children i k
      × (is_pass (s.last_result k) ≡ false)
      × (w' ≡ set_root_cause i root_cause_not w))
    ⊎ (((k : ℕ) → Reached s (instance_name s i) children i k → is_pass (s.last_result k) ≡ true)
        × ((((k : ℕ) × Reached s (instance_name s i) children i k
                × (is_candidate (w.root_cause k) ≡ true))
              × (w' ≡ w))
            ⊎ (((k : ℕ)
                  → Reached s (instance_name s i) children i k
                  → is_candidate (w.root_cause k) ≡ false)
                × (w'.root_cause i ≡ root_cause)
                × ((rs : List Request) × (w'.requests ≡ found i ∷ rs))
                × ((k : ℕ) → Reached s (instance_name s i) parents i k → IsBelowed s i k w'))))

module _ (s : Site) (fuel i : ℕ) (w : World) (objects : List ℕ) (depth : ℕ → ℕ) (top : ℕ)
    (site : IsSite s objects depth top) (typed : depends (s.graph.kind (s.owner i)) ≡ true)
    (enough : Enough fuel s objects depth top i) where
  is_found-Determined :
      (w' : World) × (is_found fuel s i w ≡ some w')
      × (w'.root_cause i ≡ root_cause)
      × ((rs : List Request) × (w'.requests ≡ found i ∷ rs))
      × ((k : ℕ) → Reached s (instance_name s i) parents i k → IsBelowed s i k w')
  unfolding is_found requested
  is_found-Determined =
      let (w', e, only, below) =
        propagate-clears s fuel i (set_root_cause i root_cause w) objects depth top site
          (dependencies-settled s.graph parents (s.graph.kind (s.owner i)) (s.owner i) typed)
          enough in
      let stays : w'.root_cause i ≡ root_cause = elim (only i) [
        | inl same ↦ ground (arith, same)
        | inr changed ↦ absurd (changed.0 refl)
      ] in
      (
        request (found i) w',
        ap (λ o. o >>= λ v. some (request (found i) v)) e,
        stays,
        (w'.requests, refl),
        λ k r ne. ((below k r ne).0, λ p. (below k r ne).1 p),
      )

  determine-Determined : (w' : World) × (determine fuel s i w ≡ some w') × Determined s i w w'
  unfolding determine settle
  determine-Determined =
      let deps =
        dependencies-settled s.graph children (s.graph.kind (s.owner i)) (s.owner i) typed in
      let (all, e, passes) =
        map_rules-tests s (passed s) (instance_name s i) true children fuel i w objects depth top
          site deps enough in
      let (none_left, e', candidates) =
        map_rules-tests s (not_rcc s) (instance_name s i) true children fuel i w objects depth top
          site deps enough in
      let run = ap (λ o. o >>= λ a. settle fuel s i a.0 w) e in
      let look =
        ap (λ o. o >>= λ (a : Bool × World). if a.0 then is_found fuel s i w else some w) e' in
      let on = λ (k : ℕ) (r : Reached s (instance_name s i) children i k).
        targets-enabled s (instance_name s i) (s.graph.kind r.0) r.0 k r.2 in
      elim passes [
        | inr (differs, (k, r, bad)) ↦ (
          set_root_cause i root_cause_not w,
          run ∙ ap (λ b. settle fuel s i b w) differs,
          inl (k, r, ground (arith, bad), refl),
        )
        | inl (same, pass) ↦
            let settled_true = run ∙ ap (λ b. settle fuel s i b w) same in
            let all_pass : (k : ℕ)
                → Reached s (instance_name s i) children i k
                → is_pass (s.last_result k) ≡ true =
              λ k r. ground (arith, pass k r, on k r) in
            elim candidates [
              | inr (differs, (k, r, bad)) ↦ (
                w,
                settled_true ∙ look ∙ ap (λ b. if b then is_found fuel s i w else some w) differs,
                inr (all_pass, inl ((k, r, ground (arith, bad)), refl)),
              )
              | inl (left, clear) ↦
                  let (w', found_it, is_cause, told, above) = is_found-Determined in
                  (
                    w',
                    settled_true
                        ∙ look
                        ∙ ap (λ b. if b then is_found fuel s i w else some w) left
                        ∙ found_it,
                    inr (
                      all_pass,
                      inr (λ k r. ground (arith, clear k r, on k r), is_cause, told, above),
                    ),
                  )
            ]
      ]

  -- On a site (IsSite), for an instance of an object that may have dependencies and to a depth of
  -- calls that is enough (Enough), rci_determine_if_root_cause returns TRUE, even where
  -- dependencies form a cycle. An enabled candidate that fails is decided by all enabled instances
  -- that are reached below it, through components (Determined); any other instance stays as it is.
  pub determine_if_root_cause-Determined :
      (w' : World) × (determine_if_root_cause fuel s i w ≡ some (true, w'))
      × (((is_enabled (s.state i) && (is_candidate (w.root_cause i) && is_fail (s.last_result i))
              ≡ true)
            × Determined s i w w')
          ⊎ ((is_enabled (s.state i) && (is_candidate (w.root_cause i) && is_fail (s.last_result i))
                ≡ false)
              × (w' ≡ w)))
  unfolding determine_if_root_cause
  determine_if_root_cause-Determined =
      elim (Bool-cases
        (is_enabled (s.state i) && (is_candidate (w.root_cause i) && is_fail (s.last_result i)))) [
          | inl holds ↦
              let (w', e, decided) = determine-Determined in
              rw (holds, e) (w', refl, inl (refl, decided))
          | inr fails ↦ rw fails (w, refl, inr (refl, refl))
        ]

  -- On a site (IsSite), for an instance of an object that may have dependencies and to a depth of
  -- calls that is enough, and for a rule that is no candidate and no root cause,
  -- rci_handle_failed_rule_status_report starts an identification below it if an enabled instance,
  -- of any name, is reached there. Otherwise it returns, the rule is the root cause, the sequencer
  -- is told so, and no instance reached above it is one any more.
  pub handle_failed-Decides :
      (deep : ℕ)
      → (((k : ℕ) × Reached s none children i k)
          × (handle_failed deep fuel s i root_cause_not w
              ≡ (schedule_dependent_rules deep fuel s i w >>= λ r. some r.1)))
        ⊎ (((k : ℕ) → ¬ Reached s none children i k)
            × ((w' : World) × (handle_failed deep fuel s i root_cause_not w ≡ some w')
                × (w'.root_cause i ≡ root_cause)
                × ((rs : List Request) × (w'.requests ≡ found i ∷ rs))
                × ((k : ℕ) → Reached s (instance_name s i) parents i k → IsBelowed s i k w')))
  unfolding handle_failed start_or_found
  handle_failed-Decides deep =
      let deps =
        dependencies-settled s.graph children (s.graph.kind (s.owner i)) (s.owner i) typed in
      let (any_on, e, reached) =
        map_rules-tests s (enabled s) none false children fuel i w objects depth top site deps
          enough in
      let run = ap (λ o. o >>= λ a. start_or_found deep fuel s i a.0 w) e in
      elim reached [
        | inl (same, off) ↦
            let (w', found_it, is_cause, told, above) = is_found-Determined in
            inr (
              λ k r. cc (targets-enabled s none (s.graph.kind r.0) r.0 k r.2, off k r),
              (
                w',
                run ∙ ap (λ b. start_or_found deep fuel s i b w) same ∙ found_it,
                is_cause,
                told,
                above,
              ),
            )
        | inr (differs, (k, r, on)) ↦
            inl ((k, r), run ∙ ap (λ b. start_or_found deep fuel s i b w) differs)
      ]
