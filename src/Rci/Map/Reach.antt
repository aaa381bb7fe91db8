-- ===== src/Rci/Map/Reach.antt =====
-- The traversal of src/myrefl_rci.c returns, and has found all that its start leads to.
use myreflection.Common.{
  ℕ, zero, suc, ◌+◌, ◌≤◌, ◌<◌, ◌≡◌, refl, sym, ap, subst, ◌∙◌, inl, inr, true, false, Bool, not,
  ◌&&◌, Option, none, some, List, [], ◌∷◌, arith, has, if◌then◌else◌, ◌==◌, Bool-cases,
  some_injective,
}
use myreflection.Types.{is_enabled}
use myreflection.Rci.Map.{
  World, Direction, settled, outer, dependencies, boundary, Trip, Job, note, visit_element, walk,
  step_out, expand, map_function,
}
use myreflection.Rci.Map.Leads.{
  is_open, Leads, along, outward, Leads-cases, IsSite, unvisited, unvisited-le, unvisited-lt, calls,
  calls-lt, boundary-parent_comp, dependencies-comp, dependencies-settled, settled-outer,
  settled_twice,
}
use myreflection.Rci.Map.Traversed.{
  Contract, Applies, Traversed, Traversed-none, Traversed-then, Traversed-note, Traversed-element,
}

-- The two early returns.
entered {ℓ} :
    {A : Type ℓ} (a b : Bool) (x y : A)
    → (a && b) ≡ true
    → (if not a then x else if not b then x else y) ≡ y
entered true true x y e = refl
entered true false x y e = cc
entered false b x y e = cc

refused {ℓ} :
    {A : Type ℓ} (a b : Bool) (x y : A)
    → (a && b) ≡ false
    → (if not a then x else if not b then x else y) ≡ x
refused true true x y e = cc
refused true false x y e = refl
refused false b x y e = refl

module _ (c : Contract) (j : Job) (dir : Direction) (within : ℕ → Type 0) (objects : List ℕ)
    (depth : ℕ → ℕ) (top : ℕ) (site : IsSite j.site objects depth top)
    (member : (a : ℕ) → within a → has a objects ≡ true)
    (onward : (a b : ℕ) → within a → Leads j.site dir (j.site.base a) b → within b)
    (applies : Applies c j within) where
  -- A call returns, and has done its part with all that the instance leads to.
  abbrev pub Returns : Direction → ℕ → List ℕ → World → Option Trip → Type 0
  Returns d i h w o =
      (t : Trip) × (o ≡ some t)
      × Traversed c j dir within h w j.default_state t
      × ((b : ℕ) → Leads j.site d i b → has b t.history ≡ true)

  -- The calls for elements, as long as fewer than `n` objects are unvisited.
  abbrev Inner : ℕ → (ℕ → List ℕ → World → Option Trip) → Type 0
  Inner n visit =
      (o : ℕ) (h : List ℕ) (w : World)
      → within o
      → c.inv w
      → unvisited objects h < n
      → Returns dir (j.site.base o) h w (visit (j.site.base o) h w)

  visit_element-Traversed :
      (n : ℕ) (visit : ℕ → List ℕ → World → Option Trip) (o : ℕ) (t : Trip)
      → Inner n visit
      → within o
      → has o t.history ≡ false
      → c.inv t.world
      → unvisited objects t.history ≤ n
      → (t' : Trip) × (visit_element j visit o t ≡ some t')
        × Traversed c j dir within t.history t.world t.retval t'
        × (has o t'.history ≡ true)
  unfolding visit_element has
  visit_element-Traversed n visit o t inner win out inv le =
      let (r, w, applied, inv1, stays, mark, v) = applies o t.retval t.world win inv in
      let fewer = unvisited-lt objects t.history o (member o win) out in
      let (t1, called, done, leads) =
        inner o (o ∷ t.history) w win inv1 (omega (arith, fewer, le)) in
      let noted = Traversed-note c j dir within (o ∷ t.history) w r t1 done in
      rw (applied, called)
        (
          record t1 { retval = note j.default_state t1.retval r },
          refl,
          Traversed-element c j dir within o t.history t.world t.retval r w _ out win stays mark v
              noted leads,
          done.kept o (ground arith),
        )

  walk-Traversed :
      (n : ℕ) (visit : ℕ → List ℕ → World → Option Trip) (os : List ℕ) (t : Trip)
      → Inner n visit
      → ((b : ℕ) → has b os ≡ true → within b)
      → c.inv t.world
      → unvisited objects t.history ≤ n
      → (t' : Trip) × (walk j visit os t ≡ some t')
        × Traversed c j dir within t.history t.world t.retval t'
        × ((b : ℕ) → has b os ≡ true → has b t'.history ≡ true)
  unfolding walk has
  walk-Traversed n visit [] t inner win inv le =
      (t, refl, Traversed-none c j dir within t.history t.world t.retval inv, λ b m. cc m)
  walk-Traversed n visit (o ∷ os) t inner win inv le = elim (Bool-cases (has o t.history)) [
    | inl there ↦
        let (t2, walked, done, all) =
          walk-Traversed n visit os t inner (λ b m. win b (ground (arith, m))) inv le in
        rw there (
          t2,
          walked,
          done,
          λ b m. elim (Bool-cases (o == b)) [
            | inl e ↦ done.kept b (ground (arith, e, there))
            | inr e ↦ all b (ground (arith, e, m))
          ],
        )
    | inr out ↦
        let (t1, visited, did, here) =
          visit_element-Traversed n visit o t inner (win o (ground arith)) out inv le in
        let less = unvisited-le objects t.history t1.history did.kept in
        let (t2, walked, done, all) =
          walk-Traversed n visit os t1 inner (λ b m. win b (ground (arith, m))) did.inv
            (omega (arith, less, le)) in
        rw (out, visited)
          (
            t2,
            walked,
            Traversed-then c j dir within t.history t.world t.retval t1 t2 did done,
            λ b m. elim (Bool-cases (o == b)) [
              | inl e ↦ done.kept b (ground (arith, e, here))
              | inr e ↦ all b (ground (arith, e, m))
            ],
          )
  ]

  step_out-Traversed :
      (out : ℕ → List ℕ → World → Option Trip) (d : Direction) (k : Option ℕ) (t : Trip)
      → ((m : ℕ)
          → k ≡ some m
          → Returns d (j.site.base m) t.history t.world (out (j.site.base m) t.history t.world))
      → c.inv t.world
      → (t' : Trip) × (step_out j out k t ≡ some t')
        × Traversed c j dir within t.history t.world t.retval t'
        × ((m b : ℕ) → k ≡ some m → Leads j.site d (j.site.base m) b → has b t'.history ≡ true)
  unfolding step_out
  step_out-Traversed out d none t returns inv = (
    t,
    refl,
    Traversed-none c j dir within t.history t.world t.retval inv,
    λ m b e l. absurd (cc e),
  )
  step_out-Traversed out d (some k) t returns inv =
      let (t1, called, done, leads) = returns k refl in
      rw called (
        record t1 { retval = note j.default_state t1.retval t.retval },
        refl,
        Traversed-note c j dir within t.history t.world t.retval t1 done,
        λ m b e l.
            leads b (subst (λ x. Leads j.site d (j.site.base x) b) (sym (some_injective e)) l),
      )

  expand-Returns :
      (inner out : ℕ → List ℕ → World → Option Trip) (d : Direction) (i : ℕ) (h : List ℕ)
      (w : World)
      → (xs : List ℕ)
      → dependencies j.site.graph d (j.site.graph.kind (j.site.owner i)) (j.site.owner i) ≡ some xs
      → is_open j.site i ≡ true
      → ((b : ℕ) → Leads j.site d i b → within b)
      → c.inv w
      → Inner (unvisited objects h) inner
      → ((k : ℕ)
          → boundary j.site.graph d (j.site.owner i) ≡ some k
          → Returns (outer d) (j.site.base k) h w (out (j.site.base k) h w))
      → Returns d i h w (
          expand j inner out
            (boundary j.site.graph d (j.site.owner i))
            (some xs)
            (record { retval = j.default_state; history = h; world = w }))
  unfolding expand
  expand-Returns inner out d i h w xs deps opened win inv works outs =
      let start : Trip = record { retval = j.default_state; history = h; world = w } in
      let (t1, stepped, did, crossed) =
        step_out-Traversed out (outer d) (boundary j.site.graph d (j.site.owner i)) start outs
          inv in
      let less = unvisited-le objects h t1.history did.kept in
      let (t2, walked, done, all) =
        walk-Traversed (unvisited objects h) inner xs t1 works (λ b m. win b (along opened deps m))
          did.inv less in
      rw (stepped, walked)
        (
          t2,
          refl,
          Traversed-then c j dir within h w j.default_state t1 t2 did done,
          λ b l. elim (Leads-cases l).1 [
            | inl (ys, e, m) ↦
                all b (subst (λ zs. has b zs ≡ true) (some_injective (sym e ∙ deps)) m)
            | inr (k, e, l') ↦ done.kept b (crossed k b e l')
          ],
        )

  -- A call of this depth returns wherever the depth is enough.
  abbrev pub Callable : ℕ → Type 0
  Callable fuel =
      (d : Direction) (i : ℕ) (h : List ℕ) (w : World)
      → settled d ≡ dir
      → ((xs : List ℕ) × (dependencies j.site.graph d (j.site.graph.kind (j.site.owner i))
              (j.site.owner i)
            ≡ some xs))
      → ((b : ℕ) → Leads j.site d i b → within b)
      → c.inv w
      → calls top (unvisited objects h) + depth (j.site.owner i) < fuel
      → Returns d i h w (map_function fuel j d i h w)

  Callable-Inner :
      (fuel n : ℕ) (d : Direction)
      → Callable fuel
      → settled d ≡ dir
      → calls top n < suc fuel
      → Inner n (map_function fuel j (settled d))
  Callable-Inner fuel n d call e k =
      subst (λ x. Inner n (map_function fuel j x)) (sym e)
        (λ o h w in_o inv lt.
          let g = j.site.graph in
          let typed = dependencies-settled g d (g.kind o) o (site.typed o (member o in_o)) in
          call dir (j.site.base o) h w (sym (ap settled e) ∙ settled_twice d ∙ e)
            (subst (λ q. (xs : List ℕ) × (dependencies g dir (g.kind q) q ≡ some xs))
              (sym (site.owned o))
              (subst (λ x. (xs : List ℕ) × (dependencies g x (g.kind o) o ≡ some xs)) e typed))
            (λ b l. onward o b in_o l) inv
            (subst (λ q. calls top (unvisited objects h) + depth q < fuel) (sym (site.owned o))
              (omega (arith, k, calls-lt top (unvisited objects h) n lt, site.bounded o))))

  Callable-outer :
      (fuel : ℕ) (d : Direction) (i m : ℕ) (h : List ℕ) (w : World)
      → Callable fuel
      → settled d ≡ dir
      → is_open j.site i ≡ true
      → ((b : ℕ) → Leads j.site d i b → within b)
      → c.inv w
      → calls top (unvisited objects h) + depth (j.site.owner i) < suc fuel
      → boundary j.site.graph d (j.site.owner i) ≡ some m
      → Returns (outer d) (j.site.base m) h w (map_function fuel j (outer d) (j.site.base m) h w)
  Callable-outer fuel d i m h w call e opened win inv k edge =
      let g = j.site.graph in
      let (kind, lower) =
        site.contained (j.site.owner i) m (boundary-parent_comp g d (j.site.owner i) m edge) in
      call (outer d) (j.site.base m) h w (settled-outer d ∙ e)
        (subst (λ q. (xs : List ℕ) × (dependencies g (outer d) (g.kind q) q ≡ some xs))
          (sym (site.owned m))
          (subst (λ t. (xs : List ℕ) × (dependencies g (outer d) t m ≡ some xs)) (sym kind)
            (dependencies-comp g d m)))
        (λ b l. win b (outward opened edge l)) inv
        (subst (λ q. calls top (unvisited objects h) + depth q < fuel) (sym (site.owned m))
          (omega (arith, k, lower)))

  pub map_function-Returns : (fuel : ℕ) → Callable fuel
  unfolding map_function
  map_function-Returns zero d i h w e deps win inv k = absurd (omega (arith, k))
  map_function-Returns (suc fuel) d i h w e (xs, deps) win inv k =
      let s = j.site in
      let start : Trip = record { retval = j.default_state; history = h; world = w } in
      let inner = map_function fuel j (settled d) in
      let out = map_function fuel j (outer d) in
      let edge = boundary s.graph d (s.owner i) in
      let run =
        expand j inner out edge (dependencies s.graph d (s.graph.kind (s.owner i)) (s.owner i))
          start in
      let call = map_function-Returns fuel in
      elim (Bool-cases (is_open s i)) [
        | inl opened ↦
            subst (Returns d i h w)
              (sym (entered (is_enabled (s.state i)) (s.valid (s.owner i)) (some start) run opened))
              (subst (λ ys. Returns d i h w (expand j inner out edge ys start)) (sym deps)
                (expand-Returns inner out d i h w xs deps opened win inv
                  (Callable-Inner fuel (unvisited objects h) d call e (omega (arith, k)))
                  (λ m at. Callable-outer fuel d i m h w call e opened win inv k at)))
        | inr shut ↦
            subst (Returns d i h w)
              (sym (refused (is_enabled (s.state i)) (s.valid (s.owner i)) (some start) run shut))
              (
                start,
                refl,
                Traversed-none c j dir within h w j.default_state inv,
                λ b l. absurd (cc ((Leads-cases l).0, shut)),
              )
      ]
