-- ===== src/Api/Components/Settled.antt =====
-- `myrefl_api_comp_enable_guts` and `myrefl_api_comp_disable_guts` (src/myrefl_api.c) as a whole.
use myreflection.Common.{
  ℕ, ◌<◌, ◌≡◌, refl, sym, ◌∙◌, ap, subst, Bool, true, false, some, List, [], ◌∷◌, ◌==◌, ==_iff,
  arith, update, has, length, Bool-cases, inl, inr,
}
use myreflection.Types.{comp}
use myreflection.Api.States.{Instance, Call, is_disabled, disable, instances, running, phase_of}
use myreflection.Api.Chaining.{Store}
use myreflection.Api.Containment.{Containment}
use myreflection.Api.Containment.Listed.{Forest, Contents, members, listing, HasContents, Laid}
use myreflection.Api.Containment.Walk.{contained-Visits}
use myreflection.Api.Components.{
  Asking, change_comp, for_comp, enable_request, disable_request, comp_enable_guts,
  comp_disable_guts,
}
use myreflection.Api.Components.Contained.{
  visit, change_contained-visit, visit-other, visit-member, ParentsFirst, asked_for,
}
use myreflection.Api.Components.Halted.{Halted, Below, AllRunning, AllDisabled, visit-halts}

-- All that a component contains, in the order of the walk.
abbrev pub contained : Contents → ℕ → Forest → List ℕ
contained s c f = members s c (listing s f [])

abbrev pub own_change : Asking → ℕ → Store → Store
own_change r c st = update st c (record (st c) { base = r.on_component (st c).base })

request-visit :
    (r : Asking) (t : Containment) (s : Contents) (c : ℕ) (f : Forest) (fuel : ℕ) (st : Store)
    → HasContents t s c
    → Laid t s c c (t.head c comp) f
    → length (contained s c f) < fuel
    → phase_of (st c).base.state ≡ running
    → for_comp fuel r t (some c) st ≡ some (visit r t (contained s c f) (own_change r c st))
unfolding for_comp change_comp
request-visit r t s c f fuel st has_contents laid enough run =
    let (w, first, met) = contained-Visits t s c f fuel has_contents laid in
    rw run (
      rw first
        (change_contained-visit r t c fuel w (contained s c f) (own_change r c st) met enough))

-- The objects after a request: the component itself, what is in it, and the others.
abbrev pub Settled : Asking → Containment → ℕ → List ℕ → Store → Store → Type 0
Settled r t c os st st' =
    (st' c ≡ record (st c) { base = r.on_component (st c).base })
    × ((x : ℕ) → has x os ≡ true → st' x ≡ asked_for r t st' x (st x))
    × ((x : ℕ) → has x os ≡ false → (x == c) ≡ false → st' x ≡ st x)

own_change-other :
    (r : Asking) (c : ℕ) (os : List ℕ) (st : Store) (x : ℕ)
    → has c os ≡ false
    → has x os ≡ true
    → own_change r c st x ≡ st x
own_change-other r c os st x out m = elim (Bool-cases (x == c)) [
  | inl hit ↦
      let clash : true ≡ false = sym m ∙ (ap (λ y. has y os) ((==_iff x c).0 hit) ∙ out) in
      absurd (cc)
  | inr miss ↦ rw miss refl
]

visit-Settled :
    (r : Asking) (t : Containment) (c : ℕ) (os : List ℕ) (st : Store)
    → ParentsFirst t os
    → has c os ≡ false
    → Settled r t c os st (visit r t os (own_change r c st)).0
visit-Settled r t c os st first out =
    let st' = (visit r t os (own_change r c st)).0 in
    (
      visit-other r t os (own_change r c st) c out ∙ rw ((==_iff c c).1 refl) refl,
      (λ x m.
          visit-member r t os (own_change r c st) x first m
          ∙ ap (asked_for r t st' x) (own_change-other r c os st x out m)),
      (λ x e ne. visit-other r t os (own_change r c st) x e ∙ rw ne refl),
    )

-- Let a component be enabled, disabled or created, and let its lists and those of the components in
-- it be laid out as a forest, where a component that is contained and contains components has a peer
-- that follows it, where no object is met twice or before its parent, and the component itself is not
-- met. Then, with more fuel than objects, myrefl_api_comp_enable_guts and
-- myrefl_api_comp_disable_guts return, for the application and for the CLI. The base instance of the
-- component has been asked, unless it was in the state already. All instances of each object that is
-- met have been asked too, by the state that the object's parent has in the end. No other object is
-- changed.
pub comp_guts-Settled :
    (t : Containment) (s : Contents) (c : ℕ) (f : Forest) (fuel : ℕ) (cli : Bool) (st : Store)
    → HasContents t s c
    → Laid t s c c (t.head c comp) f
    → ParentsFirst t (contained s c f)
    → has c (contained s c f) ≡ false
    → length (contained s c f) < fuel
    → phase_of (st c).base.state ≡ running
    → ((st' : Store) × (calls : List Call) × (comp_enable_guts fuel cli t (some c) st
          ≡ some (st', calls))
        × Settled (enable_request cli) t c (contained s c f) st st')
      × ((st' : Store) × (calls : List Call) × (comp_disable_guts fuel cli t (some c) st
            ≡ some (st', calls))
          × Settled (disable_request cli) t c (contained s c f) st st')
unfolding comp_enable_guts comp_disable_guts
comp_guts-Settled t s c f fuel cli st has_contents laid first out enough run = (
  (
    (visit (enable_request cli) t (contained s c f) (own_change (enable_request cli) c st)).0,
    (visit (enable_request cli) t (contained s c f) (own_change (enable_request cli) c st)).1,
    request-visit (enable_request cli) t s c f fuel st has_contents laid enough run,
    visit-Settled (enable_request cli) t c (contained s c f) st first out,
  ),
  (
    (visit (disable_request cli) t (contained s c f) (own_change (disable_request cli) c st)).0,
    (visit (disable_request cli) t (contained s c f) (own_change (disable_request cli) c st)).1,
    request-visit (disable_request cli) t s c f fuel st has_contents laid enough run,
    visit-Settled (disable_request cli) t c (contained s c f) st first out,
  ),
)

own-disabled : (i : Instance) → is_disabled ((disable_request true).on_component i).state ≡ true
unfolding disable_request disable
own-disabled i = elim (Bool-cases (is_disabled i.state)) [
  | inl already ↦ rw already already
  | inr other ↦ rw other refl
]

own_change-AllDisabled :
    (t : Containment) (c : ℕ) (st : Store)
    → AllDisabled t (c ∷ []) (own_change (disable_request true) c st)
unfolding has
own_change-AllDisabled t c st o m k =
    subst (λ y. is_disabled (own_change (disable_request true) c st y).base.state ≡ true)
      ((==_iff c o).0 (ground (arith, m))) (rw ((==_iff c c).1 refl) (own-disabled (st c).base))

-- Let a component be as for comp_guts-Settled, let each object in it have the component or a component
-- met before as its parent, and let no component in it be a forward reference. Once the CLI has
-- disabled the component, no instance of an object in it is enabled or created, whatever the
-- application and the CLI had asked for.
pub comp_disable-halts :
    (t : Containment) (s : Contents) (c : ℕ) (f : Forest) (fuel : ℕ) (st : Store)
    → HasContents t s c
    → Laid t s c c (t.head c comp) f
    → ParentsFirst t (contained s c f)
    → Below t (c ∷ []) (contained s c f)
    → has c (contained s c f) ≡ false
    → AllRunning t (contained s c f) st
    → length (contained s c f) < fuel
    → phase_of (st c).base.state ≡ running
    → (st' : Store) × (calls : List Call) × (comp_disable_guts fuel true t (some c) st
        ≡ some (st', calls))
      × ((x : ℕ) → has x (contained s c f) ≡ true → Halted (instances (st' x)))
unfolding comp_disable_guts
comp_disable-halts t s c f fuel st has_contents laid first below out all enough run =
    let os = contained s c f in
    let r = disable_request true in
    let st1 = own_change r c st in
    let running_still : AllRunning t os st1 = λ o m k.
      subst (λ x. phase_of x.base.state ≡ running) (sym (own_change-other r c os st o out m))
        (all o m k) in
    (
      (visit r t os st1).0,
      (visit r t os st1).1,
      request-visit r t s c f fuel st has_contents laid enough run,
      visit-halts t (c ∷ []) os st1 first below running_still (own_change-AllDisabled t c st),
    )
