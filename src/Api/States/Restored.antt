-- ===== src/Api/States/Restored.antt =====
-- Defaulting an object takes back what the CLI has asked for (src/myrefl_api.c), and what it does to
-- objects that the application has not enabled or disabled.
use myreflection.Common.{
  ℕ, ◌≡◌, refl, sym, ap, ◌∙◌, subst, Bool, true, false, ◌||◌, Option, none, some, List, [], ◌∷◌,
  arith, if◌then◌else◌,
}
use myreflection.Types.{created, initialized, is_enabled}
use myreflection.Api.States.{
  Instance, Object, Call, whole, by_name, is_disabled, enable, disable, default, each, calls_of,
  instances, change_all, find_member, with_instance, instance_create, change_named, running,
  phase_of, for_whole, for_named, for_created, switch_states, if_enabled, no_calls, kept, deleting,
  defaulted, default_named,
}
use myreflection.Api.States.Guts.{
  test_enable_guts, test_disable_guts, test_default, action_enable_guts, action_disable_guts,
  action_default, rule_enable_guts, rule_disable_guts, rule_default, with_defaults,
}

abbrev IsOn : Instance → Type 0
IsOn i = is_enabled i.state || is_disabled i.state ≡ true

-- Enabled or disabled as the application has asked for, with nothing from the CLI.
abbrev pub IsSettled : Instance → Type 0
IsSettled i = IsOn i × (i.default_state ≡ i.state) × (i.cli_state ≡ initialized)

abbrev pub AllSettled : List Instance → Type 0
AllSettled [] = Unit
AllSettled (i ∷ is) = IsSettled i × AllSettled is

abbrev AllOn : List Instance → Type 0
AllOn [] = Unit
AllOn (i ∷ is) = IsOn i × AllOn is

-- The CLI enables or disables an instance.
cli_switch : Bool → Instance → Instance
cli_switch b i = if b then enable true i else disable true i

switch_On : (b : Bool) (i : Instance) → IsOn (cli_switch b i)
unfolding cli_switch enable disable
switch_On true i = ground arith
switch_On false i = ground arith

default-switch : (b : Bool) (i : Instance) → IsOn i → default (cli_switch b i) ≡ default i
unfolding cli_switch enable disable default
default-switch true i on = ground (arith, on)
default-switch false i on = ground (arith, on)

default_settled : (i : Instance) → IsSettled i → default i ≡ i
unfolding default
default_settled i s = ground (arith, s)

each_switch :
    (b : Bool) (is : List Instance)
    → AllOn is
    → each default (each (cli_switch b) is) ≡ each default is
unfolding each
each_switch b [] on = refl
each_switch b (i ∷ is) on = λ j. default-switch b i on.0 j ∷ each_switch b is on.1 j

each_On : (b : Bool) (is : List Instance) → AllOn (each (cli_switch b) is)
unfolding each
each_On b [] = tt
each_On b (i ∷ is) = (switch_On b i, each_On b is)

each_settled : (is : List Instance) → AllSettled is → each default is ≡ is
unfolding each
each_settled [] s = refl
each_settled (i ∷ is) s = λ j. default_settled i s.0 j ∷ each_settled is s.1 j

AllSettled-On : (is : List Instance) → AllSettled is → AllOn is
AllSettled-On [] s = tt
AllSettled-On (i ∷ is) s = (s.0.0, AllSettled-On is s.1)

-- An object that defaulting turns into this one.
record Restores (o x : Object) : Type 0 where
  on : AllOn (instances x)
  back : change_all default x ≡ o

AllSettled-Restores : (o : Object) → AllSettled (instances o) → Restores o o
AllSettled-Restores o s = record {
  on = AllSettled-On (instances o) s;
  back =
      λ j. record o { base = default_settled o.base s.0 j; members = each_settled o.members s.1 j };
}

switch-Restores :
    (b : Bool) (o x : Object) → Restores o x → Restores o (change_all (cli_switch b) x)
switch-Restores b o x r = record {
  on = (switch_On b x.base, each_On b x.members);
  back =
      (λ j. record x {
        base = default-switch b x.base r.on.0 j;
        members = each_switch b x.members r.on.1 j;
      })
      ∙ r.back;
}

on_running : (i : Instance) → IsOn i → phase_of i.state ≡ running
on_running i on = ground (arith, on)

-- A request of the CLI for the whole object.
whole_running :
    (f g : Instance → Instance) (calls : Instance → List Call) (memory : Option ℕ) (x : Object)
    → phase_of x.base.state ≡ running
    → (switch_states f g calls memory whole x).0 ≡ change_all f x
unfolding switch_states for_whole
whole_running f g calls memory x e = rw e refl

-- The requests of the CLI, in their order.
unfoldable pub cli_requests : (enabling disabling : Object → Object) → List Bool → Object → Object
cli_requests on off [] o = o
cli_requests on off (b ∷ bs) o = cli_requests on off bs (if b then on o else off o)

requests-Restores :
    (on off : Object → Object)
    → ((x : Object) → AllOn (instances x) → on x ≡ change_all (cli_switch true) x)
    → ((x : Object) → AllOn (instances x) → off x ≡ change_all (cli_switch false) x)
    → (bs : List Bool) (o x : Object) → Restores o x
    → Restores o (cli_requests on off bs x)
unfolding cli_requests
requests-Restores on off e d [] o x r = r
requests-Restores on off e d (true ∷ bs) o x r =
    requests-Restores on off e d bs o (on x)
      (subst (Restores o) (sym (e x r.on)) (switch-Restores true o x r))
requests-Restores on off e d (false ∷ bs) o x r =
    requests-Restores on off e d bs o (off x)
      (subst (Restores o) (sym (d x r.on)) (switch-Restores false o x r))

defaulted_back :
    (reset : Object → Object) (delete : Bool) (all one : Instance → List Call) (o x : Object)
    → Restores o x
    → change_all default (reset x) ≡ o
    → defaulted reset delete all one whole x ≡ kept o (calls_of all (instances o))
unfolding defaulted for_whole
defaulted_back reset delete all one o x r e =
    rw (on_running x.base r.on.0) (λ j. kept (e j) (calls_of all (instances (e j))))

module _ (memory : Option ℕ) (bs : List Bool) (o : Object)
    (all_settled : AllSettled (instances o)) where
  test_back :
      o.period ≡ o.default_period
      → test_default whole (
          cli_requests
            (λ x. (test_enable_guts true memory whole x).0)
            (λ x. (test_disable_guts true memory whole x).0)
            bs
            o)
        ≡ kept o (calls_of (if_enabled o.is_polled) (instances o))
  unfolding test_default test_enable_guts test_disable_guts cli_switch
  test_back default_period =
      let x =
        cli_requests (λ y. (test_enable_guts true memory whole y).0)
          (λ y. (test_disable_guts true memory whole y).0) bs o in
      let r =
        requests-Restores (λ y. (test_enable_guts true memory whole y).0)
          (λ y. (test_disable_guts true memory whole y).0)
          (λ y on. whole_running _ _ _ memory y (on_running y.base on.0))
          (λ y on. whole_running _ _ _ memory y (on_running y.base on.0)) bs o o
          (AllSettled-Restores o all_settled) in
      let reset = λ (y : Object). record y { period = y.default_period } in
      defaulted_back reset _ _ _ o x r
        (ap reset r.back ∙ (λ j. record o { period = sym default_period j }))
      ∙ ap (λ (y : Object). kept o (calls_of (if_enabled y.is_polled) (instances o))) r.back

  action_back :
      action_default whole (
        cli_requests
          (action_enable_guts true memory whole)
          (action_disable_guts true memory whole)
          bs
          o)
      ≡ kept o (calls_of no_calls (instances o))
  unfolding action_default action_enable_guts action_disable_guts cli_switch
  action_back =
      let on = action_enable_guts true memory whole in
      let off = action_disable_guts true memory whole in
      let r =
        requests-Restores on off
          (λ y on_all. whole_running _ _ _ memory y (on_running y.base on_all.0))
          (λ y on_all. whole_running _ _ _ memory y (on_running y.base on_all.0)) bs o o
          (AllSettled-Restores o all_settled) in
      defaulted_back (λ y. y) true no_calls no_calls o (cli_requests on off bs o) r r.back

  rule_back :
      with_defaults o.rule_settings ≡ o.rule_settings
      → rule_default whole (
          cli_requests
            (rule_enable_guts true memory whole)
            (rule_disable_guts true memory whole)
            bs
            o)
        ≡ kept o (calls_of no_calls (instances o))
  unfolding rule_default rule_enable_guts rule_disable_guts cli_switch
  rule_back kept_settings =
      let on = rule_enable_guts true memory whole in
      let off = rule_disable_guts true memory whole in
      let r =
        requests-Restores on off
          (λ y on_all. whole_running _ _ _ memory y (on_running y.base on_all.0))
          (λ y on_all. whole_running _ _ _ memory y (on_running y.base on_all.0)) bs o o
          (AllSettled-Restores o all_settled) in
      let reset = λ (y : Object). record y { rule_settings = with_defaults y.rule_settings } in
      defaulted_back reset _ no_calls no_calls o (cli_requests on off bs o) r
        (ap reset r.back ∙ (λ j. record o { rule_settings = kept_settings j }))

calls_of_none : (is : List Instance) → calls_of no_calls is ≡ []
unfolding calls_of
calls_of_none [] = refl
calls_of_none (i ∷ is) = calls_of_none is

-- On a test, an action or a rule whose instances are all enabled or disabled as the application has
-- asked for, without a request of the CLI, and with its default period and settings, any requests of
-- the CLI for the whole object followed by its defaulting give back the object as it was, with every
-- enabled instance of a polled test handed to the scheduler again.
pub default-undoes_cli :
    (memory : Option ℕ) (bs : List Bool) (o : Object)
    → AllSettled (instances o)
    → o.period ≡ o.default_period
    → with_defaults o.rule_settings ≡ o.rule_settings
    → (test_default whole (
          cli_requests
            (λ x. (test_enable_guts true memory whole x).0)
            (λ x. (test_disable_guts true memory whole x).0)
            bs
            o)
        ≡ kept o (calls_of (if_enabled o.is_polled) (instances o)))
      × (action_default whole (
            cli_requests
              (action_enable_guts true memory whole)
              (action_disable_guts true memory whole)
              bs
              o)
          ≡ kept o [])
      × (rule_default whole (
            cli_requests
              (rule_enable_guts true memory whole)
              (rule_disable_guts true memory whole)
              bs
              o)
          ≡ kept o [])
default-undoes_cli memory bs o all_settled period kept_settings = (
  test_back memory bs o all_settled period,
  action_back memory bs o all_settled ∙ ap (kept o) (calls_of_none (instances o)),
  rule_back memory bs o all_settled kept_settings ∙ ap (kept o) (calls_of_none (instances o)),
)

-- Where a test has been created but not enabled or disabled yet, has no member instance of a name and
-- its default period, then the CLI's enabling of this instance, for which there is memory, followed
-- by its defaulting deletes the whole test.
pub default_forward-deletes :
    (address n : ℕ) (o : Object)
    → o.base.state ≡ created
    → find_member n o.members ≡ none
    → o.period ≡ o.default_period
    → test_default (by_name n) (test_enable_guts true (some address) (by_name n) o).0 ≡ deleting
unfolding test_default test_enable_guts switch_states with_instance for_created instance_create
    find_member for_named change_named defaulted default_named
default_forward-deletes address n o is absent period = ground (arith, is, absent, period)

-- The CLI's enabling of a test that has been created but not enabled or disabled yet, followed by its
-- defaulting, leaves it as if it had never been created, and a second defaulting of the whole test
-- deletes it.
pub default_twice-deletes :
    (memory : Option ℕ) (o : Object)
    → o.base.state ≡ created
    → o.base.default_state ≡ initialized
    → (o' : Object) × (calls : List Call) × (test_default whole
          (test_enable_guts true memory whole o).0
        ≡ kept o' calls)
      × (o'.base.state ≡ initialized)
      × (test_default whole o' ≡ deleting)
unfolding test_default test_enable_guts switch_states for_whole defaulted enable default
default_twice-deletes memory o is default_is =
    let e = change_all (enable true) o in
    let o' = record (change_all default e) { period = e.default_period } in
    (
      o',
      calls_of (if_enabled o'.is_polled) (instances o'),
      ground (arith, is),
      ground (arith, is, default_is),
      ground (arith, is, default_is),
    )
