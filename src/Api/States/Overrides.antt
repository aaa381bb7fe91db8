-- ===== src/Api/States/Overrides.antt =====
-- What the CLI asks for overrides the application (src/myrefl_api.c), through any calls.
use myreflection.Common.{
  ℕ, ◌≡◌, refl, Bool, true, false, ◌&&◌, Option, none, some, List, [], ◌∷◌, arith, ◌==◌, inl, inr,
  ap, some_injective, Bool-cases, subst, sym,
}
use myreflection.Types.{ObjState, is_enabled}
use myreflection.Api.States.{
  Instance, Object, Call, Who, whole, empty_name, by_name, is_disabled, note_asked, enable, disable,
  default, each, instances, find_member, change_named, instance_create, with_instance, Standing,
  running, forward, wrong, phase_of, by_phase, for_whole, for_named, for_created, switch_states,
  Defaulting, kept, deleting, forward_default, not_asked, default_named, by_reset, defaulted,
}

-- An instance is not in a state that the CLI has overridden.
abbrev pub Agrees : Instance → Type 0
Agrees i =
    (is_enabled i.state && is_disabled i.cli_state ≡ false)
    × (is_disabled i.state && is_enabled i.cli_state ≡ false)

abbrev pub AllAgree : List Instance → Type 0
AllAgree [] = Unit
AllAgree (i ∷ is) = Agrees i × AllAgree is

pub enable-Agrees : (cli : Bool) (i : Instance) → Agrees i → Agrees (enable cli i)
unfolding enable
enable-Agrees true i a = ground arith
enable-Agrees false i a = ground arith

pub disable-Agrees : (cli : Bool) (i : Instance) → Agrees i → Agrees (disable cli i)
unfolding disable
disable-Agrees true i a = ground arith
disable-Agrees false i a = ground arith

default-Agrees : (i : Instance) → Agrees i → Agrees (default i)
unfolding default
default-Agrees i a = ground arith

pub note_asked-Agrees :
    (cli : Bool) (s : ObjState) (i : Instance)
    → phase_of i.state ≡ forward
    → Agrees (note_asked cli s i)
note_asked-Agrees true s i f = ground (arith, f)
note_asked-Agrees false s i f = ground (arith, f)

not_asked-Agrees : (i : Instance) → phase_of i.state ≡ forward → Agrees (not_asked i)
not_asked-Agrees i f = ground (arith, f)

module _ (f g : Instance → Instance) (f_keeps : (i : Instance) → Agrees i → Agrees (f i))
    (g_keeps : (i : Instance) → phase_of i.state ≡ forward → Agrees (g i)) where
  each-AllAgree : (is : List Instance) → AllAgree is → AllAgree (each f is)
  unfolding each
  each-AllAgree [] a = tt
  each-AllAgree (i ∷ is) a = (f_keeps i a.0, each-AllAgree is a.1)

  for_whole-AllAgree :
      (p : Standing) (calls : Instance → List Call) (o : Object)
      → phase_of o.base.state ≡ p
      → AllAgree (instances o)
      → AllAgree (instances (for_whole p f g calls o).0)
  unfolding for_whole
  for_whole-AllAgree running calls o e a = (f_keeps o.base a.0, each-AllAgree o.members a.1)
  for_whole-AllAgree forward calls o e a = (g_keeps o.base e, a.1)
  for_whole-AllAgree wrong calls o e a = a

  by_phase-Agrees :
      (p : Standing) (i : Instance) → phase_of i.state ≡ p → Agrees i → Agrees (by_phase p f g i)
  by_phase-Agrees running i e a = f_keeps i a
  by_phase-Agrees forward i e a = g_keeps i e
  by_phase-Agrees wrong i e a = a

  -- The member that is changed is the one that the search has found.
  change_named-AllAgree :
      (n : ℕ) (is : List Instance) (i : Instance)
      → find_member n is ≡ some i
      → AllAgree is
      → AllAgree (change_named (by_phase (phase_of i.state) f g) n is)
  unfolding find_member change_named
  change_named-AllAgree n [] i e a = tt
  change_named-AllAgree n (j ∷ js) i e a = elim (Bool-cases (j.name == n)) [
    | inl hit ↦
        let same : j ≡ i = some_injective (rw hit at e) in
        rw hit (by_phase-Agrees (phase_of i.state) j (ap (λ k. phase_of k.state) same) a.0, a.1)
    | inr miss ↦ rw miss (a.0, change_named-AllAgree n js i (rw miss at e) a.1)
  ]

  for_named-AllAgree :
      (calls : Instance → List Call) (n : ℕ) (o : Object) (found : Option Instance)
      → find_member n o.members ≡ found
      → AllAgree (instances o)
      → AllAgree (instances (for_named f g calls n o found).0)
  unfolding for_named
  for_named-AllAgree calls n o none e a = a
  for_named-AllAgree calls n o (some i) e a = (a.0, change_named-AllAgree n o.members i e a.1)

  for_created-AllAgree :
      (calls : Instance → List Call) (n : ℕ) (o : Object) (had : Option Object)
      → AllAgree (instances o)
      → ((o' : Object) → had ≡ some o' → AllAgree (instances o'))
      → AllAgree (instances (for_created f g calls n o had).0)
  unfolding for_created
  for_created-AllAgree calls n o none a all = a
  for_created-AllAgree calls n o (some o') a all =
      for_named-AllAgree calls n o' (find_member n o'.members) refl (all o' refl)

with_instance-AllAgree :
    (found : Option Instance) (memory : Option ℕ) (n : ℕ) (o o' : Object)
    → AllAgree (instances o)
    → with_instance found memory n o ≡ some o'
    → AllAgree (instances o')
unfolding with_instance instance_create
with_instance-AllAgree (some i) memory n o o' a e =
    subst (λ x. AllAgree (instances x)) (some_injective e) a
with_instance-AllAgree none none n o o' a e = absurd (cc)
with_instance-AllAgree none (some p) n o o' a e =
    subst (λ x. AllAgree (instances x)) (some_injective e) (a.0, (ground arith, a.1))

pub switch_states-AllAgree :
    (f g : Instance → Instance)
    → ((i : Instance) → Agrees i → Agrees (f i))
    → ((i : Instance) → phase_of i.state ≡ forward → Agrees (g i))
    → (calls : Instance → List Call) (memory : Option ℕ) (who : Who) (o : Object)
    → AllAgree (instances o)
    → AllAgree (instances (switch_states f g calls memory who o).0)
unfolding switch_states
switch_states-AllAgree f g fk gk calls memory whole o a =
    for_whole-AllAgree f g fk gk (phase_of o.base.state) calls o refl a
switch_states-AllAgree f g fk gk calls memory empty_name o a = a
switch_states-AllAgree f g fk gk calls memory (by_name n) o a =
    for_created-AllAgree f g fk gk calls n o _ a
      (λ o' e. with_instance-AllAgree (find_member n o.members) memory n o o' a e)

-- What is kept agrees.
unfoldable pub Kept : Defaulting → Type 0
Kept deleting = Unit
Kept (kept o calls) = AllAgree (instances o)

forward_default-Kept :
    (delete : Bool) (r : Object × List Call)
    → AllAgree (instances r.0)
    → Kept (forward_default delete r)
unfolding Kept
forward_default-Kept true r a = tt
forward_default-Kept false (o, cs) a = a

by_reset-AllAgree :
    (p : Standing) (reset : Object → Object) (o : Object)
    → ((x : Object) → instances (reset x) ≡ instances x)
    → AllAgree (instances o)
    → AllAgree (instances (by_reset p reset o))
by_reset-AllAgree running reset o same a = subst AllAgree (sym (same o)) a
by_reset-AllAgree forward reset o same a = a
by_reset-AllAgree wrong reset o same a = a

by_reset-base :
    (p : Standing) (reset : Object → Object) (o : Object)
    → ((x : Object) → instances (reset x) ≡ instances x)
    → phase_of (by_reset p reset o).base.state ≡ phase_of o.base.state
by_reset-base running reset o same =
    ap (λ is. elim is [ [] ↦ wrong | i ∷ js ↦ phase_of i.state ]) (same o)
by_reset-base forward reset o same = refl
by_reset-base wrong reset o same = refl

default_named-Kept :
    (delete : Bool) (calls : Instance → List Call) (n : ℕ) (o : Object) (found : Option Instance)
    → find_member n o.members ≡ found
    → AllAgree (instances o)
    → Kept (default_named delete calls n o found)
unfolding default_named Kept
default_named-Kept delete calls n o none e a = a
default_named-Kept delete calls n o (some i) e a =
    forward_default-Kept _ _
      (for_named-AllAgree default not_asked default-Agrees not_asked-Agrees calls n o (some i) e a)

pub defaulted-Kept :
    (reset : Object → Object) (delete : Bool) (all one : Instance → List Call) (who : Who)
    (o : Object)
    → ((x : Object) → instances (reset x) ≡ instances x)
    → AllAgree (instances o)
    → Kept (defaulted reset delete all one who o)
unfolding defaulted Kept
defaulted-Kept reset delete all one whole o same a = forward_default-Kept _ _ (
    for_whole-AllAgree default not_asked default-Agrees not_asked-Agrees (phase_of o.base.state) all
      (by_reset (phase_of o.base.state) reset o)
      (by_reset-base (phase_of o.base.state) reset o same)
      (by_reset-AllAgree (phase_of o.base.state) reset o same a))
defaulted-Kept reset delete all one empty_name o same a = a
defaulted-Kept reset delete all one (by_name n) o same a =
    default_named-Kept delete one n o (find_member n o.members) refl a
