-- ===== src/Api/States.antt =====
-- The states of tests, actions and rules and of their instances: the functions that enable, disable
-- and default them in src/myrefl_api.c, for the application and for the CLI. An object that a name
-- gives, and the memory for a new instance, are arguments; what is asked of the scheduler is a list.
pub mod Guts
pub mod Overrides
pub mod Calls
pub mod Restored
use myreflection.Common.{
  ℕ, Bool, true, false, not, ◌&&◌, ◌||◌, Option, none, some, List, [], ◌∷◌, ◌++◌, ◌==◌,
  if◌then◌else◌,
}
use myreflection.Common.Int.{◌==ℤ◌}
use myreflection.Types.{ObjState, enabled, disabled, created, initialized, is_enabled}
use myreflection.Api.Operands.{Settings}

-- obj_instance_t: its address, its name and its states.
pub record Instance : Type 0 where
  pub ident : ℕ
  pub name : ℕ
  pub state : ObjState
  pub default_state : ObjState
  pub cli_state : ObjState

-- An object with its base instance and the instances behind it, and what defaulting looks at: the
-- periods of a test, and the settings of a rule.
pub record Object : Type 0 where
  pub is_polled : Bool
  pub base : Instance
  pub members : List Instance
  pub period : ℕ
  pub default_period : ℕ
  pub rule_settings : Settings

-- What the scheduler is asked for.
pub data Call : Type 0 where
  add_test remove_test : (instance : ℕ) → Call

abbrev pub is_disabled : ObjState → Bool
is_disabled ObjState.disabled = true
is_disabled _ = false

abbrev pub is_initialized : ObjState → Bool
is_initialized ObjState.initialized = true
is_initialized _ = false

-- The instance name that a call gives: NULL, an empty one, or a name.
pub data Who : Type 0 where
  whole : Who
  empty_name : Who
  by_name : ℕ → Who

-- Who asks records what it wants.
abbrev pub note_asked : (cli : Bool) → ObjState → Instance → Instance
note_asked true s i = record i { cli_state = s }
note_asked false s i = record i { default_state = s }

-- An instance that is asked to be enabled, unless the CLI has it disabled.
unfoldable pub enable : (cli : Bool) → Instance → Instance
enable cli i =
    let j = note_asked cli enabled i in
    if is_disabled j.cli_state then j else record j { state = enabled }

unfoldable pub disable : (cli : Bool) → Instance → Instance
disable cli i =
    let j = note_asked cli disabled i in
    if is_enabled j.cli_state then j else record j { state = disabled }

-- What the application asked for last is the state again.
unfoldable pub default : Instance → Instance
default i = record i {
  state = if is_enabled i.state || is_disabled i.state then i.default_state else i.state;
  cli_state = initialized;
}

-- What the scheduler is asked about an instance that has been enabled, disabled or defaulted.
unfoldable pub if_enabled : (is_polled : Bool) → Instance → List Call
if_enabled polled i = if polled && is_enabled i.state then add_test i.ident ∷ [] else []

unfoldable pub always_add : (is_polled : Bool) → Instance → List Call
always_add polled i = if polled then add_test i.ident ∷ [] else []

unfoldable pub always_remove : (is_polled : Bool) → Instance → List Call
always_remove polled i = if polled then remove_test i.ident ∷ [] else []

-- The loop over the instances.
unfoldable pub each : (Instance → Instance) → List Instance → List Instance
each f [] = []
each f (i ∷ is) = f i ∷ each f is

unfoldable pub calls_of : (Instance → List Call) → List Instance → List Call
calls_of f [] = []
calls_of f (i ∷ is) = f i ++ calls_of f is

abbrev pub instances : Object → List Instance
instances o = o.base ∷ o.members

abbrev pub change_all : (Instance → Instance) → Object → Object
change_all f o = record o { base = f o.base; members = each f o.members }

-- `myrefl_obj_instance_by_name`: the first member of the name.
unfoldable pub find_member : ℕ → List Instance → Option Instance
find_member n [] = none
find_member n (i ∷ is) = if i.name == n then some i else find_member n is

-- A write to the member that this search finds.
unfoldable pub change_named : (Instance → Instance) → ℕ → List Instance → List Instance
change_named f n [] = []
change_named f n (i ∷ is) = if i.name == n then f i ∷ is else i ∷ change_named f n is

-- `myrefl_api_instance_create`, where its memory has been found at this address: the new instance
-- stands right behind the base instance.
unfoldable pub instance_create : (address name : ℕ) → Object → Object
instance_create a n o = record o {
  members =
      record {
        ident = a;
        name = n;
        state =
            if is_enabled o.base.state || is_disabled o.base.state
            then o.base.state
            else initialized;
        default_state = o.base.default_state;
        cli_state = initialized;
      }
      ∷ o.members;
}

-- The object and its instance of the name, created where none has been found.
unfoldable pub with_instance : Option Instance → (memory : Option ℕ) → ℕ → Object → Option Object
with_instance (some i) memory n o = some o
with_instance none none n o = none
with_instance none (some a) n o = some (instance_create a n o)

-- The cases of the switch on the state of an instance.
pub data Standing : Type 0 where
  running forward wrong : Standing

abbrev pub phase_of : ObjState → Standing
phase_of ObjState.enabled = running
phase_of ObjState.disabled = running
phase_of ObjState.created = running
phase_of ObjState.initialized = forward
phase_of _ = wrong

abbrev pub by_phase : Standing → (on_running on_forward : Instance → Instance) → Instance → Instance
by_phase running f g i = f i
by_phase forward f g i = g i
by_phase wrong f g i = i

abbrev pub calls_by_phase : Standing → List Call → List Call
calls_by_phase running cs = cs
calls_by_phase forward cs = []
calls_by_phase wrong cs = []

-- A request for all instances goes by the state of the base instance.
unfoldable pub for_whole :
    Standing → (f g : Instance → Instance) → (Instance → List Call) → Object → Object × List Call
for_whole running f g calls o = let o' = change_all f o in (o', calls_of calls (instances o'))
for_whole forward f g calls o = (record o { base = g o.base }, [])
for_whole wrong f g calls o = (o, [])

-- A request for the instance of a name goes by that instance's state.
unfoldable pub for_named :
    (f g : Instance → Instance)
    → (Instance → List Call)
    → ℕ
    → Object
    → Option Instance
    → Object × List Call
for_named f g calls n o none = (o, [])
for_named f g calls n o (some i) = (
  record o { members = change_named (by_phase (phase_of i.state) f g) n o.members },
  calls_by_phase (phase_of i.state) (calls (f i)),
)

unfoldable pub for_created :
    (f g : Instance → Instance)
    → (Instance → List Call)
    → ℕ
    → Object
    → Option Object
    → Object × List Call
for_created f g calls n o none = (o, [])
for_created f g calls n o (some o') = for_named f g calls n o' (find_member n o'.members)

-- What the functions that enable and disable share.
unfoldable pub switch_states :
    (f g : Instance → Instance)
    → (Instance → List Call)
    → (memory : Option ℕ) → Who
    → Object
    → Object × List Call
switch_states f g calls memory whole o = for_whole (phase_of o.base.state) f g calls o
switch_states f g calls memory empty_name o = (o, [])
switch_states f g calls memory (by_name n) o =
    for_created f g calls n o (with_instance (find_member n o.members) memory n o)

abbrev pub no_calls : Instance → List Call
no_calls i = []

-- How defaulting ends: with the object and what the scheduler is asked, or with its deletion.
pub data Defaulting : Type 0 where
  kept : Object → List Call → Defaulting
  deleting : Defaulting

abbrev pub kept_both : Object × List Call → Defaulting
kept_both (o, cs) = kept o cs

-- A forward reference is deleted unless something else is set on its object.
abbrev pub forward_default : (delete : Bool) → Object × List Call → Defaulting
forward_default true r = deleting
forward_default false (o, cs) = kept o cs

abbrev pub is_forward : Standing → Bool
is_forward forward = true
is_forward _ = false

abbrev pub not_asked : Instance → Instance
not_asked i = record i { cli_state = initialized }

unfoldable pub default_named :
    (delete : Bool) → (Instance → List Call) → ℕ → Object → Option Instance → Defaulting
default_named delete calls n o none = kept o []
default_named delete calls n o (some i) =
    forward_default (is_forward (phase_of i.state) && delete)
      (for_named default not_asked calls n o (some i))

abbrev pub by_reset : Standing → (Object → Object) → Object → Object
by_reset running reset o = reset o
by_reset forward reset o = o
by_reset wrong reset o = o

-- What the functions that default share: the reset of the object's own settings, whether a forward
-- reference is deleted, and what the scheduler is asked for all instances or for a named one.
unfoldable pub defaulted :
    (reset : Object → Object)
    → (delete : Bool) → (all one : Instance → List Call) → Who
    → Object
    → Defaulting
defaulted reset delete all one whole o =
    forward_default (is_forward (phase_of o.base.state) && delete) (
      for_whole (phase_of o.base.state) default not_asked all
        (by_reset (phase_of o.base.state) reset o))
defaulted reset delete all one empty_name o = kept o []
defaulted reset delete all one (by_name n) o =
    default_named delete one n o (find_member n o.members)
