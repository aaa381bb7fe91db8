-- ===== src/Api/Components.antt =====
-- The states of components: `myrefl_api_comp_enable_guts` and `myrefl_api_comp_disable_guts` of
-- src/myrefl_api.c, which go through all that a component contains. The number of objects met is
-- fuel; what is asked of the scheduler is a list. None means that the walk goes on for longer, or
-- reads through a NULL pointer.
pub mod Contained
pub mod Halted
pub mod Settled
use myreflection.Common.{
  ℕ, zero, suc, Bool, true, false, not, ◌&&◌, ◌||◌, Option, none, some, List, [], ◌∷◌, ◌++◌, ◌==◌,
  update, if◌then◌else◌, ◌>>=◌,
}
use myreflection.Types.{ObjState, ObjType, any, enabled, disabled, initialized, is_enabled}
use myreflection.Api.States.{
  Instance, Object, Call, is_disabled, note_asked, enable, disable, change_all, instances, calls_of,
  if_enabled, remove_test, Standing, running, forward, wrong, phase_of,
}
use myreflection.Api.Chaining.{Store}
use myreflection.Api.Containment.{
  Containment, Place, at, finished, null_read, comp_get_first_contained, get_next_contained,
}

abbrev pub is_created : ObjState → Bool
is_created ObjState.created = true
is_created _ = false

-- An object without a component, or in one that is in this state.
abbrev pub parent_in : (ObjState → Bool) → Store → Option ℕ → Bool
parent_in is st none = true
parent_in is st (some p) = is (st p).base.state

abbrev pub wipe : (cli : Bool) → Instance → Instance
wipe true i = record i { cli_state = initialized }
wipe false i = i

-- The application's request is the default of a member.
abbrev pub note_default : (cli : Bool) → ObjState → Instance → Instance
note_default true s i = i
note_default false s i = record i { default_state = s }

-- What enabling a component does to an instance of an object in it.
unfoldable pub enable_member : (cli allowed : Bool) → Instance → Instance
enable_member cli allowed i =
    let j = wipe cli i in
    note_default cli enabled (
      if is_disabled i.state || is_created i.state
      then if not (is_disabled j.cli_state) && allowed then record j { state = enabled } else j
      else i)

unfoldable pub disable_member : (cli allowed : Bool) → Instance → Instance
disable_member cli allowed i =
    let j = wipe cli i in
    note_default cli disabled (
      if is_enabled i.state || is_created i.state
      then if not (is_enabled j.cli_state) && allowed then record j { state = disabled } else j
      else i)

unfoldable pub if_disabled : (is_polled : Bool) → Instance → List Call
if_disabled polled i = if polled && is_disabled i.state then remove_test i.ident ∷ [] else []

-- What differs between the two functions: on a member, below a parent in the state or not, and what
-- is asked about it then.
pub record Asking : Type 0 where
  pub on_component : Instance → Instance
  pub on_forward : Instance → Instance
  pub on_member : (allowed : Bool) → Instance → Instance
  pub is_wanted : ObjState → Bool
  pub asked : (is_polled : Bool) → Instance → List Call

-- An object of the walk.
abbrev pub change_member : Asking → Containment → ℕ → Store → Store
change_member r t o st =
    update st o (change_all (r.on_member (parent_in r.is_wanted st (t.parent_comp o))) (st o))

abbrev pub member_calls : Asking → ℕ → Store → List Call
member_calls r o st = calls_of (r.asked (st o).is_polled) (instances (st o))

-- The loop over what the component contains.
unfoldable pub change_contained :
    (fuel : ℕ) → Asking → Containment → (top : ℕ) → Place → Store → Option (Store × List Call)
change_contained zero r t top w st = none
change_contained (suc n) r t top finished st = some (st, [])
change_contained (suc n) r t top null_read st = none
change_contained (suc n) r t top (at o) st = do
  w ← get_next_contained n t (some top) (some o) any
  (st1, calls) ← change_contained n r t top w (change_member r t o st)
  some (st1, member_calls r o (change_member r t o st) ++ calls)

-- The switch on the state of the component.
unfoldable pub change_comp :
    (fuel : ℕ) → Asking → Containment → (top : ℕ) → Standing → Store → Option (Store × List Call)
change_comp fuel r t top running st = do
  w ← comp_get_first_contained fuel t (some top) any
  change_contained fuel r t top w
      (update st top (record (st top) { base = r.on_component (st top).base }))
change_comp fuel r t top forward st =
    some (update st top (record (st top) { base = r.on_forward (st top).base }), [])
change_comp fuel r t top wrong st = some (st, [])

-- The component itself, where it is not in the state already.
unfoldable pub enable_request : (cli : Bool) → Asking
enable_request cli = record {
  on_component = λ i. if is_enabled i.state then i else enable cli i;
  on_forward = note_asked cli enabled;
  on_member = enable_member cli;
  is_wanted = is_enabled;
  asked = if_enabled;
}

unfoldable pub disable_request : (cli : Bool) → Asking
disable_request cli = record {
  on_component = λ i. if is_disabled i.state then i else disable cli i;
  on_forward = note_asked cli disabled;
  on_member = disable_member cli;
  is_wanted = is_disabled;
  asked = if_disabled;
}

unfoldable pub for_comp :
    (fuel : ℕ) → Asking → Containment → Option ℕ → Store → Option (Store × List Call)
for_comp fuel r t none st = some (st, [])
for_comp fuel r t (some c) st = change_comp fuel r t c (phase_of (st c).base.state) st

-- `myrefl_api_comp_enable_guts`, for a name that gives a component or none.
unfoldable pub comp_enable_guts :
    (fuel : ℕ) → (cli : Bool) → Containment → Option ℕ → Store → Option (Store × List Call)
comp_enable_guts fuel cli t c st = for_comp fuel (enable_request cli) t c st

-- `myrefl_api_comp_disable_guts`.
unfoldable pub comp_disable_guts :
    (fuel : ℕ) → (cli : Bool) → Containment → Option ℕ → Store → Option (Store × List Call)
comp_disable_guts fuel cli t c st = for_comp fuel (disable_request cli) t c st
