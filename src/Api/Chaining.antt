-- ===== src/Api/Chaining.antt =====
-- What a test leads to is made ready: `myrefl_obj_chain_update_state` of src/myrefl_obj.c and
-- `myrefl_test_chain_ready` of src/myrefl_api.c. Whether a pointer leads to a valid object is an
-- argument. The depth of the calls is fuel, and none means that they go deeper.
pub mod Settled
pub mod Reached
pub mod Ready
use myreflection.Common.{
  ℕ, zero, suc, Bool, true, false, not, ◌&&◌, Option, none, some, List, [], ◌∷◌, ◌==◌, update,
  if◌then◌else◌, ◌>>=◌,
}
use myreflection.Types.{ObjState, ObjType, is_enabled}
use myreflection.Sequence.Sequencer.{for_each}
use myreflection.Api.Linking.{Links}
use myreflection.Api.States.{
  Instance, Object, Call, add_test, is_initialized, change_all, instances, calls_of, always_add,
}

abbrev pub is_deleted : ObjState → Bool
is_deleted ObjState.deleted = true
is_deleted _ = false

-- An instance gets its state: what the CLI asks for, else what the application has asked for, else
-- this state. Forward references keep theirs.
unfoldable pub settle_instance : ObjState → Instance → Instance
settle_instance s i =
    if not (is_initialized i.cli_state)
    then record i { state = i.cli_state }
    else if is_initialized i.state
    then i
    else if is_initialized i.default_state
    then record i { state = s; default_state = s }
    else record i { state = i.default_state }

abbrev pub Store : Type 0
Store = ℕ → Object

abbrev pub settle_at : ObjState → ℕ → Store → Store
settle_at s o st = update st o (change_all (settle_instance s) (st o))

abbrev pub follow_link : (ℕ → Store → Option Store) → Option ℕ → Store → Option Store
follow_link self none st = some st
follow_link self (some r) st = self r st

-- The switch on the type of the object, and the loop over its instances.
unfoldable pub update_by_type :
    Links → (ℕ → Store → Option Store) → ObjType → ObjState → ℕ → Store → Option Store
update_by_type l self ObjType.test s o st = do
  st1 ← follow_link self (l.test_rule o) st
  some (settle_at s o st1)
update_by_type l self ObjType.rule s o st = do
  st1 ← follow_link self (l.next_in_input o) st
  st2 ← for_each self (l.action_list o) st1
  st3 ← follow_link self (l.output o) st2
  some (settle_at s o st3)
update_by_type l self ObjType.action s o st = some (settle_at s o st)
update_by_type l self _ s o st = some st

-- `myrefl_obj_chain_update_state`.
unfoldable pub chain_update_state :
    (fuel : ℕ) → Links → (valid : ℕ → Bool) → ObjState → ℕ → Store → Option Store
chain_update_state zero l valid s o st = none
chain_update_state (suc fuel) l valid s o st =
    if valid o && not (is_deleted (st o).base.state)
    then update_by_type l (chain_update_state fuel l valid s) (l.kind o) s o st
    else some st

-- The values of obj_state_t.
abbrev pub state_code : ObjState → ℕ
state_code ObjState.allocated = 1
state_code ObjState.initialized = 2
state_code ObjState.created = 3
state_code ObjState.enabled = 4
state_code ObjState.disabled = 5
state_code ObjState.deleted = 6
state_code ObjState.invalid = 7

-- The state that a test's chain is to be in: its component's, where that is not its default.
unfoldable pub wanted : (default_obj_state : ObjState) → (parent_comp : Option ℕ) → Store → ObjState
wanted d none st = d
wanted d (some c) st =
    if state_code (st c).base.state == state_code (st c).base.default_state
    then d
    else (st c).base.state

-- The test's own state once more, and the scheduler.
abbrev pub cli_again : ℕ → Store → Store
cli_again t st =
    if is_initialized (st t).base.cli_state
    then st
    else update st t (record (st t) { base = record (st t).base { state = (st t).base.cli_state } })

unfoldable pub ready_calls : Object → List Call
ready_calls t =
    if is_enabled t.base.state then calls_of (always_add t.is_polled) (instances t) else []

abbrev pub readied : ℕ → Store → Store × List Call
readied t st = (cli_again t st, ready_calls (cli_again t st t))

-- The switch on the state of the test.
unfoldable pub ready_by_state :
    ObjState → (ℕ → Store → Option Store) → ℕ → Store → Option (Store × List Call)
ready_by_state ObjState.enabled update_chain t st = do st1 ← update_chain t st; some (readied t st1)
ready_by_state ObjState.disabled update_chain t st = do
  st1 ← update_chain t st
  some (readied t st1)
ready_by_state ObjState.created update_chain t st = do st1 ← update_chain t st; some (readied t st1)
ready_by_state _ update_chain t st = some (st, [])

-- `myrefl_test_chain_ready`, for a name that gives a test or none.
unfoldable pub test_chain_ready :
    (fuel : ℕ)
    → Links
    → (valid : ℕ → Bool) → (default_obj_state : ObjState) → (parent_comp : ℕ → Option ℕ) → Option ℕ
    → Store
    → Option (Store × List Call)
test_chain_ready fuel l valid d parent none st = some (st, [])
test_chain_ready fuel l valid d parent (some t) st =
    ready_by_state (st t).base.state (chain_update_state fuel l valid (wanted d (parent t) st)) t st
