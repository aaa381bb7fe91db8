-- ===== src/Rci/Map.antt =====
-- `rci_map_function` of src/myrefl_rci.c: a function is mapped over the rules that lie above or below
-- a rule in the dependency graph, with components expanded at their boundary. Instances of objects
-- are numbers, as objects are; a component has the number of its object, and a name is a number.
pub mod Leads
pub mod Traversed
pub mod Reach
pub mod Explored
pub mod Steps
use myreflection.Common.{
  ℕ, zero, suc, Bool, true, false, not, Option, none, some, List, [], ◌∷◌, ◌==◌, if◌then◌else◌, has,
  ◌>>=◌,
}
use myreflection.Types.{Result, ObjState, is_enabled, ObjType, none, rule, comp}
use myreflection.Rci.Depend.{Graph}

-- rule_root_cause_t.
pub data RootCause : Type 0 where
  root_cause_not root_cause_candidate root_cause : RootCause

-- What is asked of the scheduler, `myrefl_sched_rule_immediate`, and of the sequencer,
-- `myrefl_seq_from_root_cause`.
pub data Request : Type 0 where
  retest : ℕ → Request
  found : ℕ → Request

-- What root cause identification reads of the objects and their instances: `base` is the instance
-- within an object, and `members` are those chained to it.
pub record Site : Type 0 where
  pub graph : Graph
  pub valid : ℕ → Bool
  pub base : ℕ → ℕ
  pub members : ℕ → List ℕ
  pub owner : ℕ → ℕ
  pub name : ℕ → ℕ
  pub state : ℕ → ObjState
  pub last_result : ℕ → Result
  pub last_result_count : ℕ → ℕ

-- What it changes: the instances' root_cause, and its requests, the latest first.
pub record World : Type 0 where
  pub root_cause : ℕ → RootCause
  pub requests : List Request

-- rci_map_direction_t.
pub data Direction : Type 0 where
  parents comp_parents children comp_children : Direction

-- The direction in which the traversal goes on, once it has passed a component's boundary.
abbrev pub settled : Direction → Direction
settled parents = parents
settled comp_parents = parents
settled children = children
settled comp_children = children

-- The direction in which it passes the boundary.
abbrev pub outer : Direction → Direction
outer parents = comp_parents
outer comp_parents = comp_parents
outer children = comp_children
outer comp_children = comp_children

-- The dependencies to walk, or NULL for an object of a type that should have none.
unfoldable pub dependencies : Graph → Direction → ObjType → ℕ → Option (List ℕ)
dependencies g parents rule o = some (g.parent_depend o)
dependencies g parents ObjType.none o = some (g.parent_depend o)
dependencies g parents comp o = some (g.bottom_depend o)
dependencies g comp_parents comp o = some (g.parent_depend o)
dependencies g children rule o = some (g.child_depend o)
dependencies g children ObjType.none o = some (g.child_depend o)
dependencies g children comp o = some (g.top_depend o)
dependencies g comp_children comp o = some (g.child_depend o)
dependencies g _ _ o = none

-- The boundary of a component that the traversal would cross.
abbrev pub edge_of : Graph → Direction → ℕ → List ℕ
edge_of g parents k = g.top_depend k
edge_of g comp_parents k = g.top_depend k
edge_of g children k = g.bottom_depend k
edge_of g comp_children k = g.bottom_depend k

unfoldable pub boundary : Graph → Direction → ℕ → Option ℕ
boundary g d o = elim (g.parent_comp o) [
  | none ↦ none
  | some k ↦ if has o (edge_of g d k) then some k else none
]

-- What stays the same in a traversal; `function` has its context with it.
pub record Job : Type 0 where
  pub site : Site
  pub function : ℕ → World → Option (Bool × World)
  pub instance_name : Option ℕ
  pub default_state : Bool

-- A return value, the history and the world.
pub record Trip : Type 0 where
  pub retval : Bool
  pub history : List ℕ
  pub world : World

-- `if (default_state != …) retval = !default_state`.
abbrev pub note : (default result retval : Bool) → Bool
note true true retval = retval
note true false retval = false
note false true retval = true
note false false retval = retval

-- `myrefl_obj_instance_by_name` among the members.
unfoldable pub instance_by_name : (ℕ → ℕ) → ℕ → List ℕ → List ℕ
instance_by_name name n [] = []
instance_by_name name n (i ∷ is) = if name i == n then i ∷ [] else instance_by_name name n is

unfoldable pub only_enabled : (ℕ → ObjState) → List ℕ → List ℕ
only_enabled state [] = []
only_enabled state (i ∷ is) =
    let rest = only_enabled state is in if is_enabled (state i) then i ∷ rest else rest

abbrev pub named : Site → Option ℕ → ℕ → List ℕ → List ℕ
named s none o ms = s.base o ∷ ms
named s (some n) o [] = s.base o ∷ []
named s (some n) o (m ∷ ms) = if s.valid o then instance_by_name s.name n (m ∷ ms) else []

-- The enabled instances that the function is applied to at an object.
unfoldable pub targets : Site → Option ℕ → ObjType → ℕ → List ℕ
targets s n rule o = only_enabled s.state (named s n o (s.members o))
targets s n _ o = []

unfoldable pub apply_all : Job → List ℕ → Bool → World → Option (Bool × World)
apply_all j [] retval w = some (retval, w)
apply_all j (i ∷ is) retval w = do
  r ← j.function i w
  apply_all j is (note j.default_state r.0 retval) r.1

-- An element of the dependencies that is not in the history.
unfoldable pub visit_element : Job → (ℕ → List ℕ → World → Option Trip) → ℕ → Trip → Option Trip
visit_element j visit o t = do
  r ← apply_all j (targets j.site j.instance_name (j.site.graph.kind o) o) t.retval t.world
  t' ← visit (j.site.base o) (o ∷ t.history) r.1
  some (record t' { retval = note j.default_state t'.retval r.0 })

-- The loop over the dependencies.
unfoldable pub walk : Job → (ℕ → List ℕ → World → Option Trip) → List ℕ → Trip → Option Trip
walk j visit [] t = some t
walk j visit (o ∷ os) t = do
  t' ← if has o t.history then some t else visit_element j visit o t
  walk j visit os t'

-- The component is expanded if the object lies on its boundary.
unfoldable pub step_out : Job → (ℕ → List ℕ → World → Option Trip) → Option ℕ → Trip → Option Trip
step_out j visit none t = some t
step_out j visit (some k) t = do
  t' ← visit (j.site.base k) t.history t.world
  some (record t' { retval = note j.default_state t'.retval t.retval })

-- The body of `rci_map_function` once the dependencies are known; `inner` and `out` are its calls for
-- elements and for the parent component.
unfoldable pub expand :
    Job
    → (inner out : ℕ → List ℕ → World → Option Trip) → Option ℕ
    → Option (List ℕ)
    → Trip
    → Option Trip
expand j inner out k none t = some (record t { retval = not t.retval })
expand j inner out k (some deps) t = do t' ← step_out j out k t; walk j inner deps t'

-- `rci_map_function`, to a depth of `fuel` calls.
unfoldable pub map_function : (fuel : ℕ) → Job → Direction → ℕ → List ℕ → World → Option Trip
map_function zero j d i history w = none
map_function (suc fuel) j d i history w =
    let s = j.site in
    let o = s.owner i in
    let start : Trip = record { retval = j.default_state; history = history; world = w } in
    let run =
      expand j (map_function fuel j (settled d)) (map_function fuel j (outer d))
        (boundary s.graph d o) (dependencies s.graph d (s.graph.kind o) o) start in
    if not (is_enabled (s.state i)) then some start else if not (s.valid o) then some start else run

-- A first call, with no history.
unfoldable pub map_rules : (fuel : ℕ) → Job → Direction → ℕ → World → Option (Bool × World)
map_rules fuel j d i w = do t ← map_function fuel j d i [] w; some (t.retval, t.world)
