-- ===== src/Rci/Run.antt =====
-- Root cause identification on a rule's result: `myrefl_rci_run`, `myrefl_rci_rule_deleted` and what
-- they map over the dependencies (src/myrefl_rci.c). The unit tests' flag is off, and the context of
-- a propagation finds its memory. The depth of calls is fuel, and none means that it goes deeper.
pub mod Determined
pub mod Propagated
use myreflection.Common.{
  ℕ, zero, suc, Bool, true, false, not, ◌&&◌, ◌||◌, Option, none, some, List, ◌∷◌, ◌==◌, ltb,
  if◌then◌else◌, update, ◌>>=◌,
}
use myreflection.Types.{Result, abort, pass, fail, is_pass, is_fail, is_enabled, is_rule}
use myreflection.Rci.Map.{
  RootCause, root_cause_not, root_cause_candidate, root_cause, Request, retest, found, Site, World,
  Direction, parents, children, Job, map_rules,
}

abbrev pub is_candidate : RootCause → Bool
is_candidate root_cause_candidate = true
is_candidate _ = false

abbrev pub is_root_cause : RootCause → Bool
is_root_cause root_cause = true
is_root_cause _ = false

abbrev pub is_not : RootCause → Bool
is_not root_cause_not = true
is_not _ = false

abbrev pub set_root_cause : ℕ → RootCause → World → World
set_root_cause i c w = record w { root_cause = update w.root_cause i c }

abbrev pub request : Request → World → World
request r w = record w { requests = r ∷ w.requests }

-- `rci_is_passed`.
abbrev pub passed : Site → ℕ → World → Bool
passed s i w = is_pass (s.last_result i) || not (is_enabled (s.state i))

-- `rci_is_enabled`.
abbrev pub enabled : Site → ℕ → World → Bool
enabled s i w = is_enabled (s.state i)

-- `rci_not_rcc`.
abbrev pub not_rcc : Site → ℕ → World → Bool
not_rcc s i w = not (is_candidate (w.root_cause i)) || not (is_enabled (s.state i))

-- The instance's name, unless it is the one within the object.
abbrev pub instance_name : Site → ℕ → Option ℕ
instance_name s i = if s.base (s.owner i) == i then none else some (s.name i)

-- `rci_apply_propagate_rule_change`, but for its return value, which is TRUE.
unfoldable pub apply_change : Site → (rule_of_interest : ℕ) → Result → ℕ → World → World
apply_change s rule_of_interest Result.pass i w =
    if is_fail (s.last_result i) && is_not (w.root_cause i)
    then request (retest i) (set_root_cause i root_cause_candidate w)
    else w
apply_change s rule_of_interest Result.fail i w =
    let cleared = if is_root_cause (w.root_cause i) then set_root_cause i root_cause_not w else w in
    if i == rule_of_interest
    then w
    else if is_pass (s.last_result i)
    then request (retest i) cleared
    else cleared
apply_change s rule_of_interest _ i w = w

-- `rci_propagate_rule_change`.
unfoldable pub propagate : ℕ → Site → ℕ → Result → World → Option World
propagate fuel s rule_of_interest action w = do
  r ←
      map_rules fuel
        (record {
          site = s;
          function = λ i w. some (true, apply_change s rule_of_interest action i w);
          instance_name = instance_name s rule_of_interest;
          default_state = true;
        })
        parents rule_of_interest w
  some r.1

-- A test mapped over the children.
abbrev pub children_all :
    ℕ → Site → (ℕ → World → Bool) → Option ℕ → Bool → ℕ → World → Option (Bool × World)
children_all fuel s test name default i w =
    map_rules fuel
      (record {
        site = s;
        function = λ k w. some (test k w, w);
        instance_name = name;
        default_state = default;
      })
      children i w

-- The root cause is found: the propagation, and the word to the sequencer.
unfoldable pub is_found : ℕ → Site → ℕ → World → Option World
is_found fuel s i w = do
  w' ← propagate fuel s i Result.fail (set_root_cause i root_cause w)
  some (request (found i) w')

-- What `rci_determine_if_root_cause` does once it knows whether all children pass.
unfoldable pub settle : ℕ → Site → ℕ → Bool → World → Option World
settle fuel s i false w = some (set_root_cause i root_cause_not w)
settle fuel s i true w = do
  no_candidate ← children_all fuel s (not_rcc s) (instance_name s i) true i w
  if no_candidate.0 then is_found fuel s i w else some w

-- `rci_determine_if_root_cause` for an enabled candidate that fails.
unfoldable pub determine : ℕ → Site → ℕ → World → Option World
determine fuel s i w = do
  all_pass ← children_all fuel s (passed s) (instance_name s i) true i w
  settle fuel s i all_pass.0 w

-- `rci_determine_if_root_cause`, which returns TRUE.
unfoldable pub determine_if_root_cause : ℕ → Site → ℕ → World → Option (Bool × World)
determine_if_root_cause fuel s i w = do
  w' ←
      if is_enabled (s.state i) && (is_candidate (w.root_cause i) && is_fail (s.last_result i))
      then determine fuel s i w
      else some w
  some (true, w')

-- `rci_schedule_dependent_rules_guts`, given `rci_schedule_dependent_rules`.
unfoldable pub schedule_guts :
    (ℕ → World → Option (Bool × World)) → Site → ℕ → World → Option (Bool × World)
schedule_guts schedule s i w =
    if is_pass (s.last_result i)
    then (if is_candidate (w.root_cause i)
        then some (true, w)
        else do r ← schedule i w; some (r.0, request (retest i) r.1))
    else some (false, w)

-- `rci_schedule_dependent_rules`, to a depth of `depth` rules under one another.
unfoldable pub schedule_dependent_rules :
    (depth fuel : ℕ) → Site → ℕ → World → Option (Bool × World)
schedule_dependent_rules zero fuel s i w = none
schedule_dependent_rules (suc depth) fuel s i w = do
  r ←
      map_rules fuel
        (record {
          site = s;
          function = schedule_guts (schedule_dependent_rules depth fuel s) s;
          instance_name = instance_name s i;
          default_state = true;
        })
        children i w
  some (r.0, set_root_cause i (if r.0 then root_cause_candidate else root_cause_not) r.1)

-- The root causes above a rule are determined anew.
unfoldable pub determine_above : ℕ → Site → ℕ → World → Option World
determine_above fuel s i w = do
  r ←
      map_rules fuel
        (record {
          site = s;
          function = determine_if_root_cause fuel s;
          instance_name = instance_name s i;
          default_state = true;
        })
        parents i w
  some r.1

-- `rci_handle_passed_rule_status_report`.
unfoldable pub handle_passed : ℕ → Site → ℕ → (change_occurred : Bool) → World → Option World
handle_passed fuel s i change_occurred w = do
  w' ← determine_above fuel s i (
      if is_candidate (w.root_cause i) || is_root_cause (w.root_cause i)
      then set_root_cause i root_cause_not w
      else w)
  if change_occurred then propagate fuel s i Result.pass w' else some w'

-- A failing rule that took no part in an identification: a new one starts below it, or it is the
-- root cause if it has no enabled children.
unfoldable pub start_or_found : (depth fuel : ℕ) → Site → ℕ → Bool → World → Option World
start_or_found depth fuel s i true w = do r ← schedule_dependent_rules depth fuel s i w; some r.1
start_or_found depth fuel s i false w = is_found fuel s i w

-- `rci_handle_failed_rule_status_report`.
unfoldable pub handle_failed : (depth fuel : ℕ) → Site → ℕ → RootCause → World → Option World
handle_failed depth fuel s i root_cause w = some w
handle_failed depth fuel s i root_cause_candidate w = do
  r ← determine_if_root_cause fuel s i w
  some r.1
handle_failed depth fuel s i root_cause_not w = do
  has_children ← children_all fuel s (enabled s) none false i w
  start_or_found depth fuel s i has_children.0 w

-- `myrefl_rci_run` for a rule that has aborted.
unfoldable pub run_aborted : ℕ → Site → ℕ → World → Option World
run_aborted fuel s i w =
    let passes = handle_passed fuel s i true w in
    if not (is_candidate (w.root_cause i))
    then some w
    else if ltb 3 (s.last_result_count i)
    then passes
    else some (request (retest i) w)

-- `myrefl_rci_run` for another result.
unfoldable pub run_result : (depth fuel : ℕ) → Site → ℕ → Result → World → Option World
run_result depth fuel s i result w =
    let change_occurred = s.last_result_count i == 1 in
    if change_occurred || is_candidate (w.root_cause i)
    then (if is_pass result
        then handle_passed fuel s i change_occurred w
        else handle_failed depth fuel s i (w.root_cause i) w)
    else some w

-- `myrefl_rci_run` on an instance.
unfoldable pub rci_run : (depth fuel : ℕ) → Site → ℕ → Result → World → Option World
rci_run depth fuel s i Result.abort w =
    if s.valid (s.owner i) && is_rule (s.graph.kind (s.owner i))
    then run_aborted fuel s i w
    else some w
rci_run depth fuel s i result w =
    if s.valid (s.owner i) && is_rule (s.graph.kind (s.owner i))
    then run_result depth fuel s i result w
    else some w

-- `myrefl_rci_rule_deleted`.
unfoldable pub rule_deleted : ℕ → Site → ℕ → World → Option World
rule_deleted fuel s i w =
    let again = determine_above fuel s i w in
    if is_root_cause (w.root_cause i)
      || (is_candidate (w.root_cause i) || is_fail (s.last_result i))
    then again
    else some w
