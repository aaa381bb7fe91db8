-- ===== src/Sequence/Health.antt =====
-- The health of components: `seq_comp_health`, `seq_rule_result_on_health` and
-- `myrefl_seq_comp_set_health` in src/myrefl_sequence.c. Components are numbers, and an int is an
-- integer (health and confidence stay far from its bounds).
pub mod Consistency
pub mod Confidence
use myreflection.Common.{
  ℕ, zero, suc, ◌+◌, ◌-◌, ◌/◌, ◌≡◌, Bool, true, false, not, ◌&&◌, Option, none, some, List, [], ◌∷◌,
  ltb, ◌++◌, ◌==◌, if◌then◌else◌, update,
}
use myreflection.Common.Int.{ℤ, pos, negsuc, pos_part, ◌+ℤ◌, ◌-ℤ◌, ltb_ℤ, ◌==ℤ◌}
use myreflection.Types.{Result, pass, fail, is_fail, ObjState, is_enabled, u32}

-- A rule of a component, as the sum of severities sees it.
pub record MemberRule : Type 0 where
  pub valid : Bool
  pub state : ObjState
  pub last_result : Result
  pub severity : ℤ

-- How many rules failed in each category of severity.
pub record Tally : Type 0 where
  pub catastrophic : ℕ
  pub critical : ℕ
  pub high : ℕ
  pub medium : ℕ
  pub low : ℕ
  pub positive : ℕ

-- The fields of obj_comp_t that the health reads and writes, with those of its obj_t.
pub record Component : Type 0 where
  pub valid : Bool
  pub state : ObjState
  pub parent : Option ℕ
  pub rules : List MemberRule
  pub comps : List ℕ
  pub interested : List ℕ
  pub health : ℤ
  pub confidence : ℤ
  pub tally : Tally

-- The first loop: the severities of the enabled rules that are failing are taken away.
unfoldable pub less_rules : List MemberRule → ℤ → ℤ
less_rules [] health = health
less_rules (r ∷ rs) health = less_rules rs (
    if r.valid && (is_enabled r.state && is_fail r.last_result)
    then health -ℤ r.severity
    else health)

-- The second loop: what the enabled member components lack is taken away.
unfoldable pub less_comps : (ℕ → Component) → List ℕ → ℤ → ℤ
less_comps w [] health = health
less_comps w (k ∷ ks) health =
    less_comps w ks (
      if (w k).valid && is_enabled (w k).state
      then health -ℤ (pos 1000 -ℤ (w k).health)
      else health)

-- The health that a component's members give it.
unfoldable pub health_of : (ℕ → Component) → Component → ℤ
unfolding less_rules less_comps
health_of w c = less_comps w c.comps (less_rules c.rules (pos 1000))

-- `(health - confidence) / 720`, where the health is the greater, but at least 1.
abbrev pub increment : ℤ → ℤ → ℕ
increment health confidence =
    let step = pos_part (health -ℤ confidence) / 720 in if step == 0 then 1 else step

-- The third loop: a component is only as confident as its least confident member.
pub least_confident : (ℕ → Component) → List ℕ → ℤ → ℤ
least_confident w [] confidence = confidence
least_confident w (k ∷ ks) confidence = least_confident w ks (
    if (w k).valid && (is_enabled (w k).state && ltb_ℤ (w k).confidence confidence)
    then (w k).confidence
    else confidence)

-- The confidence, given the new health, and before its bound.
pub follow : (ℕ → Component) → List ℕ → (health confidence : ℤ) → ℤ
unfolding least_confident
follow w comps health confidence =
    if ltb_ℤ health confidence
    then (if ltb_ℤ (pos 0) health then health else pos 0)
    else if ltb_ℤ confidence health
    then least_confident w comps (confidence +ℤ pos (increment health confidence))
    else confidence

abbrev pub at_most_1000 : ℤ → ℤ
at_most_1000 c = if ltb_ℤ (pos 1000) c then pos 1000 else c

-- The switch on `-health_delta`.
pub count_severity : ℤ → Tally → Tally
count_severity delta t =
    if delta ==ℤ negsuc 999
    then record t { catastrophic = u32 (t.catastrophic + 1) }
    else if delta ==ℤ negsuc 499
    then record t { critical = u32 (t.critical + 1) }
    else if delta ==ℤ negsuc 199
    then record t { high = u32 (t.high + 1) }
    else if delta ==ℤ negsuc 99
    then record t { medium = u32 (t.medium + 1) }
    else if delta ==ℤ negsuc 49
    then record t { low = u32 (t.low + 1) }
    else if delta ==ℤ pos 200
    then record t { positive = u32 (t.positive + 1) }
    else t

-- The component with its new health, confidence and counters.
pub refresh : (ℕ → Component) → ℤ → Component → Component
unfolding health_of follow count_severity
refresh w delta c = record c {
  health = health_of w c;
  confidence = at_most_1000 (follow w c.comps (health_of w c) c.confidence);
  tally = count_severity delta c.tally;
}

-- What is told of a health: the value passed on to an interested test, or the client's notification.
pub data Notice : Type 0 where
  to_test : (test : ℕ) (health : ℤ) → Notice
  to_client : (comp : ℕ) (health : ℤ) → Notice

-- The notifications to the interested tests that are still valid.
to_tests : (ℕ → Bool) → List ℕ → ℤ → List Notice
to_tests valid_test [] health = []
to_tests valid_test (t ∷ ts) health =
    if valid_test t
    then to_test t health ∷ to_tests valid_test ts health
    else to_tests valid_test ts health

notices : (ℕ → Bool) → ℤ → ℕ → Component → List Notice
unfolding to_tests
notices valid_test delta k c =
    if delta ==ℤ pos 0
    then []
    else to_tests valid_test c.interested c.health ++ (to_client k c.health ∷ [])

-- The components and the notifications, unless the climb is deeper than the fuel, or starts from
-- NULL.
pub data Outcome : Type 0 where
  done : (ℕ → Component) → List Notice → Outcome
  out_of_fuel : Outcome
  fault : Outcome

-- Notifications that came before.
pub preceded : List Notice → Outcome → Outcome
preceded ns (done w more) = done w (ns ++ more)
preceded ns out_of_fuel = out_of_fuel
preceded ns fault = fault

-- `seq_comp_health`, to a depth of `fuel` calls.
pub comp_health : (fuel : ℕ) → (ℕ → Bool) → ℕ → ℤ → (ℕ → Component) → Outcome
unfolding refresh notices preceded
comp_health zero valid_test k delta w = out_of_fuel
comp_health (suc fuel) valid_test k delta w =
    let c = refresh w delta (w k) in
    let w' = update w k c in
    preceded (notices valid_test delta k c)
      (elim c.parent [ none ↦ done w' [] | some p ↦ comp_health fuel valid_test p delta w' ])

-- `seq_rule_result_on_health` for a rule of this severity and parent, whose base instance had its
-- last result this often in a row.
pub rule_result_on_health :
    (fuel : ℕ)
    → (ℕ → Bool)
    → (severity : ℤ) → Option ℕ
    → (last_result_count : ℕ) → Result
    → (ℕ → Component)
    → Outcome
unfolding comp_health
rule_result_on_health fuel valid_test severity none count r w =
    if ltb 1 count then fault else elim r [ pass ↦ fault | fail ↦ fault | _ ↦ done w [] ]
rule_result_on_health fuel valid_test severity (some k) count r w =
    if ltb 1 count then comp_health fuel valid_test k (pos 0) w else elim r [
      | pass ↦ comp_health fuel valid_test k severity w
      | fail ↦ comp_health fuel valid_test k (pos 0 -ℤ severity) w
      | _ ↦ done w []
    ]

-- `myrefl_seq_comp_set_health`, for a health that an int holds.
pub comp_set_health : (fuel : ℕ) → (ℕ → Bool) → Option ℕ → (health : ℕ) → (ℕ → Component) → Outcome
unfolding comp_health
comp_set_health fuel valid_test none health w = done w []
comp_set_health fuel valid_test (some k) health w =
    comp_health fuel valid_test k (pos health -ℤ (w k).health) w
