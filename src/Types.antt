-- ===== src/Types.antt =====
-- The enumerations that the engine's parts share (include/myrefl_client.h and src/myrefl_obj.h).
use myreflection.Common.{ℕ, ◌%◌, Bool, true, false, ◌≡◌, arith}

-- myrefl_result_t.
pub data Result : Type 0 where
  invalid pass fail value in_progress abort ignore last : Result

abbrev pub is_pass : Result → Bool
is_pass Result.pass = true
is_pass _ = false

abbrev pub is_fail : Result → Bool
is_fail Result.fail = true
is_fail _ = false

abbrev pub is_value : Result → Bool
is_value Result.value = true
is_value _ = false

-- obj_state_t.
pub data ObjState : Type 0 where
  allocated initialized created enabled disabled deleted invalid : ObjState

abbrev pub is_enabled : ObjState → Bool
is_enabled ObjState.enabled = true
is_enabled _ = false

-- C's `unsigned int` wraps.
abbrev pub u32 : ℕ → ℕ
u32 n = n % 4294967296

-- obj_type_t.
pub data ObjType : Type 0 where
  any none test rule action comp : ObjType

abbrev pub is_rule : ObjType → Bool
is_rule ObjType.rule = true
is_rule _ = false

pub ObjType-discrete : Discrete ObjType
ObjType-discrete = hlevel

abbrev pub is_test : ObjType → Bool
is_test ObjType.test = true
is_test _ = false

abbrev pub is_action : ObjType → Bool
is_action ObjType.action = true
is_action _ = false

-- The values of myrefl_result_t as C compares them.
abbrev pub same_result : Result → Result → Bool
same_result Result.invalid Result.invalid = true
same_result Result.pass Result.pass = true
same_result Result.fail Result.fail = true
same_result Result.value Result.value = true
same_result Result.in_progress Result.in_progress = true
same_result Result.abort Result.abort = true
same_result Result.ignore Result.ignore = true
same_result Result.last Result.last = true
same_result _ _ = false

pub same_result-eq : (q r : Result) → same_result q r ≡ true → q ≡ r
same_result-eq q r h = ground arith

pub same_result_self : (r : Result) → same_result r r ≡ true
same_result_self r = ground arith

-- xos_time_t.
pub record Time : Type 0 where
  pub sec : ℕ
  pub nsec : ℕ
