-- ===== src/Sequence/Stats.antt =====
-- The statistics of an object's instances: `seq_new_history_record`, `seq_update_history_record` and
-- `seq_stats_update` in src/myrefl_sequence.c. The clock's reading is an argument, and the
-- notifications to clients are part of the result.
pub mod Counts
pub mod Summary
pub mod Ring
pub mod Runs
use myreflection.Common.{
  ℕ, zero, suc, ◌+◌, Bool, true, false, not, ◌&&◌, ◌||◌, Option, none, some, List, [], ◌∷◌, ◌==◌,
  if◌then◌else◌, get_or, set,
}
use myreflection.Common.Int.{ℤ, pos, ◌==ℤ◌}
use myreflection.Types.{
  Result, pass, fail, value, abort, is_pass, is_fail, same_result, ObjType, test, rule, action,
  is_action, Time, u32,
}

-- obj_history_t.
pub record HistoryEntry : Type 0 where
  pub time : Time
  pub result : Result
  pub count : ℕ
  pub amount : ℤ

abbrev pub history_size : ℕ
history_size = 5

-- obj_stats_t.
pub record Stats : Type 0 where
  pub runs : ℕ
  pub passes : ℕ
  pub failures : ℕ
  pub aborts : ℕ
  pub history : List HistoryEntry
  pub history_head : ℕ

-- The fields of obj_instance_t that the statistics read and write.
pub record Instance : Type 0 where
  pub name : ℕ
  pub stats : Stats
  pub last_result : Result
  pub last_value : ℤ
  pub last_result_count : ℕ

abbrev pub blank : HistoryEntry
blank = record {
  time = record { sec = 0; nsec = 0 };
  result = Result.invalid;
  count = 0;
  amount = pos 0;
}

-- The head moves on, and the entry there is overwritten.
pub new_history_record : Time → Result → ℤ → Stats → Stats
new_history_record now r v s =
    let head = if (s.history_head + 1) == history_size then 0 else s.history_head + 1 in
    record s {
      history = set s.history head (record { time = now; result = r; count = 1; amount = v });
      history_head = head;
    }

-- `seq_update_history_record`, given the entry at the head.
update_at : Time → Result → ℤ → Stats → HistoryEntry → Stats
unfolding new_history_record
update_at now r v s e = if e.count == 0 then new_history_record now r v s else record s {
  history = set s.history s.history_head (record e {
    count = if same_result e.result r then u32 (e.count + 1) else e.count;
    amount = v;
  });
}

pub update_history_record : Time → Result → ℤ → Stats → Stats
unfolding update_at
update_history_record now r v s = update_at now r v s (get_or s.history s.history_head blank)

-- The counters, for the instance and for its base alike.
pub count_result : Result → Stats → Stats
count_result pass s = record s { runs = u32 (s.runs + 1); passes = u32 (s.passes + 1) }
count_result fail s = record s { runs = u32 (s.runs + 1); failures = u32 (s.failures + 1) }
count_result abort s = record s { runs = u32 (s.runs + 1); aborts = u32 (s.aborts + 1) }
count_result _ s = record s { runs = u32 (s.runs + 1) }

-- The case MYREFL_RESULT_VALUE, and whether the value changed.
track_value : Time → ℤ → Instance → Instance × Bool
unfolding new_history_record update_history_record
track_value now v i =
    if i.last_value ==ℤ v
    then (record i { stats = update_history_record now value v i.stats; last_value = v }, false)
    else (record i { stats = new_history_record now value v i.stats; last_value = v }, true)

-- A pass or a fail, and whether it is a change.
track_verdict : ObjType → Time → Result → ℤ → Instance → Instance × Bool
unfolding new_history_record update_history_record
track_verdict kind now r v i =
    if same_result i.last_result r
    then (
      record i {
        stats =
            if is_action kind
            then new_history_record now r v i.stats
            else update_history_record now r v i.stats;
        last_result_count = u32 (i.last_result_count + 1);
      },
      false,
    )
    else (
      record i {
        stats = new_history_record now r v i.stats;
        last_result = r;
        last_result_count = 1;
      },
      true,
    )

-- What one result does to the instance that it is for.
pub track : ObjType → Time → Result → ℤ → Instance → Instance × Bool
unfolding track_value track_verdict
track kind now pass v i = track_verdict kind now pass v i
track kind now fail v i = track_verdict kind now fail v i
track kind now value v i = track_value now v i
track kind now _ v i = (i, false)

-- The scan of the member instances for one that is failing.
unfoldable pub any_failing : List Instance → Bool
any_failing [] = false
any_failing (i ∷ is) = is_fail i.last_result || any_failing is

-- What a member's pass or fail does to the base instance, and whether it may be a change.
pub summarise : Result → List Instance → Instance → Instance × Bool
unfolding any_failing
summarise r members base =
    if is_pass r || is_fail r
    then (if same_result base.last_result r
        then (record base { last_result_count = u32 (base.last_result_count + 1) }, false)
        else (
          if is_fail r || not (any_failing members)
              then record base { last_result = r; last_result_count = 1 }
              else base,
          true,
        ))
    else (base, false)

-- An object with its base instance and the members chained behind it.
pub record Obj : Type 0 where
  pub kind : ObjType
  pub notify : Bool
  pub base : Instance
  pub members : List Instance

-- A call of one of the `myrefl_xos_notify_…_result` functions.
pub record Notice : Type 0 where
  pub about : ObjType
  pub instance_name : Option ℕ
  pub outcome : Result
  pub amount : ℤ

-- The notification, if the result changed, the flag is set and the type has one. A member's passes
-- NULL for the instance's name.
notices : ObjType → Bool → Option ℕ → Result → ℤ → List Notice
notices test true n r v = record { about = test; instance_name = n; outcome = r; amount = v } ∷ []
notices rule true n r v = record { about = rule; instance_name = n; outcome = r; amount = v } ∷ []
notices action true n r v =
    record { about = action; instance_name = n; outcome = r; amount = v } ∷ []
notices _ _ n r v = []

-- The instance with its counters moved on.
abbrev counted : Result → Instance → Instance
counted r i = record i { stats = count_result r i.stats }

-- `seq_stats_update` for the base instance.
pub update_base : Time → Result → ℤ → Obj → Obj × List Notice
unfolding count_result track notices
update_base now r v o =
    let (i, changed) = track o.kind now r v (counted r o.base) in
    (record o { base = i }, notices o.kind (changed && o.notify) (some o.base.name) r v)

-- `seq_stats_update` for the k-th member instance.
pub update_member : Time → Result → ℤ → ℕ → Obj → Obj × List Notice
unfolding count_result track summarise notices
update_member now r v k o =
    let (i, changed) = track o.kind now r v (counted r (get_or o.members k o.base)) in
    let members = set o.members k i in
    let (base, base_changed) = summarise r members (counted r o.base) in
    (
      record o { base = base; members = members },
      notices o.kind ((changed || base_changed) && o.notify) none r v,
    )
