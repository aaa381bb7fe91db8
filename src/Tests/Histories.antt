-- ===== src/Tests/Histories.antt =====
-- Statistics of src/myrefl_sequence.c after concrete results.
use myreflection.Common.{refl, true, none, some, List, [], ◌∷◌, arith, replicate}
use myreflection.Common.Int.{pos}
use myreflection.Types.{pass, fail, abort, test, Time}
use myreflection.Sequence.Stats.{Stats, Instance, blank, Obj, any_failing, update_member}
use myreflection.Sequence.Stats.Counts.{Event, count_of, after_events, Exact, after_events-Exact}
use myreflection.Sequence.Stats.Summary.{Summarises, update_member-Summarises}
use myreflection.Sequence.Stats.Ring.{back}
use myreflection.Sequence.Stats.Runs.{
  Verdict, Recorded, runs_of, after_verdicts, after_verdicts-Recorded,
}

abbrev noon : Time
noon = record { sec = 43200; nsec = 0 }

abbrev unused : Stats
unused = record {
  runs = 0;
  passes = 0;
  failures = 0;
  aborts = 0;
  history = replicate 5 blank;
  history_head = 0;
}

abbrev member : Instance
member = record {
  name = 7;
  stats = unused;
  last_result = pass;
  last_value = pos 0;
  last_result_count = 1;
}

abbrev object : Obj
object = record { kind = test; notify = true; base = member; members = member ∷ member ∷ [] }

abbrev events : List Event
events =
    record { target = some 1; time = noon; result = fail; amount = pos 0 }
    ∷ record { target = none; time = noon; result = abort; amount = pos 0 }
    ∷ []

after_events-Exact_example : Exact (after_events object events).base.stats events
unfolding count_of
after_events-Exact_example =
    after_events-Exact object events
      (record { runs_eq = refl; passes_eq = refl; failures_eq = refl; aborts_eq = refl })

update_member-Summarises_example : Summarises (update_member noon fail (pos 0) 1 object).0
unfolding any_failing
update_member-Summarises_example =
    update_member-Summarises noon fail (pos 0) 1 object (omega arith) refl

abbrev passed : Verdict
passed = record { time = noon; result = pass; amount = pos 0; is_verdict = tt }

abbrev failed : Verdict
failed = record { time = noon; result = fail; amount = pos 0; is_verdict = tt }

abbrev verdicts : List Verdict
verdicts = passed ∷ failed ∷ failed ∷ []

unused_ring : Recorded [] unused pass
unfolding back
unused_ring = record {
  ring = record { sized = refl; inside = omega arith };
  shown = λ k h. tt;
  newest = λ q n h. ground (arith, h);
  unused = λ h. refl;
}

after_verdicts-Recorded_example :
    Recorded
      (runs_of verdicts)
      (after_verdicts test member verdicts).stats
      (after_verdicts test member verdicts).last_result
after_verdicts-Recorded_example =
    after_verdicts-Recorded test member verdicts refl (omega arith) unused_ring
