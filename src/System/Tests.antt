-- ===== src/System/Tests.antt =====
-- A run: two passes, a frame after the first, and a stop.
use vitals.Cli.Loop.{show, Round}
use vitals.Cli.Start.{Line, stderr}
use vitals.Cli.{Settings}
use vitals.Delta.Fixtures.{sys, first, second}
use vitals.Float.Whole.{whole}
use vitals.Prelude.{ok, map, ℕ, ◌≡◌, refl, false, true, none, List, [], ◌∷◌, err, arith}
use vitals.Rules.Tests.{cpu_rule, read_rule}
use vitals.Rules.{Rule}
use vitals.Rules.Engine.{Engine, Event, new}
use vitals.Ring.{iter_chrono}
use vitals.Procfs.{key_eq}
use vitals.Sample.{Sample, other}
use vitals.Sampler.{default, Worker, Readings, Work, time_left, work, cycle, hand_over}
use vitals.System.Consistent.{Consistent, all_written, whole_passes}
use vitals.System.Steps.{Reach-Consistent}
use vitals.System.Returns.{stop-Returns}
use vitals.System.Stops.{stop-final}
use vitals.System.{
  System, over, joining, leaving, returned, napping, handing, counting, resting, alerts, finish,
  hand, count, start, Step, enter, scan, give, tick, rest, quit, frame, ask, join, discard, Reach,
  here, next,
}
use vitals.Text.{codes}

abbrev once : Settings
once = record {
  interval = 1000000000;
  top = 15;
  root = codes "/proc";
  json = false;
  once = true;
  run_for = none;
  rules = none;
  with_sockets = false;
}

abbrev rules : List (Rule ℕ)
rules = cpu_rule ∷ []

abbrev reading : Readings
reading = record {
  result = err (record { kind = other; raw_os_error = none; message = codes "denied" });
  now = 500;
  clock = λ id. 500;
  spent = 3;
}

abbrev engine : Engine ℕ
engine = new whole rules

abbrev done : Work ℕ
done = work whole sys 500 reading.result engine none

abbrev begun : System ℕ
begun = start whole engine default

abbrev scanned : System ℕ
scanned = record begun {
  worker = finish whole done begun.worker;
  place = handing reading done (alerts whole reading done.engine);
}

abbrev given : System ℕ
given = record scanned {
  worker = hand whole done (alerts whole reading done.engine) scanned.worker;
  place = counting reading;
}

abbrev ticked : System ℕ
ticked = record given { worker = count whole given.worker; place = resting reading }

abbrev asleep : System ℕ
asleep = record ticked { place = napping }

abbrev waiting : Line
waiting = stderr (codes "vitals: waiting for first sample...")

-- The only frame of `--once`, when the scan has failed.
abbrev framed : System ℕ
framed = record asleep {
  main = leaving;
  written = stderr (codes "vitals: sample error: denied") ∷ waiting ∷ [];
}

abbrev asked : System ℕ
asked = record framed { stop = true; held = false; main = joining }

abbrev stopped : System ℕ
stopped = record asked { place = returned; main = over }

abbrev Run : System ℕ → Type 0
Run = Reach whole sys default once begun

to_scanned : Run scanned
unfolding vitals.Sampler.spawn
to_scanned = next (next here (enter refl)) (scan reading done refl refl)

to_asleep : Run asleep
unfolding time_left
to_asleep =
    next
      (next (next to_scanned (give reading done (alerts whole reading done.engine) refl))
        (tick reading refl))
      (rest reading 999999997 refl refl)

to_framed : Run framed
unfolding vitals.Cli.Loop.ends show vitals.Sampler.hand_over work vitals.Sampler.spawn
to_framed = next to_asleep (frame 0 waiting refl refl)

to_asked : Run asked
to_asked = next to_framed (ask refl)

to_stopped : Run stopped
to_stopped = next (next (next to_asked (quit refl refl)) (join refl refl)) (discard refl)

Reach-Consistent_example : Consistent whole sys default engine once framed
Reach-Consistent_example = Reach-Consistent whole sys default engine once to_framed

consistent : Consistent whole sys default engine once framed
unfolding cycle hand_over work vitals.Sampler.spawn time_left show
consistent = record {
  passes = reading ∷ [];
  at = refl;
  shared = refl;
  rounds = record { shared = framed.worker.shared; elapsed = 0 } ∷ [];
  written = refl;
  seen = ([], reading ∷ [], refl, refl, tt);
}

stop-final_example :
    (stopped.place ≡ returned) × ((t : System ℕ) → Step whole sys default once stopped t → ⊥)
stop-final_example = stop-final whole sys default once engine to_stopped refl

stop-Returns_example : (t : System ℕ) × Reach whole sys default once asked t × (t.main ≡ over)
stop-Returns_example =
    stop-Returns whole sys default once engine reading to_asked (λ e. ground arith)

-- Two scans between which a process has read enough for an alert, and a frame after them.
abbrev fires : List (Rule ℕ)
fires = record read_rule { threshold = 20; clear = 20 } ∷ []

abbrev reads : Sample → Readings
reads s = record { result = ok s; now = s.at; clock = λ id. s.at; spent = 3 }

abbrev two_scans : List Readings
two_scans = reads second ∷ reads first ∷ []

abbrev alerted : Worker ℕ
alerted = whole_passes whole sys default (new whole fires) two_scans

abbrev alert_frame : Round ℕ
alert_frame = record { shared = alerted.shared; elapsed = 0 }

abbrev shown_alert : System ℕ
shown_alert = record {
  worker = alerted;
  place = napping;
  stop = false;
  held = true;
  main = leaving;
  written = all_written whole sys default (new whole fires) once (alert_frame ∷ []);
}

abbrev shown-Consistent : Consistent whole sys default (new whole fires) once shown_alert
shown-Consistent = record {
  passes = two_scans;
  at = refl;
  shared = refl;
  rounds = alert_frame ∷ [];
  written = refl;
  seen = ([], two_scans, refl, refl, tt);
}

logged_subjects :
    map (λ (ev : Event ℕ). ev.subject) (iter_chrono alert_frame.shared.events)
    ≡ codes "job (pid 9)" ∷ []
unfolding cycle vitals.Sampler.spawn iter_chrono new vitals.Prelude.insert vitals.Ring.get
    vitals.Ring.phys vitals.Rules.Evaluate.process_label vitals.Text.Number.display_int
logged_subjects = refl
