-- ===== src/Sampler/Tests.antt =====
-- The sampler over two samples with a failed scan between them.
use vitals.Delta.Fixtures.{sys, first, second}
use vitals.Float.Whole.{whole}
use vitals.Prelude.{
  map, ℕ, ◌-◌, ◌≡◌, refl, max, Bool, true, false, none, List, [], ◌∷◌, All, drop, length, ok, err,
  arith, lookup,
}
use vitals.Procfs.{key_eq}
use vitals.Ring.{iter_chrono}
use vitals.Rules.Engine.{Event, new, fired}
use vitals.Rules.Tests.{read_rule}
use vitals.Rules.{Rule}
use vitals.Sample.{Sample, other}
use vitals.Sampler.Cycles.{IsKeyed, shots, cycles}
use vitals.Sampler.Log.{points, logged, newest_snapshot, shared-cycles, Justified, log-Justified}
use vitals.Sampler.Sleep.{Wake}
use vitals.Sampler.Thread.{Pass}
use vitals.Sampler.{default, spawn, cycle, Readings}
use vitals.Text.{codes}

abbrev rules : List (Rule ℕ)
rules = record read_rule { threshold = 20; clear = 20 } ∷ []

abbrev failed : Readings
failed = record {
  result = err (record { kind = other; raw_os_error = none; message = codes "error" });
  now = 500;
  clock = λ id. 500;
  spent = 3;
}

abbrev reads : Sample → Readings
reads s = record { result = ok s; now = s.at; clock = λ id. s.at; spent = 3 }

abbrev passes : List Readings
passes = reads second ∷ failed ∷ reads first ∷ []

shared-cycles_example :
    let g = (cycles whole sys default passes (spawn whole (new whole rules) default)).shared in
    let ps = points whole (shots whole sys passes) in
    let evs = logged whole (new whole rules) (shots whole sys passes) in
    (iter_chrono g.history ≡ drop (length ps - max 300 1) ps)
    × (iter_chrono g.events ≡ drop (length evs - max 200 1) evs)
    × (g.latest ≡ newest_snapshot whole (shots whole sys passes))
shared-cycles_example =
    shared-cycles whole sys default (new whole rules) passes (omega arith) (omega arith)

passes-IsKeyed : All IsKeyed passes
unfolding lookup
passes-IsKeyed = ((refl, (refl, tt)), (tt, ((refl, (refl, tt)), tt)))

log-Justified_example :
    All
      (λ (ev : Event ℕ).
        ev.kind ≡ fired → Justified whole sys default rules (shots whole sys passes) ev)
      (iter_chrono
        (cycles whole sys default passes (spawn whole (new whole rules) default)).shared.events)
log-Justified_example = log-Justified whole sys default rules passes (omega arith) passes-IsKeyed

-- The log holds an alert of the process that both samples have.
logged_subjects :
    map
      (λ (ev : Event ℕ). ev.subject)
      (iter_chrono
        (cycles whole sys default passes (spawn whole (new whole rules) default)).shared.events)
    ≡ codes "job (pid 9)" ∷ []
unfolding cycle spawn iter_chrono new vitals.Prelude.insert vitals.Ring.get vitals.Ring.phys
    vitals.Rules.Evaluate.process_label vitals.Text.Number.display_int
logged_subjects = refl

abbrev wake_at : ℕ → Bool → Wake
wake_at t stop = record { test = t; stop = stop; again = t }

abbrev short_sleep : List Wake
short_sleep = wake_at 0 false ∷ wake_at 50000000 false ∷ wake_at 70000000 false ∷ []

abbrev rounds : List Pass
rounds =
    record { stop = false; readings = reads first; began = 0; wakes = [] }
    ∷ record { stop = true; readings = reads second; began = 0; wakes = [] }
    ∷ []
