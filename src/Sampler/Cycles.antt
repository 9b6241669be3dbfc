-- ===== src/Sampler/Cycles.antt =====
-- Several passes of the sampler's loop, and the snapshots that they show the engine.
use vitals.Delta.{Snapshot, diff}
use vitals.Float.{Float}
use vitals.Prelude.{
  ℕ, ◌≡◌, refl, ap, ◌∙◌, Option, none, some, List, [], ◌∷◌, ◌++◌, All, Unique, ok, err,
}
use vitals.Procfs.{key_eq}
use vitals.Rules.Engine.{Engine}
use vitals.Rules.Evaluate.Observations.{DistinctKeys}
use vitals.Rules.Evaluate.Recycled.{diff-DistinctKeys}
use vitals.Rules.Evaluate.{evaluate}
use vitals.Rules.Trace.{run}
use vitals.Sample.{Sample, Io}
use vitals.Sampler.{SamplerConfig, Worker, spawn, work, Readings, cycle}
use vitals.Units.{SysConst}

-- The last sample that was read, the results newest first.
abbrev sample_or : Io Sample → Option Sample → Option Sample
sample_or (ok s) old = some s
sample_or (err e) old = old

abbrev pub last_sample : List Readings → Option Sample
last_sample [] = none
last_sample (r ∷ rs) = sample_or r.result (last_sample rs)

-- No sample that was read has a key twice.
abbrev HasUnique : Io Sample → Type 0
HasUnique (ok s) = Unique s.procs
HasUnique (err e) = Unit

abbrev pub IsKeyed : Readings → Type 0
IsKeyed r = HasUnique r.result

module _ {ℓ} {W : Type ℓ} (f : Float W) (sys : SysConst) where
  -- The snapshot of a pass, with its instant, if the pass and one before it read a sample.
  abbrev pub shot : Io Sample → Option Sample → ℕ → List (Snapshot W × ℕ)
  shot (ok cur) (some p) now = (diff f sys p cur, now) ∷ []
  shot _ _ now = []

  -- The snapshots of some passes, newest first.
  abbrev pub shots : List Readings → List (Snapshot W × ℕ)
  shots [] = []
  shots (r ∷ rs) = shot r.result (last_sample rs) r.now ++ shots rs

  shot-DistinctKeys :
      (res : Io Sample) (p : Option Sample) (now : ℕ) (older : List (Snapshot W × ℕ))
      → HasUnique res
      → All (λ (t : Snapshot W × ℕ). DistinctKeys t.0.procs) older
      → All (λ (t : Snapshot W × ℕ). DistinctKeys t.0.procs) (shot res p now ++ older)
  shot-DistinctKeys (ok cur) none now older u all = all
  shot-DistinctKeys (ok cur) (some p) now older u all = (diff-DistinctKeys f sys p cur u, all)
  shot-DistinctKeys (err e) p now older u all = all

  pub shots-DistinctKeys :
      (rs : List Readings)
      → All IsKeyed rs
      → All (λ (t : Snapshot W × ℕ). DistinctKeys t.0.procs) (shots rs)
  shots-DistinctKeys [] all = tt
  shots-DistinctKeys (r ∷ rs) (u, all) =
      shot-DistinctKeys r.result (last_sample rs) r.now (shots rs) u (shots-DistinctKeys rs all)

  module _ (cfg : SamplerConfig) where
    -- The worker after some passes, newest first.
    abbrev pub cycles : List Readings → Worker W → Worker W
    cycles [] w = w
    cycles (r ∷ rs) w = cycle f sys cfg r (cycles rs w)

    work-engine :
        (res : Io Sample) (now : ℕ) (e : Engine W) (p : Option Sample)
        (older : List (Snapshot W × ℕ)) (e0 : Engine W)
        → e ≡ run f e0 older
        → (work f sys now res e p).engine ≡ run f e0 (shot res p now ++ older)
    unfolding work
    work-engine (err er) now e p older e0 h = h
    work-engine (ok cur) now e none older e0 h = h
    work-engine (ok cur) now e (some p) older e0 h =
        ap (λ x. (evaluate f x (diff f sys p cur) now).1) h

    work-prev :
        (res : Io Sample) (now : ℕ) (e : Engine W) (p : Option Sample)
        → (work f sys now res e p).prev ≡ sample_or res p
    unfolding work
    work-prev (err er) now e p = refl
    work-prev (ok cur) now e none = refl
    work-prev (ok cur) now e (some p) = refl

    -- After any passes of the sampler from its start, failed scans included, the engine has been
    -- shown the differences of consecutive samples that were read, each once and in order, and the
    -- last sample that was read is kept.
    pub engine-cycles :
        (engine : Engine W) (rs : List Readings)
        → ((cycles rs (spawn f engine cfg)).engine ≡ run f engine (shots rs))
          × ((cycles rs (spawn f engine cfg)).prev ≡ last_sample rs)
    unfolding spawn cycle
    engine-cycles engine [] = (refl, refl)
    engine-cycles engine (r ∷ rs) =
        let (e, p) = engine-cycles engine rs in
        let w = cycles rs (spawn f engine cfg) in
        (
          ap (λ x. (work f sys r.now r.result w.engine x).engine) p
              ∙ work-engine r.result r.now w.engine (last_sample rs) (shots rs) engine e,
          work-prev r.result r.now w.engine w.prev ∙ ap (sample_or r.result) p,
        )
