-- ===== src/System/Frames.antt =====
-- What the frames of `main` show of alerts, composed with what the sampler logs.
use vitals.Cli.Loop.{Round}
use vitals.Cli.{Settings}
use vitals.Float.{Float}
use vitals.Prelude.{◌≡◌, List, ◌++◌, All}
use vitals.Ring.{iter_chrono}
use vitals.Rules.Engine.{Event, new, fired}
use vitals.Rules.{Rule}
use vitals.Sampler.Cycles.{shots}
use vitals.Sampler.Log.{Justified}
use vitals.Sampler.{SamplerConfig, Readings}
use vitals.System.Consistent.{whole_passes, Consistent}
use vitals.System.{System}
use vitals.Units.{SysConst}

module _ {ℓ} {W : Type ℓ} (f : Float W) (sys : SysConst) (cfg : SamplerConfig)
    (rules : List (Rule W)) (set : Settings) where
  -- The round has read what some of the passes have left, the first ones in time, and the ticks of those
  -- passes explain each `fired` event that it finds in the log.
  pub record Explained (passes : List Readings) (r : Round W) : Type ℓ where
    pub newer : List Readings
    pub read : List Readings
    pub splits : passes ≡ newer ++ read
    pub shared : r.shared ≡ (whole_passes f sys cfg (new f rules) read).shared
    pub by :
        All
          (λ (ev : Event W). ev.kind ≡ fired → Justified f sys cfg rules (shots f sys read) ev)
          (iter_chrono r.shared.events)
