-- ===== src/Sampler/Log.antt =====
-- The history, the event log and the newest snapshot that the sampler shares.
use vitals.Delta.{Snapshot, diff}
use vitals.Float.{Float}
use vitals.Prelude.{
  ℕ, zero, suc, ◌-◌, ◌^◌, ◌<◌, max, ◌≡◌, refl, sym, ap, ap₂, ◌∙◌, subst, Option, none, some, List,
  [], ◌∷◌, ◌++◌, All, All-map, All-append, length, drop, ok, err,
}
use vitals.Ring.View.{push_all, iter_chrono-push_all}
use vitals.Ring.{Ring, push, iter_chrono}
use vitals.Ring as Ring
use vitals.Rules.Engine.{Engine, Event, new, fired}
use vitals.Rules.Evaluate.{evaluate}
use vitals.Rules.Trace.Alerts.{FiredBy, evaluate-Explained}
use vitals.Rules.Trace.{run}
use vitals.Rules.Evaluate.Observations.{DistinctKeys}
use vitals.Rules.{Rule}
use vitals.Sample.{Sample, Io}
use vitals.Sampler.Cycles.{IsKeyed, shot, shots, cycles, engine-cycles, shots-DistinctKeys}
use vitals.Sampler.{
  HistoryPoint, Shared, SamplerConfig, spawn, point, work, hand_over, Readings, cycle,
}
use vitals.Text.{Text}
use vitals.Units.{SysConst}

push_all-append {ℓ} :
    {A : Type ℓ} (xs ys : List A) (r : Ring A) → push_all r (xs ++ ys) ≡ push_all (push_all r xs) ys
push_all-append [] ys r = refl
push_all-append (x ∷ xs) ys r = push_all-append xs ys (push r x).1

All-drop {ℓ κ} : {A : Type ℓ} (P : A → Type κ) (n : ℕ) (xs : List A) → All P xs → All P (drop n xs)
All-drop P zero xs all = all
All-drop P (suc n) [] all = tt
All-drop P (suc n) (x ∷ xs) all = All-drop P n xs all.1

module _ {ℓ} {W : Type ℓ} (f : Float W) where
  -- The points of history of these ticks, oldest first.
  abbrev pub points : List (Snapshot W × ℕ) → List (HistoryPoint W)
  points [] = []
  points (t ∷ ts) = points ts ++ point f t.0 ∷ []

  -- The events of these ticks, in the order in which they are returned.
  abbrev pub logged : Engine W → List (Snapshot W × ℕ) → List (Event W)
  logged e [] = []
  logged e ((snap, now) ∷ ts) = logged e ts ++ (evaluate f (run f e ts) snap now).0

  abbrev pub newest_snapshot : List (Snapshot W × ℕ) → Option (Snapshot W)
  newest_snapshot [] = none
  newest_snapshot (t ∷ ts) = some t.0

  module _ (sys : SysConst) (cfg : SamplerConfig) (engine : Engine W) where
    -- The shared state shows these ticks.
    record Shows (ts : List (Snapshot W × ℕ)) (g : Shared W) : Type ℓ where
      history : g.history ≡ push_all (Ring.new cfg.history_len) (points ts)
      events : g.events ≡ push_all (Ring.new cfg.event_log_len) (logged engine ts)
      latest : g.latest ≡ newest_snapshot ts

    work-Shows :
        (res : Io Sample) (now : ℕ) (e : Engine W) (p : Option Sample) (ts : List (Snapshot W × ℕ))
        (alerts : List (Text × Text × ℕ)) (g : Shared W)
        → e ≡ run f engine ts
        → Shows ts g
        → Shows (shot f sys res p now ++ ts) (hand_over f (work f sys now res e p) alerts g)
    unfolding work hand_over
    work-Shows (err er) now e p ts alerts g same s = record {
      history = s.history;
      events = s.events;
      latest = s.latest;
    }
    work-Shows (ok cur) now e none ts alerts g same s = record {
      history = s.history;
      events = s.events;
      latest = s.latest;
    }
    work-Shows (ok cur) now e (some p) ts alerts g same s =
        let snap = diff f sys p cur in
        record {
          history =
              ap (λ r. (push r (point f snap)).1) s.history
              ∙ sym (push_all-append (points ts) (point f snap ∷ []) (Ring.new cfg.history_len));
          events =
              ap₂ (λ r x. push_all r (evaluate f x snap now).0) s.events same
              ∙ sym (
                  push_all-append (logged engine ts) (evaluate f (run f engine ts) snap now).0
                    (Ring.new cfg.event_log_len));
          latest = refl;
        }

    work-Shows_at :
        (res : Io Sample) (now : ℕ) (e : Engine W) (p : Option Sample) (ts : List (Snapshot W × ℕ))
        (alerts : List (Text × Text × ℕ)) (g : Shared W)
        → e ≡ run f engine ts
        → Shows ts g
        → {q : Option Sample} → p ≡ q
        → Shows (shot f sys res q now ++ ts) (hand_over f (work f sys now res e p) alerts g)
    work-Shows_at res now e p ts alerts g same s kept =
        subst
          (λ q. Shows (shot f sys res q now ++ ts) (hand_over f (work f sys now res e p) alerts g))
          kept (work-Shows res now e p ts alerts g same s)

    shared-Shows :
        (rs : List Readings)
        → Shows (shots f sys rs) (cycles f sys cfg rs (spawn f engine cfg)).shared
    unfolding spawn cycle
    shared-Shows [] = record { history = refl; events = refl; latest = refl }
    shared-Shows (r ∷ rs) =
        let (e, p) = engine-cycles f sys cfg engine rs in
        let w = cycles f sys cfg rs (spawn f engine cfg) in
        work-Shows_at r.result r.now w.engine w.prev (shots f sys rs) _ w.shared e (shared-Shows rs)
          p

    -- After any passes of the sampler from its start, with lengths below 2^63, a reader finds in
    -- the history and in the event log the last points and events of all ticks, each as many as
    -- there is room for and oldest first, and as `latest` the newest snapshot.
    pub shared-cycles :
        (rs : List Readings)
        → cfg.history_len < 2 ^ 63
        → cfg.event_log_len < 2 ^ 63
        → let g = (cycles f sys cfg rs (spawn f engine cfg)).shared in
          let ps = points (shots f sys rs) in
          let evs = logged engine (shots f sys rs) in
          (iter_chrono g.history ≡ drop (length ps - max cfg.history_len 1) ps)
          × (iter_chrono g.events ≡ drop (length evs - max cfg.event_log_len 1) evs)
          × (g.latest ≡ newest_snapshot (shots f sys rs))
    shared-cycles rs hh he =
        let s = shared-Shows rs in
        (
          ap iter_chrono s.history ∙ iter_chrono-push_all cfg.history_len _ hh,
          ap iter_chrono s.events ∙ iter_chrono-push_all cfg.event_log_len _ he,
          s.latest,
        )

  module _ (sys : SysConst) (cfg : SamplerConfig) (rules : List (Rule W)) where
    -- One of the ticks explains the event.
    pub record Justified (ts : List (Snapshot W × ℕ)) (ev : Event W) : Type ℓ where
      pub newer : List (Snapshot W × ℕ)
      pub snap : Snapshot W
      pub now : ℕ
      pub older : List (Snapshot W × ℕ)
      pub splits : ts ≡ newer ++ (snap, now) ∷ older
      pub by : FiredBy f rules snap now older ev

    later :
        (t : Snapshot W × ℕ) (ts : List (Snapshot W × ℕ)) (ev : Event W)
        → Justified ts ev
        → Justified (t ∷ ts) ev
    later t ts ev j = record {
      newer = t ∷ j.newer;
      snap = j.snap;
      now = j.now;
      older = j.older;
      splits = ap (◌∷◌ t) j.splits;
      by = j.by;
    }

    logged-Justified :
        (ts : List (Snapshot W × ℕ))
        → All (λ (t : Snapshot W × ℕ). DistinctKeys t.0.procs) ts
        → All (λ (ev : Event W). ev.kind ≡ fired → Justified ts ev) (logged (new f rules) ts)
    logged-Justified [] d = tt
    logged-Justified ((snap, now) ∷ ts) (d, ds) =
        let evs = (evaluate f (run f (new f rules) ts) snap now).0 in
        All-append (λ (ev : Event W). ev.kind ≡ fired → Justified ((snap, now) ∷ ts) ev)
          (logged (new f rules) ts) evs
          (All-map (logged (new f rules) ts) (λ ev j k. later (snap, now) ts ev (j k))
            (logged-Justified ts ds))
          (All-map evs
            (λ ev j k. record {
              newer = [];
              snap = snap;
              now = now;
              older = ts;
              splits = refl;
              by = j k;
            })
            (evaluate-Explained f rules snap now ts ds d))

    -- After any passes of the sampler from its start, failed scans included, over samples without a
    -- key twice and with room for fewer than 2^63 events: each `fired` event in the shared event
    -- log is of one of the ticks, names a rule, its metric and its threshold, and gives the name
    -- and the value that a subject of the rule has in the snapshot of that tick; the subject has
    -- breached at every tick of an unbroken run up to that tick, from one at least `sustain`
    -- before, and `held_for` is the length of the run.
    pub log-Justified :
        (rs : List Readings)
        → cfg.event_log_len < 2 ^ 63
        → All IsKeyed rs
        → All
            (λ (ev : Event W). ev.kind ≡ fired → Justified (shots f sys rs) ev)
            (iter_chrono (cycles f sys cfg rs (spawn f (new f rules) cfg)).shared.events)
    log-Justified rs small keyed =
        let evs = logged (new f rules) (shots f sys rs) in
        let s = shared-Shows sys cfg (new f rules) rs in
        subst (All (λ (ev : Event W). ev.kind ≡ fired → Justified (shots f sys rs) ev))
          (sym (ap iter_chrono s.events ∙ iter_chrono-push_all cfg.event_log_len evs small))
          (All-drop _ (length evs - max cfg.event_log_len 1) evs
            (logged-Justified (shots f sys rs) (shots-DistinctKeys f sys rs keyed)))
