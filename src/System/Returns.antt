-- ===== src/System/Returns.antt =====
-- About what `stop` and the drop of the handle wait for: it comes to pass, wherever the thread stands.
use vitals.Cli.{Settings}
use vitals.Float.{Float}
use vitals.Prelude.{ℕ, ◌≡◌, refl, ◌∙◌, true, false, List, inl, inr, Option-cases, Bool-cases}
use vitals.Rules.Engine.{Engine}
use vitals.Sampler.{SamplerConfig, Work, Readings, work, time_left}
use vitals.System.Stops.{IsOrderly, Reach-IsOrderly}
use vitals.System.{
  Place, head, scanning, napping, returned, handing, counting, resting, Main, looping, leaving,
  joining, dropping, ending, over, System, alerts, finish, hand, count, overrun, start, Step, leave,
  scan, give, tick, late, rest, quit, ask, join, discard, end, Reach, here, next,
}
use vitals.Text.{Text}
use vitals.Units.{SysConst}

module _ {ℓ} {W : Type ℓ} (f : Float W) (sys : SysConst) (cfg : SamplerConfig)
    (set : Settings) where
  prepend :
      {s t u : System W}
      → Step f sys cfg set s t
      → Reach f sys cfg set t u
      → Reach f sys cfg set s u
  prepend st here = next here st
  prepend st (next r last) = next (prepend st r) last

  append :
      {s t u : System W}
      → Reach f sys cfg set s t
      → Reach f sys cfg set t u
      → Reach f sys cfg set s u
  append r here = r
  append r (next q last) = next (append r q) last

  -- The thread returns by some further steps of its own.
  abbrev Stands : System W → Type ℓ
  Stands s =
      (t : System W) × Reach f sys cfg set s t
      × (t.place ≡ returned)
      × (t.main ≡ s.main)
      × (t.held ≡ s.held)

  Step-Stands :
      {s t : System W}
      → Step f sys cfg set s t
      → t.main ≡ s.main
      → t.held ≡ s.held
      → Stands t
      → Stands s
  Step-Stands st m h (u, r, p, n, k) = (u, prepend st r, p, n ∙ m, k ∙ h)

  from_returned : (s : System W) → s.stop ≡ true → s.place ≡ returned → Stands s
  from_returned s w e = (s, here, e, refl, refl)

  from_head : (s : System W) → s.stop ≡ true → s.place ≡ head → Stands s
  from_head s w e =
      Step-Stands (leave e w) refl refl (from_returned (record s { place = returned }) w refl)

  from_napping : (s : System W) → s.stop ≡ true → s.place ≡ napping → Stands s
  from_napping s w e =
      Step-Stands (quit e w) refl refl (from_returned (record s { place = returned }) w refl)

  from_resting : (s : System W) (r : Readings) → s.stop ≡ true → s.place ≡ resting r → Stands s
  from_resting s r w e = elim (Option-cases (time_left f cfg r.spent)) [
    | inl none' ↦
        Step-Stands (late r e none') refl refl
          (from_head (record s { worker = overrun f s.worker; place = head }) w refl)
    | inr (left, some') ↦
        Step-Stands (rest r left e some') refl refl
          (from_napping (record s { place = napping }) w refl)
  ]

  from_counting : (s : System W) (r : Readings) → s.stop ≡ true → s.place ≡ counting r → Stands s
  from_counting s r w e =
      Step-Stands (tick r e) refl refl
        (from_resting (record s { worker = count f s.worker; place = resting r }) r w refl)

  from_handing :
      (s : System W) (r : Readings) (done : Work W) (list : List (Text × Text × ℕ))
      → s.stop ≡ true
      → s.place ≡ handing r done list
      → Stands s
  from_handing s r done list w e =
      Step-Stands (give r done list e) refl refl (
        from_counting (record s { worker = hand f done list s.worker; place = counting r }) r w
          refl)

  from_scanning : (s : System W) (r : Readings) → s.stop ≡ true → s.place ≡ scanning → Stands s
  from_scanning s r w e =
      let done = work f sys r.now r.result s.worker.engine s.worker.prev in
      Step-Stands (scan r done e refl) refl refl (
        from_handing
          (record s {
            worker = finish f done s.worker;
            place = handing r done (alerts f r done.engine);
          })
          r done (alerts f r done.engine) w refl)

  from_place : (s : System W) (r : Readings) (p : Place W) → s.stop ≡ true → s.place ≡ p → Stands s
  from_place s r head w e = from_head s w e
  from_place s r scanning w e = from_scanning s r w e
  from_place s r napping w e = from_napping s w e
  from_place s r returned w e = from_returned s w e
  from_place s r (handing q done list) w e = from_handing s q done list w e
  from_place s r (counting q) w e = from_counting s q w e
  from_place s r (resting q) w e = from_resting s q w e

  -- `main` comes to its end by some further steps.
  abbrev Returns : System W → Type ℓ
  Returns s = (t : System W) × Reach f sys cfg set s t × (t.main ≡ over)

  Reach-Returns : {s t : System W} → Reach f sys cfg set s t → Returns t → Returns s
  Reach-Returns r (u, q, m) = (u, append r q, m)

  -- The drop of a handle without a thread.
  from_free : (s : System W) → s.held ≡ false → s.main ≡ dropping → Returns s
  from_free s h m = (_, next here (discard m), rw h refl)

  from_joining :
      (s : System W) (r : Readings) → s.stop ≡ true → s.held ≡ false → s.main ≡ joining → Returns s
  from_joining s r w h m =
      let (t, reach, p, same, held) = from_place s r s.place w refl in
      Reach-Returns (next reach (join (same ∙ m) p))
        (from_free (record t { main = dropping }) (held ∙ h) refl)

  from_ending : (s : System W) (r : Readings) → s.stop ≡ true → s.main ≡ ending → Returns s
  from_ending s r w m =
      let (t, reach, p, same, held) = from_place s r s.place w refl in
      (record t { main = over }, next reach (end (same ∙ m) p), refl)

  from_dropping : (s : System W) (r : Readings) → s.main ≡ dropping → Returns s
  from_dropping s r m = elim (Bool-cases s.held) [
    | inl held ↦ Reach-Returns (next here (discard m)) (from_ending _ r refl (rw held refl))
    | inr gone ↦ from_free s gone m
  ]

  from_leaving : (s : System W) (r : Readings) → s.held ≡ true → s.main ≡ leaving → Returns s
  from_leaving s r h m = Reach-Returns (next here (ask m)) (from_joining _ r refl refl (rw h refl))

  from_main :
      (s : System W) (r : Readings) (m : Main)
      → IsOrderly f sys cfg set s
      → ¬ (s.main ≡ looping)
      → s.main ≡ m
      → Returns s
  from_main s r looping o out e = absurd (out e)
  from_main s r leaving o out e = from_leaving s r (o.kept (inr e)) e
  from_main s r joining o out e =
      let free = o.free (inl e) in from_joining s r (o.to_stop free) free e
  from_main s r dropping o out e = from_dropping s r e
  from_main s r ending o out e = from_ending s r (o.to_stop (o.free (inr e))) e
  from_main s r over o out e = (s, here, e)

  -- Wherever `main` and the thread stand when `main` has left its loop, be it to call `stop` or by
  -- a panic, there are steps that bring the thread to its return and `main` past the drop of its
  -- handle, on any readings that a scan under way may come back with: neither `join` can deadlock.
  pub stop-Returns :
      (engine : Engine W) {s : System W} (r : Readings)
      → Reach f sys cfg set (start f engine cfg) s
      → ¬ (s.main ≡ looping)
      → (t : System W) × Reach f sys cfg set s t × (t.main ≡ over)
  stop-Returns engine {s} r reach out =
      from_main s r s.main (Reach-IsOrderly f sys cfg set engine reach) out refl
