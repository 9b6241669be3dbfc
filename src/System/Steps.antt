-- ===== src/System/Steps.antt =====
-- Every step of the system keeps what readers see.
use vitals.Cli.Loop.{error_lines, ends, show}
use vitals.Cli.Start.{Line}
use vitals.Cli.{Settings}
use vitals.Float.{Float}
use vitals.Prelude.{
  ℕ, ◌≡◌, refl, sym, ap, ap₂, ◌∙◌, subst, none, some, List, [], ◌∷◌, ◌++◌, append-nil,
  if◌then◌else◌, to_list,
}
use vitals.Rules.Engine.{Engine}
use vitals.Sampler.{SamplerConfig, Worker, Work, Readings, work, time_left}
use vitals.System.Consistent.{
  whole_passes, next_work, handed, cycle_parts, At, shared-cycle, Seen-later, all_written,
  Consistent, moved,
}
use vitals.System.{
  Place, head, scanning, napping, handing, counting, resting, looping, leaving, dropping, System,
  alerts, finish, hand, count, overrun, start, Step, enter, leave, scan, give, tick, late, rest,
  wake, quit, frame, panic, ask, join, discard, end, Reach, here, next,
}
use vitals.Text.{Text}
use vitals.Units.{SysConst}

module _ {ℓ} {W : Type ℓ} (f : Float W) (sys : SysConst) (cfg : SamplerConfig) (engine : Engine W)
    (set : Settings) where
  abbrev Good : System W → Type ℓ
  Good s = Consistent f sys cfg engine set s

  -- What holds of the worker in the place where the thread is known to stand.
  standing :
      {s : System W} (c : Good s) {p : Place W}
      → s.place ≡ p
      → At f sys cfg engine p c.passes s.worker
  standing {s} c e = subst (λ q. At f sys cfg engine q c.passes s.worker) e c.at

  scan-Consistent :
      {s : System W} (c : Good s) (r : Readings) (done : Work W)
      → s.place ≡ scanning
      → done ≡ work f sys r.now r.result s.worker.engine s.worker.prev
      → Good (record s {
        worker = finish f done s.worker;
        place = handing r done (alerts f r done.engine);
      })
  scan-Consistent {s} c r done e is =
      let same = standing c e in
      let q : done ≡ next_work f sys cfg engine r c.passes =
        is ∙ ap (λ (x : Worker W). work f sys r.now r.result x.engine x.prev) same in
      moved f sys cfg engine set c _
        (q, ap (λ (d : Work W). alerts f r d.engine) q, ap₂ (finish f) q same) refl

  give-Consistent :
      {s : System W} (c : Good s) (r : Readings) (done : Work W) (list : List (Text × Text × ℕ))
      → s.place ≡ handing r done list
      → Good (record s { worker = hand f done list s.worker; place = counting r })
  give-Consistent {s} c r done list e =
      let (q, l, same) = standing c e in
      let new : hand f done list s.worker ≡ handed f sys cfg engine r c.passes =
        ap (λ d. hand f d list s.worker) q
        ∙ ap₂ (hand f (next_work f sys cfg engine r c.passes)) l same in
      record {
        passes = r ∷ c.passes;
        at = (c.passes, refl, new);
        shared =
            ap (λ (x : Worker W). x.shared) new ∙ sym (shared-cycle f sys cfg engine r c.passes);
        rounds = c.rounds;
        written = c.written;
        seen = Seen-later f sys cfg engine r c.passes c.rounds c.seen;
      }

  tick-Consistent :
      {s : System W} (c : Good s) (r : Readings)
      → s.place ≡ counting r
      → Good (record s { worker = count f s.worker; place = resting r })
  tick-Consistent c r e =
      let (older, is, same) = standing c e in
      moved f sys cfg engine set c _ (older, is, ap (count f) same) refl

  late-Consistent :
      {s : System W} (c : Good s) (r : Readings)
      → s.place ≡ resting r
      → time_left f cfg r.spent ≡ none
      → Good (record s { worker = overrun f s.worker; place = head })
  late-Consistent {s} c r e t =
      let (older, is, same) = standing c e in
      let parts : whole_passes f sys cfg engine (r ∷ older)
          ≡ overrun f (count f (handed f sys cfg engine r older)) =
        cycle_parts f sys cfg engine r older ∙ rw t refl in
      moved f sys cfg engine set c _
        (ap (overrun f) same ∙ sym (ap (whole_passes f sys cfg engine) is ∙ parts)) refl

  rest-Consistent :
      {s : System W} (c : Good s) (r : Readings) (left : ℕ)
      → s.place ≡ resting r
      → time_left f cfg r.spent ≡ some left
      → Good (record s { place = napping })
  rest-Consistent c r left e t =
      let (older, is, same) = standing c e in
      let parts : whole_passes f sys cfg engine (r ∷ older)
          ≡ count f (handed f sys cfg engine r older) =
        cycle_parts f sys cfg engine r older ∙ rw t refl in
      moved f sys cfg engine set c _ (same ∙ sym (ap (whole_passes f sys cfg engine) is ∙ parts))
        refl

  frame-Consistent :
      {s : System W} (c : Good s) (elapsed : ℕ) (line : Line)
      → show f set s.worker.shared s.worker.shared.latest ≡ some line
      → Good (record s {
        main = if ends set elapsed then leaving else looping;
        written = s.written ++ (error_lines s.worker.shared.last_error ++ line ∷ []);
      })
  frame-Consistent {s} c elapsed line is = record {
    passes = c.passes;
    at = c.at;
    shared = c.shared;
    rounds = record { shared = s.worker.shared; elapsed = elapsed } ∷ c.rounds;
    written =
        ap₂ (λ x y. x ++ (error_lines s.worker.shared.last_error ++ to_list y)) c.written (sym is);
    seen = ([], c.passes, refl, c.shared, c.seen);
  }

  -- A round that panics has written its error, and no frame.
  panic-Consistent :
      {s : System W} (c : Good s)
      → show f set s.worker.shared s.worker.shared.latest ≡ none
      → Good (record s {
        main = dropping;
        written = s.written ++ error_lines s.worker.shared.last_error;
      })
  panic-Consistent {s} c is = record {
    passes = c.passes;
    at = c.at;
    shared = c.shared;
    rounds = record { shared = s.worker.shared; elapsed = 0 } ∷ c.rounds;
    written =
        ap₂ ◌++◌ c.written (sym (append-nil (error_lines s.worker.shared.last_error)))
        ∙ ap
            (λ y.
              all_written f sys cfg engine set c.rounds
              ++ (error_lines s.worker.shared.last_error ++ to_list y))
            (sym is);
    seen = ([], c.passes, refl, c.shared, c.seen);
  }

  Step-Consistent : {s t : System W} → Step f sys cfg set s t → Good s → Good t
  Step-Consistent (enter e) c = moved f sys cfg engine set c _ (standing c e) refl
  Step-Consistent (leave e stop) c = moved f sys cfg engine set c _ (standing c e) refl
  Step-Consistent (scan r done e is) c = scan-Consistent c r done e is
  Step-Consistent (give r done list e) c = give-Consistent c r done list e
  Step-Consistent (tick r e) c = tick-Consistent c r e
  Step-Consistent (late r e t) c = late-Consistent c r e t
  Step-Consistent (rest r left e t) c = rest-Consistent c r left e t
  Step-Consistent (wake e) c = moved f sys cfg engine set c _ (standing c e) refl
  Step-Consistent (quit e stop) c = moved f sys cfg engine set c _ (standing c e) refl
  Step-Consistent (frame elapsed line e is) c = frame-Consistent c elapsed line is
  Step-Consistent (ask e) c = moved f sys cfg engine set c _ c.at refl
  Step-Consistent (join e p) c = moved f sys cfg engine set c _ c.at refl
  Step-Consistent (panic e is) c = panic-Consistent c is
  Step-Consistent (discard e) c = moved f sys cfg engine set c _ c.at refl
  Step-Consistent (end e p) c = moved f sys cfg engine set c _ c.at refl

  -- Whatever the interleaving of the sampler's thread with `main`: a reader finds behind the lock
  -- the state that a whole number of passes has left, never a part of one, and what `main` has
  -- written is the frames of such states, a later frame never of fewer passes; a round that panics
  -- writes its error alone.
  pub Reach-Consistent :
      {s : System W}
      → Reach f sys cfg set (start f engine cfg) s
      → Consistent f sys cfg engine set s
  Reach-Consistent here = record {
    passes = [];
    at = refl;
    shared = refl;
    rounds = [];
    written = refl;
    seen = tt;
  }
  Reach-Consistent (next r st) = Step-Consistent st (Reach-Consistent r)
