-- ===== src/Cli/Loop/Ends.antt =====
-- About when the loop of `main` ends, and what it has written then.
use vitals.Cli.Loop.{Round, End, broke, error_lines, home, ends, show, main_loop}
use vitals.Cli.Start.{Line, stdout, stderr}
use vitals.Cli.{Settings}
use vitals.Delta.{Snapshot}
use vitals.Float.{Float, IsOrdered, IsRounding}
use vitals.Json.{render_json}
use vitals.Prelude.{
  ℕ, ◌≤◌, ◌<◌, leb, arith, Option-cases, ◌≡◌, refl, sym, subst, ap, ◌∙◌, true, false, Option, none,
  some, List, [], ◌∷◌, ◌++◌, if◌then◌else◌, All, to_list, inl, inr, Bool-cases,
}
use vitals.Sampler.{Shared}
use vitals.Screen.Bars.{render_text-some}
use vitals.Screen.{render_text}
use vitals.Text.{Text, codes}

module _ {ℓ} {W : Type ℓ} (f : Float W) where
  -- The lines of one round: the sampler's error, if there is one, and the frame.
  abbrev pub shown : Settings → Round W → List Line
  shown s r = error_lines r.shared.last_error ++ to_list (show f s r.shared r.shared.latest)

  -- The line of a frame, by what the round finds and the settings say.
  pub data Frame (s : Settings) (g : Shared W) : Option (Snapshot W) → Line → Type ℓ where
    waiting : Frame s g none (stderr (codes "vitals: waiting for first sample..."))
    object :
        {snap : Snapshot W}
        → s.json ≡ true
        → Frame s g (some snap) (stdout (render_json f snap g s.top ++ 10 ∷ []))
    single :
        {snap : Snapshot W} (text : Text)
        → s.json ≡ false
        → s.once ≡ true
        → render_text f snap g s.top true ≡ some text
        → Frame s g (some snap) (stdout text)
    redrawn :
        {snap : Snapshot W} (text : Text)
        → s.json ≡ false
        → s.once ≡ false
        → render_text f snap g s.top false ≡ some text
        → Frame s g (some snap) (stdout (0x1b ∷ (codes "[H" ++ 0x1b ∷ (codes "[J" ++ text))))

  -- What is written of the sampler's error.
  abbrev pub report : Option Text → Line → List Line → List Line
  report none frame later = frame ∷ later
  report (some why) frame later = stderr (codes "vitals: sample error: " ++ why) ∷ frame ∷ later

  -- What is written in some rounds, in order: the error, if there is one, and the frame of each.
  pub data Output (s : Settings) : List (Round W) → List Line → Type ℓ where
    nothing : Output s [] []
    round :
        {r : Round W} {rs : List (Round W)} {frame : Line} {later : List Line}
        → Frame s r.shared r.shared.latest frame
        → Output s rs later
        → Output s (r ∷ rs) (report r.shared.last_error frame later)

  -- There is another round after this one, or it is the last: of `--once`, or by the clock.
  pub record GoesOn (s : Settings) (r : Round W) : Type 0 where
    pub again : s.once ≡ false
    pub early : (d : ℕ) → s.run_for ≡ some d → r.elapsed < d

  pub data IsLast (s : Settings) (r : Round W) : Type 0 where
    by_once : s.once ≡ true → IsLast s r
    by_clock : (d : ℕ) → s.run_for ≡ some d → d ≤ r.elapsed → IsLast s r

  ends-GoesOn : (s : Settings) (r : Round W) → GoesOn s r → ends s r.elapsed ≡ false
  unfolding ends
  ends-GoesOn s r g = elim (Option-cases s.run_for) [
    | inl forever ↦ rw (g.again, forever) refl
    | inr (d, is) ↦
        let early = g.early d is in
        let no : leb d r.elapsed ≡ false = ground arith in rw (g.again, is) no
  ]

  ends-IsLast : (s : Settings) (r : Round W) → IsLast s r → ends s r.elapsed ≡ true
  unfolding ends
  ends-IsLast s r (by_once once) = rw once refl
  ends-IsLast s r (by_clock d is late) =
      let yes : leb d r.elapsed ≡ true = ground arith in
      elim (Bool-cases s.once) [ inl once ↦ rw once refl | inr again ↦ rw (again, is) yes ]

  module _ (ord : IsOrdered f) (rounding : IsRounding f) where
    text-Frame :
        (s : Settings) (g : Shared W) (snap : Snapshot W) (t : Text)
        → s.json ≡ false
        → render_text f snap g s.top s.once ≡ some t
        → Frame s g (some snap) (stdout (if s.once then t else home ++ t))
    text-Frame s g snap t text is = elim (Bool-cases s.once) [
      | inl once ↦
          subst (λ b. Frame s g (some snap) (stdout (if b then t else home ++ t))) (sym once)
            (single t text once (subst (λ b. render_text f snap g s.top b ≡ some t) once is))
      | inr again ↦
          subst (λ b. Frame s g (some snap) (stdout (if b then t else home ++ t))) (sym again)
            (redrawn t text again (subst (λ b. render_text f snap g s.top b ≡ some t) again is))
    ]

    show-Frame :
        (s : Settings) (g : Shared W) (latest : Option (Snapshot W))
        → (line : Line) × (show f s g latest ≡ some line) × Frame s g latest line
    unfolding show
    show-Frame s g none = (_, refl, waiting)
    show-Frame s g (some snap) = elim (Bool-cases s.json) [
      | inl json ↦ (_, rw json refl, object json)
      | inr text ↦
          let (t, is) = render_text-some f ord rounding snap g s.top s.once in
          (_, rw (text, is) refl, text-Frame s g snap t text is)
    ]

    report-append :
        (why : Option Text) (frame : Line) (later : List Line)
        → (error_lines why ++ frame ∷ []) ++ later ≡ report why frame later
    report-append none frame later = refl
    report-append (some why) frame later = refl

    report-last :
        (why : Option Text) (frame : Line) → error_lines why ++ frame ∷ [] ≡ report why frame []
    report-last none frame = refl
    report-last (some why) frame = refl

    -- A round that goes on, and one that does not.
    main_loop_on :
        (s : Settings) (r : Round W) (rs : List (Round W)) {line : Line}
        → show f s r.shared r.shared.latest ≡ some line
        → ends s r.elapsed ≡ false
        → main_loop f s (r ∷ rs)
          ≡ (report r.shared.last_error line (main_loop f s rs).0, (main_loop f s rs).1)
    main_loop_on s r rs {line} is on =
        let runs : main_loop f s (r ∷ rs) ≡ (
          (error_lines r.shared.last_error ++ line ∷ []) ++ (main_loop f s rs).0,
          (main_loop f s rs).1,
        ) =
          unfold main_loop in rw (is, on) refl in
        runs
        ∙ ap (λ l. (l, (main_loop f s rs).1))
            (report-append r.shared.last_error line (main_loop f s rs).0)

    main_loop_off :
        (s : Settings) (r : Round W) (rs : List (Round W)) {line : Line}
        → show f s r.shared r.shared.latest ≡ some line
        → ends s r.elapsed ≡ true
        → main_loop f s (r ∷ rs) ≡ (report r.shared.last_error line [], broke)
    main_loop_off s r rs {line} is off =
        let runs : main_loop f s (r ∷ rs) ≡ (error_lines r.shared.last_error ++ line ∷ [], broke) =
          unfold main_loop in rw (is, off) refl in
        runs ∙ ap (λ l. (l, broke)) (report-last r.shared.last_error line)

    -- With ordered arithmetic, and rounding that keeps order and whole numbers, the loop ends with
    -- the first round that sees `--once`, or the clock at the end of `--duration`. It has then
    -- written, of each round up to that one, in order, the error if there is one, and the frame:
    -- that no sample is there, an object and a line feed, or the text, behind the codes that clear
    -- the screen if more frames may follow. It has written nothing of a later round, and has not
    -- panicked.
    pub main_loop-ends :
        (s : Settings) (before : List (Round W)) (r : Round W) (after : List (Round W))
        → All (GoesOn s) before
        → IsLast s r
        → (lines : List Line) × Output s (before ++ r ∷ []) lines
          × (main_loop f s (before ++ r ∷ after) ≡ (lines, broke))
    main_loop-ends s [] r after on off =
        let (line, is, frame) = show-Frame s r.shared r.shared.latest in
        (_, round frame nothing, main_loop_off s r after is (ends-IsLast s r off))
    main_loop-ends s (b ∷ before) r after on off =
        let (line, is, frame) = show-Frame s b.shared b.shared.latest in
        let (lines, out, runs) = main_loop-ends s before r after on.1 off in
        (
          _,
          round frame out,
          main_loop_on s b (before ++ r ∷ after) is (ends-GoesOn s b on.0)
              ∙ ap (λ (x : List Line × End). (report b.shared.last_error line x.0, x.1)) runs,
        )
