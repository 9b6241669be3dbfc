-- ===== src/Cli/Start/Rules.antt =====
-- About the rule file on the command line.
use vitals.Cli.Start.{
  Line, stderr, Outcome, exits, starts, load_parsed, load_file, load_rules, spawn, main,
}
use vitals.Cli.{Settings, settings, wants_help}
use vitals.Float.{Float}
use vitals.Prelude.{
  ◌≡◌, ◌≢◌, ◌⊎◌, refl, sym, subst, false, some, List, [], ◌∷◌, ◌++◌, map, length, inl, inr, ok, err,
}
use vitals.Rules.Parse.Sound.{Accounted, parse_rules-Accounted}
use vitals.Rules.Parse.{ParseError, display_error, parse_rules}
use vitals.Rules.{Rule}
use vitals.Sample.{Io, IoError}
use vitals.Text.Number.{display}
use vitals.Text.{Text, codes, lines}

module _ {ℓ} {W : Type ℓ} (f : Float W) (debug : Text → Text) (read : Text → Io Text) where
  -- The lines about the refused lines of a file.
  abbrev pub refusals : Text → List ParseError → List Line
  refusals path refused =
      map
        (λ (e : ParseError). stderr (
          codes "vitals: rule file "
          ++ (path
              ++ (codes ": line "
                  ++ (display e.line_no
                      ++ (codes ": "
                          ++ (codes e.reason
                              ++ (codes " (in: " ++ (debug e.line ++ codes ")")))))))))
        refused

  -- What may come of a rule file, with what is written about it: the end of the process with this
  -- status, or the sampler that is spawned, with an engine of these rules that knows of no subject.
  pub data Verdict (s : Settings) (path : Text) : Outcome W → Type ℓ where
    unread :
        (e : IoError)
        → read path ≡ err e
        → Verdict s path (
            exits 1
              (stderr (codes "vitals: cannot read " ++ (path ++ (codes ": " ++ e.message))) ∷ []))
    unusable :
        (text : Text) (refused : List ParseError)
        → read path ≡ ok text
        → Accounted f 1 (lines text) ([], refused)
        → refused ≢ []
        → Verdict s path (
            exits 1
              (refusals path refused ++ stderr (codes "vitals: no usable rules; exiting") ∷ []))
    usable :
        (text : Text) (rules : List (Rule W)) (refused : List ParseError)
        → read path ≡ ok text
        → Accounted f 1 (lines text) (rules, refused)
        → (refused ≡ []) ⊎ (rules ≢ [])
        → Verdict s path (
            starts
              (refusals path refused
                ++ stderr (
                    codes "vitals: loaded "
                    ++ (display (length rules) ++ (codes " alert rule(s) from " ++ path)))
                  ∷ [])
              (record {
                settings = s;
                collector = record { root = s.root; with_sockets = s.with_sockets };
                engine = record { rules = rules; states = []; tick = 0 };
                config = record { interval = s.interval; history_len = 300; event_log_len = 200 };
              }))

  load_parsed-Verdict :
      (s : Settings) (path text : Text) (rules : List (Rule W)) (refused : List ParseError)
      → read path ≡ ok text
      → Accounted f 1 (lines text) (rules, refused)
      → Verdict s path (spawn f debug read s (load_parsed f debug read path (rules, refused)))
  unfolding load_parsed spawn display_error
  load_parsed-Verdict s path text rules [] file a = usable text rules [] file a (inl refl)
  load_parsed-Verdict s path text [] (e ∷ es) file a = unusable text (e ∷ es) file a (λ z. cc)
  load_parsed-Verdict s path text (r ∷ rs) (e ∷ es) file a =
      usable text (r ∷ rs) (e ∷ es) file a (inr (λ z. cc))

  load_file-Verdict :
      (s : Settings) (path : Text) (r : Io Text)
      → read path ≡ r
      → Verdict s path (spawn f debug read s (load_file f debug read path r))
  unfolding load_file spawn
  load_file-Verdict s path (err e) file = unread e file
  load_file-Verdict s path (ok text) file =
      load_parsed-Verdict s path text (parse_rules f text).0 (parse_rules f text).1 file
        (parse_rules-Accounted f text)

  load_rules-Verdict :
      (s : Settings) (path : Text)
      → Verdict s path (spawn f debug read s (load_rules f debug read (some path)))
  unfolding load_rules
  load_rules-Verdict s path = load_file-Verdict s path (read path) refl

  main_runs :
      (args : List Text)
      → wants_help args ≡ false
      → main f debug read args
        ≡ (let s = settings f args in spawn f debug read s (load_rules f debug read s.rules))
  unfolding main
  main_runs args help = rw help refl

  -- With a rule file on the command line, and no request for help, `main` ends with status 1 if the
  -- file cannot be read, or if it has a line to refuse and no rule; else it spawns the sampler,
  -- with the directory of the settings, and an engine that has the rules of the file and no state.
  -- Line by line, a line of the file that is not blank gives its rule, which is well-formed, or an
  -- error with its number, its text and the reason, and each error is written in either case, with
  -- what came of the file behind it.
  pub main-Verdict :
      (args : List Text) (path : Text)
      → wants_help args ≡ false
      → (settings f args).rules ≡ some path
      → Verdict (settings f args) path (main f debug read args)
  main-Verdict args path help rules =
      let s = settings f args in
      subst (Verdict s path) (sym (main_runs args help)) (
        subst (λ o. Verdict s path (spawn f debug read s (load_rules f debug read o))) (sym rules)
          (load_rules-Verdict s path))
