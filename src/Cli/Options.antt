-- ===== src/Cli/Options.antt =====
-- About the options as the usage text gives them: what `flag` and `has` find by scanning the words.
use Prim.Native.String.{String}
use vitals.Cli.{position, flag, has, Settings, wants_help, settings}
use vitals.Float.{Float}
use vitals.Prelude.{
  ℕ, suc, ◌+◌, ◌^◌, ◌≡◌, refl, sym, ap, ◌∙◌, subst, Bool, true, false, ◌||◌, Option, none, some,
  List, [], ◌∷◌, ◌++◌, map, if◌then◌else◌, get_elem?, ◌>>=◌, option_map, unwrap_or, All, All-map,
  arith, inl, inr, Bool-cases,
}
use vitals.Text.Number.{parse_u64}
use vitals.Text.{Text, codes, str_eq, str_eq_iff}
use vitals.Units.{parse_duration}

-- An option with or without a value.
pub data Opt : Type 0 where
  switch : Text → Opt
  valued : Text → Text → Opt

-- The words that a shell hands over.
abbrev pub words : List Opt → List Text
words [] = []
words (switch k ∷ os) = k ∷ words os
words (valued k v ∷ os) = k ∷ v ∷ words os

-- The value of the first option named `k`.
abbrev pub value_of : List Opt → Text → Option Text
value_of [] k = none
value_of (switch j ∷ os) k = value_of os k
value_of (valued j v ∷ os) k = if str_eq j k then some v else value_of os k

-- Whether an option named `k` is there.
abbrev pub named : List Opt → Text → Bool
named [] k = false
named (switch j ∷ os) k = str_eq j k || named os k
named (valued j v ∷ os) k = str_eq j k || named os k

-- `k` is not a value, and not the name of a switch.
abbrev IsNoValue : Text → Opt → Type 0
IsNoValue k (switch j) = Unit
IsNoValue k (valued j v) = str_eq v k ≡ false

abbrev IsNoSwitch : Text → Opt → Type 0
IsNoSwitch k (switch j) = str_eq j k ≡ false
IsNoSwitch k (valued j v) = Unit

item_shift :
    (x : Text) (a : List Text) (o : Option ℕ)
    → (option_map suc o >>= λ i. get_elem? (x ∷ a) (i + 1)) ≡ (o >>= λ i. get_elem? a (i + 1))
item_shift x a none = refl
item_shift x a (some i) = let e : suc i + 1 ≡ suc (i + 1) = omega arith in ap (get_elem? (x ∷ a)) e

flag-skip : (x k : Text) (a : List Text) → str_eq x k ≡ false → flag (x ∷ a) k ≡ flag a k
unfolding flag
flag-skip x k a h = rw h (item_shift x a (position a k))

flag-words :
    (k : Text) (os : List Opt)
    → All (IsNoValue k) os
    → All (IsNoSwitch k) os
    → flag (words os) k ≡ value_of os k
flag-words k [] v s = unfold flag in refl
flag-words k (switch j ∷ os) v s = flag-skip j k (words os) s.0 ∙ flag-words k os v.1 s.1
flag-words k (valued j w ∷ os) v s = elim (Bool-cases (str_eq j k)) [
  | inl same ↦ unfold flag in rw same refl
  | inr other ↦
      rw other (
        flag-skip j k (w ∷ words os) other ∙ flag-skip w k (words os) v.0 ∙ flag-words k os v.1 s.1)
]

has-words : (k : Text) (os : List Opt) → All (IsNoValue k) os → has (words os) k ≡ named os k
unfolding has
has-words k [] v = refl
has-words k (switch j ∷ os) v = rw (has-words k os v.1) refl
has-words k (valued j w ∷ os) v = rw (v.0, has-words k os v.1) refl

-- The names of the usage text.
abbrev switches : List Text
switches = map codes ("--sockets" ∷ "--once" ∷ "--json" ∷ [])

abbrev with_value : List Text
with_value = map codes ("--interval" ∷ "--top" ∷ "--rules" ∷ "--duration" ∷ "--proc-root" ∷ [])

abbrev reserved : List Text
reserved = map codes ("--help" ∷ "-h" ∷ []) ++ switches ++ with_value

-- An option that the usage text lists, whose value is not spelled like an option.
abbrev pub IsUsage : Opt → Type 0
IsUsage (switch k) = has switches k ≡ true
IsUsage (valued k v) = (has with_value k ≡ true) × (has reserved v ≡ false)

IsUsage-IsNoValue : (k : Text) → has reserved k ≡ true → (o : Opt) → IsUsage o → IsNoValue k o
IsUsage-IsNoValue k r (switch j) u = tt
IsUsage-IsNoValue k r (valued j v) u = elim (Bool-cases (str_eq v k)) [
  | inl same ↦
      let e = (str_eq_iff v k).0 same in
      absurd (let h : has reserved v ≡ true = subst (λ t. has reserved t ≡ true) (sym e) r in cc)
  | inr other ↦ other
]

IsUsage-IsNoSwitch : (k : Text) → has switches k ≡ false → (o : Opt) → IsUsage o → IsNoSwitch k o
IsUsage-IsNoSwitch k r (switch j) u = elim (Bool-cases (str_eq j k)) [
  | inl same ↦
      let e = (str_eq_iff j k).0 same in
      absurd (let h : has switches k ≡ true = subst (λ t. has switches t ≡ true) e u in cc)
  | inr other ↦ other
]
IsUsage-IsNoSwitch k r (valued j v) u = tt

-- A name that the usage text gives a value, or none.
abbrev IsValueName : String → Type 0
IsValueName k = (has reserved (codes k) ≡ true) × (has switches (codes k) ≡ false)

flag_usage :
    (k : String) (os : List Opt)
    → IsValueName k
    → All IsUsage os
    → flag (words os) (codes k) ≡ value_of os (codes k)
flag_usage k os n u =
    flag-words (codes k) os (All-map os (IsUsage-IsNoValue (codes k) n.0) u)
      (All-map os (IsUsage-IsNoSwitch (codes k) n.1) u)

has_usage :
    (k : String) (os : List Opt)
    → has reserved (codes k) ≡ true
    → All IsUsage os
    → has (words os) (codes k) ≡ named os (codes k)
has_usage k os n u = has-words (codes k) os (All-map os (IsUsage-IsNoValue (codes k) n) u)

-- A name that is in no option of the usage text is not the name of one.
named_other :
    (k : Text) (os : List Opt)
    → has switches k ≡ false
    → has with_value k ≡ false
    → All IsUsage os
    → named os k ≡ false
named_other k [] s v u = refl
named_other k (switch j ∷ os) s v u = elim (Bool-cases (str_eq j k)) [
  | inl same ↦
      absurd (let h = subst (λ t. has switches t ≡ true) ((str_eq_iff j k).0 same) u.0 in cc)
  | inr other ↦ rw other (named_other k os s v u.1)
]
named_other k (valued j w ∷ os) s v u = elim (Bool-cases (str_eq j k)) [
  | inl same ↦
      absurd (let h = subst (λ t. has with_value t ≡ true) ((str_eq_iff j k).0 same) u.0.0 in cc)
  | inr other ↦ rw other (named_other k os s v u.1)
]

help_usage :
    (k : String) (os : List Opt)
    → has reserved (codes k) ≡ true
    → has switches (codes k) ≡ false
    → has with_value (codes k) ≡ false
    → All IsUsage os
    → has (words os) (codes k) ≡ false
help_usage k os r s v u = has_usage k os r u ∙ named_other (codes k) os s v u

-- What the options ask for, each by its name.
abbrev pub chosen {ℓ} : {W : Type ℓ} (f : Float W) → List Opt → Settings
chosen f os = record {
  interval = unwrap_or (value_of os (codes "--interval") >>= parse_duration f) (10 ^ 9);
  top = unwrap_or (value_of os (codes "--top") >>= parse_u64) 15;
  root = unwrap_or (value_of os (codes "--proc-root")) (codes "/proc");
  json = named os (codes "--json");
  once = named os (codes "--once");
  run_for = value_of os (codes "--duration") >>= parse_duration f;
  rules = value_of os (codes "--rules");
  with_sockets = named os (codes "--sockets");
}

settings_chosen {ℓ} :
    {W : Type ℓ} (f : Float W) (os : List Opt)
    → All IsUsage os
    → settings f (words os) ≡ chosen f os
settings_chosen f os u =
    let interval = flag_usage "--interval" os (unfold has in (refl, refl)) u in
    let top = flag_usage "--top" os (unfold has in (refl, refl)) u in
    let root = flag_usage "--proc-root" os (unfold has in (refl, refl)) u in
    let json = has_usage "--json" os (unfold has in refl) u in
    let once = has_usage "--once" os (unfold has in refl) u in
    let run_for = flag_usage "--duration" os (unfold has in (refl, refl)) u in
    let rules = flag_usage "--rules" os (unfold has in (refl, refl)) u in
    let sockets = has_usage "--sockets" os (unfold has in refl) u in
    unfold settings in rw (interval, top, root, json, once, run_for, rules, sockets) refl

no_help : (os : List Opt) → All IsUsage os → wants_help (words os) ≡ false
no_help os u =
    let long =
      help_usage "--help" os (unfold has in refl) (unfold has in refl) (unfold has in refl) u in
    let short =
      help_usage "-h" os (unfold has in refl) (unfold has in refl) (unfold has in refl) u in
    unfold wants_help in rw (long, short) refl

-- On options that the usage text lists, in any order and number, of which no value is spelled like
-- an option, `main` takes for each name what its first occurrence says, and a default where it is
-- not given or does not parse; and it does not show the usage text.
pub settings-words {ℓ} :
    {W : Type ℓ} (f : Float W) (os : List Opt)
    → All IsUsage os
    → (settings f (words os) ≡ chosen f os) × (wants_help (words os) ≡ false)
settings-words f os u = (settings_chosen f os u, no_help os u)
