-- ===== src/Cfg/Cmdline/Refusals.antt =====
-- The options that `parse_cmdline` of src/cfg.c does not take.
use gnuais.Common.{
  ℕ, ap, ◌∙◌, ◌+◌, ◌≡◌, refl, Bool, Bool-cases, inl, inr, true, false, not, ◌&&◌, ◌||◌, List, [],
  ◌∷◌, ◌==◌, if◌then◌else◌, arith,
}
use gnuais.Hlog.{log_levelnames, log_destnames, pick_from, pick_loglevel, same_nocase}
use gnuais.Cfg.Cmdline.{Cmdline, Opt, set_level, set_dest, parse_option, parse_options}

-- The names have `s` among them, in letters of either case.
is_among : (s : List ℕ) → List (List ℕ) → Bool
is_among s [] = false
is_among s (name ∷ names) = same_nocase s name || is_among s names

-- An option that the program does not take: `-h` or one that getopt does not know, a level or a
-- destination of the log that has no name.
unfoldable is_refused : Opt → Bool
unfolding is_among
is_refused (s, optarg) =
    (s == b'h' || s == b'?')
    || ((s == b'e' && not (is_among optarg log_levelnames))
        || (s == b'o' && not (is_among optarg log_destnames)))

unfoldable pub any_refused : List Opt → Bool
unfolding is_refused
any_refused [] = false
any_refused (o ∷ opts) = is_refused o || any_refused opts

set_level-failed :
    (i : ℕ) (s : List ℕ) (names : List (List ℕ)) (m : Cmdline)
    → (set_level (pick_from i s names) m).failed ≡ m.failed || not (is_among s names)
unfolding set_level pick_from is_among
set_level-failed i s [] m = ground arith
set_level-failed i s (name ∷ names) m = elim (Bool-cases (same_nocase s name)) [
  | inl same ↦ rw same (ground arith)
  | inr other ↦ rw other (set_level-failed (i + 1) s names m)
]

set_dest-failed :
    (i : ℕ) (s : List ℕ) (names : List (List ℕ)) (m : Cmdline)
    → (set_dest (pick_from i s names) m).failed ≡ m.failed || not (is_among s names)
unfolding set_dest pick_from is_among
set_dest-failed i s [] m = ground arith
set_dest-failed i s (name ∷ names) m = elim (Bool-cases (same_nocase s name)) [
  | inl same ↦ rw same (ground arith)
  | inr other ↦ rw other (set_dest-failed (i + 1) s names m)
]

if-failed :
    (b : Bool) (x y : Cmdline) → (if b then x else y).failed ≡ (if b then x.failed else y.failed)
if-failed true x y = refl
if-failed false x y = refl

-- The flag behind the switch, for the letter `s`, with the flags of the two levels.
letter-failed :
    (s : ℕ) (before unnamed_level unnamed_dest : Bool)
    → (if s == b'c'
        then before
        else if s == b'f'
        then before
        else if s == b'n'
        then before
        else if s == b'r'
        then before
        else if s == b'e'
        then before || unnamed_level
        else if s == b'o'
        then before || unnamed_dest
        else if s == b'l'
        then before
        else if s == b's'
        then before
        else if s == b'?' || s == b'h'
        then true
        else before)
      ≡ before
        || ((s == b'h' || s == b'?')
            || ((s == b'e' && unnamed_level) || (s == b'o' && unnamed_dest)))
letter-failed s before unnamed_level unnamed_dest = ground arith

parse_option-failed : (o : Opt) (m : Cmdline) → (parse_option o m).failed ≡ m.failed || is_refused o
unfolding parse_option is_refused pick_loglevel
parse_option-failed (s, optarg) m =
    let level = set_level-failed 0 optarg log_levelnames m in
    let dest = set_dest-failed 0 optarg log_destnames m in
    simp (if-failed, level, dest)
      (letter-failed s m.failed (not (is_among optarg log_levelnames))
        (not (is_among optarg log_destnames)))

or_assoc : (a b c : Bool) → (a || b) || c ≡ a || (b || c)
or_assoc true b c = refl
or_assoc false b c = refl

pub parse_options-failed :
    (opts : List Opt) (m : Cmdline) → (parse_options opts m).failed ≡ m.failed || any_refused opts
unfolding parse_options any_refused
parse_options-failed [] m = ground arith
parse_options-failed (o ∷ opts) m =
    let rest = parse_options-failed opts (parse_option o m) in
    let here = parse_option-failed o m in
    rest
    ∙ (ap (λ b. b || any_refused opts) here ∙ or_assoc m.failed (is_refused o) (any_refused opts))
