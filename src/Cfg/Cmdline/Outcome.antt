-- ===== src/Cfg/Cmdline/Outcome.antt =====
-- What comes of a call of `parse_cmdline` of src/cfg.c.
use gnuais.Common.{
  ap, ◌∙◌, ◌≡◌, refl, sym, Bool, Bool-cases, inl, inr, ◌⊎◌, ==_iff, true, false, ◌&&◌, ◌||◌, Option,
  none, some, List, ◌==◌, arith,
}
use gnuais.Cfg.Cmdline.{l_file, Cmdline, Opt, parse_options, missing, parse_cmdline}
use gnuais.Cfg.Cmdline.Levels.{IsLogging, parse_options-IsLogging}
use gnuais.Cfg.Cmdline.Refusals.{any_refused, parse_options-failed}

-- What comes of the options, with the variables `m` behind them: the program exits for an option that
-- it does not take, or for a log file without a directory, or it goes on with them.
pub data Accepted (refused : Bool) (m : Cmdline) : Option Cmdline → Type 0 where
  exits :
      (refused ≡ true) ⊎ ((m.log_dest ≡ l_file) × (missing m.log_dir ≡ true))
      → Accepted refused m none
  accepted :
      IsLogging m
      → refused ≡ false
      → ((m.log_dest ≡ l_file) → missing m.log_dir ≡ false)
      → Accepted refused m (some m)

flag_off : (f d : Bool) → f || d ≡ false → f ≡ false
flag_off true d h = h
flag_off false d h = refl

-- The reason for an exit.
reason : (f d e : Bool) → f || (d && e) ≡ true → (f ≡ true) ⊎ ((d ≡ true) × (e ≡ true))
reason true d e h = inl refl
reason false true true h = inr (refl, refl)
reason false true false h = inl h
reason false false e h = inl h

pub parse_cmdline-Accepted :
    (opts : List Opt) (m : Cmdline)
    → IsLogging m
    → m.failed ≡ false
    → Accepted (any_refused opts) (parse_options opts m) (parse_cmdline opts m)
unfolding parse_cmdline
parse_cmdline-Accepted opts m l fresh =
    let m' = parse_options opts m in
    let same : m'.failed ≡ any_refused opts =
      parse_options-failed opts m ∙ ap (λ b. b || any_refused opts) fresh in
    elim (Bool-cases (m'.failed || (m'.log_dest == l_file && missing m'.log_dir))) [
      | inl e ↦ rw e (
          exits (elim (reason m'.failed (m'.log_dest == l_file) (missing m'.log_dir) e) [
            | inl f ↦ inl (sym same ∙ f)
            | inr (d, n) ↦ inr ((==_iff m'.log_dest l_file).0 d, n)
          ]))
      | inr e ↦ rw e (
          accepted (parse_options-IsLogging opts m l) (sym same ∙ flag_off _ _ e)
            (λ file. grind (arith, e, file)))
    ]
