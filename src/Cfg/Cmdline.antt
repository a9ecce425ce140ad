-- ===== src/Cfg/Cmdline.antt =====
-- `parse_cmdline` of src/cfg.c. getopt is the C library's: the options that it returns, with their
-- arguments, are given.
pub mod Levels
pub mod Refusals
pub mod Outcome
use gnuais.Common.{
  ℕ, ap, ◌∙◌, suc, ◌+◌, ◌<◌, ◌≡◌, refl, sym, subst, Bool, Bool-cases, inl, inr, ◌⊎◌, ==_iff, true,
  false, not, ◌&&◌, ◌||◌, Option, none, some, List, [], ◌∷◌, ◌==◌, if◌then◌else◌, length, ℤ, pos,
  negsuc, arith,
}
use gnuais.Hlog.{log_levelnames, log_destnames, pick_from, pick_loglevel, same_nocase}

-- L_FILE
abbrev pub l_file : ℕ
l_file = 3

-- The variables that the command line sets; `failed` is the one of `parse_cmdline`.
pub record Cmdline : Type 0 where
  pub cfgfile : List ℕ
  pub fork_a_daemon : Bool
  pub logname : List ℕ
  pub log_dir : Option (List ℕ)
  pub log_level : ℕ
  pub log_dest : ℕ
  pub sound_in_file : Option (List ℕ)
  pub sound_out_file : Option (List ℕ)
  pub failed : Bool

-- An option that getopt returns: the letter and `optarg`.
abbrev pub Opt : Type 0
Opt = ℕ × List ℕ

-- `if (i > -1) log_level = i; else failed = 1;`
unfoldable pub set_level : ℤ → Cmdline → Cmdline
set_level (pos i) m = record m { log_level = i }
set_level (negsuc i) m = record m { failed = true }

unfoldable pub set_dest : ℤ → Cmdline → Cmdline
set_dest (pos i) m = record m { log_dest = i }
set_dest (negsuc i) m = record m { failed = true }

-- The switch over the option.
unfoldable pub parse_option : Opt → Cmdline → Cmdline
unfolding set_level set_dest pick_loglevel log_levelnames log_destnames
parse_option (s, optarg) m =
    if s == b'c'
    then record m { cfgfile = optarg }
    else if s == b'f'
    then record m { fork_a_daemon = true }
    else if s == b'n'
    then record m { logname = optarg }
    else if s == b'r'
    then record m { log_dir = some optarg }
    else if s == b'e'
    then set_level (pick_loglevel optarg log_levelnames) m
    else if s == b'o'
    then set_dest (pick_loglevel optarg log_destnames) m
    else if s == b'l'
    then record m { sound_in_file = some optarg }
    else if s == b's'
    then record m { sound_out_file = some optarg }
    else if s == b'?' || s == b'h'
    then record m { failed = true }
    else m

unfoldable pub parse_options : List Opt → Cmdline → Cmdline
unfolding parse_option
parse_options [] m = m
parse_options (o ∷ opts) m = parse_options opts (parse_option o m)

-- `!log_dir`
unfoldable pub missing : Option (List ℕ) → Bool
missing none = true
missing (some s) = false

-- `parse_cmdline`: `none` is its call of exit.
unfoldable pub parse_cmdline : List Opt → Cmdline → Option Cmdline
unfolding parse_options missing
parse_cmdline opts m =
    let m' = parse_options opts m in
    if m'.failed || (m'.log_dest == l_file && missing m'.log_dir) then none else some m'
