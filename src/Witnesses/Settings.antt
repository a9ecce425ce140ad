-- ===== src/Witnesses/Settings.antt =====
-- The theorems on the configuration at concrete inputs.
use gnuais.Common.{
  ℕ, ◌≡◌, ◌++◌, subst, refl, some, none, Option, List, [], ◌∷◌, map, pos, arith, codes, All, true,
  false, replicate, All-replicate, ◌≢◌, ◌<◌, ◌≤◌, ◌+◌,
}
use gnuais.Protodec.Types.{Scaled, over}
use gnuais.Hlog.{to_lower, log_levelnames, log_destnames}
use gnuais.Cfgfile.{parse_args, strlwr}
use gnuais.Cfgfile.Lines.{Placed, IsPlaced, bare, quoted, meaning, line, parse_args-line, IsWord}
use gnuais.Cfg.{Config, CfgCmd, mono, string_cmd, parse_interval}
use gnuais.Cfg.Commands.{cfg_cmds, cmdparse, read_lines}
use gnuais.Cfg.Directives.{cmdparse-function}
use gnuais.Cfg.Interval.{
  factor, Part, days, hours, parts_text, parts_total, figures_text, value_from,
  parse_interval-parts,
}
use gnuais.Cfg.Destinations.{IsConfig, HasUrl, KeepsConfig}
use gnuais.Cfg.Invariant.{LineHasUrl, read_lines-KeepsConfig}
use gnuais.Cfg.Settings.{Settings, Starts, read_config, read_config-Starts}
use gnuais.Cfg.Cmdline.{Cmdline, Opt, parse_options, parse_cmdline}
use gnuais.Cfg.Cmdline.Levels.{IsLogging}
use gnuais.Cfg.Cmdline.Refusals.{any_refused}
use gnuais.Cfg.Cmdline.Outcome.{Accepted, parse_cmdline-Accepted}

-- MyCall "OH\"7"
abbrev mycall_words : List Placed
mycall_words =
    record { gap = []; word = bare b'M' (codes "yCall") }
    ∷ record { gap = codes " \t"; word = quoted (codes "OH\"7") }
    ∷ []

mycall_words-IsPlaced : All IsPlaced mycall_words
unfolding IsWord
mycall_words-IsPlaced = (
  (tt, (refl, (refl, (refl, (refl, (refl, (refl, (refl, tt)))))))),
  (
    (
      (refl, (refl, tt)),
      (
        no_nul 79 (omega arith),
        (no_nul 72 (omega arith), (no_nul 34 (omega arith), (no_nul 55 (omega arith), tt))),
      ),
    ),
    tt,
  ),
)
  where
    no_nul : (n : ℕ) (h : 0 < n) → n ≢ 0
    no_nul n h e = omega (arith, h, e)

parse_args-line_example :
    parse_args (line mycall_words) ≡ some (map (λ p. meaning p.word) mycall_words)
parse_args-line_example = parse_args-line mycall_words mycall_words-IsPlaced (omega arith)

abbrev whole : List ℕ → Scaled
whole s = over (pos 60) 1

abbrev nothing_set : Config
nothing_set = record {
  logdir = none;
  mycall = none;
  myemail = none;
  mylat = over (pos 0) 1;
  mylng = over (pos 0) 1;
  stats_interval = pos 0;
  expiry_interval = pos 0;
  new_uplink_config = [];
  mysql_host = none;
  mysql_db = none;
  mysql_user = none;
  mysql_password = none;
  mysql_keepsmall = pos 0;
  mysql_oldlimit = pos 0;
  sound_device = none;
  sound_in_file = none;
  sound_out_file = none;
  sound_channels = mono;
  sound_levellog = pos 0;
  serial_port = none;
  skip_type = replicate 25 0;
}

nothing_set-IsConfig : IsConfig nothing_set
nothing_set-IsConfig =
    ((omega arith, omega arith), refl, All-replicate (λ b. b ≤ 1) 25 0 (omega arith), tt)

-- The entry of mycall.
abbrev mycall_cmd : CfgCmd
mycall_cmd = string_cmd (codes "mycall") (λ c. c.mycall) (λ v c. record c { mycall = v })

cmdparse-function_example :
    cmdparse (cfg_cmds whole) (line mycall_words) nothing_set
    ≡ mycall_cmd.function nothing_set (codes "mycall" ∷ codes "OH\"7" ∷ [])
unfolding cfg_cmds strlwr to_lower string_cmd meaning
cmdparse-function_example =
    cmdparse-function whole 1 mycall_cmd (record { gap = []; word = bare b'M' (codes "yCall") })
      (record { gap = codes " \t"; word = quoted (codes "OH\"7") } ∷ []) nothing_set refl refl
      mycall_words-IsPlaced (omega arith)

abbrev good_lines : List (List ℕ)
good_lines = codes "SoundChannels both\n" ∷ codes "MyCall OH7LZB\n" ∷ []

two_words-HasUrl :
    (a b : List ℕ) (argv : List (List ℕ)) → some (a ∷ b ∷ []) ≡ some argv → HasUrl argv
unfolding HasUrl
two_words-HasUrl a b argv e = subst (λ o. HasUrl (words_or_none o)) e tt
  where
    words_or_none : Option (List (List ℕ)) → List (List ℕ)
    words_or_none none = []
    words_or_none (some argv) = argv

good_lines-LineHasUrl : All LineHasUrl good_lines
unfolding parse_args
good_lines-LineHasUrl = (
  two_words-HasUrl (codes "SoundChannels") (codes "both"),
  (two_words-HasUrl (codes "MyCall") (codes "OH7LZB"), tt),
)

read_lines-KeepsConfig_example :
    KeepsConfig {A = ℕ × Config} (λ r. r.1) (read_lines (cfg_cmds whole) good_lines nothing_set)
read_lines-KeepsConfig_example =
    read_lines-KeepsConfig whole good_lines nothing_set good_lines-LineHasUrl nothing_set-IsConfig

abbrev unset : Settings
unset = record { config = nothing_set; uplink_config = []; pidfile = none }

read_config-Starts_example :
    Starts
      (read_lines (cfg_cmds whole) good_lines nothing_set)
      (read_config whole none (codes "gnuais") good_lines unset)
read_config-Starts_example =
    read_config-Starts whole none (codes "gnuais") good_lines unset good_lines-LineHasUrl
      nothing_set-IsConfig

-- 1D12h
abbrev day_and_half : List Part
day_and_half =
    record { figures = 1 ∷ []; upper = true; unit = days }
    ∷ record { figures = 1 ∷ 2 ∷ []; upper = false; unit = hours }
    ∷ []

parse_interval-parts_example :
    parse_interval (parts_text day_and_half ++ figures_text (3 ∷ 0 ∷ []))
    ≡ pos (parts_total day_and_half + value_from 0 (3 ∷ 0 ∷ []))
unfolding factor value_from
parse_interval-parts_example =
    parse_interval-parts day_and_half (3 ∷ 0 ∷ []) (omega arith) (omega arith) (omega arith)
      (omega arith)

abbrev options : List Opt
options = (b'e', codes "debug") ∷ (b'o', codes "file") ∷ (b'r', codes "/tmp") ∷ []

abbrev before_options : Cmdline
before_options = record {
  cfgfile = codes "gnuais.conf";
  fork_a_daemon = false;
  logname = codes "gnuais";
  log_dir = none;
  log_level = 6;
  log_dest = 1;
  sound_in_file = none;
  sound_out_file = none;
  failed = false;
}

before_options-IsLogging : IsLogging before_options
unfolding log_levelnames log_destnames
before_options-IsLogging = record { level = omega arith; dest = omega arith }

parse_cmdline-Accepted_example :
    Accepted
      (any_refused options)
      (parse_options options before_options)
      (parse_cmdline options before_options)
parse_cmdline-Accepted_example =
    parse_cmdline-Accepted options before_options before_options-IsLogging refl
