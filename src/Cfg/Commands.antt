-- ===== src/Cfg/Commands.antt =====
-- The table of the directives in src/cfg.c, and `cmdparse` and the loop of `read_cfgfile` in
-- src/cfgfile.c, which run them.
use gnuais.Common.{
  ℕ, Bool, true, false, ◌&&◌, Option, none, some, List, [], ◌∷◌, ◌==◌, if◌then◌else◌, ◌>>=◌, codes,
  ℤ, pos, negsuc,
}
use gnuais.Protodec.Types.{Scaled}
use gnuais.Hlog.{to_lower}
use gnuais.Cfgfile.{strlwr, parse_args}
use gnuais.Cfg.{
  Config, CfgCmd, string_cmd, value_cmd, do_float, do_int, do_toggle, do_interval, do_skip_type,
  do_sound_ch, do_uplink,
}

-- `cfg_cmds`; the end of the list is the entry of NULLs.
unfoldable pub cfg_cmds : (atof : List ℕ → Scaled) → List CfgCmd
unfolding string_cmd value_cmd do_float do_int do_toggle do_interval do_skip_type do_sound_ch
    do_uplink
cfg_cmds atof =
    string_cmd (codes "logdir") (λ c. c.logdir) (λ v c. record c { logdir = v })
    ∷ string_cmd (codes "mycall") (λ c. c.mycall) (λ v c. record c { mycall = v })
    ∷ string_cmd (codes "myemail") (λ c. c.myemail) (λ v c. record c { myemail = v })
    ∷ value_cmd (codes "latitude") (do_float atof) (λ c. c.mylat) (λ v c. record c { mylat = v })
    ∷ value_cmd (codes "longitude") (do_float atof) (λ c. c.mylng) (λ v c. record c { mylng = v })
    ∷ value_cmd (codes "statsinterval") do_interval (λ c. c.stats_interval)
        (λ v c. record c { stats_interval = v })
    ∷ value_cmd (codes "expiryinterval") do_interval (λ c. c.expiry_interval)
        (λ v c. record c { expiry_interval = v })
    ∷ record {
      name = codes "uplink";
      function = λ c argv.
          do_uplink c.new_uplink_config argv
          >>= (λ r. some (r.0, record c { new_uplink_config = r.1 }));
    }
    ∷ string_cmd (codes "mysql_host") (λ c. c.mysql_host) (λ v c. record c { mysql_host = v })
    ∷ string_cmd (codes "mysql_db") (λ c. c.mysql_db) (λ v c. record c { mysql_db = v })
    ∷ string_cmd (codes "mysql_user") (λ c. c.mysql_user) (λ v c. record c { mysql_user = v })
    ∷ string_cmd (codes "mysql_password") (λ c. c.mysql_password)
        (λ v c. record c { mysql_password = v })
    ∷ value_cmd (codes "mysql_keepsmall") do_toggle (λ c. c.mysql_keepsmall)
        (λ v c. record c { mysql_keepsmall = v })
    ∷ value_cmd (codes "mysql_oldlimit") do_int (λ c. c.mysql_oldlimit)
        (λ v c. record c { mysql_oldlimit = v })
    ∷ string_cmd (codes "sounddevice") (λ c. c.sound_device) (λ v c. record c { sound_device = v })
    ∷ string_cmd (codes "soundinfile") (λ c. c.sound_in_file)
        (λ v c. record c { sound_in_file = v })
    ∷ string_cmd (codes "soundoutfile") (λ c. c.sound_out_file)
        (λ v c. record c { sound_out_file = v })
    ∷ value_cmd (codes "soundchannels") do_sound_ch (λ c. c.sound_channels)
        (λ v c. record c { sound_channels = v })
    ∷ value_cmd (codes "soundlevellog") do_int (λ c. c.sound_levellog)
        (λ v c. record c { sound_levellog = v })
    ∷ string_cmd (codes "serialport") (λ c. c.serial_port) (λ v c. record c { serial_port = v })
    ∷ string_cmd (codes "serial_port") (λ c. c.serial_port) (λ v c. record c { serial_port = v })
    ∷ record {
      name = codes "skip_type";
      function = λ c argv.
          do_skip_type c.skip_type argv >>= (λ r. some (r.0, record c { skip_type = r.1 }));
    }
    ∷ []

-- strncasecmp(name, word, strlen(word)) == 0
unfoldable pub begins_nocase : (word name : List ℕ) → Bool
unfolding to_lower
begins_nocase [] name = true
begins_nocase (c ∷ word) [] = false
begins_nocase (c ∷ word) (d ∷ name) =
    let rest = begins_nocase word name in to_lower d == to_lower c && rest

-- The loop of `cmdparse`.
unfoldable pub find_command : (word : List ℕ) → List CfgCmd → Option CfgCmd
unfolding begins_nocase
find_command word [] = none
find_command word (cmd ∷ cmds) =
    let rest = find_command word cmds in if begins_nocase word cmd.name then some cmd else rest

-- *argv[0] == '#'
unfoldable pub is_comment : List ℕ → Bool
is_comment [] = false
is_comment (c ∷ word) = c == b'#'

-- The call of the function, or the message that there is no such directive.
unfoldable pub run_found : Option CfgCmd → (argv : List (List ℕ)) → Config → Option (ℤ × Config)
run_found none argv cfg = some (negsuc 0, cfg)
run_found (some cmd) argv cfg = cmd.function cfg argv

-- `cmdparse` behind `parse_args`: the return value, and the variables.
unfoldable pub run_command : List CfgCmd → (argv : List (List ℕ)) → Config → Option (ℤ × Config)
unfolding is_comment strlwr find_command run_found
run_command cmds [] cfg = some (pos 0, cfg)
run_command cmds (word ∷ args) cfg =
    let word' = strlwr word in
    if is_comment word
    then some (pos 0, cfg)
    else run_found (find_command word' cmds) (word' ∷ args) cfg

unfoldable pub cmdparse : List CfgCmd → (cmdline : List ℕ) → Config → Option (ℤ × Config)
unfolding run_command parse_args
cmdparse cmds cmdline cfg = do argv ← parse_args cmdline; run_command cmds argv cfg

unfoldable pub failed : ℤ → Bool
failed (pos n) = false
failed (negsuc n) = true

-- The loop of `read_cfgfile` over the lines that fgets reads: its return value, and the variables.
unfoldable pub read_lines : List CfgCmd → (lines : List (List ℕ)) → Config → Option (ℕ × Config)
unfolding cmdparse failed
read_lines cmds [] cfg = some (0, cfg)
read_lines cmds (line ∷ lines) cfg = do
  (ret, cfg') ← cmdparse cmds line cfg
  elim (failed ret) as (λ b. Option (ℕ × Config)) [
    | true ↦ some (2, cfg')
    | false ↦ read_lines cmds lines cfg'
  ]
