-- ===== src/Cfg/Invariant.antt =====
-- What holds of the variables of src/cfg.c after any configuration file, from the table of directives
-- and the loop over the lines.
use gnuais.Common.{
  ℕ, ◌≡◌, Bool, true, false, Option, some, List, [], ◌∷◌, ◌>>=◌, if◌then◌else◌, All, ℤ,
}
use gnuais.Protodec.Types.{Scaled}
use gnuais.Cfgfile.{strlwr, parse_args}
use gnuais.Cfgfile.Words.{AtMost-eq, parse_args-AtMost}
use gnuais.Cfg.{Config, CfgCmd, string_cmd, value_cmd}
use gnuais.Cfg.Commands.{
  cfg_cmds, begins_nocase, find_command, is_comment, run_found, run_command, cmdparse, failed,
  read_lines,
}
use gnuais.Cfg.Destinations.{
  HasUrl, IsConfig, Keeps, KeepsConfig, Leaves-KeepsConfig, do_skip_type-Leaves, do_sound_ch-bounds,
  do_uplink-Leaves, keeps,
}

cfg_cmds-Keeps : (atof : List ℕ → Scaled) → All Keeps (cfg_cmds atof)
unfolding cfg_cmds string_cmd value_cmd
cfg_cmds-Keeps atof = (
  (λ cfg argv url h. keeps _ h),
  (
    (λ cfg argv url h. keeps _ h),
    (
      (λ cfg argv url h. keeps _ h),
      (
        (λ cfg argv url h. keeps _ h),
        (
          (λ cfg argv url h. keeps _ h),
          (
            (λ cfg argv url h. keeps _ h),
            (
              (λ cfg argv url h. keeps _ h),
              (
                (λ cfg argv url h.
                    Leaves-KeepsConfig (λ v. record cfg { new_uplink_config = v })
                      (λ lq ok. (h.0, h.1, h.2, ok))
                      (do_uplink-Leaves cfg.new_uplink_config argv url h.3)),
                (
                  (λ cfg argv url h. keeps _ h),
                  (
                    (λ cfg argv url h. keeps _ h),
                    (
                      (λ cfg argv url h. keeps _ h),
                      (
                        (λ cfg argv url h. keeps _ h),
                        (
                          (λ cfg argv url h. keeps _ h),
                          (
                            (λ cfg argv url h. keeps _ h),
                            (
                              (λ cfg argv url h. keeps _ h),
                              (
                                (λ cfg argv url h. keeps _ h),
                                (
                                  (λ cfg argv url h. keeps _ h),
                                  (
                                    (λ cfg argv url h. keeps _ (
                                      do_sound_ch-bounds cfg.sound_channels argv h.0,
                                      h.1,
                                      h.2,
                                      h.3,
                                    )),
                                    (
                                      (λ cfg argv url h. keeps _ h),
                                      (
                                        (λ cfg argv url h. keeps _ h),
                                        (
                                          (λ cfg argv url h. keeps _ h),
                                          (
                                            (λ cfg argv url h.
                                                Leaves-KeepsConfig
                                                  (λ v. record cfg { skip_type = v })
                                                  (λ flags ok. (h.0, ok.0, ok.1, h.3))
                                                  (do_skip_type-Leaves cfg.skip_type argv
                                                    (h.1, h.2))),
                                            tt,
                                          ),
                                        ),
                                      ),
                                    ),
                                  ),
                                ),
                              ),
                            ),
                          ),
                        ),
                      ),
                    ),
                  ),
                ),
              ),
            ),
          ),
        ),
      ),
    ),
  ),
)

run_found-Keeps :
    (word : List ℕ) (cmds : List CfgCmd) (argv : List (List ℕ)) (cfg : Config)
    → All Keeps cmds
    → HasUrl argv
    → IsConfig cfg
    → KeepsConfig {A = ℤ × Config} (λ r. r.1) (run_found (find_command word cmds) argv cfg)
unfolding run_found find_command
run_found-Keeps word [] argv cfg k url h = keeps _ h
run_found-Keeps word (cmd ∷ cmds) argv cfg k url h =
    by_test (begins_nocase word cmd.name) (run_found-Keeps word cmds argv cfg k.1 url h)
  where
    by_test :
        (b : Bool)
        → KeepsConfig {A = ℤ × Config} (λ r. r.1) (run_found (find_command word cmds) argv cfg)
        → KeepsConfig {A = ℤ × Config}
            (λ r. r.1)
            (run_found (if b then some cmd else find_command word cmds) argv cfg)
    by_test true rest = k.0 cfg argv url h
    by_test false rest = rest

HasUrl-first : (a b : List ℕ) (args : List (List ℕ)) → HasUrl (a ∷ args) → HasUrl (b ∷ args)
unfolding HasUrl
HasUrl-first a b [] h = tt
HasUrl-first a b (c ∷ []) h = tt
HasUrl-first a b (c ∷ d ∷ []) h = h
HasUrl-first a b (c ∷ d ∷ e ∷ args) h = tt

run_command-Keeps :
    (cmds : List CfgCmd) (argv : List (List ℕ)) (cfg : Config)
    → All Keeps cmds
    → HasUrl argv
    → IsConfig cfg
    → KeepsConfig {A = ℤ × Config} (λ r. r.1) (run_command cmds argv cfg)
unfolding run_command
run_command-Keeps cmds [] cfg k url h = keeps _ h
run_command-Keeps cmds (word ∷ args) cfg k url h = if-Keeps (is_comment word) (keeps _ h) (
    run_found-Keeps (strlwr word) cmds (strlwr word ∷ args) cfg k
      (HasUrl-first word (strlwr word) args url) h)
  where
    if-Keeps :
        {x y : Option (ℤ × Config)} (b : Bool)
        → KeepsConfig (λ r. r.1) x
        → KeepsConfig (λ r. r.1) y
        → KeepsConfig (λ r. r.1) (if b then x else y)
    if-Keeps true p q = p
    if-Keeps false p q = q

-- A line whose words are no uplink directive without a URL.
abbrev pub LineHasUrl : List ℕ → Type 0
LineHasUrl line = (argv : List (List ℕ)) → parse_args line ≡ some argv → HasUrl argv

cmdparse-Keeps :
    (cmds : List CfgCmd) (line : List ℕ) (cfg : Config)
    → All Keeps cmds
    → LineHasUrl line
    → IsConfig cfg
    → KeepsConfig {A = ℤ × Config} (λ r. r.1) (cmdparse cmds line cfg)
unfolding cmdparse
cmdparse-Keeps cmds line cfg k url h =
    let (argv, e) = AtMost-eq (parse_args-AtMost line) in
    rw e (run_command-Keeps cmds argv cfg k (url argv e) h)

-- Let the channels be one of the four settings, `skip_type` have an element of 0 or 1 for each
-- type, and the new uplinks be JSON ones. `read_cfgfile` makes no access out of bounds on any lines of which
-- none has three words with the third json, and leaves the variables that way, whether it
-- stops at a line that fails or not.
pub read_lines-KeepsConfig :
    (atof : List ℕ → Scaled) (lines : List (List ℕ)) (cfg : Config)
    → All LineHasUrl lines
    → IsConfig cfg
    → KeepsConfig {A = ℕ × Config} (λ r. r.1) (read_lines (cfg_cmds atof) lines cfg)
unfolding read_lines
read_lines-KeepsConfig atof [] cfg url h = keeps _ h
read_lines-KeepsConfig atof (line ∷ lines) cfg url h =
    by_result (cmdparse-Keeps (cfg_cmds atof) line cfg (cfg_cmds-Keeps atof) url.0 h)
      (λ cfg' h'. read_lines-KeepsConfig atof lines cfg' url.1 h')
  where
    after : Config → Bool → Option (ℕ × Config)
    after cfg' b = elim b as (λ b. Option (ℕ × Config)) [
      | true ↦ some (2, cfg')
      | false ↦ read_lines (cfg_cmds atof) lines cfg'
    ]

    by_failure :
        (cfg' : Config) (b : Bool)
        → IsConfig cfg'
        → KeepsConfig {A = ℕ × Config} (λ r. r.1) (read_lines (cfg_cmds atof) lines cfg')
        → KeepsConfig {A = ℕ × Config} (λ r. r.1) (after cfg' b)
    by_failure cfg' true h' again = keeps _ h'
    by_failure cfg' false h' again = again

    by_result :
        {o : Option (ℤ × Config)}
        → KeepsConfig {A = ℤ × Config} (λ r. r.1) o
        → ((cfg' : Config)
            → IsConfig cfg'
            → KeepsConfig {A = ℕ × Config} (λ r. r.1) (read_lines (cfg_cmds atof) lines cfg'))
        → KeepsConfig {A = ℕ × Config} (λ r. r.1) (o >>= (λ r. after r.1 (failed r.0)))
    by_result (keeps r h') again = by_failure r.1 (failed r.0) h' (again r.1 h')
