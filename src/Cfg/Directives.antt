-- ===== src/Cfg/Directives.antt =====
-- How `cmdparse` finds the directive of a line, and where `read_cfgfile` stops.
use gnuais.Common.{
  ℕ, zero, suc, ◌≤◌, ◌≡◌, refl, sym, ap, subst, ◌∙◌, Bool, true, false, Option, none, some, List,
  [], ◌∷◌, ◌++◌, map, arith, ◌==◌, if◌then◌else◌, ◌>>=◌, length, get_elem?, All, ℤ,
}
use gnuais.Protodec.Types.{Scaled}
use gnuais.Hlog.{to_lower}
use gnuais.Cfgfile.{strlwr}
use gnuais.Cfgfile.Lines.{Placed, IsPlaced, meaning, line, parse_args-line}
use gnuais.Cfg.{Config, CfgCmd}
use gnuais.Cfg.Commands.{
  cfg_cmds, find_command, is_comment, run_found, run_command, cmdparse, failed, read_lines,
}

-- A directive that its name finds.
abbrev IsFound : List CfgCmd → CfgCmd → Type 0
IsFound cmds cmd = (find_command cmd.name cmds ≡ some cmd) × (is_comment cmd.name ≡ false)

cfg_cmds-IsFound : (atof : List ℕ → Scaled) → All (IsFound (cfg_cmds atof)) (cfg_cmds atof)
unfolding cfg_cmds find_command is_comment
cfg_cmds-IsFound atof = (
  (refl, refl),
  (
    (refl, refl),
    (
      (refl, refl),
      (
        (refl, refl),
        (
          (refl, refl),
          (
            (refl, refl),
            (
              (refl, refl),
              (
                (refl, refl),
                (
                  (refl, refl),
                  (
                    (refl, refl),
                    (
                      (refl, refl),
                      (
                        (refl, refl),
                        (
                          (refl, refl),
                          (
                            (refl, refl),
                            (
                              (refl, refl),
                              (
                                (refl, refl),
                                (
                                  (refl, refl),
                                  (
                                    (refl, refl),
                                    (
                                      (refl, refl),
                                      ((refl, refl), ((refl, refl), ((refl, refl), tt))),
                                    ),
                                  ),
                                ),
                              ),
                            ),
                          ),
                        ),
                      ),
                    ),
                  ),
                ),
              ),
            ),
          ),
        ),
      ),
    ),
  ),
)

is_comment-strlwr : (word : List ℕ) → is_comment (strlwr word) ≡ is_comment word
unfolding strlwr is_comment to_lower
is_comment-strlwr [] = refl
is_comment-strlwr (c ∷ word) = grind arith

All-get_elem? {ℓ κ} :
    {A : Type ℓ} (P : A → Type κ) (xs : List A) (i : ℕ) (x : A)
    → All P xs
    → get_elem? xs i ≡ some x
    → P x
All-get_elem? P [] i x p e = absurd (cc e)
All-get_elem? P (y ∷ xs) zero x p e = subst P (some_inj e) p.0
  where
    some_inj : some y ≡ some x → y ≡ x
    some_inj e = cc e
All-get_elem? P (y ∷ xs) (suc i) x p e = All-get_elem? P xs i x p.1 e

run_command-function :
    (cmds : List CfgCmd) (cmd : CfgCmd) (word : List ℕ) (args : List (List ℕ)) (cfg : Config)
    → IsFound cmds cmd
    → strlwr word ≡ cmd.name
    → run_command cmds (word ∷ args) cfg ≡ cmd.function cfg (cmd.name ∷ args)
unfolding run_command run_found
run_command-function cmds cmd word args cfg f e =
    let plain : is_comment word ≡ false = sym (is_comment-strlwr word) ∙ (ap is_comment e ∙ f.1) in
    rw plain (
      ap (λ w. run_found (find_command w cmds) (w ∷ args) cfg) e
      ∙ (ap (λ o. run_found o (cmd.name ∷ args) cfg) f.0 ∙ refl))

-- Take a line of a directive: at most 255 words, each without a space or between quotes, of which
-- the first is the name of an entry of the table, in upper or lower case letters. `cmdparse` runs
-- the function of this entry, and no other, on the words.
pub cmdparse-function :
    (atof : List ℕ → Scaled) (i : ℕ) (cmd : CfgCmd) (p : Placed) (ps : List Placed) (cfg : Config)
    → get_elem? (cfg_cmds atof) i ≡ some cmd
    → strlwr (meaning p.word) ≡ cmd.name
    → All IsPlaced (p ∷ ps)
    → length ps ≤ 254
    → cmdparse (cfg_cmds atof) (line (p ∷ ps)) cfg
      ≡ cmd.function cfg (cmd.name ∷ map (λ q. meaning q.word) ps)
unfolding cmdparse
cmdparse-function atof i cmd p ps cfg there named placed short =
    let found =
      All-get_elem? (IsFound (cfg_cmds atof)) (cfg_cmds atof) i cmd (cfg_cmds-IsFound atof) there in
    rw (parse_args-line (p ∷ ps) placed (omega arith)) (
      run_command-function (cfg_cmds atof) cmd (meaning p.word) (map (λ q. meaning q.word) ps) cfg
        found named)

-- What `read_lines` does behind lines that it has read.
unfoldable pub go_on : List CfgCmd → (lines : List (List ℕ)) → ℕ × Config → Option (ℕ × Config)
unfolding read_lines
go_on cmds lines (ret, cfg) = if ret == 0 then read_lines cmds lines cfg else some (ret, cfg)

-- `read_cfgfile` reads a file like the file's parts one after the other, up to the part with a line
-- that fails: it returns 2 there, keeps what the lines before have set, and skips the rest.
pub read_lines-append :
    (cmds : List CfgCmd) (ls ms : List (List ℕ)) (cfg : Config)
    → read_lines cmds (ls ++ ms) cfg ≡ read_lines cmds ls cfg >>= go_on cmds ms
unfolding read_lines go_on
read_lines-append cmds [] ms cfg = refl
read_lines-append cmds (l ∷ ls) ms cfg =
    by_result (cmdparse cmds l cfg) (read_lines-append cmds ls ms)
  where
    after : Config → List (List ℕ) → Bool → Option (ℕ × Config)
    after cfg' rest b = elim b as (λ b. Option (ℕ × Config)) [
      | true ↦ some (2, cfg')
      | false ↦ read_lines cmds rest cfg'
    ]

    by_failure :
        (cfg' : Config) (b : Bool)
        → read_lines cmds (ls ++ ms) cfg' ≡ read_lines cmds ls cfg' >>= go_on cmds ms
        → after cfg' (ls ++ ms) b ≡ after cfg' ls b >>= go_on cmds ms
    by_failure cfg' true again = refl
    by_failure cfg' false again = again

    by_result :
        (o : Option (ℤ × Config))
        → ((cfg' : Config)
            → read_lines cmds (ls ++ ms) cfg' ≡ read_lines cmds ls cfg' >>= go_on cmds ms)
        → (o >>= (λ r. after r.1 (ls ++ ms) (failed r.0)))
          ≡ (o >>= (λ r. after r.1 ls (failed r.0))) >>= go_on cmds ms
    by_result none again = refl
    by_result (some r) again = by_failure r.1 (failed r.0) (again r.1)
