-- ===== src/Cfg.antt =====
-- src/cfg.c with the directives of src/cfgfile.c: what a line of the configuration does. A function
-- of a directive gives its return value and the new value of its destination; `argc` is the length
-- of `argv`. Old strings are freed, which is not modelled. `atof` is the C library's, a parameter.
pub mod Commands
pub mod Directives
pub mod Settings
pub mod Cmdline
pub mod Interval
pub mod Destinations
pub mod Invariant
use gnuais.Common.{
  ◌+ℤ◌, ◌%◌, ◌^◌, ℕ, zero, suc, ◌+◌, ◌-◌, ◌*◌, Bool, true, false, ◌&&◌, ◌||◌, not, Option, none,
  some, List, [], ◌∷◌, ◌++◌, map, ltb, leb, ◌==◌, if◌then◌else◌, ◌>>=◌, length, get_elem?, set,
  codes, ℤ, pos, negsuc,
}
use gnuais.Protodec.Types.{Scaled}
use gnuais.Hlog.{to_lower, same_nocase}
use gnuais.Cfgfile.{isdigit, hatoll, atoi, strlwr, parse_args}
use gnuais.Json.{Uplink, uplink_json}

-- The variables that the configuration file sets. Strings are `none` for NULL; the lists of uplinks
-- stand for the linked ones.
pub record Config : Type 0 where
  pub logdir : Option (List ℕ)
  pub mycall : Option (List ℕ)
  pub myemail : Option (List ℕ)
  pub mylat : Scaled
  pub mylng : Scaled
  pub stats_interval : ℤ
  pub expiry_interval : ℤ
  pub new_uplink_config : List Uplink
  pub mysql_host : Option (List ℕ)
  pub mysql_db : Option (List ℕ)
  pub mysql_user : Option (List ℕ)
  pub mysql_password : Option (List ℕ)
  pub mysql_keepsmall : ℤ
  pub mysql_oldlimit : ℤ
  pub sound_device : Option (List ℕ)
  pub sound_in_file : Option (List ℕ)
  pub sound_out_file : Option (List ℕ)
  pub sound_channels : ℕ
  pub sound_levellog : ℤ
  pub serial_port : Option (List ℕ)
  pub skip_type : List ℕ

abbrev pub max_ais_packet_type : ℕ
max_ais_packet_type = 24

-- SOUND_CHANNELS_MONO, _BOTH, _LEFT and _RIGHT
abbrev pub mono : ℕ
mono = 1

abbrev pub both : ℕ
both = 2

abbrev pub left : ℕ
left = 3

abbrev pub right : ℕ
right = 4

unfoldable pub do_string : Option (List ℕ) → (argv : List (List ℕ)) → ℤ × Option (List ℕ)
do_string dest (name ∷ s ∷ args) = (pos 0, some s)
do_string dest argv = (negsuc 0, dest)

unfoldable pub do_int : ℤ → (argv : List (List ℕ)) → ℤ × ℤ
unfolding atoi
do_int dest (name ∷ s ∷ args) = (pos 0, atoi s)
do_int dest argv = (negsuc 0, dest)

unfoldable pub do_float : (atof : List ℕ → Scaled) → Scaled → (argv : List (List ℕ)) → ℤ × Scaled
do_float atof dest (name ∷ s ∷ args) = (pos 0, atof s)
do_float atof dest argv = (negsuc 0, dest)

unfoldable pub do_toggle : ℤ → (argv : List (List ℕ)) → ℤ × ℤ
unfolding same_nocase
do_toggle dest (name ∷ s ∷ args) =
    if same_nocase s (codes "true")
      || same_nocase s (codes "on")
      || same_nocase s (codes "1")
      || same_nocase s (codes "enable")
      || same_nocase s (codes "enabled")
      || same_nocase s (codes "yes")
    then (pos 1, pos 1)
    else (pos 0, pos 0)
do_toggle dest argv = (negsuc 0, dest)

-- The seconds of a unit of `parse_interval`, by its letter in lower case.
unfoldable pub unit_seconds : (c : ℕ) → ℕ
unit_seconds c =
    if c == b's'
    then 1
    else if c == b'm'
    then 60
    else if c == b'h'
    then 60 * 60
    else if c == b'd'
    then 24 * 60 * 60
    else 0

-- The low 32 bits of a number, as an int.
unfoldable pub as_int : ℕ → ℤ
as_int n = let r = n % 2 ^ 32 in if ltb r (2 ^ 31) then pos r else negsuc (2 ^ 32 - 1 - r)

-- What `parse_interval` adds for the figures `np`: atoi of them, which is strtol, cut to an int, times
-- the unit in the arithmetic of an int.
unfoldable pub interval_part : (unit : ℕ) (np : List ℕ) → ℤ
unfolding as_int hatoll
interval_part unit np =
    let v = hatoll np in
    let i = (if ltb v (2 ^ 63) then v else 2 ^ 63 - 1) % 2 ^ 32 in as_int (unit * i)

-- The loop of `parse_interval`: `t`, the text from `np` to `p`, and the text at `p`. Between `np` and
-- `p` there are figures only.
unfoldable pub parse_interval_loop : (t : ℤ) (np p : List ℕ) → ℤ
unfolding isdigit to_lower unit_seconds interval_part
parse_interval_loop t np [] = t +ℤ interval_part 1 np
parse_interval_loop t np (c ∷ p) =
    let number = isdigit c in
    let t' = if number then t else t +ℤ interval_part (unit_seconds (to_lower c)) np in
    let np' = if number then np ++ c ∷ [] else [] in parse_interval_loop t' np' p

unfoldable pub parse_interval : List ℕ → ℤ
unfolding parse_interval_loop
parse_interval s = parse_interval_loop (pos 0) [] s

unfoldable pub do_interval : ℤ → (argv : List (List ℕ)) → ℤ × ℤ
unfolding parse_interval
do_interval dest (name ∷ s ∷ args) = (pos 0, parse_interval s)
do_interval dest argv = (negsuc 0, dest)

-- `skip_type[i] = 1`, or `none` outside of the array.
unfoldable pub store_skip : List ℕ → (i : ℕ) → Option (ℤ × List ℕ)
store_skip skip_type i = if ltb i (length skip_type) then some (pos 0, set skip_type i 1) else none

unfoldable pub skip_at : List ℕ → (i : ℤ) → Option (ℤ × List ℕ)
unfolding store_skip
skip_at skip_type (pos i) =
    if ltb 0 i && leb i max_ais_packet_type
    then store_skip skip_type i
    else some (negsuc 0, skip_type)
skip_at skip_type (negsuc i) = some (negsuc 0, skip_type)

unfoldable pub do_skip_type : List ℕ → (argv : List (List ℕ)) → Option (ℤ × List ℕ)
unfolding skip_at atoi
do_skip_type skip_type (name ∷ s ∷ args) = skip_at skip_type (atoi s)
do_skip_type skip_type argv = some (negsuc 0, skip_type)

unfoldable pub do_sound_ch : ℕ → (argv : List (List ℕ)) → ℤ × ℕ
unfolding same_nocase
do_sound_ch dest (name ∷ s ∷ args) =
    if same_nocase s (codes "mono")
    then (pos 0, mono)
    else if same_nocase s (codes "both")
    then (pos 0, both)
    else if same_nocase s (codes "left")
    then (pos 0, left)
    else if same_nocase s (codes "right")
    then (pos 0, right)
    else (negsuc 0, dest)
do_sound_ch dest argv = (negsuc 0, dest)

-- `none` stands for the copy of `argv[3]` when it is NULL.
unfoldable pub do_uplink : List Uplink → (argv : List (List ℕ)) → Option (ℤ × List Uplink)
unfolding same_nocase
do_uplink lq (directive ∷ label ∷ proto ∷ args) =
    if same_nocase proto (codes "json")
    then get_elem? args 0
      >>= (λ url. some (pos 0, record { proto = uplink_json; name = label; url = url } ∷ lq))
    else some (negsuc 1, lq)
do_uplink lq argv = some (negsuc 0, lq)

-- struct cfgcmd: the name, and the function on its destination.
pub record CfgCmd : Type 0 where
  pub name : List ℕ
  pub function : Config → (argv : List (List ℕ)) → Option (ℤ × Config)

unfoldable pub string_cmd :
    (name : List ℕ) → (Config → Option (List ℕ)) → (Option (List ℕ) → Config → Config) → CfgCmd
unfolding do_string
string_cmd name get put = record {
  name = name;
  function = λ cfg argv. let (ret, dest) = do_string (get cfg) argv in some (ret, put dest cfg);
}

unfoldable pub value_cmd {ℓ} :
    {A : Type ℓ}
    → (name : List ℕ) → (A → List (List ℕ) → ℤ × A)
    → (Config → A)
    → (A → Config → Config)
    → CfgCmd
value_cmd name do_value get put = record {
  name = name;
  function = λ cfg argv. let (ret, dest) = do_value (get cfg) argv in some (ret, put dest cfg);
}
