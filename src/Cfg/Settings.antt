-- ===== src/Cfg/Settings.antt =====
-- `read_config` of src/cfg.c: the file, and the defaults of what it does not set. The position of the
-- receiver, which it turns into radians, is left out; `log_dir` and `logname` come from the command
-- line.
use gnuais.Common.{
  ℕ, ◌≤◌, ◌≡◌, refl, sym, Bool, Bool-cases, inl, inr, arith, true, false, ◌&&◌, not, Option, none,
  some, List, [], ◌++◌, leb, ◌==◌, if◌then◌else◌, ◌>>=◌, length, All, codes, ℤ, pos, negsuc,
}
use gnuais.Protodec.Types.{Scaled}
use gnuais.Json.{Uplink, uplink_json}
use gnuais.Cfg.{Config}
use gnuais.Cfg.Commands.{cfg_cmds, read_lines}
use gnuais.Cfg.Destinations.{IsConfig, KeepsConfig, keeps}
use gnuais.Cfg.Invariant.{LineHasUrl, read_lines-KeepsConfig}

-- The variables behind `read_config`.
pub record Settings : Type 0 where
  pub config : Config
  pub uplink_config : List Uplink
  pub pidfile : Option (List ℕ)

unfoldable pub valid_aprsis_call : List ℕ → Bool
valid_aprsis_call s = leb (length s) 12 && leb 3 (length s)

unfoldable pub or_default : Option (List ℕ) → List ℕ → List ℕ
or_default none d = d
or_default (some s) d = s

-- `log_dir` goes before the directive.
unfoldable pub settle_logdir : (log_dir logdir : Option (List ℕ)) → List ℕ
unfolding or_default
settle_logdir (some d) logdir = d
settle_logdir none logdir = or_default logdir (codes ".")

-- The callsign, and `failed`.
unfoldable pub settle_mycall : Option (List ℕ) → List ℕ × Bool
unfolding valid_aprsis_call
settle_mycall none = (codes "NOCALLDEFINED", false)
settle_mycall (some s) = (s, not (valid_aprsis_call s))

-- `sound_device`, from `sound_in_file` and itself.
unfoldable pub settle_device : (sound_in_file sound_device : Option (List ℕ)) → Option (List ℕ)
settle_device none none = some (codes "default")
settle_device none (some d) = some d
settle_device (some f) d = none

unfoldable pub settle_pidfile : Option (List ℕ) → (logdir logname : List ℕ) → List ℕ
unfolding or_default
settle_pidfile pidfile logdir logname =
    or_default pidfile (logdir ++ codes "/" ++ logname ++ codes ".pid")

-- `read_config` behind `read_cfgfile`.
unfoldable pub settle :
    (log_dir : Option (List ℕ)) (logname : List ℕ)
    → Config
    → (pidfile : Option (List ℕ)) → ℤ × Settings
unfolding settle_logdir settle_mycall settle_device settle_pidfile or_default
settle log_dir logname cfg pidfile =
    let logdir = settle_logdir log_dir cfg.logdir in
    let (mycall, failed) = settle_mycall cfg.mycall in
    let cfg' : Config = record cfg {
      logdir = some logdir;
      mycall = some mycall;
      myemail = some (or_default cfg.myemail (codes "notdefined@notdefined"));
      sound_device = settle_device cfg.sound_in_file cfg.sound_device;
      new_uplink_config = [];
    } in
    if failed
    then (
      negsuc 0,
      record { config = cfg'; uplink_config = cfg.new_uplink_config; pidfile = pidfile },
    )
    else (
      pos 0,
      record {
        config = cfg';
        uplink_config = cfg.new_uplink_config;
        pidfile = some (settle_pidfile pidfile logdir logname);
      },
    )

-- `read_config`, with the lines of the file: there are none if there is no file.
unfoldable pub read_config :
    (atof : List ℕ → Scaled) (log_dir : Option (List ℕ)) (logname : List ℕ) (lines : List (List ℕ))
    → Settings
    → Option (ℤ × Settings)
unfolding settle read_lines cfg_cmds
read_config atof log_dir logname lines s = do
  (ret, cfg) ← read_lines (cfg_cmds atof) lines s.config
  some (
      if ret == 0
      then settle log_dir logname cfg s.pidfile
      else (negsuc 0, record s { config = cfg }))

pub data Present {ℓ} {A : Type ℓ} : Option A → Type ℓ where
  present : (a : A) → Present (some a)

-- One of the file and the device is there, not both.
unfoldable pub OneSource : (sound_in_file sound_device : Option (List ℕ)) → Type 0
OneSource none (some d) = Unit
OneSource (some f) none = Unit
OneSource none none = ⊥
OneSource (some f) (some d) = ⊥

-- The default, or a callsign of 3 to 12 bytes.
pub data IsCall : Option (List ℕ) → Type 0 where
  undefined_call : IsCall (some (codes "NOCALLDEFINED"))
  valid_call : (s : List ℕ) → 3 ≤ length s → length s ≤ 12 → IsCall (some s)

-- The program can start with these settings.
pub record CanStart (s : Settings) : Type 0 where
  pub logdir : Present s.config.logdir
  pub mycall : IsCall s.config.mycall
  pub myemail : Present s.config.myemail
  pub source : OneSource s.config.sound_in_file s.config.sound_device
  pub pidfile : Present s.pidfile
  pub uplinks : All (λ (up : Uplink). up.proto ≡ uplink_json) s.uplink_config

-- Why `read_config` fails when the loop over the lines gives `read`: a line, or the callsign.
pub data Refusal (read : ℕ × Config) : Type 0 where
  bad_line : (read.0 == 0) ≡ false → Refusal read
  bad_call : (s : List ℕ) → read.1.mycall ≡ some s → valid_aprsis_call s ≡ false → Refusal read

-- `read_config` returns 0 with such settings, or -1 for a reason.
pub data Starts : (read : Option (ℕ × Config)) → Option (ℤ × Settings) → Type 0 where
  ready : (read : ℕ × Config) (s : Settings) → CanStart s → Starts (some read) (some (pos 0, s))
  refused :
      (read : ℕ × Config) (s : Settings) → Refusal read → Starts (some read) (some (negsuc 0, s))

settle_device-OneSource : (f d : Option (List ℕ)) → OneSource f (settle_device f d)
unfolding settle_device OneSource
settle_device-OneSource none none = tt
settle_device-OneSource none (some d) = tt
settle_device-OneSource (some f) d = tt

settle_mycall-IsCall :
    (o : Option (List ℕ)) → (settle_mycall o).1 ≡ false → IsCall (some ((settle_mycall o).0))
unfolding settle_mycall valid_aprsis_call
settle_mycall-IsCall none h = undefined_call
settle_mycall-IsCall (some s) h = valid_call s (grind (arith, h)) (grind (arith, h))

settle_mycall-Refusal :
    (read : ℕ × Config) (o : Option (List ℕ))
    → read.1.mycall ≡ o
    → (settle_mycall o).1 ≡ true
    → Refusal read
unfolding settle_mycall
settle_mycall-Refusal read none e h = absurd (false_true h)
  where
    false_true : false ≡ true → ⊥
    false_true h = cc h
settle_mycall-Refusal read (some s) e h = bad_call s e (negated (valid_aprsis_call s) h)
  where
    negated : (b : Bool) → not b ≡ true → b ≡ false
    negated true h = sym h
    negated false h = refl

settle-Starts :
    (log_dir : Option (List ℕ)) (logname : List ℕ) (pidfile : Option (List ℕ)) (read : ℕ × Config)
    → IsConfig read.1
    → Starts (some read) (some (settle log_dir logname read.1 pidfile))
unfolding settle
settle-Starts log_dir logname pidfile read h = elim (Bool-cases ((settle_mycall read.1.mycall).1)) [
  | inl e ↦ rw e (refused read _ (settle_mycall-Refusal read read.1.mycall refl e))
  | inr e ↦ rw e (
      ready read _ (record {
        logdir = present _;
        mycall = settle_mycall-IsCall read.1.mycall e;
        myemail = present _;
        source = settle_device-OneSource read.1.sound_in_file read.1.sound_device;
        pidfile = present _;
        uplinks = h.3;
      }))
]

pub read_config-Starts :
    (atof : List ℕ → Scaled) (log_dir : Option (List ℕ)) (logname : List ℕ) (lines : List (List ℕ))
    (s : Settings)
    → All LineHasUrl lines
    → IsConfig s.config
    → Starts (read_lines (cfg_cmds atof) lines s.config) (read_config atof log_dir logname lines s)
unfolding read_config
read_config-Starts atof log_dir logname lines s url h =
    by_lines (read_lines-KeepsConfig atof lines s.config url h)
  where
    by_ret :
        (read : ℕ × Config) (b : Bool)
        → (read.0 == 0) ≡ b
        → IsConfig read.1
        → Starts (some read) (
            some (
              if b
              then settle log_dir logname read.1 s.pidfile
              else (negsuc 0, record s { config = read.1 })))
    by_ret read true e h' = settle-Starts log_dir logname s.pidfile read h'
    by_ret read false e h' = refused read _ (bad_line e)

    by_lines :
        {o : Option (ℕ × Config)}
        → KeepsConfig {A = ℕ × Config} (λ r. r.1) o
        → Starts o (
            o >>= (λ r. some (
              if r.0 == 0
              then settle log_dir logname r.1 s.pidfile
              else (negsuc 0, record s { config = r.1 }))))
    by_lines (keeps r h') = by_ret r (r.0 == 0) refl h'
