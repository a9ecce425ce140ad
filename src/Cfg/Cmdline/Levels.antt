-- ===== src/Cfg/Cmdline/Levels.antt =====
-- The level and the destination of the log that `parse_cmdline` of src/cfg.c leaves.
use gnuais.Common.{
  ℕ, suc, ◌+◌, ◌<◌, ◌≡◌, refl, sym, subst, Bool, true, false, ◌||◌, some, List, [], ◌∷◌, ◌==◌,
  if◌then◌else◌, length, ℤ, pos, negsuc, arith,
}
use gnuais.Hlog.{log_levelnames, log_destnames, pick_from, pick_loglevel, same_nocase}
use gnuais.Cfg.Cmdline.{Cmdline, Opt, set_level, set_dest, parse_option, parse_options}

-- An index into a list, or -1.
data IsIndex (n : ℕ) : ℤ → Type 0 where
  found_at : (i : ℕ) → i < n → IsIndex n (pos i)
  not_found : IsIndex n (negsuc 0)

pick_from-IsIndex :
    (i : ℕ) (s : List ℕ) (names : List (List ℕ)) → IsIndex (i + length names) (pick_from i s names)
unfolding pick_from
pick_from-IsIndex i s [] = not_found
pick_from-IsIndex i s (name ∷ names) = by_test (same_nocase s name) (
    subst (λ n. IsIndex n (pick_from (i + 1) s names)) (omega arith)
      (pick_from-IsIndex (i + 1) s names))
  where
    by_test :
        (b : Bool)
        → IsIndex (i + suc (length names)) (pick_from (i + 1) s names)
        → IsIndex (i + suc (length names)) (if b then pos i else pick_from (i + 1) s names)
    by_test true rest = found_at i (omega arith)
    by_test false rest = rest

-- The level is an index of `log_levelnames`, and the destination one of `log_destnames`.
pub record IsLogging (m : Cmdline) : Type 0 where
  pub level : m.log_level < length log_levelnames
  pub dest : m.log_dest < length log_destnames

same-IsLogging :
    {m m' : Cmdline}
    → IsLogging m
    → m'.log_level ≡ m.log_level
    → m'.log_dest ≡ m.log_dest
    → IsLogging m'
same-IsLogging l level dest = record {
  level = subst (λ n. n < length log_levelnames) (sym level) l.level;
  dest = subst (λ n. n < length log_destnames) (sym dest) l.dest;
}

set_level-IsLogging :
    {i : ℤ} (m : Cmdline)
    → IsIndex (length log_levelnames) i
    → IsLogging m
    → IsLogging (set_level i m)
unfolding set_level
set_level-IsLogging m (found_at i h) l = record { level = h; dest = l.dest }
set_level-IsLogging m not_found l = same-IsLogging l refl refl

set_dest-IsLogging :
    {i : ℤ} (m : Cmdline)
    → IsIndex (length log_destnames) i
    → IsLogging m
    → IsLogging (set_dest i m)
unfolding set_dest
set_dest-IsLogging m (found_at i h) l = record { level = l.level; dest = h }
set_dest-IsLogging m not_found l = same-IsLogging l refl refl

pick_loglevel-IsIndex :
    (s : List ℕ) (names : List (List ℕ)) → IsIndex (length names) (pick_loglevel s names)
unfolding pick_loglevel
pick_loglevel-IsIndex s names =
    subst (λ n. IsIndex n (pick_from 0 s names)) (omega arith) (pick_from-IsIndex 0 s names)

if-IsLogging :
    {m m' : Cmdline} (b : Bool) → IsLogging m → IsLogging m' → IsLogging (if b then m else m')
if-IsLogging true l l' = l
if-IsLogging false l l' = l'

parse_option-IsLogging : (o : Opt) (m : Cmdline) → IsLogging m → IsLogging (parse_option o m)
unfolding parse_option
parse_option-IsLogging (s, optarg) m l =
    if-IsLogging (s == b'c') (same-IsLogging {m' = record m { cfgfile = optarg }} l refl refl) (
      if-IsLogging (s == b'f') (same-IsLogging {m' = record m { fork_a_daemon = true }} l refl refl)
        (if-IsLogging (s == b'n') (same-IsLogging {m' = record m { logname = optarg }} l refl refl)
          (if-IsLogging (s == b'r')
            (same-IsLogging {m' = record m { log_dir = some optarg }} l refl refl)
            (if-IsLogging (s == b'e')
              (set_level-IsLogging m (pick_loglevel-IsIndex optarg log_levelnames) l)
              (if-IsLogging (s == b'o')
                (set_dest-IsLogging m (pick_loglevel-IsIndex optarg log_destnames) l)
                (if-IsLogging (s == b'l')
                  (same-IsLogging {m' = record m { sound_in_file = some optarg }} l refl refl)
                  (if-IsLogging (s == b's')
                    (same-IsLogging {m' = record m { sound_out_file = some optarg }} l refl refl)
                    (if-IsLogging (s == b'?' || s == b'h')
                      (same-IsLogging {m' = record m { failed = true }} l refl refl) l))))))))

pub parse_options-IsLogging :
    (opts : List Opt) (m : Cmdline) → IsLogging m → IsLogging (parse_options opts m)
unfolding parse_options
parse_options-IsLogging [] m l = l
parse_options-IsLogging (o ∷ opts) m l =
    parse_options-IsLogging opts (parse_option o m) (parse_option-IsLogging o m l)
