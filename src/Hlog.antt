-- ===== src/Hlog.antt =====
-- The parts of src/hlog.c that other components compute with: `str_append` and `pick_loglevel`.
pub mod Calls
pub mod Files
pub mod Locks
use gnuais.Common.{
  ℕ, ◌+◌, ◌-◌, Bool, true, false, ◌&&◌, Option, none, some, List, [], ◌∷◌, ◌++◌, ℤ, pos, negsuc,
  leb, ◌==◌, if◌then◌else◌, take, codes,
}

-- LOG_LEN
abbrev pub log_len : ℕ
log_len = 8192

-- `str_append(s, fmt, ...)`, with the formatted text: vsnprintf cuts it to its buffer.
unfoldable pub str_append : Option (List ℕ) → (formatted : List ℕ) → List ℕ
str_append none formatted = take (log_len - 1) formatted
str_append (some s) formatted = s ++ take (log_len - 1) formatted

-- tolower and strcasecmp(s, t) == 0, in the C locale.
unfoldable pub to_lower : ℕ → ℕ
to_lower c = if leb b'A' c && leb c b'Z' then c + 32 else c

unfoldable pub same_nocase : (s t : List ℕ) → Bool
unfolding to_lower
same_nocase [] [] = true
same_nocase [] (d ∷ t) = false
same_nocase (c ∷ s) [] = false
same_nocase (c ∷ s) (d ∷ t) = let rest = same_nocase s t in to_lower c == to_lower d && rest

-- The loop of `pick_loglevel` at index `i`; the array ends in NULL.
unfoldable pub pick_from : (i : ℕ) → List ℕ → List (List ℕ) → ℤ
unfolding same_nocase
pick_from i s [] = negsuc 0
pick_from i s (name ∷ names) =
    let rest = pick_from (i + 1) s names in if same_nocase s name then pos i else rest

unfoldable pub pick_loglevel : List ℕ → List (List ℕ) → ℤ
unfolding pick_from
pick_loglevel s names = pick_from 0 s names

-- The names of the levels and of the destinations, without the NULL at the end.
unfoldable pub log_levelnames : List (List ℕ)
log_levelnames =
    codes "EMERG"
    ∷ codes "ALERT"
    ∷ codes "CRIT"
    ∷ codes "ERR"
    ∷ codes "WARNING"
    ∷ codes "NOTICE"
    ∷ codes "INFO"
    ∷ codes "DEBUG"
    ∷ []

unfoldable pub log_destnames : List (List ℕ)
log_destnames = codes "none" ∷ codes "stderr" ∷ codes "syslog" ∷ codes "file" ∷ []
