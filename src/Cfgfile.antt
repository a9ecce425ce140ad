-- ===== src/Cfgfile.antt =====
-- src/cfgfile.c: the words of a line of the configuration. A C string is the list of its bytes
-- before the NUL; the character tests of the C library are those of the C locale.
pub mod Words
pub mod Lines
use gnuais.Common.{
  ℕ, zero, suc, ◌+◌, ◌-◌, ◌*◌, ◌%◌, ◌^◌, min, Bool, true, false, ◌&&◌, ◌||◌, not, Option, none,
  some, List, [], ◌∷◌, ◌++◌, map, ltb, leb, ◌==◌, if◌then◌else◌, ◌>>=◌, length, take, drop, codes,
  ℤ, pos, negsuc,
}
use gnuais.Hlog.{to_lower, same_nocase}

unfoldable pub isspace : ℕ → Bool
isspace c = c == 32 || (leb 9 c && leb c 13)

unfoldable pub isdigit : ℕ → Bool
isdigit c = leb 48 c && leb c 57

-- `hatoll`, from the result so far; a long long has room for 18 figures.
unfoldable pub hatoll_from : (res : ℕ) → List ℕ → ℕ
unfolding isdigit
hatoll_from res [] = res
hatoll_from res (c ∷ s) =
    let more = hatoll_from (res * 10 + (c - 48)) s in if isdigit c then more else res

unfoldable pub hatoll : List ℕ → ℕ
unfolding hatoll_from
hatoll s = hatoll_from 0 s

unfoldable pub skip_spaces : List ℕ → List ℕ
unfolding isspace
skip_spaces [] = []
skip_spaces (c ∷ s) = let rest = skip_spaces s in if isspace c then rest else c ∷ s

-- atoi, of a number that an int holds
unfoldable pub atoi : List ℕ → ℤ
unfolding skip_spaces hatoll
atoi s = signed (skip_spaces s)
  where
    negated : ℕ → ℤ
    negated zero = pos 0
    negated (suc n) = negsuc n

    signed : List ℕ → ℤ
    signed [] = pos 0
    signed (c ∷ s) =
        if c == 45
        then negated (hatoll s)
        else if c == 43
        then pos (hatoll s)
        else pos (hatoll (c ∷ s))

-- `strlwr`
unfoldable pub strlwr : List ℕ → List ℕ
unfolding to_lower
strlwr s = map to_lower s

-- The value of a figure in strtoul.
unfoldable pub figure : (base c : ℕ) → Option ℕ
unfolding isdigit to_lower
figure base c =
    let low = to_lower c in
    let v = if isdigit c then c - 48 else if leb 97 low && leb low 122 then low - 87 else 36 in
    if ltb v base then some v else none

-- The figures at the front: their value, and what is behind them.
unfoldable pub figures : (base value : ℕ) → List ℕ → ℕ × List ℕ
unfolding figure
figures base value [] = (value, [])
figures base value (c ∷ s) = elim (figure base c) [
  | none ↦ (value, c ∷ s)
  | some v ↦ figures base (value * base + v) s
]

-- strtoul of a text that starts with neither a space nor a sign nor 0x, as in `parse_string`
unfoldable pub strtoul : (base : ℕ) → List ℕ → ℕ × List ℕ
unfolding figures
strtoul base s = let (n, rest) = figures base 0 s in (min n (2 ^ 64 - 1), rest)

-- A round of the loop of `parse_string`: it ends before `rest`, returns NULL, or writes `c` and goes
-- on at `str`.
pub data Round : Type 0 where
  over : (rest : List ℕ) → Round
  null : Round
  write : (c : ℕ) (str : List ℕ) → Round

-- What a backslash and a letter stand for; any other byte stands for itself.
unfoldable pub letter_escape : ℕ → ℕ
letter_escape c =
    if c == b'n'
    then 10
    else if c == b't'
    then 9
    else if c == b'v'
    then 11
    else if c == b'b'
    then 8
    else if c == b'r'
    then 13
    else if c == b'f'
    then 12
    else if c == b'a'
    then 7
    else c

-- The switch behind a backslash.
unfoldable pub escape : List ℕ → Round
unfolding strtoul letter_escape
escape [] = null
escape (c ∷ str) =
    let hexadecimal = strtoul 16 (c ∷ str) in
    let octal = strtoul 8 (c ∷ str) in
    if c == b'x'
    then write (hexadecimal.0 % 256) hexadecimal.1
    else if leb b'0' c && leb c b'7'
    then write (octal.0 % 256) octal.1
    else write (letter_escape c) str

unfoldable pub string_round : List ℕ → Round
unfolding escape
string_round [] = over []
string_round (c ∷ str) = if c == 34 then over str else if c == 92 then escape str else write c str

-- What `parse_string` leaves in the buffer and where it ends, or NULL.
pub data Parsed : Type 0 where
  fails : Parsed
  parsed : (text rest : List ℕ) → Parsed

unfoldable pub put : ℕ → Parsed → Parsed
put c fails = fails
put c (parsed text rest) = parsed (c ∷ text) rest

-- The loop of `parse_string`. Each round reads a byte at least; the fuel is one round more.
unfoldable pub parse_string_loop : (fuel : ℕ) → List ℕ → Option Parsed
unfolding string_round put
parse_string_loop zero str = none
parse_string_loop (suc fuel) str = elim (string_round str) [
  | over rest ↦ some (parsed [] rest)
  | null ↦ some fails
  | write c str' ↦ do more ← parse_string_loop fuel str'; some (put c more)
]

unfoldable pub parse_string : List ℕ → Option Parsed
unfolding parse_string_loop
parse_string str = parse_string_loop (length str + 1) str

-- The C string in a buffer.
unfoldable pub until_nul : List ℕ → List ℕ
until_nul [] = []
until_nul (c ∷ s) = let rest = until_nul s in if c == 0 then [] else c ∷ rest

-- `while (*cmd && !isspace((int)*cmd)) cmd++;`: what it passes, and the rest.
unfoldable pub bare_word : List ℕ → List ℕ × List ℕ
unfolding isspace
bare_word [] = ([], [])
bare_word (c ∷ cmd) =
    let (w, rest) = bare_word cmd in if isspace c then ([], c ∷ cmd) else (c ∷ w, rest)

-- `if (*cmd) *cmd++ = 0;`
unfoldable pub behind_nul : List ℕ → List ℕ
behind_nul [] = []
behind_nul (c ∷ cmd) = cmd

-- A round of the loop of `parse_args`: no argument is left, `return 0`, or an argument.
pub data ArgsRound : Type 0 where
  done : ArgsRound
  bad : ArgsRound
  argument : (text cmd : List ℕ) → ArgsRound

unfoldable pub quoted_argument : Parsed → ArgsRound
unfolding until_nul behind_nul
quoted_argument fails = bad
quoted_argument (parsed text rest) = argument (until_nul text) (behind_nul rest)

unfoldable pub next_argument : List ℕ → Option ArgsRound
unfolding parse_string quoted_argument bare_word behind_nul
next_argument [] = some done
next_argument (c ∷ cmd) =
    let (w, rest) = bare_word (c ∷ cmd) in
    if c == 34
    then parse_string cmd >>= (λ p. some (quoted_argument p))
    else some (argument w (behind_nul rest))

-- The loop of `parse_args`, with the elements of `argv` that are still free and those in use.
unfoldable pub parse_args_loop :
    (free : ℕ) (argv : List (List ℕ)) (cmd : List ℕ) → Option (List (List ℕ))
unfolding skip_spaces next_argument
parse_args_loop zero argv cmd = some argv
parse_args_loop (suc free) argv cmd = do
  round ← next_argument (skip_spaces cmd)
  elim round [
    | done ↦ some argv
    | bad ↦ some []
    | argument text cmd' ↦ parse_args_loop free (argv ++ text ∷ []) cmd'
  ]

-- `parse_args`: the arguments in `argv`, whose number it returns.
unfoldable pub parse_args : (cmd : List ℕ) → Option (List (List ℕ))
unfolding parse_args_loop
parse_args cmd = parse_args_loop 255 [] cmd
