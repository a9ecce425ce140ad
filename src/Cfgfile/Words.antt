-- ===== src/Cfgfile/Words.antt =====
-- `parse_args` of src/cfgfile.c: it comes to an end, and reads back words that are written out.
use gnuais.Common.{
  ℕ, zero, suc, ◌+◌, ◌*◌, ◌≤◌, ◌<◌, ◌≡◌, refl, Bool, true, false, Option, none, some, List, [], ◌∷◌,
  ◌++◌, arith, leb, ◌&&◌, ◌==◌, if◌then◌else◌, ◌>>=◌, length, length-append, Returns, returns,
  if-Returns, subst, bind-Returns,
}
use gnuais.Cfgfile.{
  skip_spaces, figure, figures, strtoul, Round, over, null, write, escape, string_round, Parsed,
  fails, parsed, put, parse_string_loop, parse_string, ArgsRound, done, bad, argument,
  quoted_argument, next_argument, parse_args_loop, parse_args,
}

figures-shorter : (base value : ℕ) (s : List ℕ) → length ((figures base value s).1) ≤ length s
unfolding figures
figures-shorter base value [] = omega arith
figures-shorter base value (c ∷ s) =
    by_figure (figure base c) (λ v. figures-shorter base (value * base + v) s)
  where
    by_figure :
        (o : Option ℕ)
        → ((v : ℕ) → length ((figures base (value * base + v) s).1) ≤ length s)
        → length (
            (elim o as (λ x. ℕ × List ℕ) [
              | none ↦ (value, c ∷ s)
              | some v ↦ figures base (value * base + v) s
            ]).1)
          ≤ length (c ∷ s)
    by_figure none shorter = omega arith
    by_figure (some v) shorter = omega (arith, shorter v)

-- A round that reads a byte at least.
data Reads (n : ℕ) : Round → Type 0 where
  at_end : (rest : List ℕ) → Reads n (over rest)
  at_nul : Reads n null
  reads : (c : ℕ) (str : List ℕ) → length str < n → Reads n (write c str)

if-Reads :
    {n : ℕ} {r r' : Round} (b : Bool) → Reads n r → Reads n r' → Reads n (if b then r else r')
if-Reads true p p' = p
if-Reads false p p' = p'

escape-Reads : (str : List ℕ) → Reads (suc (length str)) (escape str)
unfolding escape strtoul
escape-Reads [] = at_nul
escape-Reads (c ∷ str) =
    let n = suc (length (c ∷ str)) in
    let short : length str < n = omega arith in
    let hexadecimal : length ((strtoul 16 (c ∷ str)).1) < n =
      omega (arith, figures-shorter 16 0 (c ∷ str)) in
    let octal : length ((strtoul 8 (c ∷ str)).1) < n =
      omega (arith, figures-shorter 8 0 (c ∷ str)) in
    if-Reads (c == b'x') (reads _ _ hexadecimal)
      (if-Reads (leb b'0' c && leb c b'7') (reads _ _ octal) (reads _ str short))

string_round-Reads : (str : List ℕ) → Reads (length str) (string_round str)
unfolding string_round
string_round-Reads [] = at_end []
string_round-Reads (c ∷ str) =
    if-Reads (c == 34) (at_end str)
      (if-Reads (c == 92) (escape-Reads str) (reads c str (omega arith)))

put-Returns : (c : ℕ) {o : Option Parsed} → Returns o → Returns (o >>= (λ more. some (put c more)))
put-Returns c r = bind-Returns r (λ more. returns (put c more))

-- A fuel above the length is enough.
parse_string_loop-Returns :
    (fuel : ℕ) (str : List ℕ) → length str < fuel → Returns (parse_string_loop fuel str)
unfolding parse_string_loop
parse_string_loop-Returns zero str h = absurd (omega arith)
parse_string_loop-Returns (suc fuel) str h =
    by_round (string_round-Reads str) (parse_string_loop-Returns fuel)
  where
    by_round :
        {r : Round}
        → Reads (length str) r
        → ((str' : List ℕ) → length str' < fuel → Returns (parse_string_loop fuel str'))
        → Returns (elim r as (λ x. Option Parsed) [
          | over rest ↦ some (parsed [] rest)
          | null ↦ some fails
          | write c str' ↦ parse_string_loop fuel str' >>= (λ more. some (put c more))
        ])
    by_round (at_end rest) again = returns _
    by_round at_nul again = returns _
    by_round (reads c str' p) again = put-Returns c (again str' (omega arith))

next_argument-Returns : (cmd : List ℕ) → Returns (next_argument cmd)
unfolding next_argument parse_string
next_argument-Returns [] = returns done
next_argument-Returns (c ∷ cmd) =
    if-Returns (c == 34)
      (bind-Returns (parse_string_loop-Returns (length cmd + 1) cmd (omega arith))
        (λ p. returns (quoted_argument p)))
      (returns _)

-- A result with so many arguments at most.
pub data AtMost (n : ℕ) : Option (List (List ℕ)) → Type 0 where
  at_most : (argv : List (List ℕ)) → length argv ≤ n → AtMost n (some argv)

pub AtMost-eq :
    {n : ℕ} {o : Option (List (List ℕ))} → AtMost n o → (argv : List (List ℕ)) × (o ≡ some argv)
AtMost-eq (at_most argv h) = (argv, refl)

parse_args_loop-AtMost :
    (free : ℕ) (argv : List (List ℕ)) (cmd : List ℕ)
    → AtMost (length argv + free) (parse_args_loop free argv cmd)
unfolding parse_args_loop
parse_args_loop-AtMost zero argv cmd = at_most argv (omega arith)
parse_args_loop-AtMost (suc free) argv cmd =
    by_round (next_argument-Returns (skip_spaces cmd)) (parse_args_loop-AtMost free)
  where
    by_round :
        {o : Option ArgsRound}
        → Returns o
        → ((argv' : List (List ℕ)) (cmd' : List ℕ)
            → AtMost (length argv' + free) (parse_args_loop free argv' cmd'))
        → AtMost (length argv + suc free) (
            o >>= (λ round. elim round as (λ x. Option (List (List ℕ))) [
              | done ↦ some argv
              | bad ↦ some []
              | argument text cmd' ↦ parse_args_loop free (argv ++ text ∷ []) cmd'
            ]))
    by_round (returns done) again = at_most argv (omega arith)
    by_round (returns bad) again = at_most [] (omega arith)
    by_round (returns (argument text cmd')) again =
        let count : length (argv ++ text ∷ []) + free ≡ length argv + suc free =
          omega (arith, length-append argv (text ∷ [])) in
        subst (λ n. AtMost n (parse_args_loop free (argv ++ text ∷ []) cmd')) count
          (again (argv ++ text ∷ []) cmd')

-- `parse_args` comes to an end on every line, with 255 arguments at most: `argv` of `cmdparse` has
-- room for them and the NULL behind them.
pub parse_args-AtMost : (cmd : List ℕ) → AtMost 255 (parse_args cmd)
unfolding parse_args
parse_args-AtMost cmd = parse_args_loop-AtMost 255 [] cmd
