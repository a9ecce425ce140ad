-- ===== src/Cfgfile/Lines.antt =====
-- Lines that are written from words, with quotes or without, and what `parse_args` of
-- src/cfgfile.c reads in them.
use gnuais.Common.{
  ℕ, zero, suc, ◌+◌, ◌≤◌, ◌<◌, ◌≡◌, ◌≢◌, refl, sym, ap, ◌∙◌, true, false, ◌||◌, inl, inr,
  Bool-cases, Option, some, List, [], ◌∷◌, ◌++◌, map, append_assoc, append-nil, arith, ==_iff, ◌==◌,
  if◌then◌else◌, ◌>>=◌, length, length-append, All,
}
use gnuais.Cfgfile.{
  isspace, skip_spaces, over, null, write, escape, letter_escape, string_round, Parsed, fails,
  parsed, put, parse_string_loop, parse_string, until_nul, bare_word, behind_nul, argument,
  quoted_argument, next_argument, parse_args_loop, parse_args,
}

-- A text as it is written between quotes.
unfoldable pub escaped : List ℕ → List ℕ
escaped [] = []
escaped (c ∷ s) = let rest = escaped s in if c == 34 || c == 92 then 92 ∷ c ∷ rest else c ∷ rest

-- A word of a line without quotes, and one with them.
pub data Word : Type 0 where
  bare : (first : ℕ) (more : List ℕ) → Word
  quoted : List ℕ → Word

unfoldable pub written : Word → List ℕ
unfolding escaped
written (bare c w) = c ∷ w
written (quoted s) = 34 ∷ (escaped s ++ 34 ∷ [])

unfoldable pub meaning : Word → List ℕ
meaning (bare c w) = c ∷ w
meaning (quoted s) = s

-- A word without quotes has no space, and no quote at its front; one with quotes has no NUL.
unfoldable pub IsWord : Word → Type 0
unfolding isspace
IsWord (bare c w) = ((c == 34) ≡ false) × All (λ b. isspace b ≡ false) (c ∷ w)
IsWord (quoted s) = All (λ b. b ≢ 0) s

-- A word with the spaces before it; a space follows it.
pub record Placed : Type 0 where
  pub gap : List ℕ
  pub word : Word

abbrev pub IsPlaced : Placed → Type 0
IsPlaced p = All (λ b. isspace b ≡ true) p.gap × IsWord p.word

unfoldable pub line : List Placed → List ℕ
unfolding written
line [] = []
line (p ∷ ps) = p.gap ++ (written p.word ++ 32 ∷ line ps)

skip_spaces-gap :
    (gap s : List ℕ) → All (λ b. isspace b ≡ true) gap → skip_spaces (gap ++ s) ≡ skip_spaces s
unfolding skip_spaces
skip_spaces-gap [] s h = refl
skip_spaces-gap (b ∷ gap) s h = rw (h.0) (skip_spaces-gap gap s h.1)

bare_word-space :
    (w s : List ℕ) → All (λ b. isspace b ≡ false) w → bare_word (w ++ 32 ∷ s) ≡ (w, 32 ∷ s)
unfolding bare_word
bare_word-space [] s h = refl
bare_word-space (b ∷ w) s h = rw (h.0, bare_word-space w s h.1)

-- Each byte of an escaped text takes one round.
escaped_round :
    (c : ℕ) (str : List ℕ) → (c == 34 || c == 92) ≡ true → string_round (92 ∷ c ∷ str) ≡ write c str
unfolding string_round escape letter_escape
escaped_round c str h = elim (Bool-cases (c == 34)) [
  | inl e ↦ rw ((==_iff c 34).0 e) refl
  | inr e ↦ let other : (c == 92) ≡ true = rw e at h in rw ((==_iff c 92).0 other) refl
]

plain_round :
    (c : ℕ) (str : List ℕ) → (c == 34 || c == 92) ≡ false → string_round (c ∷ str) ≡ write c str
unfolding string_round
plain_round c str h = grind (arith, h)

parse_string_loop-write :
    (fuel c : ℕ) (str str' : List ℕ) (more : Parsed)
    → string_round str ≡ write c str'
    → parse_string_loop fuel str' ≡ some more
    → parse_string_loop (suc fuel) str ≡ some (put c more)
unfolding parse_string_loop
parse_string_loop-write fuel c str str' more round again =
    ap
      (λ r. elim r as (λ x. Option Parsed) [
        | over rest ↦ some (parsed [] rest)
        | null ↦ some fails
        | write c' s ↦ parse_string_loop fuel s >>= (λ m. some (put c' m))
      ])
      round
    ∙ ap (λ o. o >>= (λ m. some (put c m))) again

parse_string_loop-escaped :
    (fuel : ℕ) (s rest : List ℕ)
    → length s < fuel
    → parse_string_loop fuel (escaped s ++ 34 ∷ rest) ≡ some (parsed s rest)
unfolding parse_string_loop escaped put string_round
parse_string_loop-escaped zero s rest h = absurd (omega arith)
parse_string_loop-escaped (suc fuel) [] rest h = refl
parse_string_loop-escaped (suc fuel) (c ∷ s) rest h =
    let again = parse_string_loop-escaped fuel s rest (omega arith) in
    elim (Bool-cases (c == 34 || c == 92)) [
      | inl e ↦ rw e (
          parse_string_loop-write fuel c (92 ∷ c ∷ (escaped s ++ 34 ∷ rest))
            (escaped s ++ 34 ∷ rest) (parsed s rest) (escaped_round c (escaped s ++ 34 ∷ rest) e)
            again)
      | inr e ↦ rw e (
          parse_string_loop-write fuel c (c ∷ (escaped s ++ 34 ∷ rest)) (escaped s ++ 34 ∷ rest)
            (parsed s rest) (plain_round c (escaped s ++ 34 ∷ rest) e) again)
    ]

length-escaped : (s : List ℕ) → length s ≤ length (escaped s)
unfolding escaped
length-escaped [] = omega arith
length-escaped (c ∷ s) = elim (Bool-cases (c == 34 || c == 92)) [
  | inl e ↦ rw e (omega (arith, length-escaped s))
  | inr e ↦ rw e (omega (arith, length-escaped s))
]

until_nul-All : (s : List ℕ) → All (λ b. b ≢ 0) s → until_nul s ≡ s
unfolding until_nul
until_nul-All [] h = refl
until_nul-All (c ∷ s) h =
    let no : (c == 0) ≡ false = grind (arith, h.0) in rw (no, until_nul-All s h.1)

next_argument-word :
    (w : Word) (s : List ℕ)
    → IsWord w
    → next_argument (skip_spaces (written w ++ 32 ∷ s)) ≡ some (argument (meaning w) s)
unfolding written meaning IsWord skip_spaces next_argument behind_nul quoted_argument parse_string
    isspace
next_argument-word (bare c w) s h = rw (h.1.0, h.0, bare_word-space (c ∷ w) s h.1)
next_argument-word (quoted t) s h =
    let text : (escaped t ++ 34 ∷ []) ++ 32 ∷ s ≡ escaped t ++ 34 ∷ 32 ∷ s =
      append_assoc (escaped t) (34 ∷ []) (32 ∷ s) in
    let fuel : length t < length (escaped t ++ 34 ∷ 32 ∷ s) + 1 =
      omega (arith, length-escaped t, length-append (escaped t) (34 ∷ 32 ∷ s)) in
    rw (
      text,
      parse_string_loop-escaped (length (escaped t ++ 34 ∷ 32 ∷ s) + 1) t (32 ∷ s) fuel,
      until_nul-All t h,
    )

parse_args_loop-line :
    (free : ℕ) (argv : List (List ℕ)) (ps : List Placed)
    → All IsPlaced ps
    → length ps ≤ free
    → parse_args_loop free argv (line ps) ≡ some (argv ++ map (λ p. meaning p.word) ps)
unfolding parse_args_loop line
parse_args_loop-line zero argv [] h n = ap some (sym (append-nil argv))
parse_args_loop-line zero argv (p ∷ ps) h n = absurd (omega arith)
parse_args_loop-line (suc free) argv [] h n = ap some (sym (append-nil argv))
parse_args_loop-line (suc free) argv (p ∷ ps) h n =
    rw
      (
        skip_spaces-gap p.gap (written p.word ++ 32 ∷ line ps) h.0.0,
        next_argument-word p.word (line ps) h.0.1,
        parse_args_loop-line free (argv ++ meaning p.word ∷ []) ps h.1 (omega arith),
      )
      (ap some (append_assoc argv (meaning p.word ∷ []) (map (λ q. meaning q.word) ps)))

-- Take at most 255 words with any spaces before each: words without a space that do not begin with a
-- quote, and words between quotes, with a backslash before each quote and backslash, that have no
-- NUL. `parse_args` reads them back from the line.
pub parse_args-line :
    (ps : List Placed)
    → All IsPlaced ps
    → length ps ≤ 255
    → parse_args (line ps) ≡ some (map (λ p. meaning p.word) ps)
unfolding parse_args
parse_args-line ps h n = parse_args_loop-line 255 [] ps h n
