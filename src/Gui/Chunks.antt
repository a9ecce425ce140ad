-- ===== src/Gui/Chunks.antt =====
-- What one sentence of `protodec_generate_nmea` does to the loop of `threaden` of src/gui/gui.c.
use gnuais.Common.{
  ℕ, zero, suc, ◌+◌, ◌-◌, ◌≤◌, ◌<◌, ◌≡◌, refl, ◌≢◌, some, List, [], ◌∷◌, ◌++◌, ℤ, ap, ◌∙◌, pos,
  negsuc, ◌+ℤ◌, not, ◌&&◌, true, false, arith, ltb, leb, ◌==◌, if◌then◌else◌, ◌>>=◌, length, drop,
  store, All, length-append, length-drop,
}
use native.Mathlib.Decide.{dec_lt}
use gnuais.Protodec.Nmea.{header}
use gnuais.Protodec.Nmea.Sentences.{sentence}
use gnuais.Gui.{store_from}
use gnuais.Gui.Header.{
  digit-to_char, tail_of, sentence-behind, length-sentence, fifth_comma-header, header_chars,
}
use gnuais.Gui.Reader.{
  Reader, leb_ℤ, eqb_ℤ, find_start, payload_of, show_ship, decode_line, is_ais, on_sentence,
  on_read,
}

payload_of-stop :
    (chars rest : List ℕ) (left : ℕ)
    → All (λ c. c ≢ b',') chars
    → length chars < left
    → payload_of left (chars ++ b',' ∷ rest) ≡ some chars
unfolding payload_of
payload_of-stop [] rest zero p h = absurd (omega arith)
payload_of-stop [] rest (suc left) p h = refl
payload_of-stop (c ∷ chars) rest zero p h = absurd (omega arith)
payload_of-stop (c ∷ chars) rest (suc left) p h =
    let other : (c == b',') ≡ false = ground (arith, p.0) in
    rw (other, payload_of-stop chars rest left p.1 (omega arith))

-- The NUL behind the bytes of a read, with what an earlier one left behind it.
store_nul :
    (bytes buffer : List ℕ)
    → length bytes < length buffer
    → store (bytes ++ drop (length bytes) buffer) (length bytes) 0
      ≡ some (bytes ++ 0 ∷ drop (suc (length bytes)) buffer)
store_nul [] [] h = absurd (omega arith)
store_nul [] (y ∷ ys) h = refl
store_nul (b ∷ bs) [] h = absurd (omega arith)
store_nul (b ∷ bs) (y ∷ ys) h = rw (store_nul bs ys (omega arith))

eqb_ℤ-one : (num : ℕ) → eqb_ℤ (pos num) (pos 1) ≡ (num == 1)
eqb_ℤ-one num = ground arith

-- A sentence that is the first one, or follows the one that was read last, is not skipped.
follows :
    (num : ℕ) (previous : ℤ)
    → (1 < num → previous ≡ pos (num - 1))
    → (not (leb_ℤ (pos num) (pos 1)) && not (eqb_ℤ previous (pos num +ℤ negsuc 0))) ≡ false
follows num previous before = elim (dec_lt 1 num) [
  | no one ↦ ground arith
  | yes more ↦ rw (before more) (ground arith)
]

-- The variables of `threaden` when the payload of a sentence has been copied.
unfoldable pub copied : (sentences num seqnr digit : ℕ) → (chars line : List ℕ) → Reader → Reader
copied sentences num seqnr digit chars line g =
    let text = b'!' ∷ sentence sentences num seqnr digit chars in
    record g {
      nmeabuffer = text ++ 0 ∷ drop (suc (length text)) g.nmeabuffer;
      aisline = line;
      lettersread = (if num == 1 then 0 else g.lettersread) + length chars;
    }

pub copied-nmeabuffer :
    (sentences num seqnr digit : ℕ) (chars line : List ℕ) (g : Reader)
    → length g.nmeabuffer ≡ 256
    → length chars ≤ 200
    → length (copied sentences num seqnr digit chars line g).nmeabuffer ≡ 256
unfolding copied
copied-nmeabuffer sentences num seqnr digit chars line g size short =
    let body : List ℕ = sentence sentences num seqnr digit chars in
    let rest : List ℕ = drop (suc (length (b'!' ∷ body))) g.nmeabuffer in
    omega (
      arith,
      length-sentence sentences num seqnr digit chars,
      length-append body (0 ∷ rest),
      length-drop (suc (length (b'!' ∷ body))) g.nmeabuffer,
    )

module _ (sentences num seqnr digit : ℕ) (chars : List ℕ) (few : sentences ≤ 9) (p : num ≤ 9)
    (q : seqnr ≤ 9) (plain : All (λ c. c ≢ b',') chars) where
  -- The loop behind the search for '!'.
  on_sentence-sentence :
      (g : Reader) (r : ℕ) (bytes behind line : List ℕ)
      → r ≡ length chars + 19
      → bytes
        ≡ b'!' ∷ header sentences num seqnr
          ++ (chars ++ (tail_of sentences num seqnr digit chars ++ behind))
      → (1 < num → g.previoussentence ≡ pos (num - 1))
      → store_from g.aisline (if num == 1 then 0 else g.lettersread) chars ≡ some line
      → on_sentence r 0 bytes g ≡ (do
        let g' : Reader = record g {
          aisline = line;
          lettersread = (if num == 1 then 0 else g.lettersread) + length chars;
        }
        g'' ← (if leb sentences num then decode_line g' else some g')
        some (show_ship (pos num) g''))
  unfolding on_sentence
  on_sentence-sentence g r bytes behind line long shape before stored =
      let rest : List ℕ = chars ++ (tail_of sentences num seqnr digit chars ++ behind) in
      let (seven, nine, _, payload) = header_chars sentences num seqnr rest in
      let room : length chars + 19 - 14 - 0 ≡ length chars + 5 = omega arith in
      rw (
        long,
        shape,
        fifth_comma-header sentences num seqnr rest few p q,
        seven,
        nine,
        digit-to_char sentences few,
        digit-to_char num p,
        eqb_ℤ-one num,
        follows num g.previoussentence before,
        payload,
        room,
        payload_of-stop chars _ (length chars + 5) plain (omega arith),
        stored,
      )

  -- The turn for bytes that begin with '!'.
  on_read-start :
      (rest : List ℕ) (g : Reader)
      → let bytes = b'!' ∷ rest in
        let behind = bytes ++ 0 ∷ drop (suc (length bytes)) g.nmeabuffer in
        1 ≤ length rest
        → length bytes < length g.nmeabuffer
        → is_ais behind ≡ some true
        → on_read bytes g ≡ on_sentence (length bytes) 0 behind (record g { nmeabuffer = behind })
  unfolding on_read find_start
  on_read-start rest g some_bytes fits checked =
      let on : ltb (length (b'!' ∷ rest) - 1) 1 ≡ false = ground arith in
      rw (store_nul (b'!' ∷ rest) g.nmeabuffer fits, on, checked)

  -- One turn of the loop, for a read that returns one sentence.
  pub on_read-sentence :
      (g : Reader) (line : List ℕ)
      → length g.nmeabuffer ≡ 256
      → length chars ≤ 200
      → (1 < num → g.previoussentence ≡ pos (num - 1))
      → store_from g.aisline (if num == 1 then 0 else g.lettersread) chars ≡ some line
      → on_read (b'!' ∷ sentence sentences num seqnr digit chars) g ≡ (do
        let c : Reader = copied sentences num seqnr digit chars line g
        g' ← (if leb sentences num then decode_line c else some c)
        some (show_ship (pos num) g'))
  unfolding copied
  on_read-sentence g line size short before stored =
      let body : List ℕ = sentence sentences num seqnr digit chars in
      let text : List ℕ = b'!' ∷ body in
      let count : length body ≡ length chars + 18 =
        length-sentence sentences num seqnr digit chars in
      let total : length text ≡ length chars + 19 = omega arith in
      let behind : List ℕ = 0 ∷ drop (suc (length text)) g.nmeabuffer in
      let rest : List ℕ = chars ++ (tail_of sentences num seqnr digit chars ++ behind) in
      let (_, _, checked, _) = header_chars sentences num seqnr rest in
      let shape : text ++ behind ≡ b'!' ∷ header sentences num seqnr ++ rest =
        ap (λ t. b'!' ∷ t) (sentence-behind sentences num seqnr digit chars behind) in
      on_read-start body g (omega arith) (omega arith) (ap is_ais shape ∙ checked)
      ∙ on_sentence-sentence (record g { nmeabuffer = text ++ behind }) (length text)
          (text ++ behind) behind line total shape before stored
