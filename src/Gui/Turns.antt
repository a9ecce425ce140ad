-- ===== src/Gui/Turns.antt =====
-- The turns of `threaden` of src/gui/gui.c for the sentences of one message, in which the payload is
-- collected and then unpacked.
use gnuais.Common.{
  ℕ, ◌+◌, ◌-◌, ◌*◌, ◌≤◌, ◌<◌, ◌≡◌, refl, sym, ap, ap₂, append_assoc, ◌∙◌, ◌≢◌, some, List, [], ◌∷◌,
  ◌++◌, map, arith, ◌==◌, if◌then◌else◌, pos, length, take, drop, All, All-append, All-take,
  All-drop, length-append, length-take, length-drop, Returns-eq,
}
use native.Mathlib.Nat.{zero-add}
use mathlib.Core.List.{map-append}
use gnuais.Protodec.Henten.{IsBit, field}
use gnuais.Protodec.Nmea.{armor}
use gnuais.Protodec.Nmea.Sentences.{sixbits, sentence, armored}
use gnuais.Protodec.Nmea.Receive.{sixbits-append}
use gnuais.Gui.{store_from}
use gnuais.Gui.Reader.{Reader, show_ship, on_read}
use gnuais.Gui.Payload.{store_from-append}
use gnuais.Gui.Switch.{by_type-Returns}
use gnuais.Gui.Chunks.{copied, copied-nmeabuffer, on_read-sentence}
use gnuais.Gui.Link.{IsReader, length-armored, armored-All, on_read-last}

armored-append :
    (n k : ℕ) (frame : List ℕ)
    → armored n 0 frame ++ armored k (6 * n) frame ≡ armored (n + k) 0 frame
armored-append n k frame =
    sym (map-append armor (sixbits n 0 frame) (sixbits k (6 * n) frame))
    ∙ ap (map armor) (rw zero-add at (sixbits-append n k 0 frame))

-- The state `g'` of the map program after it has read the first `k` bits of a frame.
unfoldable pub HasRead : (frame : List ℕ) (k : ℕ) (g g' : Reader) → Type 0
HasRead frame k g g' = IsReader g' × (g'.r_buffer ≡ take k frame ++ drop k g.r_buffer)

pub HasRead-same :
    (frame : List ℕ) {k k' : ℕ} (g g' g'' : Reader)
    → k ≡ k'
    → g'.r_buffer ≡ g.r_buffer
    → HasRead frame k g' g''
    → HasRead frame k' g g''
unfolding HasRead
HasRead-same frame g g' g'' same kept (ok, read) =
    (ok, read ∙ ap₂ (λ (n : ℕ) b. take n frame ++ drop n b) same kept)

module _ (frame : List ℕ) (bits : All IsBit frame) where
  -- The turn of the last sentence, with what it does to the arrays.
  pub on_read-HasRead :
      (m num seqnr digit : ℕ) (chars rest : List ℕ) (g : Reader)
      → 0 < m
      → 6 * m ≤ length frame
      → 6 * m ≤ 600
      → IsReader g
      → num ≤ 9
      → seqnr ≤ 9
      → length chars ≤ 200
      → All (λ c. c ≢ b',') chars
      → (1 < num → g.previoussentence ≡ pos (num - 1))
      → store_from g.aisline (if num == 1 then 0 else g.lettersread) chars
        ≡ some (armored m 0 frame ++ rest)
      → (if num == 1 then 0 else g.lettersread) + length chars ≡ m
      → m + length rest ≡ 500
      → (g' : Reader) × (on_read (b'!' ∷ sentence num num seqnr digit chars) g ≡ some g')
        × HasRead frame (6 * m) g g'
  unfolding HasRead show_ship
  on_read-HasRead m num seqnr digit chars rest g some_groups fits room h p q short plain before
        stored count total =
      let turn =
        on_read-last frame bits m num seqnr digit chars rest g some_groups fits room h p q short
          plain before stored count (omega arith) in
      let array : List ℕ = take (6 * m) frame ++ drop (6 * m) g.r_buffer in
      let plain : All IsBit array =
        All-append IsBit (take (6 * m) frame) (drop (6 * m) g.r_buffer)
          (All-take IsBit (6 * m) frame bits) (All-drop IsBit (6 * m) g.r_buffer h.r_buffer_bits) in
      let size : length array ≡ 600 = omega (
        arith,
        length-append (take (6 * m) frame) (drop (6 * m) g.r_buffer),
        length-take (6 * m) frame,
        length-drop (6 * m) g.r_buffer,
        h.r_buffer_size,
      ) in
      let (d, decoded) = Returns-eq (by_type-Returns array plain size g.shipd (field 0 6 frame)) in
      let line : List ℕ = armored m 0 frame ++ rest in
      let buffer = copied-nmeabuffer num num seqnr digit chars line g h.nmeabuffer_size short in
      let ended : length (armored m 0 frame ++ 0 ∷ drop 1 rest) ≡ 500 = omega (
        arith,
        length-armored m 0 frame,
        length-append (armored m 0 frame) (0 ∷ drop 1 rest),
        length-drop 1 rest,
      ) in
      (
        _,
        rw decoded at turn,
        (
          record {
            nmeabuffer_size = buffer;
            aisline_size = ended;
            r_buffer_size = size;
            r_buffer_bits = plain;
          },
          refl,
        ),
      )

  -- The first of two sentences: its characters are kept, and nothing is decoded yet.
  pub first_turn :
      (n seqnr : ℕ) (g : Reader)
      → n ≤ 61
      → seqnr ≤ 9
      → IsReader g
      → let chars = armored n 0 frame in
        (g' : Reader) × (on_read (b'!' ∷ sentence 2 1 seqnr 48 chars) g ≡ some g')
        × IsReader g'
        × (g'.aisline ≡ chars ++ drop n g.aisline)
        × (g'.lettersread ≡ n)
        × (g'.previoussentence ≡ pos 1)
        × (g'.r_buffer ≡ g.r_buffer)
  first_turn n seqnr g short seq h =
      let chars : List ℕ = armored n 0 frame in
      let count : length chars ≡ n = length-armored n 0 frame in
      let plain : All (λ c. c ≢ b',') chars =
        armored-All (λ c. c ≢ b',') (λ c p. omega arith) n 0 frame in
      let line : List ℕ = chars ++ drop n g.aisline in
      let stored =
        rw count at (store_from-append [] chars g.aisline (omega (arith, count, h.aisline_size))) in
      let kept : length line ≡ 500 = omega (
        arith,
        count,
        length-append chars (drop n g.aisline),
        length-drop n g.aisline,
        h.aisline_size,
      ) in
      let turn =
        on_read-sentence 2 1 seqnr 48 chars (omega arith) (omega arith) seq plain g line
          h.nmeabuffer_size (omega arith) (λ p. absurd (omega arith)) stored in
      let buffer = copied-nmeabuffer 2 1 seqnr 48 chars line g h.nmeabuffer_size (omega arith) in
      (
        show_ship (pos 1) (copied 2 1 seqnr 48 chars line g),
        turn,
        record {
          nmeabuffer_size = unfold show_ship in buffer;
          aisline_size = unfold show_ship copied in kept;
          r_buffer_size = unfold show_ship copied in h.r_buffer_size;
          r_buffer_bits = unfold show_ship copied in h.r_buffer_bits;
        },
        unfold show_ship copied in refl,
        unfold show_ship copied in omega arith,
        unfold show_ship in refl,
        unfold show_ship copied in refl,
      )

  -- The second sentence of two, behind the first one.
  pub second_turn :
      (n k seqnr digit : ℕ) (g : Reader) (old : List ℕ)
      → 0 < n
      → n + k ≤ 100
      → 6 * (n + k) ≤ length frame
      → seqnr ≤ 9
      → IsReader g
      → g.aisline ≡ armored n 0 frame ++ old
      → g.lettersread ≡ n
      → g.previoussentence ≡ pos 1
      → (g' : Reader) × (on_read (b'!' ∷ sentence 2 2 seqnr digit (armored k (6 * n) frame)) g
          ≡ some g')
        × HasRead frame (6 * (n + k)) g g'
  second_turn n k seqnr digit g old some_groups few fits seq h line read before =
      let chars : List ℕ = armored k (6 * n) frame in
      let count : length chars ≡ k = length-armored k (6 * n) frame in
      let got : length (armored n 0 frame) ≡ n = length-armored n 0 frame in
      let plain : All (λ c. c ≢ b',') chars =
        armored-All (λ c. c ≢ b',') (λ c p. omega arith) k (6 * n) frame in
      let size : length old + n ≡ 500 =
        omega (arith, got, length-append (armored n 0 frame) old, ap length line, h.aisline_size) in
      let stored : store_from g.aisline g.lettersread chars
          ≡ some (armored (n + k) 0 frame ++ drop k old) =
        rw (line, read)
          (rw (got, count, ← append_assoc, armored-append n k frame) at
            (store_from-append (armored n 0 frame) chars old (omega (arith, count)))) in
      on_read-HasRead (n + k) 2 seqnr digit chars (drop k old) g (omega arith) fits (omega arith) h
        (omega arith) seq (omega arith) plain (λ p. before) stored (omega arith)
        (omega (arith, length-drop k old))
