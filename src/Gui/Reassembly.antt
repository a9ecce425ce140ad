-- ===== src/Gui/Reassembly.antt =====
-- A frame of any type that `protodec_generate_nmea` writes to the local socket, in one sentence or in
-- two: the map program of src/gui/gui.c puts its payload together again.
use gnuais.Common.{
  ℕ, ◌+◌, ◌-◌, ◌*◌, ◌≤◌, ◌<◌, ◌≡◌, refl, ap, ◌≢◌, some, List, [], ◌∷◌, arith, ◌>>=◌, true, length,
  drop, All, length-drop,
}
use native.Mathlib.Decide.{dec_lt}
use gnuais.Protodec.Types.{Env}
use gnuais.Protodec.Henten.{IsBit}
use gnuais.Protodec.Nmea.{emit_all, generate_nmea}
use gnuais.Protodec.Nmea.Sentences.{sentence, armored, generate_nmea-single, generate_nmea-double}
use gnuais.Gui.Reader.{Reader, on_reads}
use gnuais.Gui.Payload.{store_from-append}
use gnuais.Gui.Turns.{HasRead, HasRead-same, on_read-HasRead, first_turn, second_turn}
use gnuais.Gui.Link.{IsReader, length-armored, armored-All, socket_writes, socket_writes-emit_all}

module _ (frame : List ℕ) (bits : All IsBit frame) where
  single :
      (env : Env) (fillbits seqnr m : ℕ) (g : Reader)
      → env.has_ipc ≡ true
      → fillbits < 6
      → seqnr ≤ 9
      → 0 < m
      → m ≤ 61
      → 6 * m ≤ length frame
      → IsReader g
      → (g' : Reader) × ((do
        ss ← generate_nmea (6 * m) fillbits seqnr frame
        on_reads (socket_writes (emit_all env ss)) g)
          ≡ some g')
        × HasRead frame (6 * m) g g'
  unfolding on_reads
  single env fillbits seqnr m g on small seq some_groups short fits h =
      let chars : List ℕ = armored m 0 frame in
      let count : length chars ≡ m = length-armored m 0 frame in
      let plain : All (λ c. c ≢ b',') chars =
        armored-All (λ c. c ≢ b',') (λ c p. omega arith) m 0 frame in
      let stored =
        rw count at (store_from-append [] chars g.aisline (omega (arith, count, h.aisline_size))) in
      let (g', turn, done) =
        on_read-HasRead frame bits m 1 seqnr 48 chars (drop m g.aisline) g some_groups fits
          (omega arith) h (omega arith) seq (omega arith) plain (λ p. absurd (omega arith)) stored
          (omega arith) (omega (arith, length-drop m g.aisline, h.aisline_size)) in
      (
        g',
        rw
            (
              generate_nmea-single frame bits fillbits seqnr m small fits some_groups short,
              socket_writes-emit_all env (sentence 1 1 seqnr 48 chars ∷ []) on,
              turn,
            )
            refl,
        done,
      )

  double :
      (env : Env) (fillbits seqnr m : ℕ) (g : Reader)
      → env.has_ipc ≡ true
      → fillbits < 6
      → seqnr ≤ 9
      → 61 < m
      → m ≤ 75
      → 6 * m ≤ length frame
      → IsReader g
      → (g' : Reader) × ((do
        ss ← generate_nmea (6 * m) fillbits seqnr frame
        on_reads (socket_writes (emit_all env ss)) g)
          ≡ some g')
        × HasRead frame (6 * m) g g'
  unfolding on_reads
  double env fillbits seqnr m g on small seq more few fits h =
      let (mid, first, ok, line, read, before, kept) =
        first_turn frame bits 61 seqnr g (omega arith) seq h in
      let whole : 61 + (m - 61) ≡ m = omega arith in
      let (g', second, done) =
        second_turn frame bits 61 (m - 61) seqnr (48 + fillbits) mid (drop 61 g.aisline)
          (omega arith) (omega arith) (omega arith) seq ok line read before in
      (
        g',
        rw
            (
              generate_nmea-double frame bits fillbits seqnr m small fits more few,
              socket_writes-emit_all env _ on,
              first,
              second,
            )
            refl,
        HasRead-same frame g mid g' (ap (λ (n : ℕ). 6 * n) whole) kept done,
      )

  -- A frame of 1 to 75 groups of six bits, in one sentence or in two, of any type: a map program whose
  -- arrays have their sizes reads the sentences from the local socket, each with one read, without
  -- an access outside of an array; it has then put the bits of the groups to the front of
  -- `r_buffer` and changed nothing behind them, and its arrays still have their sizes.
  pub on_reads-frame :
      (env : Env) (fillbits seqnr m : ℕ) (g : Reader)
      → env.has_ipc ≡ true
      → fillbits < 6
      → seqnr ≤ 9
      → 0 < m
      → m ≤ 75
      → 6 * m ≤ length frame
      → IsReader g
      → (g' : Reader) × ((do
        ss ← generate_nmea (6 * m) fillbits seqnr frame
        on_reads (socket_writes (emit_all env ss)) g)
          ≡ some g')
        × HasRead frame (6 * m) g g'
  on_reads-frame env fillbits seqnr m g on small seq some_groups few fits h = elim (dec_lt 61 m) [
    | no one ↦ single env fillbits seqnr m g on small seq some_groups (omega arith) fits h
    | yes two ↦ double env fillbits seqnr m g on small seq two few fits h
  ]
