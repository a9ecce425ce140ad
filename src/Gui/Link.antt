-- ===== src/Gui/Link.antt =====
-- The receiver and the map program together: what `protodec_generate_nmea` of src/protodec.c writes
-- to the local socket, read by `threaden` of src/gui/gui.c.
use gnuais.Common.{
  ℕ, zero, suc, ◌+◌, ◌-◌, ◌*◌, ◌%◌, ◌≤◌, ◌<◌, ◌≡◌, refl, ap, ◌∙◌, ◌≢◌, ◌⊎◌, inl, inr, some, List,
  [], ◌∷◌, ◌++◌, map, true, arith, leb, ◌==◌, if◌then◌else◌, ◌>>=◌, pos, length, take, drop, store,
  All, All-drop, length-drop, store_after, bind_assoc,
}
use native.Mathlib.Nat.{zero-add}
use gnuais.Protodec.Types.{over, Call, ipc_write, Env}
use gnuais.Protodec.Henten.{IsBit, field, field-lt}
use gnuais.Protodec.Nmea.{armor, emit_all, emit, generate_nmea}
use gnuais.Protodec.Nmea.Sentences.{sixbits, sentence, armored, armor-ge, generate_nmea-single}
use gnuais.Protodec.Messages.Position.Fields.{signed, sign_extend-longitude, sign_extend-latitude}
use gnuais.Gui.{Ship, ShipData, store_from, type1, by_type, aisdecode, to_ship, updateship}
use gnuais.Gui.Fleet.{IsFleet, ship_of, updated, updateship-IsFleet}
use gnuais.Gui.Reader.{Reader, on_map, decode_line, show_ship, on_read, on_reads}
use gnuais.Gui.Payload.{store_from-append, c_string-stop, unpack-armored, pickone-field}
use gnuais.Gui.Chunks.{copied, on_read-sentence}

-- The arrays of the map program have their sizes, and its static `r_buffer` holds bits.
pub record IsReader (g : Reader) : Type 0 where
  pub nmeabuffer_size : length g.nmeabuffer ≡ 256
  pub aisline_size : length g.aisline ≡ 500
  pub r_buffer_size : length g.r_buffer ≡ 600
  pub r_buffer_bits : All IsBit g.r_buffer

-- What a frame of type 1, 2 or 3 says, by its fields.
unfoldable pub ship_data : List ℕ → ShipData
ship_data frame = record {
  type = 1;
  mmsi = field 8 30 frame;
  latitude = over (signed 26 (field 89 27 frame)) 600000;
  longitude = over (signed 27 (field 61 28 frame)) 600000;
  speed = over (pos (field 50 10 frame)) 10;
  course = over (pos (field 116 12 frame)) 10;
  heading = over (pos (field 128 9 frame)) 1;
}

-- The ship of such a frame: its MMSI, its position and its course as the fields of the frame have them.
pub frame_ship : List ℕ → Ship
frame_ship frame = record {
  mmsi = field 8 30 frame;
  longitude = over (signed 27 (field 61 28 frame)) 600000;
  latitude = over (signed 26 (field 89 27 frame)) 600000;
  heading = over (pos (field 128 9 frame)) 1;
  course = over (pos (field 116 12 frame)) 10;
  type = 1;
}

pub length-armored : (n p : ℕ) (frame : List ℕ) → length (armored n p frame) ≡ n
unfolding sixbits
length-armored zero p frame = refl
length-armored (suc n) p frame = ap suc (length-armored n (p + 6) frame)

pub armored-All :
    (P : ℕ → Type 0)
    → ((c : ℕ) → 48 ≤ c → P c)
    → (n p : ℕ) (frame : List ℕ) → All P (armored n p frame)
unfolding sixbits
armored-All P of zero p frame = tt
armored-All P of (suc n) p frame =
    (of (armor (field p 6 frame)) (armor-ge (field p 6 frame)), armored-All P of n (p + 6) frame)

-- The texts that are written to the local socket.
unfoldable pub socket_writes : List Call → List (List ℕ)
socket_writes [] = []
socket_writes (ipc_write text ∷ cs) = text ∷ socket_writes cs
socket_writes (_ ∷ cs) = socket_writes cs

pub socket_writes-emit_all :
    (env : Env) (ss : List (List ℕ))
    → env.has_ipc ≡ true
    → socket_writes (emit_all env ss) ≡ map (λ s. b'!' ∷ s) ss
unfolding socket_writes emit_all emit
socket_writes-emit_all env [] on = refl
socket_writes-emit_all env (s ∷ ss) on = ground (arith, socket_writes-emit_all env ss on)

-- The NUL behind the collected characters.
store_end :
    (got rest : List ℕ)
    → 0 < length rest
    → store (got ++ rest) (length got) 0 ≡ some (got ++ 0 ∷ drop 1 rest)
store_end got [] h = absurd (omega arith)
store_end got (y ∷ ys) h = store_after got ys y 0

module _ (frame : List ℕ) (bits : All IsBit frame) where
  type1-ship_data :
      (k : ℕ) (rest : List ℕ) (d : ShipData)
      → All IsBit rest
      → 137 ≤ k
      → k ≤ length frame
      → type1 (take k frame ++ rest) d ≡ some (ship_data frame)
  unfolding type1 ship_data
  type1-ship_data k rest d p h l = rw (
    pickone-field frame bits 8 30 k rest p (omega arith) l (omega arith),
    pickone-field frame bits 61 28 k rest p (omega arith) l (omega arith),
    pickone-field frame bits 89 27 k rest p (omega arith) l (omega arith),
    pickone-field frame bits 116 12 k rest p (omega arith) l (omega arith),
    pickone-field frame bits 128 9 k rest p (omega arith) l (omega arith),
    pickone-field frame bits 50 10 k rest p (omega arith) l (omega arith),
    sign_extend-longitude _ (field-lt 61 28 frame bits (omega arith)),
    sign_extend-latitude _ (field-lt 89 27 frame bits (omega arith)),
  )

  by_type-ship_data :
      (k : ℕ) (rest : List ℕ) (d : ShipData)
      → (field 0 6 frame ≡ 1) ⊎ (field 0 6 frame ≡ 2) ⊎ (field 0 6 frame ≡ 3)
      → All IsBit rest
      → 137 ≤ k
      → k ≤ length frame
      → by_type (field 0 6 frame) (take k frame ++ rest) d ≡ some (ship_data frame)
  unfolding by_type
  by_type-ship_data k rest d type p h l = elim type [
    | inl e ↦ rw e (type1-ship_data k rest d p h l)
    | inr (inl e) ↦ rw e (type1-ship_data k rest d p h l)
    | inr (inr e) ↦ rw e (type1-ship_data k rest d p h l)
  ]

  -- The characters of the frame's first groups, decoded by `aisdecode` up to the `switch`.
  aisdecode-armored :
      (m : ℕ) (behind r_buffer : List ℕ) (d : ShipData)
      → 0 < m
      → 6 * m ≤ length frame
      → 6 * m ≤ length r_buffer
      → All IsBit r_buffer
      → let array = take (6 * m) frame ++ drop (6 * m) r_buffer in
        aisdecode (armored m 0 frame ++ 0 ∷ behind) r_buffer d
        ≡ (do d' ← by_type (field 0 6 frame) array d; some (array, d'))
  unfolding aisdecode
  aisdecode-armored m behind r_buffer d some_groups fits room p =
      let whole =
        c_string-stop (armored m 0 frame) behind
          (armored-All (λ c. c ≢ 0) (λ c h. omega arith) m 0 frame) in
      let unpacked = rw zero-add at (unpack-armored frame bits m 0 r_buffer (omega arith) room) in
      let type =
        pickone-field frame bits 0 6 (6 * m) (drop (6 * m) r_buffer)
          (All-drop IsBit (6 * m) r_buffer p) (omega arith) fits (omega arith) in
      let small : field 0 6 frame % 256 ≡ field 0 6 frame =
        omega (arith, field-lt 0 6 frame bits (omega arith)) in
      rw (whole, unpacked, type, small)

  -- What the decoding makes of the collected characters of all `m` groups.
  decode_line-armored :
      (m : ℕ) (rest : List ℕ) (g : Reader)
      → 0 < m
      → 6 * m ≤ length frame
      → 6 * m ≤ length g.r_buffer
      → All IsBit g.r_buffer
      → 0 < length rest
      → g.aisline ≡ armored m 0 frame ++ rest
      → g.lettersread ≡ m
      → let array = take (6 * m) frame ++ drop (6 * m) g.r_buffer in
        let line = armored m 0 frame ++ 0 ∷ drop 1 rest in
        decode_line g ≡ (do
          d ← by_type (field 0 6 frame) array g.shipd
          some (record g { aisline = line; r_buffer = array; shipd = d }))
  unfolding decode_line
  decode_line-armored m rest g some_groups fits room p more line count =
      let size = length-armored m 0 frame in
      let stored = rw size at (store_end (armored m 0 frame) rest more) in
      let decoded = aisdecode-armored m (drop 1 rest) g.r_buffer g.shipd some_groups fits room p in
      rw (line, count, stored, decoded) (bind_assoc (by_type (field 0 6 frame) _ g.shipd) _ _)

  -- The turn of the last sentence of a message, when the payload of all `m` groups is collected.
  pub on_read-last :
      (m num seqnr digit : ℕ) (chars rest : List ℕ) (g : Reader)
      → 0 < m
      → 6 * m ≤ length frame
      → 6 * m ≤ 600
      → IsReader g
      → num ≤ 9
      → seqnr ≤ 9
      → length chars ≤ 200
      → All (λ c. c ≢ b',') chars
      → (1 < num → g.previoussentence ≡ pos (num - 1))
      → store_from g.aisline (if num == 1 then 0 else g.lettersread) chars
        ≡ some (armored m 0 frame ++ rest)
      → (if num == 1 then 0 else g.lettersread) + length chars ≡ m
      → 0 < length rest
      → let array = take (6 * m) frame ++ drop (6 * m) g.r_buffer in
        let c = copied num num seqnr digit chars (armored m 0 frame ++ rest) g in
        on_read (b'!' ∷ sentence num num seqnr digit chars) g ≡ (do
          d ← by_type (field 0 6 frame) array g.shipd
          some (
              show_ship (pos num) (record c {
                aisline = armored m 0 frame ++ 0 ∷ drop 1 rest;
                r_buffer = array;
                shipd = d;
              })))
  unfolding copied
  on_read-last m num seqnr digit chars rest g some_groups fits room h p q short plain before stored
        count more =
      let line : List ℕ = armored m 0 frame ++ rest in
      let c : Reader = copied num num seqnr digit chars line g in
      let turn =
        on_read-sentence num num seqnr digit chars p p q plain g line h.nmeabuffer_size short before
          stored in
      let last : leb num num ≡ true = ground arith in
      let space : 6 * m ≤ length g.r_buffer = omega (arith, h.r_buffer_size) in
      let decoded =
        decode_line-armored m rest c some_groups fits space h.r_buffer_bits more refl count in
      rw last at turn
      ∙ (ap (λ o. o >>= λ g'. some (show_ship (pos num) g')) decoded
          ∙ bind_assoc (by_type (field 0 6 frame) _ g.shipd) _ _)

  on_reads-updateship :
      (env : Env) (fillbits seqnr m : ℕ) (g : Reader)
      → env.has_ipc ≡ true
      → fillbits < 6
      → seqnr ≤ 9
      → 23 ≤ m
      → m ≤ 61
      → 6 * m ≤ length frame
      → (field 0 6 frame ≡ 1) ⊎ (field 0 6 frame ≡ 2) ⊎ (field 0 6 frame ≡ 3)
      → IsReader g
      → (do
        ss ← generate_nmea (6 * m) fillbits seqnr frame
        g' ← on_reads (socket_writes (emit_all env ss)) g
        some g'.ships)
        ≡ some (updateship (to_ship (ship_data frame)) g.ships)
  unfolding on_reads
  on_reads-updateship env fillbits seqnr m g on small seq long short fits type h =
      let chars : List ℕ = armored m 0 frame in
      let count : length chars ≡ m = length-armored m 0 frame in
      let plain : All (λ c. c ≢ b',') chars =
        armored-All (λ c. c ≢ b',') (λ c p. omega arith) m 0 frame in
      let stored =
        rw count at (store_from-append [] chars g.aisline (omega (arith, count, h.aisline_size))) in
      let turn =
        on_read-last m 1 seqnr 48 chars (drop m g.aisline) g (omega arith) fits (omega arith) h
          (omega arith) seq (omega arith) plain (λ p. absurd (omega arith)) stored (omega arith)
          (omega (arith, length-drop m g.aisline, h.aisline_size)) in
      rw
        (
          generate_nmea-single frame bits fillbits seqnr m small fits (omega arith) short,
          socket_writes-emit_all env (sentence 1 1 seqnr 48 chars ∷ []) on,
          turn,
          by_type-ship_data (6 * m) (drop (6 * m) g.r_buffer) g.shipd type
              (All-drop IsBit (6 * m) g.r_buffer h.r_buffer_bits) (omega arith) fits,
        )
        (unfold copied show_ship on_map ship_data in refl)

  -- Types 1 to 3 and the map: a frame of one of these types, of 23 to 61 groups of six bits, goes out
  -- on the local socket as one text, and a map program whose arrays have their sizes accesses nothing
  -- outside of them when it reads it. If its table had each ship once, it then shows for the frame's
  -- MMSI the ship at the two's complement values of the frame's latitude and longitude, with the
  -- frame's course and heading, unless that ship is new and the table full; for every other MMSI it
  -- shows what it did.
  pub on_reads-position :
      (env : Env) (fillbits seqnr m : ℕ) (g : Reader)
      → env.has_ipc ≡ true
      → fillbits < 6
      → seqnr ≤ 9
      → 23 ≤ m
      → m ≤ 61
      → 6 * m ≤ length frame
      → (field 0 6 frame ≡ 1) ⊎ (field 0 6 frame ≡ 2) ⊎ (field 0 6 frame ≡ 3)
      → IsReader g
      → IsFleet g.ships
      → (ships : List Ship) × ((do
        ss ← generate_nmea (6 * m) fillbits seqnr frame
        g' ← on_reads (socket_writes (emit_all env ss)) g
        some g'.ships)
          ≡ some ships)
        × ((mmsi : ℕ) → ship_of mmsi ships ≡ updated (frame_ship frame) g.ships mmsi)
  on_reads-position env fillbits seqnr m g on small seq long short fits type h fleet =
      let same : to_ship (ship_data frame) ≡ frame_ship frame =
        unfold to_ship ship_data frame_ship in refl in
      let all = on_reads-updateship env fillbits seqnr m g on small seq long short fits type h in
      (
        updateship (frame_ship frame) g.ships,
        rw same at all,
        (updateship-IsFleet (frame_ship frame) g.ships fleet).1,
      )
