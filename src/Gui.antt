-- ===== src/Gui.antt =====
-- src/gui/gui.c, the map program: what it does with the NMEA sentences that the receiver writes to
-- the local socket, and its table of ships.
pub mod Reader
pub mod Fleet
pub mod Payload
pub mod Header
pub mod Chunks
pub mod Switch
pub mod Turns
pub mod Link
pub mod Reassembly
use gnuais.Common.{
  ℕ, zero, suc, ◌+◌, ◌-◌, ◌*◌, ◌/◌, ◌%◌, ◌^◌, bit_or, Bool, ◌||◌, Option, none, some, List, [], ◌∷◌,
  ◌++◌, ℤ, pos, ltb, leb, ◌==◌, if◌then◌else◌, ◌>>=◌, get_elem?, store, length,
}
use gnuais.Protodec.Types.{Scaled, over, sign_extend}
use gnuais.Protodec.Text.{c_string}

-- `shipdata`
pub record ShipData : Type 0 where
  pub type : ℕ
  pub mmsi : ℕ
  pub latitude : Scaled
  pub longitude : Scaled
  pub speed : Scaled
  pub course : Scaled
  pub heading : Scaled

-- `ship` of src/gui/osm-gps-map-ais.h
pub record Ship : Type 0 where
  pub mmsi : ℕ
  pub longitude : Scaled
  pub latitude : Scaled
  pub heading : Scaled
  pub course : Scaled
  pub type : ℕ

abbrev pub max_ships : ℕ
max_ships = 1000

-- The loop of `pickone` at index `i`, with `left` rounds to go. `none` is a read outside of the
-- array.
unfoldable pub pickone_loop : (r_buffer : List ℕ) (start len left i tmp : ℕ) → Option ℕ
pickone_loop r_buffer start len zero i tmp = some tmp
pickone_loop r_buffer start len (suc left) i tmp = do
  b ← get_elem? r_buffer (start + i)
  pickone_loop r_buffer start len left (i + 1) (bit_or tmp (b * 2 ^ (len - 1 - i)))

-- `pickone`. A bit is shifted as an int of 32 bits, so a field of more than 31 is `none`.
unfoldable pub pickone : List ℕ → (start len : ℕ) → Option ℕ
unfolding pickone_loop
pickone r_buffer start len = if leb len 31 then pickone_loop r_buffer start len len 0 0 else none

-- What `type1` stores; the printf and its rate of turn are left out.
unfoldable pub type1 : List ℕ → ShipData → Option ShipData
type1 r_buffer d = do
  mmsi ← pickone r_buffer 8 30
  longitude ← pickone r_buffer 61 28
  latitude ← pickone r_buffer 89 27
  course ← pickone r_buffer 116 12
  heading ← pickone r_buffer 128 9
  sog ← pickone r_buffer 50 10
  some (record {
    type = 1;
    mmsi = mmsi;
    latitude = over (sign_extend 26 0xf8000000 latitude) 600000;
    longitude = over (sign_extend 27 0xF0000000 longitude) 600000;
    speed = over (pos sog) 10;
    course = over (pos course) 10;
    heading = over (pos heading) 1;
  })

-- The latitude is an `unsigned int`, and its sign is not extended.
unfoldable pub type4 : List ℕ → ShipData → Option ShipData
type4 r_buffer d = do
  mmsi ← pickone r_buffer 8 30
  longitude ← pickone r_buffer 79 28
  latitude ← pickone r_buffer 107 27
  some (record d {
    type = 4;
    mmsi = mmsi;
    latitude = over (pos latitude) 600000;
    longitude = over (sign_extend 27 0xF0000000 longitude) 600000;
  })

-- The loop of `type5` that writes letters to `name` or `destination`, with `room` elements of the
-- array left, and the NUL behind them. The text is only printed.
unfoldable pub type5_text : (r_buffer : List ℕ) (room left start : ℕ) → Option (List ℕ)
unfolding pickone
type5_text r_buffer zero left start = none
type5_text r_buffer (suc room) zero start = some (0 ∷ [])
type5_text r_buffer (suc room) (suc left) start = do
  letter ← pickone r_buffer start 6
  rest ← type5_text r_buffer room left (start + 6)
  let c = letter + 64
  some ((if c == 64 || c == 96 then b' ' else c) ∷ rest)

-- The name, the destination and the size are only printed.
unfoldable pub type5 : List ℕ → ShipData → Option ShipData
unfolding type5_text
type5 r_buffer d = do
  mmsi ← pickone r_buffer 8 30
  name ← type5_text r_buffer 21 20 112
  destination ← type5_text r_buffer 21 20 302
  a ← pickone r_buffer 240 9
  b ← pickone r_buffer 249 9
  c ← pickone r_buffer 258 6
  e ← pickone r_buffer 264 6
  draught ← pickone r_buffer 294 8
  some (record d { type = 5; mmsi = mmsi })

-- The byte of `bokstav - 48` or `bokstav - 56`, for a signed char.
unfoldable pub letter_value : ℕ → ℕ
letter_value bokstav =
    if leb bokstav 87 || leb 128 bokstav then (bokstav + 208) % 256 else (bokstav + 200) % 256

-- `(bokstav >> (5 - (i % 6))) & 0x01` for the six values of `i` that read one character.
unfoldable pub six_bits : ℕ → List ℕ
six_bits letter =
    (letter / 32 % 2)
    ∷ (letter / 16 % 2)
    ∷ (letter / 8 % 2)
    ∷ (letter / 4 % 2)
    ∷ (letter / 2 % 2)
    ∷ (letter % 2)
    ∷ []

-- Writes of one array element after the other; `none` is a write behind the array.
unfoldable pub store_from : List ℕ → (i : ℕ) → List ℕ → Option (List ℕ)
store_from array i [] = some array
store_from array i (v ∷ vs) = do array' ← store array i v; store_from array' (i + 1) vs

-- The loop of `aisdecode` over the characters of the string, six values of `i` for each.
unfoldable pub unpack : (r_buffer : List ℕ) (i : ℕ) → List ℕ → Option (List ℕ)
unpack r_buffer i [] = some r_buffer
unpack r_buffer i (c ∷ cs) =
    let rest : Option (List ℕ) = (do
      r_buffer' ← store_from r_buffer i (six_bits (letter_value c))
      unpack r_buffer' (i + 6) cs) in
    if c == b',' then some r_buffer else rest

-- The `switch`.
unfoldable pub by_type : ℕ → List ℕ → ShipData → Option ShipData
unfolding type1 type4 type5
by_type type r_buffer d =
    if type == 1
    then type1 r_buffer d
    else if type == 2
    then type1 r_buffer d
    else if type == 3
    then type1 r_buffer d
    else if type == 4
    then type4 r_buffer d
    else if type == 5
    then type5 r_buffer d
    else some d

-- `aisdecode` with its static `r_buffer`, which it returns as well.
unfoldable pub aisdecode : (nmea r_buffer : List ℕ) → ShipData → Option (List ℕ × ShipData)
unfolding unpack pickone by_type
aisdecode nmea r_buffer d = do
  r_buffer' ← unpack r_buffer 0 (c_string nmea)
  type ← pickone r_buffer' 0 6
  d' ← by_type (type % 256) r_buffer' d
  some (r_buffer', d')

unfoldable pub to_ship : ShipData → Ship
to_ship d = record {
  mmsi = d.mmsi;
  longitude = d.longitude;
  latitude = d.latitude;
  heading = d.heading;
  course = d.course;
  type = d.type;
}

-- The loop of `updateship`: the ship with the MMSI in its place, or `none` if there is none.
unfoldable pub replace_ship : Ship → List Ship → Option (List Ship)
replace_ship s [] = none
replace_ship s (t ∷ ts) =
    let rest = replace_ship s ts in
    if t.mmsi == s.mmsi then some (s ∷ ts) else elim rest [ none ↦ none | some us ↦ some (t ∷ us) ]

-- `ships[0]` to `ships[numberofships - 1]` after `updateship`.
unfoldable pub updateship : Ship → List Ship → List Ship
unfolding replace_ship
updateship s ships = elim (replace_ship s ships) [
  | some ships' ↦ ships'
  | none ↦ if ltb (length ships) max_ships then ships ++ s ∷ [] else ships
]
