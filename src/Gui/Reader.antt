-- ===== src/Gui/Reader.antt =====
-- `threaden` of src/gui/gui.c: one turn of its loop for the bytes that one `read` returns.
use gnuais.Common.{
  ℕ, zero, suc, ◌+◌, ◌-◌, Bool, true, false, not, ◌&&◌, ◌||◌, Option, none, some, List, [], ◌∷◌,
  ◌++◌, ℤ, pos, negsuc, ◌+ℤ◌, ltb, leb, ◌==◌, if◌then◌else◌, ◌>>=◌, get_elem?, store, length, drop,
}
use gnuais.Protodec.Types.{to_char}
use gnuais.Gui.{ShipData, Ship, store_from, aisdecode, to_ship, updateship}

-- The variables of `threaden`, the static array of `aisdecode`, and the table of ships.
pub record Reader : Type 0 where
  pub nmeabuffer : List ℕ
  pub aisline : List ℕ
  pub lettersread : ℕ
  pub previoussentence : ℤ
  pub r_buffer : List ℕ
  pub shipd : ShipData
  pub ships : List Ship

-- The order and the equality of ints.
abbrev pub leb_ℤ : ℤ → ℤ → Bool
leb_ℤ (pos a) (pos b) = leb a b
leb_ℤ (pos a) (negsuc b) = false
leb_ℤ (negsuc a) (pos b) = true
leb_ℤ (negsuc a) (negsuc b) = leb b a

abbrev pub eqb_ℤ : ℤ → ℤ → Bool
eqb_ℤ a b = leb_ℤ a b && leb_ℤ b a

-- The loop that looks for '!' among the `r` bytes: the value of `m` behind it.
unfoldable pub find_start : (r m : ℕ) → List ℕ → ℕ
find_start r m [] = m
find_start r m (c ∷ cs) =
    let rest = find_start r (m + 1) cs in
    if c == b'!' then m + 1 else if ltb (r - 1) (m + 1) then m + 1 else rest

-- The loop over at most twenty bytes that stops at the fifth comma: the value of `k` behind it.
unfoldable pub fifth_comma : (left k kommas : ℕ) → List ℕ → Option ℕ
fifth_comma zero k kommas bytes = some k
fifth_comma (suc left) k kommas [] = none
fifth_comma (suc left) k kommas (c ∷ bytes) =
    let kommas' = if c == b',' then kommas + 1 else kommas in
    let rest = fifth_comma left (k + 1) kommas' bytes in if kommas' == 5 then some k else rest

-- The bytes that the loop over `j` copies: up to a comma, and at most `left`.
unfoldable pub payload_of : (left : ℕ) → List ℕ → Option (List ℕ)
payload_of zero bytes = some []
payload_of (suc left) [] = none
payload_of (suc left) (c ∷ bytes) =
    let rest = payload_of left bytes in
    if c == b',' then some [] else elim rest [ none ↦ none | some cs ↦ some (c ∷ cs) ]

-- The types of message that reach the map.
unfoldable pub on_map : ℕ → Bool
on_map type = type == 1 || type == 2 || type == 3 || type == 4

-- From `previoussentence = sentencenumb` to the call of `updateship`.
unfoldable pub show_ship : ℤ → Reader → Reader
unfolding on_map
show_ship sentencenumb g =
    let ships' = updateship (to_ship g.shipd) g.ships in
    record g {
      previoussentence = sentencenumb;
      ships = if on_map g.shipd.type then ships' else g.ships;
    }

-- The decoding of the collected payload behind the last sentence.
unfoldable pub decode_line : Reader → Option Reader
decode_line g = do
  aisline ← store g.aisline g.lettersread 0
  (r_buffer, shipd) ← aisdecode aisline g.r_buffer g.shipd
  some (record g { aisline = aisline; r_buffer = r_buffer; shipd = shipd })

-- The part of the loop behind the check of "!A" and "M", with `bytes` = nmeabuffer + m.
unfoldable pub on_sentence : (r m : ℕ) → List ℕ → Reader → Option Reader
on_sentence r m bytes g = do
  k ← fifth_comma 20 0 0 bytes
  let start = k + 1
  sentences_char ← get_elem? bytes 7
  sentencenumb_char ← get_elem? bytes 9
  let sentences = to_char sentences_char +ℤ negsuc 47
  let sentencenumb = to_char sentencenumb_char +ℤ negsuc 47
  let lettersread = if eqb_ℤ sentencenumb (pos 1) then 0 else g.lettersread
  let go_on : Option Reader = (do
    cs ← payload_of (r - start - m) (drop start bytes)
    aisline ← store_from g.aisline lettersread cs
    let g' : Reader = record g { aisline = aisline; lettersread = lettersread + length cs }
    g'' ← (if leb_ℤ sentences sentencenumb then decode_line g' else some g')
    some (show_ship sentencenumb g''))
  if not (leb_ℤ sentencenumb (pos 1)) && not (eqb_ℤ g.previoussentence (sentencenumb +ℤ negsuc 0))
      then some g
      else go_on

-- The check of `nmeabuffer[m]`, `nmeabuffer[m + 1]` and `nmeabuffer[m + 5]`, each read only if the
-- one before is right, with `bytes` = nmeabuffer + m.
unfoldable pub is_ais : List ℕ → Option Bool
is_ais bytes = do
  first ← get_elem? bytes 0
  let third : Option Bool = (do sixth ← get_elem? bytes 5; some (sixth == b'M'))
  let second : Option Bool = (do
    next ← get_elem? bytes 1
    if next == b'A' then third else some false)
  if first == b'!' then second else some false

-- One turn of the loop: `read` has put the bytes, at least one, to the front of `nmeabuffer`.
-- `none` is an access outside of an array.
unfoldable pub on_read : List ℕ → Reader → Option Reader
on_read bytes g =
    let r = length bytes in
    do
      nmeabuffer ← store (bytes ++ drop r g.nmeabuffer) r 0
      let g' : Reader = record g { nmeabuffer = nmeabuffer }
      let m = find_start r 0 nmeabuffer
      let from = drop (m - 1) nmeabuffer
      let on_start : Option Reader = (do
        checked ← is_ais from
        (if checked then on_sentence r (m - 1) from g' else some g'))
      if ltb (r - 1) m then some g' else on_start

-- The turns of the loop, one `read` after the other.
unfoldable pub on_reads : List (List ℕ) → Reader → Option Reader
on_reads [] g = some g
on_reads (bytes ∷ more) g = do g' ← on_read bytes g; on_reads more g'
