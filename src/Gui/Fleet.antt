-- ===== src/Gui/Fleet.antt =====
-- The table of ships of src/gui/gui.c, `ships` with `numberofships`, as a map from MMSI to ship.
use gnuais.Common.{
  ℕ, ◌≤◌, ◌≡◌, refl, ◌≢◌, inl, inr, Option, none, some, List, [], ◌∷◌, ◌++◌, arith, ltb, ◌==◌,
  if◌then◌else◌, length, Option-cases, length-append,
}
use gnuais.Gui.{Ship, max_ships, replace_ship, updateship}

-- The first ship with the MMSI, as the map draws it.
unfoldable pub ship_of : ℕ → List Ship → Option Ship
ship_of mmsi [] = none
ship_of mmsi (t ∷ ts) = let rest = ship_of mmsi ts in if t.mmsi == mmsi then some t else rest

-- No two ships have one MMSI.
unfoldable pub IsDistinct : List Ship → Type 0
unfolding ship_of
IsDistinct [] = Unit
IsDistinct (t ∷ ts) = (ship_of t.mmsi ts ≡ none) × IsDistinct ts

-- The array of the program holds the ships, each once.
unfoldable pub IsFleet : List Ship → Type 0
unfolding IsDistinct
IsFleet ships = IsDistinct ships × (length ships ≤ max_ships)

-- The ship that a table of ships shows for an MMSI behind `updateship`.
unfoldable pub updated : Ship → (before : List Ship) → (mmsi : ℕ) → Option Ship
unfolding ship_of
updated s before mmsi =
    if mmsi == s.mmsi
    then elim (ship_of s.mmsi before) [
      | some _ ↦ some s
      | none ↦ if ltb (length before) max_ships then some s else none
    ]
    else ship_of mmsi before

ship_of-append :
    (k : ℕ) (s : Ship) (ts : List Ship)
    → ship_of k (ts ++ s ∷ [])
      ≡ (elim (ship_of k ts) [ some t ↦ some t | none ↦ if s.mmsi == k then some s else none ])
unfolding ship_of
ship_of-append k s [] = refl
ship_of-append k s (t ∷ ts) = ground (arith, ship_of-append k s ts)

append-IsDistinct :
    (s : Ship) (ts : List Ship)
    → ship_of s.mmsi ts ≡ none
    → IsDistinct ts
    → IsDistinct (ts ++ s ∷ [])
unfolding IsDistinct ship_of
append-IsDistinct s [] h d = (refl, tt)
append-IsDistinct s (t ∷ ts) h d =
    ground (arith, ship_of-append t.mmsi s ts, append-IsDistinct s ts)

-- No ship with the MMSI is in a table in which none was replaced.
replace_ship-none :
    (s : Ship) (ts : List Ship) → replace_ship s ts ≡ none → ship_of s.mmsi ts ≡ none
unfolding replace_ship ship_of
replace_ship-none s [] e = refl
replace_ship-none s (t ∷ ts) e = ground (arith, replace_ship-none s ts)

replace_ship-some :
    (s : Ship) (ts us : List Ship)
    → replace_ship s ts ≡ some us
    → (ship_of s.mmsi ts ≢ none)
      × (length us ≡ length ts)
      × ((k : ℕ) → ship_of k us ≡ (if k == s.mmsi then some s else ship_of k ts))
unfolding replace_ship ship_of
replace_ship-some s [] us e = absurd cc
replace_ship-some s (t ∷ ts) us e = elim (Option-cases (replace_ship s ts)) [
  | inl none_behind ↦ ground arith
  | inr (vs, f) ↦ let ih = replace_ship-some s ts vs f in ground (arith, ih.0, ih.1, ih.2)
]

replace_ship-IsDistinct :
    (s : Ship) (ts us : List Ship) → replace_ship s ts ≡ some us → IsDistinct ts → IsDistinct us
unfolding replace_ship IsDistinct ship_of
replace_ship-IsDistinct s [] us e d = absurd cc
replace_ship-IsDistinct s (t ∷ ts) us e d = elim (Option-cases (replace_ship s ts)) [
  | inl none_behind ↦ ground arith
  | inr (vs, f) ↦
      let kept = (replace_ship-some s ts vs f).2 t.mmsi in
      ground (arith, kept, replace_ship-IsDistinct s ts vs f d.1)
]

-- On a table of at most 1000 ships with different MMSIs, `updateship` leaves such a table. It shows
-- the new ship for its MMSI if one with that MMSI was there or the table was not full, and for
-- every other MMSI, and in a full table for an unknown one, what was there before.
pub updateship-IsFleet :
    (s : Ship) (ts : List Ship)
    → IsFleet ts
    → IsFleet (updateship s ts) × ((mmsi : ℕ) → ship_of mmsi (updateship s ts) ≡ updated s ts mmsi)
unfolding IsFleet updateship updated
updateship-IsFleet s ts (d, few) = elim (Option-cases (replace_ship s ts)) [
  | inl new ↦
      let unknown = replace_ship-none s ts new in
      grind (
        arith,
        append-IsDistinct s ts unknown d,
        length-append ts (s ∷ []),
        (λ (k : ℕ). ship_of-append k s ts),
      )
  | inr (us, e) ↦
      let (known, size, shown) = replace_ship-some s ts us e in
      ground (arith, replace_ship-IsDistinct s ts us e d, known, size, shown)
]
