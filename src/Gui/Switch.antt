-- ===== src/Gui/Switch.antt =====
-- The `switch` of `aisdecode` in src/gui/gui.c stays within its array.
use gnuais.Common.{
  ℕ, zero, suc, ◌*◌, ◌<◌, ◌+◌, ◌≤◌, ◌≡◌, Option, List, arith, ◌==◌, ◌>>=◌, length, All, Returns,
  returns, eq-Returns, bind-Returns, if-Returns,
}
use gnuais.Protodec.Henten.{IsBit}
use gnuais.Gui.{ShipData, pickone, type5_text, type1, type4, type5, by_type}
use gnuais.Gui.Payload.{pickone-bits}

module _ (b : List ℕ) (bits : All IsBit b) (size : length b ≡ 600) (d : ShipData) where
  read {κ} :
      {B : Type κ} {f : ℕ → Option B} (from len : ℕ)
      → (from + len ≤ 600) × (len ≤ 31)
      → ((a : ℕ) → Returns (f a))
      → Returns (pickone b from len >>= f)
  read from len h next =
      bind-Returns (eq-Returns _ (pickone-bits b from len bits (omega arith) h.1)) next

  type1-Returns : Returns (type1 b d)
  unfolding type1
  type1-Returns = read 8 30 (omega arith) λ _. read 61 28 (omega arith) λ _.
      read 89 27 (omega arith) λ _.
        read 116 12 (omega arith)
          λ _. read 128 9 (omega arith) λ _. read 50 10 (omega arith) λ _. returns _

  type4-Returns : Returns (type4 b d)
  unfolding type4
  type4-Returns =
      read 8 30 (omega arith)
        λ _. read 79 28 (omega arith) λ _. read 107 27 (omega arith) λ _. returns _

  type5_text-Returns :
      (room left start : ℕ)
      → left < room
      → start + 6 * left ≤ 600
      → Returns (type5_text b room left start)
  unfolding type5_text
  type5_text-Returns zero left start p h = absurd (omega arith)
  type5_text-Returns (suc room) zero start p h = returns _
  type5_text-Returns (suc room) (suc left) start p h = read start 6 (omega arith) λ _.
      bind-Returns (type5_text-Returns room left (start + 6) (omega arith) (omega arith))
        λ rest. returns _

  type5-Returns : Returns (type5 b d)
  unfolding type5
  type5-Returns = read 8 30 (omega arith) λ _.
      bind-Returns (type5_text-Returns 21 20 112 (omega arith) (omega arith)) λ _.
        bind-Returns (type5_text-Returns 21 20 302 (omega arith) (omega arith)) λ _.
          read 240 9 (omega arith) λ _. read 249 9 (omega arith) λ _.
            read 258 6 (omega arith)
              λ _. read 264 6 (omega arith) λ _. read 294 8 (omega arith) λ _. returns _

  -- The `switch` reads nothing outside of an array of 600 bits.
  pub by_type-Returns : (type : ℕ) → Returns (by_type type b d)
  unfolding by_type
  by_type-Returns type = if-Returns (type == 1) type1-Returns (
      if-Returns (type == 2) type1-Returns (
        if-Returns (type == 3) type1-Returns (
          if-Returns (type == 4) type4-Returns (if-Returns (type == 5) type5-Returns (returns d)))))
