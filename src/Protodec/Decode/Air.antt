-- ===== src/Protodec/Decode/Air.antt =====
-- The bytes of a message as bits on the air and in the buffers.
use gnuais.Common.{
  ℕ, suc, ◌+◌, ◌*◌, ◌<◌, ◌≡◌, refl, ap, List, [], ◌∷◌, ◌++◌, append_assoc, arith, length, set,
  replicate, reverse, All, length-append, All-append,
}
use native.Mathlib.Nat.{zero-add, suc-add}
use gnuais.Protodec.Henten.{IsBit}
use gnuais.Protodec.Crc.{sdlc_crc}
use gnuais.Protodec.Crc.Residue.{IsByte, bits_lsb, with_fcs}
use gnuais.Protodec.Crc.Frame.{octets, turned}
use gnuais.Protodec.Decode.Stuffing.{write}

-- The bits of bytes in the order of the air, least significant first.
unfoldable pub air : List ℕ → List ℕ
air [] = []
air (b ∷ bytes) = bits_lsb 8 b ++ air bytes

-- The bits of bytes in the order of a message, most significant first.
unfoldable pub message_bits : List ℕ → List ℕ
message_bits [] = []
message_bits (b ∷ bytes) = reverse (bits_lsb 8 b) ++ message_bits bytes

pub set-after : (xs ys : List ℕ) (y v : ℕ) → set (xs ++ y ∷ ys) (length xs) v ≡ xs ++ v ∷ ys
set-after [] ys y v = refl
set-after (x ∷ xs) ys y v = rw (set-after xs ys y v)

pub write-blank :
    (bits before : List ℕ) (spare : ℕ)
    → write (before ++ replicate (length bits + spare) 0) (length before) bits
      ≡ before ++ (bits ++ replicate spare 0)
unfolding write
write-blank [] before spare = rw (zero-add spare)
write-blank (b ∷ bits) before spare =
    let more : List ℕ = replicate (length bits + spare) 0 in
    let next : length (before ++ b ∷ []) ≡ length before + 1 =
      omega (arith, length-append before (b ∷ [])) in
    rw
      (
        suc-add (length bits) spare,
        set-after before more 0 b,
        ← next,
        ← append_assoc before (b ∷ []) more,
      )
      (rw (append_assoc before (b ∷ []) (bits ++ replicate spare 0)) at
        (write-blank bits (before ++ b ∷ []) spare))

module _ (b : ℕ) (rest : List ℕ) where
  pub octets-bits_lsb :
      (n : ℕ) → b < 256 → octets (suc n) (bits_lsb 8 b ++ rest) ≡ b ∷ octets n rest
  unfolding octets bits_lsb
  octets-bits_lsb n h = ap (λ x. x ∷ octets n rest) (omega arith)

  pub turned-bits_lsb :
      (n : ℕ) → turned (suc n) (bits_lsb 8 b ++ rest) ≡ reverse (bits_lsb 8 b) ++ turned n rest
  unfolding turned bits_lsb
  turned-bits_lsb n = refl

  pub bits_lsb-IsBit : All IsBit rest → All IsBit (bits_lsb 8 b ++ rest)
  unfolding bits_lsb
  bits_lsb-IsBit p = All-append IsBit (bits_lsb 8 b) rest (omega arith) p

  pub length-bits_lsb : length (bits_lsb 8 b ++ rest) ≡ 8 + length rest
  unfolding bits_lsb
  length-bits_lsb = omega arith

pub length-air : (bytes : List ℕ) → length (air bytes) ≡ 8 * length bytes
unfolding air
length-air [] = refl
length-air (b ∷ bytes) = omega (arith, length-bits_lsb b (air bytes), length-air bytes)

pub air-IsBit : (bytes : List ℕ) → All IsBit (air bytes)
unfolding air
air-IsBit [] = tt
air-IsBit (b ∷ bytes) = bits_lsb-IsBit b (air bytes) (air-IsBit bytes)

pub octets-air :
    (bytes rest : List ℕ) → All IsByte bytes → octets (length bytes) (air bytes ++ rest) ≡ bytes
unfolding air
octets-air [] rest p = unfold octets in refl
octets-air (b ∷ bytes) rest p = rw (
  append_assoc (bits_lsb 8 b) (air bytes) rest,
  octets-bits_lsb b (air bytes ++ rest) (length bytes) p.0,
  octets-air bytes rest p.1,
)

pub turned-air :
    (bytes more rest : List ℕ)
    → turned (length bytes) (air (bytes ++ more) ++ rest) ≡ message_bits bytes
unfolding air message_bits
turned-air [] more rest = unfold turned in refl
turned-air (b ∷ bytes) more rest = rw (
  append_assoc (bits_lsb 8 b) (air (bytes ++ more)) rest,
  turned-bits_lsb b (air (bytes ++ more) ++ rest) (length bytes),
  turned-air bytes more rest,
)

pub write-append :
    (buffer : List ℕ) (p : ℕ) (xs ys : List ℕ)
    → write buffer p (xs ++ ys) ≡ write (write buffer p xs) (p + length xs) ys
unfolding write
write-append buffer p [] ys = ap (λ q. write buffer q ys) (omega arith)
write-append buffer p (x ∷ xs) ys =
    let next : p + 1 + length xs ≡ p + length (x ∷ xs) = omega arith in
    rw (write-append (set buffer p x) (p + 1) xs ys, next)

pub with_fcs-IsByte : (bytes : List ℕ) → All IsByte bytes → All IsByte (with_fcs bytes)
unfolding with_fcs sdlc_crc
with_fcs-IsByte bytes p = All-append IsByte bytes _ p (omega arith)

pub length-with_fcs : (bytes : List ℕ) → length (with_fcs bytes) ≡ length bytes + 2
unfolding with_fcs
length-with_fcs bytes = length-append bytes _
