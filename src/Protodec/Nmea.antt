-- ===== src/Protodec/Nmea.antt =====
-- `protodec_generate_nmea` of src/protodec.c: the frame as NMEA 0183 sentences.
pub mod Receive
pub mod Sentences
use gnuais.Common.{
  ℕ, zero, suc, ◌+◌, ◌*◌, ◌/◌, ◌%◌, ◌^◌, bit_xor, Bool, ◌&&◌, length, Option, none, some, List, [],
  ◌∷◌, ◌++◌, ltb, leb, ◌==◌, if◌then◌else◌, ◌>>=◌,
}
use gnuais.Protodec.Henten.{henten}
use gnuais.Protodec.Types.{Call, my_nmea, serial_write, ipc_write, Env}

-- `senlen`, the characters of data that one sentence holds.
abbrev pub senlen : ℕ
senlen = 61

-- 6bit-to-ascii conversion by IEC
unfoldable pub armor : ℕ → ℕ
armor letter = if ltb letter 40 then letter + 48 else letter + 56

-- The inner loop, with `left` = senlen + 13 - k rounds to go, and `pos` after it.
unfoldable pub fill : (bufferlen : ℕ) → List ℕ → (left pos : ℕ) → Option (List ℕ × ℕ)
unfolding armor
fill bufferlen rbuffer zero pos = some ([], pos)
fill bufferlen rbuffer (suc left) pos =
    let more : Option (List ℕ × ℕ) = (do
      letter ← henten pos 6 rbuffer
      (rest, end) ← fill bufferlen rbuffer left (pos + 6)
      some (armor letter ∷ rest, end)) in
    if ltb pos bufferlen then more else some ([], pos)

-- The number of sentences, an unsigned char.
unfoldable pub sentences_of : ℕ → ℕ
sentences_of bufferlen =
    if leb bufferlen (senlen * 6)
    then 1
    else (bufferlen / (senlen * 6) + (if bufferlen % (senlen * 6) == 0 then 0 else 1)) % 2 ^ 8

-- `nmea[0]` to `nmea[12]`: "AIVDM,n,i,s,," of a multipart message, "AIVDM,n,i,,A," of a single one.
unfoldable pub header : (sentences sentencenum seqnr : ℕ) → List ℕ
header sentences sentencenum seqnr =
    b'A'
    ∷ b'I'
    ∷ b'V'
    ∷ b'D'
    ∷ b'M'
    ∷ b','
    ∷ (48 + sentences)
    ∷ b','
    ∷ (48 + sentencenum)
    ∷ b','
    ∷ (if ltb 1 sentences then (seqnr + 48) ∷ b',' ∷ b',' ∷ [] else b',' ∷ b'A' ∷ b',' ∷ [])

-- `nmea[k + 1]`
unfoldable pub fill_digit : (sentences sentencenum fillbits : ℕ) → ℕ
fill_digit sentences sentencenum fillbits =
    if ltb 1 sentences then (if sentencenum == sentences then 48 + fillbits else 48) else 48

-- The checksum loop, `while (d->nmea[m] != 42)`. `none` is a read behind the text.
unfoldable pub checksum : ℕ → List ℕ → Option ℕ
checksum nmeachk [] = none
checksum nmeachk (c ∷ cs) =
    let rest = checksum (bit_xor nmeachk c) cs in if c == b'*' then some nmeachk else rest

-- A digit of `%X`.
unfoldable pub hex_digit : ℕ → ℕ
hex_digit d = if ltb d 10 then 48 + d else 55 + d

-- `nmea[k + 3]` and `nmea[k + 4]`: a checksum of one digit leaves the first "0" as it is.
unfoldable pub checksum_digits : ℕ → List ℕ
unfolding hex_digit
checksum_digits nmeachk =
    if ltb nmeachk 16
    then 48 ∷ hex_digit nmeachk ∷ []
    else hex_digit (nmeachk / 16) ∷ hex_digit (nmeachk % 16) ∷ []

-- The text of one sentence in `d->nmea`: its fields, '*' and the checksum.
unfoldable pub finish : List ℕ → Option (List ℕ)
unfolding checksum checksum_digits
finish [] = none
finish (c ∷ body) = do
  nmeachk ← checksum c (body ++ b'*' ∷ 48 ∷ 48 ∷ [])
  some ((c ∷ body) ++ b'*' ∷ checksum_digits nmeachk)

-- SERBUFFER_LEN, the size of `d->nmea` and of `d->serbuffer`
abbrev pub serbuffer_len : ℕ
serbuffer_len = 100

-- The last write to `d->nmea` is at `k + 5`; "!", "\r\n" and a NUL around its text are in `d->serbuffer`
-- whole, as `serbuffer_l` bytes of it are sent. (IPCBUFFER_LEN is larger.)
unfoldable pub fits : (k : ℕ) → Bool
fits k = ltb (k + 5) serbuffer_len && ltb (k + 5 + 3) serbuffer_len

-- The do-while loop. `none` stands for a fault; the fuel is the number of sentences.
unfoldable pub sentence_loop :
    (bufferlen fillbits seqnr sentences : ℕ)
    → List ℕ
    → (fuel sentencenum pos : ℕ) → Option (List (List ℕ))
unfolding fill header fill_digit finish fits
sentence_loop bufferlen fillbits seqnr sentences rbuffer zero sentencenum pos = none
sentence_loop bufferlen fillbits seqnr sentences rbuffer (suc fuel) sentencenum pos =
    let num = (sentencenum + 1) % 2 ^ 8 in
    do
      (data_part, end) ← fill bufferlen rbuffer senlen pos
      nmea ←
          (if fits (13 + length data_part)
            then finish (
                header sentences num seqnr
                ++ (data_part ++ b',' ∷ fill_digit sentences num fillbits ∷ []))
            else none)
      let later = sentence_loop bufferlen fillbits seqnr sentences rbuffer fuel num end
      rest ← (if ltb num sentences then later else some [])
      some (nmea ∷ rest)

-- What is done with one sentence.
unfoldable pub emit : Env → List ℕ → List Call
emit env nmea =
    (if env.has_serial then serial_write (b'!' ∷ nmea ++ 13 ∷ 10 ∷ []) ∷ [] else [])
    ++ ((if env.has_ipc then ipc_write (b'!' ∷ nmea) ∷ [] else [])
        ++ (if env.has_my then my_nmea nmea ∷ [] else []))

unfoldable pub emit_all : Env → List (List ℕ) → List Call
unfolding emit
emit_all env [] = []
emit_all env (s ∷ ss) = emit env s ++ emit_all env ss

-- The text that the last sentence leaves in `d->nmea`.
unfoldable pub last_sentence : List ℕ → List (List ℕ) → List ℕ
last_sentence old [] = old
last_sentence old (s ∷ ss) = last_sentence s ss

unfoldable pub generate_nmea : (bufferlen fillbits seqnr : ℕ) → List ℕ → Option (List (List ℕ))
unfolding sentence_loop sentences_of
generate_nmea bufferlen fillbits seqnr rbuffer =
    let sentences = sentences_of bufferlen in
    sentence_loop bufferlen fillbits seqnr sentences rbuffer sentences 0 0
