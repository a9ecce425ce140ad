-- ===== src/Protodec/Getdata/Bounds.antt =====
-- `protodec_getdata` on a frame that the decoder can hand over: no access outside of an array, and
-- what it changes in the decoder's state.
use gnuais.Common.{
  ℕ, zero, suc, ◌+◌, ◌*◌, ◌/◌, ◌≤◌, ◌<◌, ◌≡◌, refl, ◌∙◌, ◌||◌, Option, some, List, [], false, inl,
  inr, Bool-cases, arith, ltb, ◌>>=◌, length, set, store-eq-set, length-set, All, All-set,
  get_elem?-eq-get_or, Returns, returns, bind-Returns, if-Returns, eq-Returns,
}
use native.Mathlib.Decide.{dec_lt}
use gnuais.Protodec.Henten.{IsBit, field, henten-field}
use gnuais.Protodec.Types.{Call, Env, Demod}
use gnuais.Protodec.Nmea.{generate_nmea}
use gnuais.Protodec.Nmea.Sentences.{generate_nmea-single, generate_nmea-double}
use gnuais.Protodec.Messages.Bounds.{
  protodec_pos-Returns, protodec_4-Returns, protodec_5-Returns, protodec_6-Returns,
  protodec_7_13-Returns, protodec_8-Returns, protodec_18-Returns, protodec_19-Returns,
  protodec_24-Returns, protodec_20-Returns,
}
use gnuais.Protodec.Getdata.{
  clear_bits, fillbits_of, dispatch, next_seqnr, handle_frame, getdata, max_ais_packet_type,
}

dispatch-Returns :
    (env : Env) (type mmsi bufferlen : ℕ) (frame : List ℕ)
    → All IsBit frame
    → length frame ≡ 450
    → Returns (dispatch env type mmsi bufferlen frame)
unfolding dispatch
dispatch-Returns env type mmsi bufferlen frame bits full =
    if-Returns _ (protodec_pos-Returns frame bits full env mmsi) (
      if-Returns _ (protodec_4-Returns frame bits full env mmsi) (
        if-Returns _ (protodec_5-Returns frame bits full env mmsi) (
          if-Returns _ (protodec_6-Returns frame bits full env mmsi) (
            if-Returns _ (protodec_7_13-Returns frame bits full bufferlen) (
              if-Returns _ (protodec_8-Returns frame bits full env mmsi) (
                if-Returns _ (protodec_18-Returns frame bits full env mmsi) (
                  if-Returns _ (protodec_19-Returns frame bits full env mmsi) (
                    if-Returns _ (protodec_24-Returns frame bits full env mmsi) (
                      if-Returns _ (protodec_20-Returns frame bits full bufferlen)
                        (returns _))))))))))

-- The frame with `left` bits from `k` on cleared.
cleared : (left k : ℕ) → List ℕ → List ℕ
cleared zero k frame = frame
cleared (suc left) k frame = cleared left (k + 1) (set frame k 0)

clear_bits-cleared :
    (left k : ℕ) (frame : List ℕ)
    → k + left ≤ length frame
    → clear_bits left k frame ≡ some (cleared left k frame)
unfolding clear_bits cleared
clear_bits-cleared zero k frame h = refl
clear_bits-cleared (suc left) k frame h = rw (
  store-eq-set frame k 0 (omega arith),
  clear_bits-cleared left (k + 1) (set frame k 0) (omega (arith, length-set frame k 0)),
)

length-cleared : (left k : ℕ) (frame : List ℕ) → length (cleared left k frame) ≡ length frame
unfolding cleared
length-cleared zero k frame = refl
length-cleared (suc left) k frame =
    length-cleared left (k + 1) (set frame k 0) ∙ length-set frame k 0

All-cleared : (left k : ℕ) (frame : List ℕ) → All IsBit frame → All IsBit (cleared left k frame)
unfolding cleared
All-cleared zero k frame p = p
All-cleared (suc left) k frame p =
    All-cleared left (k + 1) (set frame k 0) (All-set IsBit frame k 0 (omega arith) p)

generate_nmea-Returns :
    (m fillbits seqnr : ℕ) (frame : List ℕ)
    → All IsBit frame
    → fillbits < 6
    → 6 * m ≤ length frame
    → 0 < m
    → m ≤ 75
    → Returns (generate_nmea (6 * m) fillbits seqnr frame)
generate_nmea-Returns m fillbits seqnr frame bits small fits p q = elim (dec_lt 61 m) [
  | no one ↦
      eq-Returns _ (generate_nmea-single frame bits fillbits seqnr m small fits p (omega arith))
  | yes two ↦ eq-Returns _ (generate_nmea-double frame bits fillbits seqnr m small fits two q)
]

-- A bit count padded to whole groups of six.
padded-groups : (n : ℕ) → n + fillbits_of n ≡ 6 * ((n + 5) / 6)
unfolding fillbits_of
padded-groups n = ground arith

fillbits_of-lt : (n : ℕ) → fillbits_of n < 6
unfolding fillbits_of
fillbits_of-lt n = ground arith

-- What a call of `protodec_getdata` leaves: only the frame, the sentence and its number change.
pub record Handled (d : Demod) (out : Demod × List Call) : Type 0 where
  pub rbuffer : List ℕ
  pub nmea : List ℕ
  pub seqnr : ℕ
  pub state_is : out.0 ≡ record d { rbuffer = rbuffer; nmea = nmea; seqnr = seqnr }
  pub full : length rbuffer ≡ 450
  pub rolls : seqnr ≤ 9

pub data HandlesOk (d : Demod) : Option (Demod × List Call) → Type 0 where
  handles : (out : Demod × List Call) → Handled d out → HandlesOk d (some out)

bind-HandlesOk {ℓ} :
    {A : Type ℓ} {d : Demod} {m : Option A} {f : A → Option (Demod × List Call)}
    → Returns m
    → ((a : A) → HandlesOk d (f a))
    → HandlesOk d (m >>= f)
bind-HandlesOk (returns a) next = next a

module _ (env : Env) (types : length env.skip_type ≡ 25) (d : Demod) (bits : All IsBit d.rbuffer)
    (full : length d.rbuffer ≡ 450) (seq : d.seqnr ≤ 9) where
  next_seqnr-le : next_seqnr d.seqnr ≤ 9
  unfolding next_seqnr
  next_seqnr-le = ground arith

  handle_frame-HandlesOk :
      (type bufferlen : ℕ)
      → type ≤ 24
      → 0 < bufferlen
      → bufferlen ≤ 426
      → HandlesOk d (handle_frame env type bufferlen d)
  unfolding handle_frame
  handle_frame-HandlesOk type bufferlen t p q =
      let fills : ℕ = fillbits_of bufferlen in
      let frame : List ℕ = cleared fills bufferlen d.rbuffer in
      let small = fillbits_of-lt bufferlen in
      let clean = All-cleared fills bufferlen d.rbuffer bits in
      let size : length frame ≡ 450 = length-cleared fills bufferlen d.rbuffer ∙ full in
      let groups = padded-groups bufferlen in
      rw
        (
          henten-field 8 30 d.rbuffer bits (omega arith) (omega arith),
          clear_bits-cleared fills bufferlen d.rbuffer (omega arith),
          groups,
        )
        (bind-HandlesOk
          (generate_nmea-Returns ((bufferlen + 5) / 6) fills d.seqnr frame clean small (omega arith)
            (omega arith) (omega arith))
          λ sentences.
            bind-HandlesOk
              (eq-Returns _ (get_elem?-eq-get_or env.skip_type type false (omega arith)))
              λ skip.
                bind-HandlesOk
                  (if-Returns skip (returns _) (
                    bind-Returns (dispatch-Returns env type _ _ frame clean size)
                      λ decoded. returns _))
                  λ calls. handles _ (record {
                    rbuffer = frame;
                    nmea = _;
                    seqnr = next_seqnr d.seqnr;
                    state_is = refl;
                    full = size;
                    rolls = next_seqnr-le;
                  }))

  pub getdata-HandlesOk :
      (bufferlen : ℕ) → 0 < bufferlen → bufferlen ≤ 426 → HandlesOk d (getdata env bufferlen d)
  unfolding getdata
  getdata-HandlesOk bufferlen p q =
      let type : ℕ = field 0 6 d.rbuffer in
      let unchanged : Handled d (d, []) = record {
        rbuffer = d.rbuffer;
        nmea = d.nmea;
        seqnr = d.seqnr;
        state_is = refl;
        full = full;
        rolls = seq;
      } in
      rw (henten-field 0 6 d.rbuffer bits (omega arith) (omega arith))
        (elim (Bool-cases (ltb type 1 || ltb max_ais_packet_type type)) [
          | inl out ↦ rw out (handles (d, []) unchanged)
          | inr valid ↦ rw valid (handle_frame-HandlesOk type bufferlen (ground arith) p q)
        ])
