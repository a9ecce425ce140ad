-- ===== src/Protodec/Messages/Bounds.antt =====
-- No decoder reads outside of the 450 bytes of `rbuffer`.
use gnuais.Common.{
  ℕ, zero, suc, ◌+◌, ◌*◌, ◌≤◌, ◌<◌, ltb, true, ◌≡◌, Option, List, arith, ◌>>=◌, length, All,
  Returns, returns, bind-Returns, if-Returns, eq-Returns,
}
use gnuais.Protodec.Henten.{IsBit, henten, henten-field}
use gnuais.Protodec.Text.{letters, text}
use gnuais.Protodec.Types.{Env}
use gnuais.Protodec.Messages.Position.{protodec_pos, protodec_4, protodec_18}
use gnuais.Protodec.Messages.Static.{protodec_5, protodec_19, part_a, part_b, protodec_24}
use gnuais.Protodec.Messages.Slots.{acks, protodec_7_13, slots, protodec_20}
use gnuais.Protodec.Messages.Binary.{
  protodec_msg_11, protodec_msg_40, protodec_msg_bin, application, protodec_6, protodec_8,
}

module _ (frame : List ℕ) (bits : All IsBit frame) (full : length frame ≡ 450) where
  pub henten-Returns :
      (from size : ℕ) → (from + size ≤ 450) × (size ≤ 31) → Returns (henten from size frame)
  henten-Returns from size h = eq-Returns _ (henten-field from size frame bits (omega arith) h.1)

  letters-Returns :
      (room n at : ℕ) → n ≤ room → at + 6 * n ≤ 450 → Returns (letters room n at frame)
  unfolding letters
  letters-Returns room zero at p h = returns _
  letters-Returns zero (suc n) at p h = absurd (omega arith)
  letters-Returns (suc room) (suc n) at p h = bind-Returns (henten-Returns at 6 (omega arith)) λ c.
      bind-Returns (letters-Returns room n (at + 6) (omega arith) (omega arith)) λ rest. returns _

  pub text-Returns : (size n at : ℕ) → n < size → at + 6 * n ≤ 450 → Returns (text size n at frame)
  unfolding text
  text-Returns size n at p h =
      let inside : ltb n size ≡ true = ground arith in
      bind-Returns (letters-Returns size n at (omega arith) h) λ name. rw inside (returns _)

  read {κ} :
      {B : Type κ} {f : ℕ → Option B} (from size : ℕ)
      → (from + size ≤ 450) × (size ≤ 31)
      → ((a : ℕ) → Returns (f a))
      → Returns (henten from size frame >>= f)
  read from size h next = bind-Returns (henten-Returns from size h) next

  module _ (env : Env) (mmsi : ℕ) where
    pub protodec_pos-Returns : Returns (protodec_pos env mmsi frame)
    unfolding protodec_pos
    protodec_pos-Returns = read 61 28 (omega arith) λ _. read (38 + 22 + 29) 27 (omega arith) λ _.
        read (38 + 22 + 28 + 28) 12 (omega arith) λ _. read 50 10 (omega arith) λ _.
          read (38 + 2) 8 (omega arith) λ _.
            read 38 2 (omega arith)
              λ _. read (38 + 22 + 28 + 28 + 12) 9 (omega arith) λ _. returns _

    pub protodec_18-Returns : Returns (protodec_18 env mmsi frame)
    unfolding protodec_18
    protodec_18-Returns = read 57 28 (omega arith) λ _. read 85 27 (omega arith) λ _.
        read 112 12 (omega arith)
          λ _. read 46 10 (omega arith) λ _. read 124 9 (omega arith) λ _. returns _

    pub protodec_4-Returns : Returns (protodec_4 env mmsi frame)
    unfolding protodec_4
    protodec_4-Returns = read 40 12 (omega arith) λ _. read 52 4 (omega arith) λ _.
        read 56 5 (omega arith) λ _. read 61 5 (omega arith) λ _. read 66 6 (omega arith) λ _.
          read 72 6 (omega arith)
            λ _. read 79 28 (omega arith) λ _. read 107 27 (omega arith) λ _. returns _

    pub protodec_5-Returns : Returns (protodec_5 env mmsi frame)
    unfolding protodec_5
    protodec_5-Returns = read 40 30 (omega arith) λ _.
        bind-Returns (text-Returns 7 6 70 (omega arith) (omega arith)) λ _.
          bind-Returns (text-Returns 21 20 112 (omega arith) (omega arith)) λ _.
            bind-Returns (text-Returns 21 20 (120 + 106 + 68 + 8) (omega arith) (omega arith)) λ _.
              read 232 8 (omega arith) λ _. read 240 9 (omega arith) λ _.
                read (240 + 9) 9 (omega arith) λ _. read (240 + 9 + 9) 6 (omega arith) λ _.
                  read (240 + 9 + 9 + 6) 6 (omega arith)
                    λ _. read 294 8 (omega arith) λ _. returns _

    pub protodec_19-Returns : Returns (protodec_19 env mmsi frame)
    unfolding protodec_19
    protodec_19-Returns = bind-Returns (text-Returns 21 20 143 (omega arith) (omega arith)) λ _.
        read 263 8 (omega arith) λ _. read 271 9 (omega arith) λ _.
          read (271 + 9) 9 (omega arith) λ _.
            read (271 + 9 + 9) 6 (omega arith)
              λ _. read (271 + 9 + 9 + 6) 6 (omega arith) λ _. returns _

    pub part_a-Returns : Returns (part_a env mmsi frame)
    unfolding part_a
    part_a-Returns = bind-Returns (text-Returns 21 20 40 (omega arith) (omega arith)) λ _. returns _

    pub part_b-Returns : Returns (part_b env mmsi frame)
    unfolding part_b
    part_b-Returns = bind-Returns (text-Returns 7 6 90 (omega arith) (omega arith)) λ _.
        read 40 8 (omega arith) λ _. read 132 9 (omega arith) λ _.
          read (132 + 9) 9 (omega arith) λ _.
            read (132 + 9 + 9) 6 (omega arith)
              λ _. read (132 + 9 + 9 + 6) 6 (omega arith) λ _. returns _

    pub protodec_24-Returns : Returns (protodec_24 env mmsi frame)
    unfolding protodec_24
    protodec_24-Returns =
        read 38 2 (omega arith)
          λ _. if-Returns _ part_a-Returns (if-Returns _ part_b-Returns (returns _))

    protodec_msg_40-Returns :
        (start : ℕ) → start ≤ 88 → Returns (protodec_msg_40 env mmsi frame start)
    unfolding protodec_msg_40
    protodec_msg_40-Returns start h = read start 13 (omega arith) λ _. returns _

    protodec_msg_11-Returns : (start : ℕ) → start ≤ 88 → Returns (protodec_msg_11 frame start)
    unfolding protodec_msg_11
    protodec_msg_11-Returns start h = read start 24 (omega arith) λ _.
        read (start + 24) 25 (omega arith) λ _. read (start + 24 + 16) 7 (omega arith) λ _.
          read (start + 24 + 16 + 7) 7 (omega arith) λ _.
            read (start + 24 + 16 + 7 + 7) 9 (omega arith) λ _.
              read (start + 24 + 16 + 7 + 7 + 9) 9 (omega arith) λ _.
                read (start + 24 + 16 + 7 + 7 + 9 + 9) 11 (omega arith) λ _.
                  read (start + 24 + 16 + 7 + 7 + 9 + 9 + 11) 7 (omega arith) λ _.
                    read (start + 24 + 16 + 7 + 7 + 9 + 9 + 11 + 7) 10 (omega arith) λ _.
                      read (start + 24 + 16 + 7 + 7 + 9 + 9 + 11 + 7 + 10) 9 (omega arith) λ _.
                        read (start + 24 + 16 + 7 + 7 + 9 + 9 + 11 + 7 + 10 + 9) 2 (omega arith)
                          λ _.
                            read (start + 24 + 16 + 7 + 7 + 9 + 9 + 11 + 7 + 10 + 9 + 2) 8
                              (omega arith)
                              λ _.
                                read (start + 24 + 16 + 7 + 7 + 9 + 9 + 11 + 7 + 10 + 9 + 2 + 8) 9
                                  (omega arith)
                                  λ _.
                                    read
                                      (start + 24 + 16 + 7 + 7 + 9 + 9 + 11 + 7 + 10 + 9 + 2 + 8
                                        + 5)
                                      8 (omega arith)
                                      λ _.
                                        read
                                          (start + 24 + 16 + 7 + 7 + 9 + 9 + 11 + 7 + 10 + 9 + 2 + 8
                                            + 5 + 4)
                                          10 (omega arith) λ _. returns _

    application-Returns :
        (dac fi start : ℕ) → start ≤ 88 → Returns (application env mmsi frame dac fi start)
    unfolding application protodec_msg_bin
    application-Returns dac fi start h =
        if-Returns _
          (bind-Returns
            (if-Returns _ (protodec_msg_11-Returns start h)
              (if-Returns _ (protodec_msg_40-Returns start h) (returns _)))
            λ _. returns _)
          (returns _)

    pub protodec_6-Returns : Returns (protodec_6 env mmsi frame)
    unfolding protodec_6
    protodec_6-Returns = read 38 2 (omega arith) λ _. read 40 30 (omega arith) λ _.
        read 70 1 (omega arith) λ _. read 72 16 (omega arith) λ _. read 72 10 (omega arith) λ dac.
          read 82 6 (omega arith)
            λ fi. bind-Returns (application-Returns dac fi 88 (omega arith)) λ _. returns _

    pub protodec_8-Returns : Returns (protodec_8 env mmsi frame)
    unfolding protodec_8
    protodec_8-Returns = read 40 16 (omega arith) λ _. read 40 10 (omega arith) λ dac.
        read 50 6 (omega arith)
          λ fi. bind-Returns (application-Returns dac fi 56 (omega arith)) λ _. returns _

  module _ (bufferlen : ℕ) where
    acks-Returns : (left at : ℕ) → at + 32 * left ≤ 450 → Returns (acks left at bufferlen frame)
    unfolding acks
    acks-Returns zero at h = returns _
    acks-Returns (suc left) at h =
        if-Returns _
          (read at 30 (omega arith) λ _.
            read (at + 30) 2 (omega arith)
              λ _. bind-Returns (acks-Returns left (at + 32) (omega arith)) λ _. returns _)
          (returns _)

    pub protodec_7_13-Returns : Returns (protodec_7_13 bufferlen frame)
    unfolding protodec_7_13
    protodec_7_13-Returns = bind-Returns (acks-Returns 4 40 (omega arith)) λ _. returns _

    slots-Returns : (left at : ℕ) → at + 30 * left ≤ 450 → Returns (slots left at bufferlen frame)
    unfolding slots
    slots-Returns zero at h = returns _
    slots-Returns (suc left) at h =
        if-Returns _
          (read at 12 (omega arith) λ _. read (at + 12) 4 (omega arith) λ _.
            read (at + 12 + 4) 3 (omega arith) λ _.
              read (at + 12 + 4 + 3) 11 (omega arith)
                λ _. bind-Returns (slots-Returns left (at + 30) (omega arith)) λ _. returns _)
          (returns _)

    pub protodec_20-Returns : Returns (protodec_20 bufferlen frame)
    unfolding protodec_20
    protodec_20-Returns = slots-Returns 4 40 (omega arith)
