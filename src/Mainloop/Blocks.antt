-- ===== src/Mainloop/Blocks.antt =====
-- What a block of the main loop of src/ais.c does to one receiver.
use gnuais.Common.{
  ℕ, ◌≤◌, ◌≡◌, refl, ◌∙◌, Bool, true, false, Option, none, some, List, ℤ, ltb, if◌then◌else◌, ◌>>=◌,
  length, drop, arith,
}
use gnuais.Protodec.Types.{Call, Env}
use gnuais.Filter.{Arithmetic, filter_run_buf}
use gnuais.Filter.Window.{AreSamples}
use gnuais.Receiver.{receiver_run}
use gnuais.Receiver.Channel.{
  filtered_len, Channel, Level, filtered_len, signs, channel_run, ChannelOk, heard,
  channel_run-ChannelOk,
}
use gnuais.Mainloop.Ready.{IsTuned, HasSamples}
use gnuais.Mainloop.{Turn}

-- The layout of a receiver does not change.
data KeepsLayout {F : Type 0} (ch : Channel F)
    : Option (Channel F × List Call × Option Level) → Type 0 where
  faults : KeepsLayout ch none
  keeps :
      (ch' : Channel F) (calls : List Call) (report : Option Level)
      → ch'.num_ch ≡ ch.num_ch
      → ch'.ch_ofs ≡ ch.ch_ofs
      → KeepsLayout ch (some (ch', calls, report))

same_layout :
    {F : Type 0} (ch ch' : Channel F) (calls : List Call) (report : Option Level)
    → KeepsLayout ch (some (ch', calls, report))
    → (ch'.num_ch ≡ ch.num_ch) × (ch'.ch_ofs ≡ ch.ch_ofs)
same_layout ch ch' calls report (keeps _ _ _ p q) = (p, q)

bind-KeepsLayout :
    {F A : Type 0} (ch : Channel F) (o : Option A)
    {f : A → Option (Channel F × List Call × Option Level)}
    → ((a : A) → KeepsLayout ch (f a))
    → KeepsLayout ch (o >>= f)
bind-KeepsLayout ch none next = faults
bind-KeepsLayout ch (some a) next = next a

if-KeepsLayout :
    {F : Type 0} (ch : Channel F) (b : Bool) {x y : Option (Channel F × List Call × Option Level)}
    → KeepsLayout ch x
    → KeepsLayout ch y
    → KeepsLayout ch (if b then x else y)
if-KeepsLayout ch true p q = p
if-KeepsLayout ch false p q = q

module _ {F : Type 0} (arithmetic : Arithmetic F) (positive : F → Bool) (env : Env)
    (types : length env.skip_type ≡ 25) where
  channel_run-layout :
      (now levellog : ℤ) (buf : List ℤ) (len : ℕ) (ch : Channel F)
      → KeepsLayout ch (channel_run arithmetic positive env now levellog buf len ch)
  unfolding channel_run
  channel_run-layout now levellog buf len ch = if-KeepsLayout ch (ltb filtered_len len) faults (
      bind-KeepsLayout ch
        (filter_run_buf arithmetic ch.filter (drop ch.ch_ofs buf) filtered_len ch.num_ch len)
        λ filtered.
          bind-KeepsLayout ch (receiver_run env (signs arithmetic positive filtered.1) ch.rx)
            λ sampled. keeps _ _ _ refl refl)

  -- What a block does to a receiver.
  pub channel_run-IsTuned :
      (now levellog : ℤ) (num_ch ch_ofs : ℕ) (t : Turn) (ch : Channel F)
      → t.buffer_read ≤ filtered_len
      → HasSamples num_ch ch_ofs t
      → IsTuned num_ch ch_ofs ch
      → (ch' : Channel F) × (calls : List Call) × (report : Option Level) × (channel_run arithmetic
            positive env now levellog t.buffer t.buffer_read ch
          ≡ some (ch', calls, report))
        × IsTuned num_ch ch_ofs ch'
  unfolding HasSamples
  channel_run-IsTuned now levellog num_ch ch_ofs t ch few (xs, size, samples) h =
      let in_buffer : AreSamples (drop ch.ch_ofs t.buffer) ch.num_ch 0 xs =
        rw (h.step, h.offset) samples in
      let run = rw size at (
        channel_run-ChannelOk arithmetic positive env now levellog t.buffer xs ch h.window h.taps
          types (omega (arith, size)) in_buffer h.in_place h.locked) in
      by_run _ refl run
    where
      by_run :
          (o : Option (Channel F × List Call × Option Level))
          → channel_run arithmetic positive env now levellog t.buffer t.buffer_read ch ≡ o
          → ChannelOk arithmetic positive env ch.rx h.window h.taps xs o
          → (ch' : Channel F) × (calls : List Call) × (report : Option Level) × (o
              ≡ some (ch', calls, report))
            × IsTuned num_ch ch_ofs ch'
      by_run none e x = elim x [ ]
      by_run (some (ch', calls, report)) e (heard _ _ _ locked in_place _) =
          let (same_step, same_offset) =
            same_layout ch ch' calls report
              (rw e at (channel_run-layout now levellog t.buffer t.buffer_read ch)) in
          (
            ch',
            calls,
            report,
            refl,
            record {
              window = _;
              taps = h.taps;
              in_place = in_place;
              locked = locked;
              step = same_step ∙ h.step;
              offset = same_offset ∙ h.offset;
            },
          )
