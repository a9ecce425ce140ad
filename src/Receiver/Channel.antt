-- ===== src/Receiver/Channel.antt =====
-- The whole of `receiver_run` in src/receiver.c: the filter, the sampling loop on the signs of what it
-- gives, and the report of the sound level. The clock is read once.
use gnuais.Common.{
  ℕ, zero, suc, ◌*◌, ◌≤◌, ◌≡◌, refl, Bool, false, not, ◌&&◌, ◌||◌, Option, none, some, List, map,
  arith, ltb, if◌then◌else◌, ◌>>=◌, length, drop, ℤ, pos, negsuc, ◌+ℤ◌,
}
use gnuais.Protodec.Types.{Call, Env}
use gnuais.Filter.{Arithmetic, Filter, above, filter_run_buf}
use gnuais.Filter.Buffer.{HasWindow}
use gnuais.Filter.Window.{slide, slid, AreSamples, peak, filter_run_buf-Runs}
use gnuais.Receiver.{Receiver, receiver_run}
use gnuais.Receiver.Slicing.{IsLocked, RunOk, runs, receiver_run-RunOk}

-- struct receiver, with its filter and the layout of the channels.
pub record Channel (F : Type 0) : Type 0 where
  pub rx : Receiver
  pub filter : Filter F
  pub num_ch : ℕ
  pub ch_ofs : ℕ
  pub last_levellog : ℤ

-- FILTERED_LEN
abbrev pub filtered_len : ℕ
filtered_len = 4096

-- What is logged of the level, which is maxval / 32768 * 100.
pub data Level : Type 0 where
  too_high : (maxval : ℤ) → Level
  level : (maxval : ℤ) → Level

-- level > 95.0; the level is exact in a float.
unfoldable pub is_too_high : (maxval : ℤ) → Bool
is_too_high (pos m) = ltb (95 * 32768) (m * 100)
is_too_high (negsuc m) = false

unfoldable pub negated : ℤ → ℤ
negated (pos zero) = pos 0
negated (pos (suc n)) = negsuc n
negated (negsuc n) = pos (suc n)

-- The report at the end of `receiver_run`.
unfoldable pub level_report : (maxval level_distance sound_levellog : ℤ) → Option Level
unfolding is_too_high above
level_report maxval level_distance sound_levellog =
    let due = not (above sound_levellog level_distance) in
    let wanted = above sound_levellog (pos 0) || above (pos 0) sound_levellog in
    if is_too_high maxval && (not (above (pos 30) level_distance) || due)
    then some (too_high maxval)
    else if wanted && due
    then some (level maxval)
    else none

-- time(&rx->last_levellog) with a report
unfoldable pub logged_at : Option Level → (now last_levellog : ℤ) → ℤ
logged_at none now last_levellog = last_levellog
logged_at (some l) now last_levellog = now

module _ {F : Type 0} (arithmetic : Arithmetic F) (positive : F → Bool) where
  -- `out > 0` of each filtered sample
  unfoldable pub signs : List F → List ℕ
  signs out = map (λ y. if positive y then 1 else 0) out

  -- `receiver_run`: the receiver, the calls to the outside, and the report. `none` is also abort.
  unfoldable pub channel_run :
      Env
      → (now sound_levellog : ℤ) (buf : List ℤ) (len : ℕ) → Channel F
      → Option (Channel F × List Call × Option Level)
  unfolding filter_run_buf signs receiver_run level_report negated logged_at
  channel_run env now sound_levellog buf len ch =
      let run = (do
        (filter, out, maxval) ←
            filter_run_buf arithmetic ch.filter (drop ch.ch_ofs buf) filtered_len ch.num_ch len
        (rx, calls) ← receiver_run env (signs out) ch.rx
        let report = level_report maxval (now +ℤ negated ch.last_levellog) sound_levellog
        let last = logged_at report now ch.last_levellog
        some (record ch { rx = rx; filter = filter; last_levellog = last }, calls, report)) in
      if ltb filtered_len len then none else run

-- The run of the sampling loop on the signs of the filtered window, with a report of the level.
pub data ChannelOk {F : Type 0} (arithmetic : Arithmetic F) (positive : F → Bool) (env : Env)
    (rx : Receiver) (window taps : List F) (xs : List ℤ)
    : Option (Channel F × List Call × Option Level) → Type 0 where
  heard :
      (ch : Channel F) (calls : List Call) (report : Option Level)
      → IsLocked ch.rx
      → HasWindow ch.filter (slid window (map arithmetic.of_short xs)) taps
      → receiver_run env
          (signs arithmetic positive (slide arithmetic taps window (map arithmetic.of_short xs)))
          rx
        ≡ some (ch.rx, calls)
      → ChannelOk arithmetic positive env rx window taps xs (some (ch, calls, report))

module _ {F : Type 0} (arithmetic : Arithmetic F) (positive : F → Bool) where
  pub channel_run-ChannelOk :
      (env : Env) (now sound_levellog : ℤ) (buf : List ℤ) (xs : List ℤ) (ch : Channel F)
      (window taps : List F)
      → length env.skip_type ≡ 25
      → length xs ≤ filtered_len
      → AreSamples (drop ch.ch_ofs buf) ch.num_ch 0 xs
      → HasWindow ch.filter window taps
      → IsLocked ch.rx
      → ChannelOk arithmetic positive env ch.rx window taps xs
          (channel_run arithmetic positive env now sound_levellog buf (length xs) ch)
  unfolding channel_run
  channel_run-ChannelOk env now sound_levellog buf xs ch window taps types short samples h locked =
      let filtered =
        filter_run_buf-Runs arithmetic ch.filter window taps (drop ch.ch_ofs buf) filtered_len
          ch.num_ch xs h samples short in
      let no_abort : ltb filtered_len (length xs) ≡ false = grind arith in
      let signed =
        signs arithmetic positive (slide arithmetic taps window (map arithmetic.of_short xs)) in
      rw (no_abort, filtered.outputs)
        (by_run (receiver_run env signed ch.rx) refl
          (receiver_run-RunOk env types signed ch.rx locked) filtered.f' filtered.window')
    where
      by_run :
          (o : Option (Receiver × List Call))
          → receiver_run env
              (signs arithmetic positive
                (slide arithmetic taps window (map arithmetic.of_short xs)))
              ch.rx
            ≡ o
          → RunOk o
          → (f' : Filter F) → HasWindow f' (slid window (map arithmetic.of_short xs)) taps
          → ChannelOk arithmetic positive env ch.rx window taps xs (
              o >>= (λ r.
                let report =
                  level_report (peak (pos 0) xs) (now +ℤ negated ch.last_levellog) sound_levellog in
                some (
                  record ch {
                    rx = r.0;
                    filter = f';
                    last_levellog = logged_at report now ch.last_levellog;
                  },
                  r.1,
                  report,
                )))
      by_run o e (runs w) f' h' = heard _ _ _ w h' e
