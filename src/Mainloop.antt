-- ===== src/Mainloop.antt =====
-- The main loop of src/ais.c: the choice of the receivers, the blocks of sound that they get, and the
-- report of the ranges. What a read returns, and the clock, are given for each turn.
pub mod Ready
pub mod Blocks
pub mod Safety
use gnuais.Common.{
  ℕ, ◌+◌, ◌-◌, Bool, true, false, not, ◌||◌, Option, none, some, List, [], ◌∷◌, ◌++◌, map, ℤ, ltb,
  leb, ◌==◌, if◌then◌else◌, ◌>>=◌,
}
use gnuais.Protodec.Types.{Call, Env}
use gnuais.Cfg.{mono, both, left, right}
use gnuais.Filter.{Arithmetic}
use gnuais.Receiver.Channel.{Channel, Level, channel_run}

-- The variables of `main` that the loop uses.
pub record Main (F : Type 0) : Type 0 where
  pub done : Bool
  pub rx_a : Channel F
  pub rx_b : Option (Channel F)
  pub last_stats : ℕ

-- The globals of src/cfg.c that the loop reads.
pub record Settings : Type 0 where
  pub sound_channels : ℕ
  pub sound_levellog : ℤ
  pub stats_interval : ℕ

-- One turn: whether SIGINT has come, what the read returns and leaves in the buffer, and the time.
pub record Turn : Type 0 where
  pub interrupted : Bool
  pub buffer_read : ℕ
  pub buffer : List ℤ
  pub level_time : ℤ
  pub now : ℕ

-- What the loop does to the outside: the calls of the decoders, what is logged of the sound level,
-- and `log_range` of receiver A (true) or B.
pub data Output : Type 0 where
  call : Call → Output
  level : Level → Output
  range : (of_a : Bool) → Output

unfoldable pub outputs_of : List Call → Option Level → List Output
outputs_of calls none = map call calls
outputs_of calls (some l) = map call calls ++ level l ∷ []

module _ {F : Type 0} where
  -- "initialize the AIS decoders", with what `init_receiver` gives but for the layout.
  unfoldable pub init_receivers : (sound_channels : ℕ) → Channel F → Channel F × Option (Channel F)
  init_receivers sound_channels fresh =
      if sound_channels == mono
      then (record fresh { num_ch = 1; ch_ofs = 0 }, none)
      else (record fresh { num_ch = 2; ch_ofs = 0 }, some (record fresh { num_ch = 2; ch_ofs = 1 }))

  -- The variables when the loop starts.
  unfoldable pub started : (sound_channels : ℕ) → Channel F → (last_stats : ℕ) → Main F
  unfolding init_receivers
  started sound_channels fresh last_stats =
      let (rx_a, rx_b) = init_receivers sound_channels fresh in
      record { done = false; rx_a = rx_a; rx_b = rx_b; last_stats = last_stats }

  -- The `stats_interval` part of a turn.
  unfoldable pub log_stats : Settings → (now : ℕ) → Main F → Main F × List Output
  log_stats set now m =
      let after : Main F = record m { last_stats = now } in
      let ranges = range true ∷ elim m.rx_b [ none ↦ [] | some _ ↦ range false ∷ [] ] in
      if set.stats_interval == 0
      then (m, [])
      else if ltb now m.last_stats
      then (after, [])
      else if leb set.stats_interval (now - m.last_stats)
      then (after, ranges)
      else (m, [])

module _ {F : Type 0} (arithmetic : Arithmetic F) (positive : F → Bool) (env : Env)
    (set : Settings) where
  -- `receiver_run(rx_a, buffer, buffer_read)`
  unfoldable pub run_a : Turn → Main F → Option (Main F × List Output)
  unfolding outputs_of
  run_a t m = do
    (ch, calls, report) ←
        channel_run arithmetic positive env t.level_time set.sound_levellog t.buffer t.buffer_read
          m.rx_a
    some (record m { rx_a = ch }, outputs_of calls report)

  -- `receiver_run(rx_b, buffer, buffer_read)`; `none` is also a null pointer.
  unfoldable pub run_b : Turn → Main F → Option (Main F × List Output)
  unfolding outputs_of
  run_b t m = do
    rx_b ← m.rx_b
    (ch, calls, report) ←
        channel_run arithmetic positive env t.level_time set.sound_levellog t.buffer t.buffer_read
          rx_b
    some (record m { rx_b = some ch }, outputs_of calls report)

  unfoldable pub run_if :
      Bool → (Main F → Option (Main F × List Output)) → Main F → Option (Main F × List Output)
  run_if on run m = if on then run m else some (m, [])

  -- The part of a turn that follows a read of at least one frame.
  unfoldable pub on_block : Turn → Main F → Option (Main F × List Output)
  unfolding run_a run_b run_if
  on_block t m = do
    (m1, first) ← run_if (set.sound_channels == mono) (run_a t) m
    (m2, second) ← run_if (set.sound_channels == both || set.sound_channels == right) (run_a t) m1
    (m3, third) ← run_if (set.sound_channels == both || set.sound_channels == left) (run_b t) m2
    let (m4, ranges) = log_stats set t.now m3
    some (m4, first ++ (second ++ (third ++ ranges)))

  -- The body of the loop; with a sound file, a read of nothing ends it.
  unfoldable pub one_turn : (from_file : Bool) → Turn → Main F → Option (Main F × List Output)
  one_turn from_file t m =
      let heard = on_block t (record m { done = t.interrupted }) in
      if t.buffer_read == 0
      then some (record m { done = from_file || t.interrupted }, [])
      else heard

  -- The loop, for the reads that are to come.
  unfoldable pub main_loop : (from_file : Bool) → List Turn → Main F → Option (Main F × List Output)
  main_loop from_file [] m = some (m, [])
  main_loop from_file (t ∷ turns) m =
      let rest : Option (Main F × List Output) = (do
        (m', out) ← one_turn from_file t m
        (m'', more) ← main_loop from_file turns m'
        some (m'', out ++ more)) in
      if m.done then some (m, []) else rest
