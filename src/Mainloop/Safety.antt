-- ===== src/Mainloop/Safety.antt =====
-- The main loop of src/ais.c on top of the whole receiver: which receivers there are, and that no
-- block of sound makes the program fault.
use gnuais.Common.{
  ℕ, ◌≡◌, ◌≢◌, refl, Bool, true, false, ◌||◌, Option, some, List, [], ◌∷◌, ◌==◌, length, All, inl,
  inr, Bool-cases, arith,
}
use gnuais.Protodec.Types.{Env}
use gnuais.Cfg.{mono, both, left, right}
use gnuais.Filter.{Arithmetic}
use gnuais.Filter.Buffer.{HasWindow}
use gnuais.Receiver.Slicing.{IsLocked}
use gnuais.Receiver.Channel.{Channel}
use gnuais.Mainloop.Ready.{
  IsReady, one, two, HasFrames, LoopOk, goes_on, bind-LoopOk, if-LoopOk, started-IsReady,
  rest-IsReady, log_stats-IsReady,
}
use gnuais.Mainloop.Blocks.{channel_run-IsTuned}
use gnuais.Mainloop.{
  Main, Settings, started, Turn, Output, outputs_of, run_a, run_b, run_if, on_block, one_turn,
  main_loop,
}

module _ {F : Type 0} (arithmetic : Arithmetic F) (positive : F → Bool) (env : Env)
    (types : length env.skip_type ≡ 25) where
  module _ (set : Settings) where
    run_a-LoopOk :
        (t : Turn) (m : Main F)
        → HasFrames set.sound_channels t
        → IsReady set.sound_channels m
        → LoopOk set.sound_channels (run_a arithmetic positive env set t m)
    unfolding run_a HasFrames
    run_a-LoopOk t m (few, single, _) (one mono tuned) =
        let (ch, calls, report, e, tuned') =
          channel_run-IsTuned arithmetic positive env types t.level_time set.sound_levellog 1 0 t
            m.rx_a few (single mono) tuned in
        rw e (goes_on (record m { rx_a = ch }) (outputs_of calls report) (one mono tuned'))
    run_a-LoopOk t m (few, _, pair) (two b stereo tuned has_b tuned_b) =
        let (ch, calls, report, e, tuned') =
          channel_run-IsTuned arithmetic positive env types t.level_time set.sound_levellog 2 0 t
            m.rx_a few (pair stereo).0 tuned in
        rw e (
          goes_on (record m { rx_a = ch }) (outputs_of calls report)
            (two b stereo tuned' has_b tuned_b))

    -- Receiver B runs only with settings for which there is one.
    run_b-LoopOk :
        (t : Turn) (m : Main F)
        → set.sound_channels ≢ mono
        → HasFrames set.sound_channels t
        → IsReady set.sound_channels m
        → LoopOk set.sound_channels (run_b arithmetic positive env set t m)
    unfolding run_b HasFrames
    run_b-LoopOk t m stereo (few, _, pair) (one is_mono tuned) = absurd (stereo is_mono)
    run_b-LoopOk t m _ (few, _, pair) (two b stereo tuned has_b tuned_b) =
        let (ch, calls, report, e, tuned') =
          channel_run-IsTuned arithmetic positive env types t.level_time set.sound_levellog 2 1 t b
            few (pair stereo).1 tuned_b in
        rw (has_b, e)
          (goes_on (record m { rx_b = some ch }) (outputs_of calls report)
            (two ch stereo tuned refl tuned'))

    run_if-LoopOk :
        (on : Bool) (run : Main F → Option (Main F × List Output)) (m : Main F)
        → IsReady set.sound_channels m
        → (on ≡ true → LoopOk set.sound_channels (run m))
        → LoopOk set.sound_channels (run_if arithmetic positive env set on run m)
    unfolding run_if
    run_if-LoopOk true run m ready ok = ok refl
    run_if-LoopOk false run m ready ok = goes_on m [] ready

    on_block-LoopOk :
        (t : Turn) (m : Main F)
        → HasFrames set.sound_channels t
        → IsReady set.sound_channels m
        → LoopOk set.sound_channels (on_block arithmetic positive env set t m)
    unfolding on_block
    on_block-LoopOk t m frames ready =
        let n : ℕ = set.sound_channels in
        let a = run_a arithmetic positive env set t in
        let b = run_b arithmetic positive env set t in
        bind-LoopOk n (run_if-LoopOk (n == mono) a m ready λ on. run_a-LoopOk t m frames ready)
          λ p ok.
            bind-LoopOk n
              (run_if-LoopOk (n == both || n == right) a p.0 ok λ on. run_a-LoopOk t p.0 frames ok)
              λ q ok'.
                bind-LoopOk n
                  (run_if-LoopOk (n == both || n == left) b q.0 ok'
                    λ on. run_b-LoopOk t q.0 (has_b n on) frames ok')
                  λ r ok''. goes_on _ _ (log_stats-IsReady set n t.now r.0 ok'')
      where
        has_b : (n : ℕ) → (n == both || n == left) ≡ true → n ≢ mono
        has_b n on = ground arith

    one_turn-LoopOk :
        (from_file : Bool) (t : Turn) (m : Main F)
        → HasFrames set.sound_channels t
        → IsReady set.sound_channels m
        → LoopOk set.sound_channels (one_turn arithmetic positive env set from_file t m)
    unfolding one_turn
    one_turn-LoopOk from_file t m frames ready = elim (Bool-cases (t.buffer_read == 0)) [
      | inl nothing ↦
          rw nothing (goes_on _ [] (rest-IsReady (from_file || t.interrupted) m.last_stats ready))
      | inr some_frames ↦ rw some_frames (
          on_block-LoopOk t (record m { done = t.interrupted }) frames
            (rest-IsReady t.interrupted m.last_stats ready))
    ]

    main_loop-LoopOk :
        (from_file : Bool) (turns : List Turn) (m : Main F)
        → All (HasFrames set.sound_channels) turns
        → IsReady set.sound_channels m
        → LoopOk set.sound_channels (main_loop arithmetic positive env set from_file turns m)
    unfolding main_loop
    main_loop-LoopOk from_file [] m _ ready = goes_on m [] ready
    main_loop-LoopOk from_file (t ∷ turns) m (frames, more) ready =
        if-LoopOk set.sound_channels m.done (goes_on m [] ready) (
          bind-LoopOk set.sound_channels (one_turn-LoopOk from_file t m frames ready) λ p ok.
            bind-LoopOk set.sound_channels (main_loop-LoopOk from_file turns p.0 more ok)
              λ q ok'. goes_on q.0 _ ok')

    -- The program from its start: with a receiver as `init_receiver` makes it, for any setting of the
    -- channels, the loop on reads of at most 4096 frames makes no access outside of an array, runs
    -- no receiver that there is not, and does not abort; in the end its receivers are in order.
    pub main_loop-init :
        (from_file : Bool) (turns : List Turn) (fresh : Channel F) (last_stats : ℕ)
        (window taps : List F)
        → HasWindow fresh.filter window taps
        → IsLocked fresh.rx
        → All (HasFrames set.sound_channels) turns
        → LoopOk set.sound_channels (
            main_loop arithmetic positive env set from_file turns
              (started set.sound_channels fresh last_stats))
    main_loop-init from_file turns fresh last_stats window taps h locked frames =
        main_loop-LoopOk from_file turns (started set.sound_channels fresh last_stats) frames
          (started-IsReady set.sound_channels fresh last_stats window taps h locked)
