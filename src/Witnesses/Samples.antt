-- ===== src/Witnesses/Samples.antt =====
-- The theorems on the receiver at concrete inputs.
use gnuais.Common.{
  ℕ, ltb, pos, refl, true, false, some, codes, List, [], ◌∷◌, ◌++◌, replicate, arith,
}
use gnuais.Protodec.Types.{Env}
use gnuais.Cfg.{both}
use gnuais.Mainloop.{Settings, Turn, started, main_loop}
use gnuais.Hlog.Files.{Logs, System, l_file, log_closing, perform, stops, cannot_open}
use gnuais.Hlog.Calls.{perform-GivesBack}
use gnuais.Hlog.Locks.{all_free, GivesBack}
use gnuais.Mainloop.Ready.{HasSamples, HasFrames, LoopOk}
use gnuais.Mainloop.Safety.{main_loop-init}
use gnuais.Receiver.{init_receiver}
use gnuais.Receiver.Slicing.{init_receiver-IsLocked}
use gnuais.Receiver.Channel.{Channel, ChannelOk, channel_run, channel_run-ChannelOk}
use gnuais.Witnesses.Filters.{on_numbers, two_taps, stereo, fresh}

abbrev env : Env
env = record {
  has_my = false;
  has_serial = false;
  has_ipc = false;
  cache_positions = true;
  have_my_loc = false;
  skip_type = replicate 25 false;
}

abbrev blank : List ℕ
blank = replicate 450 0

abbrev samples : List ℕ
samples = replicate 5 1 ++ replicate 5 0 ++ replicate 10 1 ++ replicate 5 0

abbrev left_channel : Channel ℕ
left_channel = record {
  rx = init_receiver blank blank;
  filter = fresh.0;
  num_ch = 2;
  ch_ofs = 0;
  last_levellog = pos 0;
}

channel_run-ChannelOk_example :
    ChannelOk on_numbers
      (λ y. ltb 50 y)
      env
      (init_receiver blank blank)
      (0 ∷ 0 ∷ [])
      two_taps
      (pos 10 ∷ pos 20 ∷ [])
      (channel_run on_numbers (λ y. ltb 50 y) env (pos 90) (pos 60) stereo 2 left_channel)
channel_run-ChannelOk_example =
    channel_run-ChannelOk on_numbers (λ y. ltb 50 y) env (pos 90) (pos 60) stereo
      (pos 10 ∷ pos 20 ∷ []) left_channel (0 ∷ 0 ∷ []) two_taps refl (omega arith)
      (refl, (refl, tt)) fresh.2 (init_receiver-IsLocked blank blank refl refl)

abbrev stereo_settings : Settings
stereo_settings = record { sound_channels = both; sound_levellog = pos 60; stats_interval = 600 }

abbrev block : Turn
block = record {
  interrupted = false;
  buffer_read = 1;
  buffer = pos 10 ∷ pos 20 ∷ [];
  level_time = pos 90;
  now = 90;
}

abbrev end_of_file : Turn
end_of_file = record block { buffer_read = 0 }

block-HasFrames : HasFrames both block
unfolding HasFrames HasSamples
block-HasFrames = (
  omega arith,
  (λ e. absurd (omega (arith, e))),
  (λ e. ((pos 10 ∷ [], refl, (refl, tt)), (pos 20 ∷ [], refl, (refl, tt)))),
)

end_of_file-HasFrames : HasFrames both end_of_file
unfolding HasFrames HasSamples
end_of_file-HasFrames =
    (omega arith, (λ e. absurd (omega (arith, e))), (λ e. (([], refl, tt), ([], refl, tt))))

main_loop-init_example : LoopOk both (
    main_loop on_numbers
      (λ y. ltb 50 y)
      env
      stereo_settings
      true
      (block ∷ end_of_file ∷ [])
      (started both left_channel 0))
main_loop-init_example =
    main_loop-init on_numbers (λ y. ltb 50 y) env refl stereo_settings true
      (block ∷ end_of_file ∷ []) left_channel 0 (0 ∷ 0 ∷ []) two_taps fresh.2
      (init_receiver-IsLocked blank blank refl refl) (block-HasFrames, (end_of_file-HasFrames, tt))

abbrev machine : System
machine = record {
  open_file = λ name. pos 7;
  fails = λ a. true;
  line = λ name level message. name ++ level ++ message;
  access_line = λ message. message;
  file_text = λ name reopen fd. name;
  trouble = [];
}

abbrev logs : Logs
logs = record {
  log_dest = l_file;
  log_level = 7;
  log_name = some (codes "gnuais");
  log_dir = codes "/var/log";
  log_file = pos 5;
  accesslog_file = pos 6;
}

-- A file that is closed and opened again, with all calls but the opening failing.
perform-GivesBack_example : GivesBack all_free (perform machine (log_closing true) logs)
unfolding stops cannot_open
perform-GivesBack_example = perform-GivesBack machine (log_closing true) logs refl
