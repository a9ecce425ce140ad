-- ===== src/Mainloop/Ready.antt =====
-- The receivers of the main loop of src/ais.c, in order for a setting of the channels.
use gnuais.Common.{
  ℕ, ◌-◌, ◌≤◌, ◌≡◌, ◌≢◌, refl, Bool, true, false, Option, some, List, ℤ, ltb, leb, ◌==◌,
  if◌then◌else◌, ◌>>=◌, length, drop, inl, inr, Bool-cases, arith,
}
use gnuais.Cfg.{mono}
use gnuais.Filter.Buffer.{HasWindow}
use gnuais.Filter.Window.{AreSamples}
use gnuais.Receiver.Slicing.{IsLocked}
use gnuais.Receiver.Channel.{Channel, filtered_len}
use gnuais.Mainloop.{Main, Settings, started, Turn, Output, init_receivers, log_stats}

-- A receiver with its filter and its clock in order, and its place in the frames.
pub record IsTuned {F : Type 0} (num_ch ch_ofs : ℕ) (ch : Channel F) : Type 0 where
  pub window : List F
  pub taps : List F
  pub in_place : HasWindow ch.filter window taps
  pub locked : IsLocked ch.rx
  pub step : ch.num_ch ≡ num_ch
  pub offset : ch.ch_ofs ≡ ch_ofs

-- The receivers that a setting of the channels asks for: one, or A and B.
pub data IsReady {F : Type 0} (sound_channels : ℕ) : Main F → Type 0 where
  one : {m : Main F} → sound_channels ≡ mono → IsTuned 1 0 m.rx_a → IsReady sound_channels m
  two :
      {m : Main F} (b : Channel F)
      → sound_channels ≢ mono
      → IsTuned 2 0 m.rx_a
      → m.rx_b ≡ some b
      → IsTuned 2 1 b
      → IsReady sound_channels m

-- The buffer of a turn holds the samples of a channel, one for each frame that was read.
unfoldable pub HasSamples : (num_ch ch_ofs : ℕ) → Turn → Type 0
HasSamples num_ch ch_ofs t =
    (xs : List ℤ) × (length xs ≡ t.buffer_read) × AreSamples (drop ch_ofs t.buffer) num_ch 0 xs

-- A read of at most 4096 frames of one channel or of two, as the setting asks.
unfoldable pub HasFrames : (sound_channels : ℕ) → Turn → Type 0
unfolding HasSamples
HasFrames sound_channels t =
    (t.buffer_read ≤ filtered_len)
    × (sound_channels ≡ mono → HasSamples 1 0 t)
    × (sound_channels ≢ mono → HasSamples 2 0 t × HasSamples 2 1 t)

-- A result of the loop without a fault, with the receivers in order.
pub data LoopOk {F : Type 0} (sound_channels : ℕ) : Option (Main F × List Output) → Type 0 where
  goes_on :
      (m : Main F) (out : List Output)
      → IsReady sound_channels m
      → LoopOk sound_channels (some (m, out))

pub bind-LoopOk :
    {F : Type 0} (n : ℕ) {o : Option (Main F × List Output)}
    {f : Main F × List Output → Option (Main F × List Output)}
    → LoopOk n o
    → ((p : Main F × List Output) → IsReady n p.0 → LoopOk n (f p))
    → LoopOk n (o >>= f)
bind-LoopOk n (goes_on m out ready) next = next (m, out) ready

pub if-LoopOk :
    {F : Type 0} (n : ℕ) (b : Bool) {x y : Option (Main F × List Output)}
    → LoopOk n x
    → LoopOk n y
    → LoopOk n (if b then x else y)
if-LoopOk n true p q = p
if-LoopOk n false p q = q

layout-IsTuned :
    {F : Type 0} (fresh : Channel F) (window taps : List F)
    → HasWindow fresh.filter window taps
    → IsLocked fresh.rx
    → (num_ch ch_ofs : ℕ)
    → IsTuned num_ch ch_ofs (record fresh { num_ch = num_ch; ch_ofs = ch_ofs })
layout-IsTuned fresh window taps h locked num_ch ch_ofs = record {
  window = window;
  taps = taps;
  in_place = h;
  locked = locked;
  step = refl;
  offset = refl;
}

pub started-IsReady :
    {F : Type 0} (n : ℕ) (fresh : Channel F) (last_stats : ℕ) (window taps : List F)
    → HasWindow fresh.filter window taps
    → IsLocked fresh.rx
    → IsReady n (started n fresh last_stats)
unfolding started init_receivers
started-IsReady n fresh last_stats window taps h locked =
    let tuned = layout-IsTuned fresh window taps h locked in
    elim (Bool-cases (n == mono)) [
      | inl single ↦ rw single (one (ground (arith, single)) (tuned 1 0))
      | inr pair ↦ rw pair (two _ (λ e. ground (arith, pair)) (tuned 2 0) refl (tuned 2 1))
    ]

-- The other variables of the loop do not matter.
pub rest-IsReady :
    {F : Type 0} {n : ℕ} {m : Main F} (done : Bool) (last_stats : ℕ)
    → IsReady n m
    → IsReady n (record m { done = done; last_stats = last_stats })
rest-IsReady done last_stats (one mono tuned) = one mono tuned
rest-IsReady done last_stats (two b stereo tuned has_b tuned_b) = two b stereo tuned has_b tuned_b

pub log_stats-IsReady :
    {F : Type 0} (set : Settings) (n now : ℕ) (m : Main F)
    → IsReady n m
    → IsReady n (log_stats set now m).0
unfolding log_stats
log_stats-IsReady set n now m ready = elim (Bool-cases (set.stats_interval == 0)) [
  | inl off ↦ rw off ready
  | inr on ↦ elim (Bool-cases (ltb now m.last_stats)) [
    | inl back ↦ rw (on, back) (rest-IsReady m.done now ready)
    | inr forth ↦ elim (Bool-cases (leb set.stats_interval (now - m.last_stats))) [
      | inl due ↦ rw (on, forth, due) (rest-IsReady m.done now ready)
      | inr early ↦ rw (on, forth, early) ready
    ]
  ]
]
