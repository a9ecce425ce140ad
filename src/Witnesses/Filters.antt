-- ===== src/Witnesses/Filters.antt =====
-- The theorem on the filter at a concrete input: two taps, and the left samples of a stereo signal.
use gnuais.Common.{ℕ, ◌+◌, ◌*◌, ◌≡◌, refl, some, List, [], ◌∷◌, ℤ, pos, negsuc, arith}
use gnuais.Filter.{Arithmetic, Filter, filter_init, filter_run_buf}
use gnuais.Filter.Buffer.{HasWindow}
use gnuais.Filter.Window.{Runs, filter_init-HasWindow, filter_run_buf-Runs}

-- Arithmetic on the samples above zero.
abbrev pub on_numbers : Arithmetic ℕ
on_numbers = record {
  nought = 0;
  plus = λ x y. x + y;
  times = λ x y. x * y;
  of_short = λ x. magnitude x;
}
  where
    magnitude : ℤ → ℕ
    magnitude (pos n) = n
    magnitude (negsuc n) = 0

abbrev pub two_taps : List ℕ
two_taps = 3 ∷ 4 ∷ []

pub fresh :
    (f : Filter ℕ) × (filter_init on_numbers 2 two_taps ≡ some f)
    × HasWindow f (0 ∷ 0 ∷ []) two_taps
fresh = filter_init-HasWindow on_numbers two_taps (omega arith) (omega arith)

abbrev pub stereo : List ℤ
stereo = pos 10 ∷ negsuc 4 ∷ pos 20 ∷ pos 7 ∷ []

filter_run_buf-Runs_example :
    Runs on_numbers
      (0 ∷ 0 ∷ [])
      two_taps
      (pos 10 ∷ pos 20 ∷ [])
      (pos 0)
      (filter_run_buf on_numbers fresh.0 stereo 2 2 2)
filter_run_buf-Runs_example =
    filter_run_buf-Runs on_numbers fresh.0 (0 ∷ 0 ∷ []) two_taps stereo 2 2 (pos 10 ∷ pos 20 ∷ [])
      fresh.2 (refl, (refl, tt)) (omega arith)
