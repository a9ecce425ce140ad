-- ===== src/Filter/Window.antt =====
-- What `filter_run_buf` of src/filter.c gives for the samples of a channel.
use gnuais.Common.{
  ℕ, zero, suc, ◌+◌, ◌-◌, ◌≤◌, ◌≡◌, refl, sym, ap, ap₂, ◌∙◌, true, Option, some, List, [], ◌∷◌,
  ◌++◌, map, append_assoc, append-nil, arith, leb, if◌then◌else◌, ◌>>=◌, length, length-append,
  get_elem?, replicate, length-replicate, store, ℤ, pos,
}
use gnuais.Filter.{
  Arithmetic, Filter, buffer_len, read, above, filter_init, mac_from, filter_mac, filter_run,
  run_buf, filter_run_buf,
}
use gnuais.Filter.Buffer.{
  HasWindow, filter_at, read-part, same_filter, shift, store-length, turn-HasWindow, has_window,
}

-- One sample: the output is made of the window before it, and the window goes on.
filter_run-HasWindow :
    {F : Type 0} (arithmetic : Arithmetic F) (f : Filter F) (window taps : List F) (x : F)
    → HasWindow f window taps
    → (f' : Filter F) × (filter_run arithmetic f x ≡ some (f', filter_mac arithmetic window taps))
      × HasWindow f' (shift window x) taps
unfolding filter_run shift
filter_run-HasWindow arithmetic f w ts x
      (has_window before [] behind taps whole room t some_window fits) =
    absurd (omega arith)
filter_run-HasWindow arithmetic f w ts x
      (has_window before (v ∷ vs) [] taps whole room t some_window fits) =
    absurd (omega arith)
filter_run-HasWindow arithmetic f w ts x
      (has_window before (v ∷ vs) (free ∷ behind) taps whole room t some_window fits) =
    let L = length (v ∷ vs) in
    let window = v ∷ vs in
    let stored : store (before ++ (window ++ free ∷ behind)) (length before + L) x
        ≡ some (before ++ (window ++ x ∷ behind)) =
      ap₂ (λ b n. store b n x) (sym (append_assoc before window (free ∷ behind)))
        (sym (length-append before window))
      ∙ (store-length (before ++ window) free behind x
          ∙ ap some (append_assoc before window (x ∷ behind))) in
    let enough : leb L (length before + L) ≡ true = grind arith in
    let seen : read (length before + L - L) L (before ++ (window ++ x ∷ behind)) ≡ some window =
      read-part before window (x ∷ behind) (length before + L - L) L (omega arith) refl in
    let tapped : read 0 L taps ≡ some taps =
      ap (read 0 L) (sym (append-nil taps)) ∙ read-part [] taps [] 0 L refl (sym t) in
    let turned = turn-HasWindow before v vs x behind taps whole t fits in
    (turned.0, rw (stored, enough, seen, tapped, turned.1) refl, turned.2)

-- The products of two lists, element by element, and the sum of a list behind `sum`.
unfoldable pub products : {F : Type 0} → Arithmetic F → (a b : List F) → List F
products arithmetic [] b = []
products arithmetic (x ∷ a) [] = []
products arithmetic (x ∷ a) (y ∷ b) = arithmetic.times x y ∷ products arithmetic a b

unfoldable pub total : {F : Type 0} → Arithmetic F → (sum : F) → List F → F
total arithmetic sum [] = sum
total arithmetic sum (x ∷ xs) = total arithmetic (arithmetic.plus sum x) xs

-- The sum of the products, from zero on.
unfoldable pub weighted : {F : Type 0} → Arithmetic F → (window taps : List F) → F
weighted arithmetic window taps =
    total arithmetic arithmetic.nought (products arithmetic window taps)

mac_from-total :
    {F : Type 0} (arithmetic : Arithmetic F) (sum : F) (a b : List F)
    → mac_from arithmetic sum a b ≡ total arithmetic sum (products arithmetic a b)
unfolding mac_from total products
mac_from-total arithmetic sum [] b = refl
mac_from-total arithmetic sum (x ∷ a) [] = refl
mac_from-total arithmetic sum (x ∷ a) (y ∷ b) =
    mac_from-total arithmetic (arithmetic.plus sum (arithmetic.times x y)) a b

filter_mac-weighted :
    {F : Type 0} (arithmetic : Arithmetic F) (a b : List F)
    → filter_mac arithmetic a b ≡ weighted arithmetic a b
unfolding filter_mac weighted
filter_mac-weighted arithmetic a b = mac_from-total arithmetic arithmetic.nought a b

-- The outputs for the samples `xs`, and the window behind them.
unfoldable pub slide : {F : Type 0} → Arithmetic F → (taps window xs : List F) → List F
unfolding shift weighted
slide arithmetic taps window [] = []
slide arithmetic taps window (x ∷ xs) =
    weighted arithmetic window taps ∷ slide arithmetic taps (shift window x) xs

unfoldable pub slid : {F : Type 0} → (window xs : List F) → List F
unfolding shift
slid window [] = window
slid window (x ∷ xs) = slid (shift window x) xs

-- The samples of a channel: every `step`-th one from `id` on.
abbrev pub AreSamples : (in_buf : List ℤ) (step id : ℕ) (xs : List ℤ) → Type 0
AreSamples in_buf step id [] = Unit
AreSamples in_buf step id (x ∷ xs) =
    (get_elem? in_buf id ≡ some x) × AreSamples in_buf step (id + step) xs

-- The largest sample, if it is above `m`.
unfoldable pub peak : ℤ → List ℤ → ℤ
unfolding above
peak m [] = m
peak m (x ∷ xs) = peak (if above x m then x else m) xs

-- What a run over the samples `xs` has to give.
pub record Runs {F : Type 0} (arithmetic : Arithmetic F) (window taps : List F) (xs : List ℤ)
    (m : ℤ) (result : Option (Filter F × List F × ℤ)) : Type 0 where
  pub f' : Filter F
  pub outputs :
      result ≡ some (f', slide arithmetic taps window (map arithmetic.of_short xs), peak m xs)
  pub window' : HasWindow f' (slid window (map arithmetic.of_short xs)) taps

run_buf-Runs :
    {F : Type 0} (arithmetic : Arithmetic F) (room id step : ℕ) (in_buf xs : List ℤ) (m : ℤ)
    (f : Filter F) (window taps : List F)
    → HasWindow f window taps
    → AreSamples in_buf step id xs
    → length xs ≤ room
    → Runs arithmetic window taps xs m (run_buf arithmetic room (length xs) id step in_buf m f)
unfolding run_buf slide slid peak
run_buf-Runs arithmetic room id step in_buf [] m f window taps h e few = record {
  f' = f;
  outputs = refl;
  window' = h;
}
run_buf-Runs arithmetic zero id step in_buf (x ∷ xs) m f window taps h e few = absurd (omega arith)
run_buf-Runs arithmetic (suc room) id step in_buf (x ∷ xs) m f window taps h e few =
    let one = filter_run-HasWindow arithmetic f window taps (arithmetic.of_short x) h in
    let rest =
      run_buf-Runs arithmetic room (id + step) step in_buf xs (if above x m then x else m) one.0
        (shift window (arithmetic.of_short x)) taps one.2 e.1 (omega arith) in
    record {
      f' = rest.f';
      outputs = rw (e.0, one.1, rest.outputs, filter_mac-weighted arithmetic window taps) refl;
      window' = rest.window';
    }

-- Let the buffer hold a window before the pointer, with as many taps, and let the input hold the
-- samples of the channel, `step` apart, not more than `out` has elements. `filter_run_buf` makes no access outside of an array. Its k-th
-- output is the sum of the products of the taps with the window of the samples before the k-th one,
-- however often the buffer is full meanwhile; it returns the peak of the samples, and leaves the
-- buffer with the last window.
pub filter_run_buf-Runs :
    {F : Type 0} (arithmetic : Arithmetic F) (f : Filter F) (window taps : List F) (in_buf : List ℤ)
    (out_size step : ℕ) (xs : List ℤ)
    → HasWindow f window taps
    → AreSamples in_buf step 0 xs
    → length xs ≤ out_size
    → Runs arithmetic window taps xs
        (pos 0)
        (filter_run_buf arithmetic f in_buf out_size step (length xs))
unfolding filter_run_buf
filter_run_buf-Runs arithmetic f window taps in_buf out_size step xs h e few =
    run_buf-Runs arithmetic out_size 0 step in_buf xs (pos 0) f window taps h e few

replicate-append :
    {F : Type 0} (m n : ℕ) (a : F) → replicate (m + n) a ≡ replicate m a ++ replicate n a
replicate-append zero n a = let e : zero + n ≡ n = omega arith in ap (λ k. replicate k a) e
replicate-append (suc m) n a =
    let e : suc m + n ≡ suc (m + n) = omega arith in
    ap (λ k. replicate k a) e ∙ ap (λ s. a ∷ s) (replicate-append m n a)

-- The filter that `filter_init` makes has a window of zeros.
pub filter_init-HasWindow :
    {F : Type 0} (arithmetic : Arithmetic F) (taps : List F)
    → 1 ≤ length taps
    → length taps + length taps ≤ buffer_len
    → (f : Filter F) × (filter_init arithmetic (length taps) taps ≡ some f)
      × HasWindow f (replicate (length taps) arithmetic.nought) taps
unfolding filter_init
filter_init-HasWindow arithmetic taps some_taps fits =
    let L = length taps in
    let zeros = replicate L arithmetic.nought in
    let rest = replicate (buffer_len - L) arithmetic.nought in
    let width : length zeros ≡ L = length-replicate L arithmetic.nought in
    let room : length rest ≡ buffer_len - L = length-replicate (buffer_len - L) arithmetic.nought in
    let split : buffer_len ≡ L + (buffer_len - L) = omega (arith, fits) in
    let buffer : replicate buffer_len arithmetic.nought ≡ zeros ++ rest =
      ap (λ k. replicate k arithmetic.nought) split
      ∙ replicate-append L (buffer_len - L) arithmetic.nought in
    let tapped : read 0 L taps ≡ some taps =
      ap (read 0 L) (sym (append-nil taps)) ∙ read-part [] taps [] 0 L refl refl in
    (
      filter_at [] zeros rest taps,
      ap
            (λ o. o >>= (λ own. some (record {
              length_f = L;
              taps = own;
              buffer = replicate buffer_len arithmetic.nought;
              pointer = L;
            })))
            tapped
          ∙ same_filter taps (sym width) (omega (arith, width)) buffer,
      has_window [] zeros rest taps (omega (arith, width, room, fits))
          (omega (arith, room, fits, some_taps)) (sym width) (omega (arith, width, some_taps))
          (omega (arith, width, fits)),
    )
