-- ===== src/Cfg/Interval.antt =====
-- `parse_interval` of src/cfg.c on intervals that are written as the documentation of the
-- configuration has them, like 1d12h or 90.
use gnuais.Common.{
  suc, zero, ◌%◌, ◌^◌, ◌<◌, ltb, ℤ, pos, ◌+ℤ◌, ℕ, ◌+◌, ◌-◌, ◌*◌, ◌≤◌, ◌≡◌, refl, sym, ap, ◌∙◌, Bool,
  true, false, List, [], ◌∷◌, ◌++◌, map, append_assoc, append-nil, arith, if◌then◌else◌, All,
}
use gnuais.Hlog.{to_lower}
use gnuais.Cfgfile.{isdigit, hatoll_from, hatoll}
use gnuais.Cfg.{as_int, interval_part, unit_seconds, parse_interval_loop, parse_interval}

pub data TimeUnit : Type 0 where
  seconds : TimeUnit
  minutes : TimeUnit
  hours : TimeUnit
  days : TimeUnit

-- The length of a unit in seconds, and its letter.
unfoldable pub factor : TimeUnit → ℕ
factor seconds = 1
factor minutes = 60
factor hours = 3600
factor days = 86400

unfoldable pub letter : (upper : Bool) → TimeUnit → ℕ
letter true seconds = b'S'
letter true minutes = b'M'
letter true hours = b'H'
letter true days = b'D'
letter false seconds = b's'
letter false minutes = b'm'
letter false hours = b'h'
letter false days = b'd'

-- A number in figures below 10, with a unit.
pub record Part : Type 0 where
  pub figures : List ℕ
  pub upper : Bool
  pub unit : TimeUnit

abbrev pub AreFigures : List ℕ → Type 0
AreFigures ds = All (λ d. d ≤ 9) ds

-- The value of figures behind those of the value `v`.
unfoldable pub value_from : (v : ℕ) → List ℕ → ℕ
value_from v [] = v
value_from v (d ∷ ds) = value_from (v * 10 + d) ds

unfoldable pub figures_text : List ℕ → List ℕ
figures_text ds = map (λ d. d + 48) ds

unfoldable pub parts_text : List Part → List ℕ
unfolding figures_text letter
parts_text [] = []
parts_text (p ∷ ps) = figures_text p.figures ++ letter p.upper p.unit ∷ parts_text ps

unfoldable pub parts_total : List Part → ℕ
unfolding factor value_from
parts_total [] = 0
parts_total (p ∷ ps) = factor p.unit * value_from 0 p.figures + parts_total ps

isdigit-figure : (d : ℕ) → d ≤ 9 → isdigit (d + 48) ≡ true
unfolding isdigit
isdigit-figure d h = grind (arith, h)

hatoll_from-figures_text :
    (v : ℕ) (ds : List ℕ) → AreFigures ds → hatoll_from v (figures_text ds) ≡ value_from v ds
unfolding hatoll_from figures_text value_from
hatoll_from-figures_text v [] h = refl
hatoll_from-figures_text v (d ∷ ds) h =
    let same : d + 48 - 48 ≡ d = omega arith in
    rw (isdigit-figure d h.0, same) (hatoll_from-figures_text (v * 10 + d) ds h.1)

loop-figure :
    (t : ℤ) (np : List ℕ) (d : ℕ) (p : List ℕ)
    → d ≤ 9
    → parse_interval_loop t np ((d + 48) ∷ p) ≡ parse_interval_loop t (np ++ (d + 48) ∷ []) p
unfolding parse_interval_loop
loop-figure t np d p h =
    ap
      (λ b.
        parse_interval_loop
          (if b then t else t +ℤ interval_part (unit_seconds (to_lower (d + 48))) np)
          (if b then np ++ (d + 48) ∷ [] else []) p)
      (isdigit-figure d h)

loop-end : (t : ℤ) (np : List ℕ) → parse_interval_loop t np [] ≡ t +ℤ interval_part 1 np
unfolding parse_interval_loop
loop-end t np = refl

loop-figures :
    (t : ℤ) (np ds p : List ℕ)
    → AreFigures ds
    → parse_interval_loop t np (figures_text ds ++ p)
      ≡ parse_interval_loop t (np ++ figures_text ds) p
unfolding figures_text
loop-figures t np [] p h = ap (λ s. parse_interval_loop t s p) (sym (append-nil np))
loop-figures t np (d ∷ ds) p h =
    loop-figure t np d (figures_text ds ++ p) h.0
    ∙ (loop-figures t (np ++ (d + 48) ∷ []) ds p h.1
        ∙ ap (λ s. parse_interval_loop t s p) (append_assoc np ((d + 48) ∷ []) (figures_text ds)))

loop-letter :
    (t : ℤ) (np p : List ℕ) (upper : Bool) (u : TimeUnit)
    → parse_interval_loop t np (letter upper u ∷ p)
      ≡ parse_interval_loop (t +ℤ interval_part (factor u) np) [] p
unfolding parse_interval_loop letter factor unit_seconds to_lower isdigit
loop-letter t np p true seconds = refl
loop-letter t np p true minutes = refl
loop-letter t np p true hours = refl
loop-letter t np p true days = refl
loop-letter t np p false seconds = refl
loop-letter t np p false minutes = refl
loop-letter t np p false hours = refl
loop-letter t np p false days = refl

factor-pos : (u : TimeUnit) → 1 ≤ factor u
unfolding factor
factor-pos seconds = omega arith
factor-pos minutes = omega arith
factor-pos hours = omega arith
factor-pos days = omega arith

below_product : (u v w : ℕ) → 1 ≤ u → u * v < w → v < w
below_product zero v w p h = absurd (omega arith)
below_product (suc u) v w p h = let more : v ≤ suc u * v = omega arith in omega arith

as_int-small : (n : ℕ) → n < 2147483648 → as_int n ≡ pos n
unfolding as_int
as_int-small n h = ground (arith, h)

interval_part-small :
    (unit v : ℕ) (np : List ℕ)
    → hatoll np ≡ v
    → v < 2147483648
    → unit * v < 2147483648
    → interval_part unit np ≡ pos (unit * v)
unfolding interval_part
interval_part-small unit v np e q h =
    let long : ltb v (2 ^ 63) ≡ true = ground (arith, q) in
    let low : v % 2 ^ 32 ≡ v = omega (arith, q) in rw (e, long, low) (as_int-small (unit * v) h)

-- The numbers of an interval, times their units, are below 2 ^ 31.
abbrev pub AreSmall : List Part → Type 0
AreSmall ps = All (λ p. factor p.unit * value_from 0 p.figures < 2147483648) ps

figures_part :
    (u : TimeUnit) (ds : List ℕ)
    → AreFigures ds
    → factor u * value_from 0 ds < 2147483648
    → interval_part (factor u) (figures_text ds) ≡ pos (factor u * value_from 0 ds)
figures_part u ds h small =
    interval_part-small (factor u) (value_from 0 ds) (figures_text ds)
      (unfold hatoll in hatoll_from-figures_text 0 ds h)
      (below_product (factor u) (value_from 0 ds) 2147483648 (factor-pos u) small) small

tail_part :
    (ds : List ℕ)
    → AreFigures ds
    → value_from 0 ds < 2147483648
    → interval_part 1 (figures_text ds) ≡ pos (value_from 0 ds)
unfolding factor
tail_part ds h small = figures_part seconds ds h (omega (arith, small)) ∙ ap pos (omega arith)

loop-parts :
    (t : ℕ) (ps : List Part) (tail : List ℕ)
    → All (λ p. AreFigures p.figures) ps
    → AreSmall ps
    → AreFigures tail
    → value_from 0 tail < 2147483648
    → parse_interval_loop (pos t) [] (parts_text ps ++ figures_text tail)
      ≡ pos (t + (parts_total ps + value_from 0 tail))
unfolding parts_text parts_total
loop-parts t [] tail h q g small =
    let rest = ap (λ s. parse_interval_loop (pos t) [] s) (sym (append-nil (figures_text tail))) in
    rest
    ∙ (loop-figures (pos t) [] tail [] g
        ∙ (loop-end (pos t) (figures_text tail)
            ∙ (ap (λ k. pos t +ℤ k) (tail_part tail g small) ∙ ap pos (omega arith))))
loop-parts t (p ∷ ps) tail h q g small =
    let more = parts_text ps ++ figures_text tail in
    let rest = letter p.upper p.unit ∷ more in
    let n = factor p.unit * value_from 0 p.figures in
    ap (parse_interval_loop (pos t) []) (
      append_assoc (figures_text p.figures) (letter p.upper p.unit ∷ parts_text ps)
        (figures_text tail))
    ∙ (loop-figures (pos t) [] p.figures rest h.0
        ∙ (loop-letter (pos t) (figures_text p.figures) more p.upper p.unit
            ∙ (ap (λ k. parse_interval_loop (pos t +ℤ k) [] more)
                  (figures_part p.unit p.figures h.0 q.0)
                ∙ (loop-parts (t + n) ps tail h.1 q.1 g small ∙ ap pos (omega arith)))))

-- An interval of numbers with a unit each (s, m, h or d, in either case) and perhaps a number
-- without a unit at the end is read as the sum of the numbers times their units, in seconds, if each
-- number times its unit is below 2 ^ 31, as the arithmetic is that of an int.
pub parse_interval-parts :
    (ps : List Part) (tail : List ℕ)
    → All (λ p. AreFigures p.figures) ps
    → AreSmall ps
    → AreFigures tail
    → value_from 0 tail < 2147483648
    → parse_interval (parts_text ps ++ figures_text tail) ≡ pos (parts_total ps + value_from 0 tail)
unfolding parse_interval
parse_interval-parts ps tail h q g small = loop-parts 0 ps tail h q g small ∙ ap pos (omega arith)
