-- ===== src/Cfg/Destinations.antt =====
-- What holds of the variables of src/cfg.c that the directives set, and that each function of a
-- directive keeps it.
use gnuais.Common.{
  ℕ, ◌+◌, ◌≤◌, ◌≡◌, refl, Bool, true, false, Option, some, List, [], ◌∷◌, ◌>>=◌, if◌then◌else◌,
  length, All, All-set, lt→ltb, set, ◌∙◌, length-set, arith, ℤ, pos, negsuc, codes, ltb, leb, ◌&&◌,
}
use gnuais.Hlog.{same_nocase}
use gnuais.Json.{Uplink, uplink_json}
use gnuais.Cfgfile.{atoi}
use gnuais.Cfg.{
  Config, CfgCmd, max_ais_packet_type, mono, right, store_skip, skip_at, do_skip_type, do_sound_ch,
  do_uplink,
}

-- The channels are one of the four that there are, `skip_type` has an element for each type, which
-- is 0 or 1, and the uplinks have a protocol that the export knows.
abbrev pub IsConfig : Config → Type 0
IsConfig cfg =
    (mono ≤ cfg.sound_channels × cfg.sound_channels ≤ right)
    × (length cfg.skip_type ≡ max_ais_packet_type + 1)
    × All (λ b. b ≤ 1) cfg.skip_type
    × All (λ (up : Uplink). up.proto ≡ uplink_json) cfg.new_uplink_config

-- A call that makes no access out of bounds and leaves such variables.
pub data KeepsConfig {ℓ} {A : Type ℓ} (config : A → Config) : Option A → Type ℓ where
  keeps : (a : A) → IsConfig (config a) → KeepsConfig config (some a)

-- Words that are no uplink directive for JSON without a URL.
unfoldable pub HasUrl : (argv : List (List ℕ)) → Type 0
unfolding same_nocase
HasUrl (directive ∷ label ∷ proto ∷ []) = same_nocase proto (codes "json") ≡ false
HasUrl argv = Unit

abbrev pub Keeps : CfgCmd → Type 0
Keeps cmd =
    (cfg : Config) (argv : List (List ℕ))
    → HasUrl argv
    → IsConfig cfg
    → KeepsConfig (λ r. r.1) (cmd.function cfg argv)

pub do_sound_ch-bounds :
    (dest : ℕ) (argv : List (List ℕ))
    → mono ≤ dest × dest ≤ right
    → mono ≤ (do_sound_ch dest argv).1 × (do_sound_ch dest argv).1 ≤ right
unfolding do_sound_ch
do_sound_ch-bounds dest [] h = h
do_sound_ch-bounds dest (name ∷ []) h = h
do_sound_ch-bounds dest (name ∷ s ∷ args) h = (grind (arith, h), grind (arith, h))

-- What a function of a directive leaves in a destination.
pub data Leaves {A : Type 0} (P : A → Type 0) : Option (ℤ × A) → Type 0 where
  leaves : (r : ℤ × A) → P r.1 → Leaves P (some r)

if-Leaves :
    {A : Type 0} {P : A → Type 0} {x y : Option (ℤ × A)} (b : Bool)
    → ((b ≡ true) → Leaves P x)
    → Leaves P y
    → Leaves P (if b then x else y)
if-Leaves true p q = p refl
if-Leaves false p q = q

pub Leaves-KeepsConfig :
    {A : Type 0} {P : A → Type 0} (put : A → Config) {o : Option (ℤ × A)}
    → ((a : A) → P a → IsConfig (put a))
    → Leaves P o
    → KeepsConfig {A = ℤ × Config} (λ r. r.1) (o >>= (λ r. some (r.0, put r.1)))
Leaves-KeepsConfig put ok (leaves r p) = keeps _ (ok r.1 p)

abbrev pub AreFlags : List ℕ → Type 0
AreFlags skip_type = (length skip_type ≡ max_ais_packet_type + 1) × All (λ b. b ≤ 1) skip_type

store_skip-Leaves :
    (skip_type : List ℕ) (i : ℕ)
    → i ≤ max_ais_packet_type
    → AreFlags skip_type
    → Leaves AreFlags (store_skip skip_type i)
unfolding store_skip
store_skip-Leaves skip_type i h flags =
    let inside : ltb i (length skip_type) ≡ true =
      lt→ltb i (length skip_type) (omega (arith, flags.0)) in
    rw inside (
      leaves (pos 0, set skip_type i 1)
        (
          length-set skip_type i 1 ∙ flags.0,
          All-set (λ b. b ≤ 1) skip_type i 1 (omega arith) flags.1,
        ))

skip_at-Leaves :
    (skip_type : List ℕ) (i : ℤ) → AreFlags skip_type → Leaves AreFlags (skip_at skip_type i)
unfolding skip_at
skip_at-Leaves skip_type (pos i) flags =
    if-Leaves (ltb 0 i && leb i max_ais_packet_type)
      (λ e. store_skip-Leaves skip_type i (grind (arith, e)) flags) (leaves _ flags)
skip_at-Leaves skip_type (negsuc i) flags = leaves _ flags

pub do_skip_type-Leaves :
    (skip_type : List ℕ) (argv : List (List ℕ))
    → AreFlags skip_type
    → Leaves AreFlags (do_skip_type skip_type argv)
unfolding do_skip_type
do_skip_type-Leaves skip_type [] flags = leaves _ flags
do_skip_type-Leaves skip_type (name ∷ []) flags = leaves _ flags
do_skip_type-Leaves skip_type (name ∷ s ∷ args) flags = skip_at-Leaves skip_type (atoi s) flags

abbrev pub AreJson : List Uplink → Type 0
AreJson lq = All (λ (up : Uplink). up.proto ≡ uplink_json) lq

pub do_uplink-Leaves :
    (lq : List Uplink) (argv : List (List ℕ))
    → HasUrl argv
    → AreJson lq
    → Leaves AreJson (do_uplink lq argv)
unfolding do_uplink HasUrl
do_uplink-Leaves lq [] url h = leaves _ h
do_uplink-Leaves lq (a ∷ []) url h = leaves _ h
do_uplink-Leaves lq (a ∷ b ∷ []) url h = leaves _ h
do_uplink-Leaves lq (a ∷ b ∷ c ∷ []) url h = rw url (leaves _ h)
do_uplink-Leaves lq (a ∷ b ∷ c ∷ d ∷ args) url h =
    if-Leaves (same_nocase c (codes "json")) (λ e. leaves _ (refl, h)) (leaves _ h)
