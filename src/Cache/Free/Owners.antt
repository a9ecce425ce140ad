-- ===== src/Cache/Free/Owners.antt =====
-- The blocks that `cache_free` of src/cache.c gives back, against what the ships have.
use gnuais.Common.{
  ◌⊎◌, inl, inr, ◌↔◌, subst, ℕ, ◌≡◌, refl, sym, Option, none, some, List, [], ◌∷◌, ◌++◌,
}
use gnuais.Splay.{Node}
use gnuais.Cache.{CacheEnt}
use gnuais.Cache.Free.{
  Block, name, destination, callsign, entry, free_if, cache_free_entry, blocks_of,
}

-- The block is in the list.
abbrev pub IsIn : Block → List Block → Type 0
IsIn b [] = ⊥
IsIn b (c ∷ bs) = (b ≡ c) ⊎ IsIn b bs

-- What a ship has: its strings, so far as they are known, and its entry.
pub data Owns (key : ℕ) (e : CacheEnt) : Block → Type 0 where
  owns_name : (s : List ℕ) → e.name ≡ some s → Owns key e (name key s)
  owns_destination : (s : List ℕ) → e.destination ≡ some s → Owns key e (destination key s)
  owns_callsign : (s : List ℕ) → e.callsign ≡ some s → Owns key e (callsign key s)
  owns_entry : Owns key e (entry key)

-- One of the ships has the block.
abbrev pub SomeOwns : List (Node CacheEnt) → Block → Type 0
SomeOwns [] b = ⊥
SomeOwns ((key, e) ∷ ships) b = Owns key e b ⊎ SomeOwns ships b

IsIn-front : (b : Block) (xs ys : List Block) → IsIn b xs → IsIn b (xs ++ ys)
IsIn-front b [] ys h = absurd h
IsIn-front b (x ∷ xs) ys (inl here) = inl here
IsIn-front b (x ∷ xs) ys (inr later) = inr (IsIn-front b xs ys later)

IsIn-back : (b : Block) (xs ys : List Block) → IsIn b ys → IsIn b (xs ++ ys)
IsIn-back b [] ys h = h
IsIn-back b (x ∷ xs) ys h = inr (IsIn-back b xs ys h)

IsIn-either : (b : Block) (xs ys : List Block) → IsIn b (xs ++ ys) → IsIn b xs ⊎ IsIn b ys
IsIn-either b [] ys h = inr h
IsIn-either b (x ∷ xs) ys (inl here) = inl (inl here)
IsIn-either b (x ∷ xs) ys (inr later) = elim (IsIn-either b xs ys later) [
  | inl front ↦ inl (inr front)
  | inr back ↦ inr back
]

freed-if :
    (block : List ℕ → Block) (o : Option (List ℕ)) (b : Block)
    → IsIn b (free_if block o)
    → (s : List ℕ) × (o ≡ some s) × (b ≡ block s)
unfolding free_if
freed-if block none b h = absurd h
freed-if block (some s) b (inl e) = (s, refl, e)
freed-if block (some s) b (inr h) = absurd h

if-freed :
    (block : List ℕ → Block) (o : Option (List ℕ)) (s : List ℕ)
    → o ≡ some s
    → IsIn (block s) (free_if block o)
unfolding free_if
if-freed block o s e = rw e (inl refl)

entry-owned : (key : ℕ) (e : CacheEnt) (b : Block) → IsIn b (cache_free_entry key e) → Owns key e b
unfolding cache_free_entry
entry-owned key e b h = elim (IsIn-either b _ (entry key ∷ []) h) [
  | inr (inl same) ↦ subst (Owns key e) (sym same) owns_entry
  | inr (inr never) ↦ absurd never
  | inl h' ↦ elim (IsIn-either b _ (free_if (callsign key) e.callsign) h') [
    | inr h3 ↦
        let (s, known, same) = freed-if (callsign key) e.callsign b h3 in
        subst (Owns key e) (sym same) (owns_callsign s known)
    | inl h'' ↦ elim (IsIn-either b _ (free_if (destination key) e.destination) h'') [
      | inr h2 ↦
          let (s, known, same) = freed-if (destination key) e.destination b h2 in
          subst (Owns key e) (sym same) (owns_destination s known)
      | inl h1 ↦
          let (s, known, same) = freed-if (name key) e.name b h1 in
          subst (Owns key e) (sym same) (owns_name s known)
    ]
  ]
]

owned-entry : (key : ℕ) (e : CacheEnt) (b : Block) → Owns key e b → IsIn b (cache_free_entry key e)
unfolding cache_free_entry
owned-entry key e _ (owns_name s known) =
    IsIn-front _ _ _ (IsIn-front _ _ _ (IsIn-front _ _ _ (if-freed (name key) e.name s known)))
owned-entry key e _ (owns_destination s known) = IsIn-front _ _ _ (
    IsIn-front _ _ _ (
      IsIn-back _ (free_if (name key) e.name) _ (if-freed (destination key) e.destination s known)))
owned-entry key e _ (owns_callsign s known) = IsIn-front _ _ _ (
    IsIn-back _ (free_if (name key) e.name ++ free_if (destination key) e.destination) _
      (if-freed (callsign key) e.callsign s known))
owned-entry key e _ owns_entry =
    IsIn-back _
      (free_if (name key) e.name
        ++ free_if (destination key) e.destination
        ++ free_if (callsign key) e.callsign)
      _ (inl refl)

pub blocks_of-SomeOwns :
    (ships : List (Node CacheEnt)) (b : Block) → IsIn b (blocks_of ships) ↔ SomeOwns ships b
unfolding blocks_of
blocks_of-SomeOwns [] b = ((λ h. h), (λ h. h))
blocks_of-SomeOwns ((key, e) ∷ ships) b =
    let rest = blocks_of-SomeOwns ships b in
    (
      (λ h. elim (IsIn-either b (cache_free_entry key e) (blocks_of ships) h) [
        | inl here ↦ inl (entry-owned key e b here)
        | inr later ↦ inr (rest.0 later)
      ]),
      (λ h. elim h [
        | inl here ↦
            IsIn-front b (cache_free_entry key e) (blocks_of ships) (owned-entry key e b here)
        | inr later ↦ IsIn-back b (cache_free_entry key e) (blocks_of ships) (rest.1 later)
      ]),
    )
