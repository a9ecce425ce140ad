-- ===== src/Cache/Free/Blocks.antt =====
-- All blocks that `cache_free` of src/cache.c gives back, once each.
use gnuais.Common.{
  ◌↔◌, ℕ, ◌+◌, ◌*◌, ◌≤◌, ◌<◌, ◌≡◌, ◌≢◌, All, refl, ap, Option, none, some, List, [], ◌∷◌, ◌++◌,
  append_assoc, arith,
}
use gnuais.Splay.{Node, sp_init}
use gnuais.Splay.Sorted.{Sorted, NotBelow, All-weaken}
use gnuais.Splay.Order.{inorder}
use gnuais.Splay.Refinement.{IsValid}
use gnuais.Splay.Drain.{drain-inorder}
use gnuais.Cache.{CacheEnt, Cache}
use gnuais.Cache.Free.{
  Block, name, destination, callsign, entry, sptree, free_if, cache_free_entry, cache_free,
  blocks_of, free_entries-blocks_of,
}
use gnuais.Cache.Free.Owners.{IsIn, SomeOwns, blocks_of-SomeOwns}

-- No block is in the list twice.
abbrev pub Once : List Block → Type 0
Once [] = Unit
Once (b ∷ bs) = All (λ c. b ≢ c) bs × Once bs

-- A number of a block: by the ship, and then in the order of `cache_free_entry`.
rank : Block → ℕ
rank (name mmsi s) = mmsi * 4
rank (destination mmsi s) = mmsi * 4 + 1
rank (callsign mmsi s) = mmsi * 4 + 2
rank (entry mmsi) = mmsi * 4 + 3
rank sptree = 0

-- The ranks ascend, from `n` on.
abbrev Rising : ℕ → List Block → Type 0
Rising n [] = Unit
Rising n (b ∷ bs) = n ≤ rank b × Rising (rank b + 1) bs

Rising-lower : (m n : ℕ) (bs : List Block) → m ≤ n → Rising n bs → Rising m bs
Rising-lower m n [] h p = tt
Rising-lower m n (b ∷ bs) h p = (omega (arith, p.0), p.1)

Rising-apart :
    (b : Block) (n : ℕ) (bs : List Block) → rank b < n → Rising n bs → All (λ c. b ≢ c) bs
Rising-apart b n [] h p = tt
Rising-apart b n (c ∷ bs) h p = (
  (λ e. absurd (omega (arith, ap rank e, p.0))),
  Rising-apart b (rank c + 1) bs (omega (arith, p.0)) p.1,
)

Rising-Once : (n : ℕ) (bs : List Block) → Rising n bs → Once bs
Rising-Once n [] p = tt
Rising-Once n (b ∷ bs) p =
    (Rising-apart b (rank b + 1) bs (omega arith) p.1, Rising-Once (rank b + 1) bs p.1)

free_if-Rising :
    (block : List ℕ → Block) (o : Option (List ℕ)) (m n : ℕ) (bs : List Block)
    → ((s : List ℕ) → rank (block s) ≡ n)
    → n + 1 ≤ m
    → Rising m bs
    → Rising n (free_if block o ++ bs)
unfolding free_if
free_if-Rising block none m n bs h lt p = Rising-lower n m bs (omega arith) p
free_if-Rising block (some s) m n bs h lt p =
    (omega (arith, h s), Rising-lower (rank (block s) + 1) m bs (omega (arith, h s, lt)) p)

cache_free_entry-Rising :
    (key : ℕ) (e : CacheEnt) (bs : List Block)
    → Rising (key * 4 + 4) bs
    → Rising (key * 4) (cache_free_entry key e ++ bs)
unfolding cache_free_entry rank
cache_free_entry-Rising key e bs p =
    let last : Rising (key * 4 + 3) (entry key ∷ bs) =
      (omega arith, Rising-lower _ (key * 4 + 4) bs (omega arith) p) in
    let third =
      free_if-Rising (callsign key) e.callsign (key * 4 + 3) (key * 4 + 2) (entry key ∷ bs)
        (λ s. refl) (omega arith) last in
    let second =
      free_if-Rising (destination key) e.destination (key * 4 + 2) (key * 4 + 1) _ (λ s. refl)
        (omega arith) third in
    let first =
      free_if-Rising (name key) e.name (key * 4 + 1) (key * 4) _ (λ s. refl) (omega arith) second in
    simp append_assoc first

blocks_of-Rising :
    (n : ℕ) (entries : List (Node CacheEnt))
    → NotBelow n entries
    → Sorted entries
    → Rising (n * 4) (blocks_of entries)
unfolding blocks_of
blocks_of-Rising n [] low p = tt
blocks_of-Rising n ((key, e) ∷ entries) low p =
    let rest : Rising (key * 4 + 4) (blocks_of entries) =
      Rising-lower (key * 4 + 4) ((key + 1) * 4) (blocks_of entries) (omega arith) (
        blocks_of-Rising (key + 1) entries
          (All-weaken (λ x. key < x.0) (λ x. key + 1 ≤ x.0) entries (λ x h. omega arith) p.0)
          p.1) in
    Rising-lower (n * 4) (key * 4) _ (omega (arith, low.0))
      (cache_free_entry-Rising key e (blocks_of entries) rest)

all_NotBelow : (entries : List (Node CacheEnt)) → NotBelow 0 entries
all_NotBelow [] = tt
all_NotBelow (e ∷ entries) = (omega arith, all_NotBelow entries)

-- On a valid cache `cache_free` ends, counts the ships, and leaves an empty tree. A block that it frees
-- is the entry of a ship, its name, its destination or its callsign; it frees all of these that there
-- are, and none twice.
pub cache_free-blocks :
    (sp : Cache)
    → IsValid sp
    → (blocks : List Block) × (cache_free sp ≡ some (sp.eltscnt, blocks, sp_init))
      × Once blocks
      × ((b : Block) → IsIn b blocks ↔ SomeOwns (inorder sp.root) b)
unfolding cache_free
cache_free-blocks sp v =
    let once =
      Rising-Once 0 _
        (blocks_of-Rising 0 (inorder sp.root) (all_NotBelow (inorder sp.root)) v.sorted) in
    (
      blocks_of (inorder sp.root),
      rw (drain-inorder sp v, free_entries-blocks_of (inorder sp.root) 0 [], v.counted)
          (ap (λ n. some (n, blocks_of (inorder sp.root), sp_init)) (omega arith)),
      once,
      blocks_of-SomeOwns (inorder sp.root),
    )
