-- ===== src/Cache/Free.antt =====
-- `cache_free`, `cache_free_entry` and `cache_deinit` of src/cache.c: the blocks of memory that they
-- give back, in order.
pub mod Owners
pub mod Blocks
use gnuais.Common.{
  ◌⊎◌, inl, inr, ◌↔◌, subst, ℕ, ◌+◌, ◌*◌, ◌≤◌, ◌<◌, ◌≡◌, ◌≢◌, All, refl, sym, ap, ap₂, Option, none,
  some, List, [], ◌∷◌, ◌++◌, append_assoc, append-nil, arith, ◌>>=◌, length,
}
use gnuais.Splay.{Node, sp_init}
use gnuais.Splay.Sorted.{Sorted, NotBelow, All-weaken}
use gnuais.Splay.Order.{inorder}
use gnuais.Splay.Refinement.{IsValid}
use gnuais.Splay.Drain.{drain, drain-inorder}
use gnuais.Cache.{CacheEnt, Cache}

-- A block that `hfree` gets: a string of the ship `mmsi`, its entry, or the header of the tree.
pub data Block : Type 0 where
  name : (mmsi : ℕ) → List ℕ → Block
  destination : (mmsi : ℕ) → List ℕ → Block
  callsign : (mmsi : ℕ) → List ℕ → Block
  entry : (mmsi : ℕ) → Block
  sptree : Block

-- `if (e->name) hfree(e->name);`
unfoldable pub free_if : (List ℕ → Block) → Option (List ℕ) → List Block
free_if block none = []
free_if block (some s) = block s ∷ []

-- `cache_free_entry`, of the entry with the key `key`
unfoldable pub cache_free_entry : (key : ℕ) → CacheEnt → List Block
unfolding free_if
cache_free_entry key e =
    free_if (name key) e.name
    ++ free_if (destination key) e.destination
    ++ free_if (callsign key) e.callsign
    ++ entry key ∷ []

-- The body of the loop for the nodes that it visits: `freed`, and the blocks.
unfoldable pub free_entries :
    List (Node CacheEnt) → (freed : ℕ) (blocks : List Block) → ℕ × List Block
unfolding cache_free_entry
free_entries [] freed blocks = (freed, blocks)
free_entries ((key, e) ∷ entries) freed blocks =
    free_entries entries (freed + 1) (blocks ++ cache_free_entry key e)

-- `cache_free`: `freed`, the blocks, and the tree that is left.
unfoldable pub cache_free : Cache → Option (ℕ × List Block × Cache)
unfolding drain free_entries
cache_free sp = do
  (visited, sp') ← drain sp
  let (freed, blocks) = free_entries visited 0 []
  some (freed, blocks, sp')

-- `cache_deinit`, without the free list of the nodes
unfoldable pub cache_deinit : Cache → Option (List Block)
unfolding cache_free
cache_deinit cache_spt = do
  (freed, blocks, sp') ← cache_free cache_spt
  some (blocks ++ sptree ∷ [])

-- The blocks of the entries, one after the other.
unfoldable pub blocks_of : List (Node CacheEnt) → List Block
unfolding cache_free_entry
blocks_of [] = []
blocks_of ((key, e) ∷ entries) = cache_free_entry key e ++ blocks_of entries

pub free_entries-blocks_of :
    (entries : List (Node CacheEnt)) (freed : ℕ) (blocks : List Block)
    → free_entries entries freed blocks ≡ (freed + length entries, blocks ++ blocks_of entries)
unfolding free_entries blocks_of
free_entries-blocks_of [] freed blocks =
    ap₂ (λ n bs. (n, bs)) (omega arith) (sym (append-nil blocks))
free_entries-blocks_of ((key, e) ∷ entries) freed blocks =
    rw (free_entries-blocks_of entries (freed + 1) (blocks ++ cache_free_entry key e)) (
      ap₂ (λ n bs. (n, bs)) (omega arith)
        (append_assoc blocks (cache_free_entry key e) (blocks_of entries)))
