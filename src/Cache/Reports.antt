-- ===== src/Cache/Reports.antt =====
-- The cache after a sequence of reports.
use gnuais.Common.{
  ℕ, ◌≡◌, refl, ap, subst, ◌∙◌, inl, inr, Bool-cases, Option, some, List, [], ◌∷◌, arith, ◌==◌,
  if◌then◌else◌,
}
use gnuais.Protodec.Types.{Update}
use gnuais.Splay.Refinement.{IsValid, or_else}
use gnuais.Cache.{CacheEnt, new_ent, Cache, cache_update}
use gnuais.Cache.Entries.{entry, reported, cache_update-Changes}

-- A call of the cache: the time, the ship and what is reported.
pub record Report : Type 0 where
  pub received_t : ℕ
  pub mmsi : ℕ
  pub update : Update

unfoldable pub update_all : List Report → Cache → Cache
update_all [] q = q
update_all (r ∷ rs) q = update_all rs (cache_update r.received_t r.mmsi r.update q)

-- What is known of a ship after some reports: its own ones, one after the other.
unfoldable pub known : (mmsi : ℕ) → Option CacheEnt → List Report → Option CacheEnt
known mmsi o [] = o
known mmsi o (r ∷ rs) =
    let told = known mmsi (some (reported r.received_t r.mmsi r.update (or_else new_ent o))) rs in
    let untold = known mmsi o rs in if r.mmsi == mmsi then told else untold

-- From a valid cache, after any reports in any order the entry of a ship is what its own reports
-- make of its entry before, and of a new entry if there was none.
pub entry-update_all :
    (mmsi : ℕ) (rs : List Report) (q : Cache)
    → IsValid q
    → entry mmsi (update_all rs q) ≡ known mmsi (entry mmsi q) rs
unfolding update_all known
entry-update_all mmsi [] q v = refl
entry-update_all mmsi (r ∷ rs) q v =
    let c = cache_update-Changes r.received_t r.mmsi r.update q v in
    let rest = entry-update_all mmsi rs (cache_update r.received_t r.mmsi r.update q) c.valid in
    elim (Bool-cases (r.mmsi == mmsi)) [
      | inl own ↦
          let same : r.mmsi ≡ mmsi = ground arith in
          let q' = cache_update r.received_t r.mmsi r.update q in
          let f = reported r.received_t r.mmsi r.update in
          rw own (
            rest
            ∙ ap (λ o. known mmsi o rs)
                (subst (λ m. entry m q' ≡ some (f (or_else new_ent (entry m q)))) same c.here))
      | inr other ↦ rw other (rest ∙ ap (λ o. known mmsi o rs) (c.elsewhere mmsi (ground arith)))
    ]
