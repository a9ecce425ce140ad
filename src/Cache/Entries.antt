-- ===== src/Cache/Entries.antt =====
-- The cache as a finite map from MMSI to entries.
use gnuais.Common.{
  ℕ, ◌≡◌, ◌≢◌, refl, sym, ap, ap₂, ◌∙◌, true, inl, inr, Bool-cases, Option, Option-cases, none,
  some, List, [], ◌∷◌, pos, arith, length-append,
}
use gnuais.Protodec.Types.{over, Update}
use gnuais.Splay.{Tree, Node, find, install_found, sp_install}
use gnuais.Splay.Sorted.{Sorted-Around, assoc, assoc-here, assoc-elsewhere}
use gnuais.Splay.Order.{inorder}
use gnuais.Splay.Refinement.{
  IsValid, Installs, or_else, lookup_none, lookup_some, sp_install-Installs,
}
use gnuais.Splay.Root.{RootedAt, rooted, sp_install-RootedAt, Sorted-change}
use gnuais.Cache.{
  CacheEnt, new_ent, Cache, get_found, cache_get, at_root, with_entry, same_string, keep_string,
  cache_update,
}

same_string-eq : (s t : List ℕ) → same_string s t ≡ true → s ≡ t
unfolding same_string
same_string-eq [] [] e = refl
same_string-eq [] (y ∷ t) e = absurd cc
same_string-eq (x ∷ s) [] e = absurd cc
same_string-eq (x ∷ s) (y ∷ t) e =
    ap₂ (λ z zs. z ∷ zs) (ground (arith, e)) (same_string-eq s t (ground (arith, e)))

-- Whether or not the string is the same, the new one is stored in the end.
keep_string-some : (old : Option (List ℕ)) (new : List ℕ) → keep_string old new ≡ some new
unfolding keep_string
keep_string-some none new = refl
keep_string-some (some old) new = elim (Bool-cases (same_string old new)) [
  | inl same ↦ rw same (ap some (same_string-eq old new same))
  | inr other ↦ rw other
]

-- `cache_get` installs a new entry unless there is one.
cache_get-sp_install : (mmsi : ℕ) (q : Cache) → cache_get mmsi q ≡ sp_install mmsi new_ent q
unfolding cache_get sp_install get_found install_found
cache_get-sp_install mmsi q = elim (Option-cases (find mmsi q.root [])) [
  | inl missing ↦ rw (lookup_none mmsi q missing) (rw (lookup_none mmsi q missing))
  | inr found ↦ rw (lookup_some mmsi q found.0 found.1)
]

-- The entry of a ship in the cache, if there is one.
abbrev pub entry : (mmsi : ℕ) → Cache → Option CacheEnt
entry mmsi q = assoc mmsi (inorder q.root)

-- The entry of one ship is changed by `f`, after it was made if there was none.
pub record Changes (mmsi : ℕ) (f : CacheEnt → CacheEnt) (q q' : Cache) : Type 0 where
  pub valid : IsValid q'
  pub here : entry mmsi q' ≡ some (f (or_else new_ent (entry mmsi q)))
  pub elsewhere : (other : ℕ) → other ≢ mmsi → entry other q' ≡ entry other q

at_root-Changes :
    (mmsi : ℕ) (f : CacheEnt → CacheEnt) (q : Cache) (t : Tree CacheEnt) (count : ℕ)
    → Installs mmsi new_ent q (record { root = t; eltscnt = count })
    → RootedAt mmsi t
    → Changes mmsi f q (record { root = at_root f t; eltscnt = count })
unfolding at_root inorder
at_root-Changes mmsi f q _ count i (rooted l e r) =
    let left : List (Node CacheEnt) = inorder l in
    let right : List (Node CacheEnt) = inorder r in
    let around = Sorted-Around left mmsi e right i.valid.sorted in
    let old : some e ≡ some (or_else new_ent (entry mmsi q)) =
      sym (assoc-here left mmsi e right around.below) ∙ i.here in
    record {
      valid = record {
        sorted = Sorted-change left mmsi e (f e) right i.valid.sorted;
        counted = omega (
          arith,
          i.valid.counted,
          length-append left ((mmsi, e) ∷ right),
          length-append left ((mmsi, f e) ∷ right),
        );
      };
      here = assoc-here left mmsi (f e) right around.below ∙ ap (λ o. some (f (or_else e o))) old;
      elsewhere = λ other ne.
          assoc-elsewhere other left mmsi (f e) right ne
          ∙ (sym (assoc-elsewhere other left mmsi e right ne) ∙ i.elsewhere other ne);
    }

with_entry-Changes :
    (mmsi : ℕ) (f : CacheEnt → CacheEnt) (q : Cache)
    → IsValid q
    → Changes mmsi f q (with_entry mmsi f q)
unfolding with_entry
with_entry-Changes mmsi f q v = rw (cache_get-sp_install mmsi q) (
    at_root-Changes mmsi f q _ _ (sp_install-Installs mmsi new_ent q v)
      (sp_install-RootedAt mmsi new_ent q))

-- What a report says of a ship, as it stands in the ship's entry afterwards.
unfoldable pub reported : (received_t mmsi : ℕ) → Update → CacheEnt → CacheEnt
reported t mmsi (Update.position navstat lat lon hdg course rateofturn sog) e = record e {
  mmsi = mmsi;
  received_pos = t;
  lat = lat;
  lon = lon;
  hdg = pos hdg;
  course = course;
  sog = sog;
  navstat = navstat;
}
reported t mmsi (Update.vesseldata imo callsign name destination shiptype a b c d draught) e =
    record e {
      mmsi = mmsi;
      received_data = t;
      imo = pos imo;
      callsign = some callsign;
      name = some name;
      destination = some destination;
      shiptype = pos shiptype;
      a = pos a;
      b = pos b;
      c = pos c;
      d = pos d;
      draught = draught;
    }
reported t mmsi (Update.vesseldatab callsign shiptype a b c d) e = record e {
  mmsi = mmsi;
  received_data = t;
  imo = pos 0;
  callsign = some callsign;
  shiptype = pos shiptype;
  a = pos a;
  b = pos b;
  c = pos c;
  d = pos d;
  draught = over (pos 0) 1;
}
reported t mmsi (Update.vesseldatabb shiptype a b c d) e = record e {
  mmsi = mmsi;
  received_data = t;
  imo = pos 0;
  shiptype = pos shiptype;
  a = pos a;
  b = pos b;
  c = pos c;
  d = pos d;
  draught = over (pos 0) 1;
}
reported t mmsi (Update.vesselname name destination) e = record e {
  mmsi = mmsi;
  received_data = t;
  name = some name;
  destination = some destination;
}
reported t mmsi (Update.vessel_persons persons) e = record e {
  mmsi = mmsi;
  received_persons_on_board = t;
  persons_on_board = pos persons;
}

same-Changes :
    (mmsi : ℕ) (f g : CacheEnt → CacheEnt) (q q' : Cache)
    → ((e : CacheEnt) → f e ≡ g e)
    → Changes mmsi f q q'
    → Changes mmsi g q q'
same-Changes mmsi f g q q' same c = record {
  valid = c.valid;
  here = c.here ∙ ap some (same (or_else new_ent (entry mmsi q)));
  elsewhere = c.elsewhere;
}

-- In a valid cache, a report changes the entry of its ship to what it says, in a new entry if there
-- is none yet, and what it does not say stays; the entry of no other ship changes, and the cache
-- stays valid.
pub cache_update-Changes :
    (received_t mmsi : ℕ) (u : Update) (q : Cache)
    → IsValid q
    → Changes mmsi (reported received_t mmsi u) q (cache_update received_t mmsi u q)
unfolding cache_update reported
cache_update-Changes t mmsi (Update.position navstat lat lon hdg course rateofturn sog) q v =
    same-Changes mmsi _ _ q _ (λ e. refl) (with_entry-Changes mmsi _ q v)
cache_update-Changes t mmsi
      (Update.vesseldata imo callsign name destination shiptype a b c d draught) q v =
    same-Changes mmsi _ _ q _
      (λ e. rw (
        keep_string-some e.callsign callsign,
        keep_string-some e.name name,
        keep_string-some e.destination destination,
      ))
      (with_entry-Changes mmsi _ q v)
cache_update-Changes t mmsi (Update.vesseldatab callsign shiptype a b c d) q v =
    same-Changes mmsi _ _ q _ (λ e. rw (keep_string-some e.callsign callsign))
      (with_entry-Changes mmsi _ q v)
cache_update-Changes t mmsi (Update.vesseldatabb shiptype a b c d) q v =
    same-Changes mmsi _ _ q _ (λ e. refl) (with_entry-Changes mmsi _ q v)
cache_update-Changes t mmsi (Update.vesselname name destination) q v =
    same-Changes mmsi _ _ q _
      (λ e. rw (keep_string-some e.name name, keep_string-some e.destination destination))
      (with_entry-Changes mmsi _ q v)
cache_update-Changes t mmsi (Update.vessel_persons persons) q v =
    same-Changes mmsi _ _ q _ (λ e. refl) (with_entry-Changes mmsi _ q v)
