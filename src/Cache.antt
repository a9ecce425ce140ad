-- ===== src/Cache.antt =====
-- src/cache.c: what is known of each ship, in a splay tree by MMSI. The mutex is not modelled: each
-- function holds it from its first access to its last one. `free` and `malloc` are not modelled; a
-- C string is `none` for NULL.
pub mod Entries
pub mod Reports
pub mod Free
use gnuais.Common.{
  ℕ, Bool, true, false, Option, none, some, List, [], ◌∷◌, ◌&&◌, ◌==◌, if◌then◌else◌, ℤ, pos,
  negsuc,
}
use gnuais.Protodec.Types.{Scaled, over, Update}
use gnuais.Splay.{Tree, leaf, node, SpTree, Node, sp_init, sp_lookup, install_found, sp_install}

-- struct cache_ent; `A` to `D` are `a` to `d`.
pub record CacheEnt : Type 0 where
  pub mmsi : ℕ
  pub received_pos : ℕ
  pub lat : Scaled
  pub lon : Scaled
  pub hdg : ℤ
  pub course : Scaled
  pub sog : Scaled
  pub navstat : ℤ
  pub received_data : ℕ
  pub imo : ℤ
  pub callsign : Option (List ℕ)
  pub name : Option (List ℕ)
  pub destination : Option (List ℕ)
  pub shiptype : ℤ
  pub a : ℤ
  pub b : ℤ
  pub c : ℤ
  pub d : ℤ
  pub draught : Scaled
  pub received_persons_on_board : ℕ
  pub persons_on_board : ℤ

-- The entry that `cache_get` makes.
unfoldable pub new_ent : CacheEnt
new_ent = record {
  mmsi = 0;
  received_pos = 0;
  lat = over (pos 0) 1;
  lon = over (pos 0) 1;
  hdg = negsuc 0;
  course = over (negsuc 0) 1;
  sog = over (negsuc 0) 1;
  navstat = negsuc 0;
  received_data = 0;
  imo = negsuc 0;
  callsign = none;
  name = none;
  destination = none;
  shiptype = negsuc 0;
  a = negsuc 0;
  b = negsuc 0;
  c = negsuc 0;
  d = negsuc 0;
  draught = over (pos 0) 1;
  received_persons_on_board = 0;
  persons_on_board = negsuc 0;
}

-- `cache_spt`
abbrev pub Cache : Type 0
Cache = SpTree CacheEnt

-- `cache_get` after its lookup: the tree, with the entry of the ship at its root.
unfoldable pub get_found : (mmsi : ℕ) → Option CacheEnt × Cache → Cache
unfolding sp_install new_ent
get_found mmsi (some e, q) = q
get_found mmsi (none, q) = sp_install mmsi new_ent q

unfoldable pub cache_get : (mmsi : ℕ) → Cache → Cache
unfolding sp_lookup get_found
cache_get mmsi q = get_found mmsi (sp_lookup mmsi q)

-- What is stored through the pointer that `cache_get` returned.
unfoldable pub at_root : (CacheEnt → CacheEnt) → Tree CacheEnt → Tree CacheEnt
at_root f leaf = leaf
at_root f (node l k e r) = node l k (f e) r

unfoldable pub with_entry : (mmsi : ℕ) → (CacheEnt → CacheEnt) → Cache → Cache
unfolding at_root cache_get
with_entry mmsi f q = let q' = cache_get mmsi q in record q' { root = at_root f q'.root }

-- strcmp(s, t) == 0
unfoldable pub same_string : (s t : List ℕ) → Bool
same_string [] [] = true
same_string [] (y ∷ t) = false
same_string (x ∷ s) [] = false
same_string (x ∷ s) (y ∷ t) = let rest = same_string s t in x == y && rest

-- `if (!p || strcmp(p, s) != 0) { hfree(p); p = hstrdup(s); }`
unfoldable pub keep_string : Option (List ℕ) → List ℕ → Option (List ℕ)
unfolding same_string
keep_string none new = some new
keep_string (some old) new = if same_string old new then some old else some new

-- The rate of turn is not stored.
unfoldable pub cache_position :
    (received_t mmsi : ℕ) (navstat : ℤ) (lat lon : Scaled) (hdg : ℕ) (course : Scaled)
    → (rateofturn : ℤ) (sog : Scaled) → Cache
    → Cache
unfolding with_entry
cache_position received_t mmsi navstat lat lon hdg course rateofturn sog = with_entry mmsi λ e.
    record e {
      mmsi = mmsi;
      received_pos = received_t;
      lat = lat;
      lon = lon;
      hdg = pos hdg;
      course = course;
      sog = sog;
      navstat = navstat;
    }

unfoldable pub cache_vesseldata :
    (received_t mmsi imo : ℕ) (callsign name destination : List ℕ) (shiptype a b c d : ℕ)
    → (draught : Scaled) → Cache
    → Cache
unfolding with_entry keep_string
cache_vesseldata received_t mmsi imo callsign name destination shiptype a b c d draught =
    with_entry mmsi λ e. record e {
      mmsi = mmsi;
      imo = pos imo;
      received_data = received_t;
      callsign = keep_string e.callsign callsign;
      name = keep_string e.name name;
      destination = keep_string e.destination destination;
      shiptype = pos shiptype;
      a = pos a;
      b = pos b;
      c = pos c;
      d = pos d;
      draught = draught;
    }

unfoldable pub cache_vesseldatab :
    (received_t mmsi : ℕ) (callsign : List ℕ) (shiptype a b c d : ℕ) → Cache → Cache
unfolding with_entry keep_string
cache_vesseldatab received_t mmsi callsign shiptype a b c d = with_entry mmsi λ e. record e {
  mmsi = mmsi;
  imo = pos 0;
  received_data = received_t;
  callsign = keep_string e.callsign callsign;
  shiptype = pos shiptype;
  a = pos a;
  b = pos b;
  c = pos c;
  d = pos d;
  draught = over (pos 0) 1;
}

unfoldable pub cache_vesseldatabb : (received_t mmsi shiptype a b c d : ℕ) → Cache → Cache
unfolding with_entry
cache_vesseldatabb received_t mmsi shiptype a b c d = with_entry mmsi λ e. record e {
  mmsi = mmsi;
  imo = pos 0;
  received_data = received_t;
  shiptype = pos shiptype;
  a = pos a;
  b = pos b;
  c = pos c;
  d = pos d;
  draught = over (pos 0) 1;
}

unfoldable pub cache_vesselname : (received_t mmsi : ℕ) (name destination : List ℕ) → Cache → Cache
unfolding with_entry keep_string
cache_vesselname received_t mmsi name destination = with_entry mmsi λ e. record e {
  mmsi = mmsi;
  received_data = received_t;
  name = keep_string e.name name;
  destination = keep_string e.destination destination;
}

unfoldable pub cache_vessel_persons : (received_t mmsi persons_on_board : ℕ) → Cache → Cache
unfolding with_entry
cache_vessel_persons received_t mmsi persons_on_board = with_entry mmsi λ e. record e {
  mmsi = mmsi;
  received_persons_on_board = received_t;
  persons_on_board = pos persons_on_board;
}

-- `cache_rotate`: the cache that is handed on for export, and the new one.
unfoldable pub cache_rotate : Cache → Cache × Cache
unfolding sp_init
cache_rotate cache_spt = (cache_spt, sp_init)

-- A call by a message decoder.
unfoldable pub cache_update : (received_t mmsi : ℕ) → Update → Cache → Cache
unfolding cache_position cache_vesseldata cache_vesseldatab cache_vesseldatabb cache_vesselname
    cache_vessel_persons
cache_update t mmsi (Update.position navstat lat lon hdg course rateofturn sog) =
    cache_position t mmsi navstat lat lon hdg course rateofturn sog
cache_update t mmsi (Update.vesseldata imo callsign name destination shiptype a b c d draught) =
    cache_vesseldata t mmsi imo callsign name destination shiptype a b c d draught
cache_update t mmsi (Update.vesseldatab callsign shiptype a b c d) =
    cache_vesseldatab t mmsi callsign shiptype a b c d
cache_update t mmsi (Update.vesseldatabb shiptype a b c d) =
    cache_vesseldatabb t mmsi shiptype a b c d
cache_update t mmsi (Update.vesselname name destination) = cache_vesselname t mmsi name destination
cache_update t mmsi (Update.vessel_persons persons) = cache_vessel_persons t mmsi persons
