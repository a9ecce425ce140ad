-- ===== src/Witnesses/Export.antt =====
-- The theorems on the end of a cache, its export and what it frees, at concrete inputs.
use gnuais.Common.{◌↔◌, List, ℕ, ◌≡◌, refl, some, [], ◌∷◌, pos, arith, codes}
use gnuais.Protodec.Types.{over}
use gnuais.Splay.{leaf, node, SpTree, sp_init}
use gnuais.Splay.Order.{inorder}
use gnuais.Splay.Refinement.{IsValid}
use gnuais.Splay.Drain.{drain, drain-inorder}
use gnuais.Cache.{CacheEnt, Cache, new_ent}
use gnuais.Cache.Free.{Block, cache_free}
use gnuais.Cache.Free.Owners.{IsIn, SomeOwns}
use gnuais.Cache.Free.Blocks.{Once, cache_free-blocks}
use gnuais.Json.{Libc, Uplink, uplink_json, jsonout_export}
use gnuais.Json.Pieces.{Prints}
use gnuais.Json.Export.{documents, ship_messages, jsonout_export-documents}

abbrev pair : SpTree ℕ
pair = record { root = node (node leaf 3 30 leaf) 5 50 leaf; eltscnt = 2 }

pair-IsValid : IsValid pair
unfolding inorder
pair-IsValid = record { sorted = omega arith; counted = refl }

drain-inorder_example : drain pair ≡ some (inorder pair.root, sp_init)
drain-inorder_example = drain-inorder pair pair-IsValid

abbrev one_ship : CacheEnt
unfolding new_ent
one_ship = record {
  mmsi = 7;
  received_pos = 100;
  lat = over (pos 60) 1;
  lon = over (pos 25) 1;
  hdg = pos 90;
  course = over (pos 85) 1;
  sog = over (pos 10) 1;
  navstat = pos 0;
  received_data = 200;
  imo = pos 5;
  callsign = some (codes "ABC");
  name = some (codes "SHIP");
  destination = some (codes "PORT");
  shiptype = pos 70;
  a = pos 10;
  b = pos 20;
  c = pos 3;
  d = pos 4;
  draught = over (pos 5) 1;
  received_persons_on_board = 300;
  persons_on_board = pos 12;
}

abbrev fleet : Cache
fleet = record { root = node leaf 7 one_ship leaf; eltscnt = 1 }

fleet-IsValid : IsValid fleet
unfolding inorder
fleet-IsValid = record { sorted = omega arith; counted = refl }

cache_free-blocks_example :
    (blocks : List Block) × (cache_free fleet ≡ some (fleet.eltscnt, blocks, sp_init))
    × Once blocks
    × ((b : Block) → IsIn b blocks ↔ SomeOwns (inorder fleet.root) b)
cache_free-blocks_example = cache_free-blocks fleet fleet-IsValid

-- A C library that prints a figure for each number.
abbrev figures : Libc
figures = record {
  print_int = λ n. codes "0";
  print_float = λ decimals x. codes "0.0";
  print_padded = λ width n. codes "00";
  gmtime = λ t.
      some (record { tm_year = 70; tm_mon = 0; tm_mday = 1; tm_hour = 0; tm_min = 0; tm_sec = t });
}

abbrev figures-Prints : Prints figures
figures-Prints = record {
  tm = λ t. record { tm_year = 70; tm_mon = 0; tm_mday = 1; tm_hour = 0; tm_min = 0; tm_sec = t };
  knows = λ t. refl;
  int_short = λ n. omega arith;
}

abbrev hub : Uplink
hub = record { proto = uplink_json; name = codes "hub"; url = codes "http://hub" }

jsonout_export-documents_example :
    jsonout_export figures 1000 [] (codes "OH7LZB") (hub ∷ []) fleet
    ≡ some (
      sp_init,
      documents figures figures-Prints 1000
          (codes "OH7LZB")
          (hub ∷ [])
          (ship_messages figures figures-Prints (inorder fleet.root)),
    )
jsonout_export-documents_example =
    jsonout_export-documents figures figures-Prints 1000 [] (codes "OH7LZB") (hub ∷ []) fleet
      fleet-IsValid (omega arith)
