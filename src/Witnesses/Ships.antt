-- ===== src/Witnesses/Ships.antt =====
-- The theorems on the splay tree and the cache at concrete inputs.
use gnuais.Common.{some, ℕ, ◌≡◌, refl, List, [], ◌∷◌, pos, arith}
use gnuais.Protodec.Types.{over, Update}
use gnuais.Splay.{
  leaf, node, SpTree, Place, find, sp_lookup, sp_install, sp_delete, sp_scan, split, sp_init,
}
use gnuais.Splay.Sorted.{assoc}
use gnuais.Splay.Order.{inorder}
use gnuais.Splay.Split.{Splits, split-Splits}
use gnuais.Splay.Refinement.{
  IsValid, Installs, Deletes, sp_lookup-assoc, sp_install-Installs, sp_delete-Deletes,
}
use gnuais.Splay.Walk.{sp_scan-inorder}
use gnuais.Cache.{CacheEnt, cache_update}
use gnuais.Cache.Entries.{entry, Changes, reported, cache_update-Changes}
use gnuais.Cache.Reports.{Report, update_all, known, entry-update_all}

abbrev three : SpTree ℕ
three = record { root = node (node leaf 3 30 leaf) 5 50 (node leaf 9 90 leaf); eltscnt = 3 }

three-IsValid : IsValid three
unfolding inorder
three-IsValid = record { sorted = omega arith; counted = refl }

sp_lookup-assoc_example : (sp_lookup 9 three).0 ≡ assoc 9 (inorder three.root)
sp_lookup-assoc_example = sp_lookup-assoc 9 three three-IsValid.sorted

sp_install-Installs_example : Installs 7 70 three (sp_install 7 70 three)
sp_install-Installs_example = sp_install-Installs 7 70 three three-IsValid

split-Splits_example : Splits 7 three.root (split 7 three.root)
split-Splits_example = split-Splits 7 three.root

abbrev five : Place ℕ
five = record {
  leftlink = node leaf 3 30 leaf;
  key = 5;
  item = 50;
  rightlink = node leaf 9 90 leaf;
  uplinks = [];
}

sp_delete-Deletes_example : Deletes 5 three (sp_delete five three)
unfolding find
sp_delete-Deletes_example = sp_delete-Deletes three five three-IsValid refl

sp_scan-inorder_example : sp_scan three ≡ some (inorder three.root)
sp_scan-inorder_example = sp_scan-inorder three three-IsValid

empty-IsValid : IsValid (sp_init {A = CacheEnt})
unfolding sp_init inorder
empty-IsValid = record { sorted = tt; counted = refl }

abbrev moves : Update
moves =
    Update.position (pos 0) (over (pos 60) 1) (over (pos 25) 1) 90 (over (pos 85) 1) (pos 0)
      (over (pos 12) 1)

cache_update-Changes_example :
    Changes 230000001
      (reported 1000 230000001 moves)
      sp_init
      (cache_update 1000 230000001 moves sp_init)
cache_update-Changes_example = cache_update-Changes 1000 230000001 moves sp_init empty-IsValid

abbrev log : List Report
log =
    record { received_t = 1000; mmsi = 230000001; update = moves }
    ∷ record { received_t = 1001; mmsi = 230000002; update = Update.vessel_persons 3 }
    ∷ record { received_t = 1002; mmsi = 230000001; update = Update.vessel_persons 7 }
    ∷ []

entry-update_all_example :
    entry 230000001 (update_all log sp_init) ≡ known 230000001 (entry 230000001 sp_init) log
entry-update_all_example = entry-update_all 230000001 log sp_init empty-IsValid
