-- ===== src/Monitor/Tables/Examples.antt =====
-- A run of free_hashtable of c_monitor/main.c on a table of two branches.
use fuzz_monitor.Base.{ℕ, refl, true, List, [], ◌∷◌, map, arith}
use fuzz_monitor.Text.{text_eq}
use fuzz_monitor.Text.Decimal.{text_eq_iff}
use fuzz_monitor.Collections.{Collections, IsHashTable}
use fuzz_monitor.Collections.Lists.{list_collections, list_IsHashTable}
use fuzz_monitor.Graph.Examples.{laws, memory}
use fuzz_monitor.Monitor.Tables.{free_hashtable}
use fuzz_monitor.Monitor.Tables.Rounds.{entry_of}
use fuzz_monitor.Monitor.Tables.Written.{IsWritten, free_hashtable-IsWritten}

abbrev lists : Collections
lists = list_collections 9

keys : IsHashTable lists text_eq
keys = list_IsHashTable 9 text_eq text_eq_iff

-- From 16 to 32, hit 5 times, and back, hit 7 times.
abbrev branches : List (ℕ × ℕ × ℕ)
branches = (16, 32, 0) ∷ (32, 16, 1) ∷ []

abbrev counters : List ℕ
counters = 5 ∷ 7 ∷ []

free_hashtable-IsWritten_example :
    IsWritten lists laws 3 memory counters branches
      (free_hashtable lists 3 true true (map entry_of branches) counters)
free_hashtable-IsWritten_example =
    free_hashtable-IsWritten lists laws 3 memory keys (map entry_of branches) counters branches refl
      ((omega arith, omega arith, 5, refl), ((omega arith, omega arith, 7, refl), tt))
