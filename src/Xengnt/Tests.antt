-- ===== src/Xengnt/Tests.antt =====
-- Requests for grants at concrete words.
use krata.Prelude.{◌≡◌, some, List, [], ◌∷◌, arith, set}
use krata.Xengnt.Map
use krata.Xengnt.Map.{GrantRef, MapGrantRef, read-write_refs, read_lem}

abbrev two_refs : List GrantRef
two_refs = record { domid = 1; reference = 8 } ∷ record { domid = 2; reference = 9 } ∷ []

read-write_refs_example :
    krata.Xengnt.Map.read 2 (set (set (krata.Xengnt.Map.write two_refs) 2 4096) 3 1)
    ≡ some (record { count = 2; pad = 0; index = 4294971392; refs = two_refs })
read-write_refs_example = read-write_refs two_refs 4096 1 (omega arith) (omega arith)
