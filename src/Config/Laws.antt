-- ===== src/Config/Laws.antt =====
-- What a write to the settings table does to every later read.
use wardnode.Base.{String, ◌≡◌, Bool, Option, [], ◌∷◌, arith, eq_iff, ◌==◌, if◌then◌else◌}
use wardnode.Config.{Table, find, get, put}

pub get-put :
    (t : Table) (k j : String) (v : Option String) (e : Bool)
    → get (put t k v e) j ≡ (if k == j then v else get t j)
unfolding get find put
get-put [] k j v e = ground arith
get-put (r ∷ t) k j v e =
    ground (arith, get-put t k j v e, eq_iff r.key k, eq_iff r.key j, eq_iff k j)
