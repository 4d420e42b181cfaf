-- ===== src/Lens/Values/Laws.antt =====
-- Reads of a map after a write or a deletion (internal/component/lens/json.go).
use prappser_spaces.Base.{String, ◌≡◌, refl, none, some, ◌==◌, arith, eq_iff, if◌then◌else◌}
use prappser_spaces.Lens.{Json, Entries, empty, entry}
use prappser_spaces.Lens.Values.{member, set_member, delete_member}

pub member-set_member :
    (j k : String) (v : Json) (m : Entries)
    → member j (set_member k v m) ≡ (if k == j then some v else member j m)
unfolding member set_member
member-set_member j k v empty = refl
member-set_member j k v (entry i w m) =
    ground (arith, eq_iff k j, eq_iff i k, eq_iff i j, member-set_member j k v m)

pub member-delete_member :
    (j k : String) (m : Entries)
    → member j (delete_member k m) ≡ (if k == j then none else member j m)
unfolding member delete_member
member-delete_member j k empty = ground arith
member-delete_member j k (entry i w m) =
    ground (arith, eq_iff k j, eq_iff i k, eq_iff i j, member-delete_member j k m)
