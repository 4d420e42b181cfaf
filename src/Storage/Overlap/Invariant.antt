-- ===== src/Storage/Overlap/Invariant.antt =====
-- What uploads that overlap keep (Upload and checkQuota in internal/storage/service.go).
use prappser_spaces.Base.{ℕ, String, All, arith, eq_iff}
use prappser_spaces.Base.Int.{ℤ, pos, ◌+ℤ◌, ◌≤ℤ◌}
use prappser_spaces.Storage.{Storage}
use prappser_spaces.Storage.Repository.{Table, create_storage, sum_sizes}
use prappser_spaces.Storage.Repository.Sums.{IsCounted, le_refl}
use prappser_spaces.Storage.Repository.Within.{IsWithin, HasRoom, create_storage-IsWithin}
use prappser_spaces.Storage.Run.{Service, State, change}
use prappser_spaces.Storage.Run.Hoare.{OfTable, change-Hoare, weaken-Hoare}
use prappser_spaces.Storage.History.{kept}
use prappser_spaces.Storage.Overlap.{Flight}
use prappser_spaces.Storage.Overlap.Waiting.{own_size, reserved, IsFit, more, same_size}

-- What the actions keep: the files of `key` and its uploads that wait are within the bound.
pub record Inv (key : String) (ceiling : ℕ) (bound : ℤ) {Disk : Type 0} (f : Flight Disk)
    : Type 0 where
  pub counted : All IsCounted f.state.table.rows
  pub sizes : All (IsFit ceiling) f.waiting
  pub within : sum_sizes key f.state.table.rows +ℤ pos (reserved key f.waiting) ≤ℤ bound

-- A change of the tables that does not add to the sum of `key`.
pub Inv-shrink :
    {Disk : Type 0} (key : String) (ceiling : ℕ) (bound : ℤ) (f : Flight Disk) (st : State Disk)
    → IsWithin key (sum_sizes key f.state.table.rows) st.table
    → Inv key ceiling bound f
    → Inv key ceiling bound (record f { state = st })
Inv-shrink key ceiling bound f st w i = record {
  counted = w.counted;
  sizes = i.sizes;
  within =
      shrunk (sum_sizes key st.table.rows) (sum_sizes key f.state.table.rows) bound
        (reserved key f.waiting) w.within i.within;
}
  where
    shrunk : (a b c : ℤ) (r : ℕ) → a ≤ℤ b → b +ℤ pos r ≤ℤ c → a +ℤ pos r ≤ℤ c
    shrunk a b c r h k = ground arith

pub own-IsWithin :
    {Disk : Type 0} (key : String) (ceiling : ℕ) (bound : ℤ) (f : Flight Disk)
    → Inv key ceiling bound f
    → IsWithin key (sum_sizes key f.state.table.rows) f.state.table
own-IsWithin key ceiling bound f i = record {
  counted = i.counted;
  within = le_refl (sum_sizes key f.state.table.rows);
}

pub Inv-IsWithin :
    {Disk : Type 0} (key : String) (ceiling : ℕ) (bound : ℤ) (f : Flight Disk)
    → Inv key ceiling bound f
    → IsWithin key bound f.state.table
Inv-IsWithin key ceiling bound f i = record {
  counted = i.counted;
  within = less (sum_sizes key f.state.table.rows) bound (reserved key f.waiting) i.within;
}
  where
    less : (a c : ℤ) (r : ℕ) → a +ℤ pos r ≤ℤ c → a ≤ℤ c
    less a c r h = ground arith

module _ {Disk : Type 0} (o : Service Disk) (key : String) where
  room_for :
      (s : Storage) (t : Table) (sum : ℤ)
      → pos 0 ≤ℤ s.size_bytes
      → IsWithin key sum t
      → HasRoom key (sum +ℤ pos (own_size key s)) s.uploader_public_key s.size_bytes t
  room_for s t sum n w = record {
    now = record {
      counted = w.counted;
      within = more (sum_sizes key t.rows) sum (own_size key s) w.within;
    };
    room = λ u.
        rw ((eq_iff s.uploader_public_key key).1 u)
          (same_size (sum_sizes key t.rows) sum s.size_bytes n w.within);
  }

  -- An insert adds at most the size of its row.
  pub insert-IsWithin :
      (s : Storage) (st : State Disk) (sum : ℤ)
      → pos 0 ≤ℤ s.size_bytes
      → IsWithin key sum st.table
      → IsWithin key
          (sum +ℤ pos (own_size key s))
          (change o.faults.on_create (create_storage s) st).1.table
  insert-IsWithin s st sum n w =
      let bound = sum +ℤ pos (own_size key s) in
      kept (IsWithin key bound) (change o.faults.on_create (create_storage s) st) (
        (weaken-Hoare (λ a st h. h) (λ st h. h.now)
            (change-Hoare {P = OfTable (HasRoom key bound s.uploader_public_key s.size_bytes)}
              {P' = OfTable (IsWithin key bound)} o.faults.on_create (create_storage s)
              (λ st t h e. create_storage-IsWithin key bound s st.table t n h e))).holds
          st (room_for s st.table sum n w))
