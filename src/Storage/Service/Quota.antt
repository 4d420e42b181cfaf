-- ===== src/Storage/Service/Quota.antt =====
-- The check of the quota (checkQuota in internal/storage/service.go): one that passes leaves room.
use mathlib.Core.Path.{subst}
use prappser_spaces.Base.{
  ◌+◌, ◌<◌, String, ◌≡◌, refl, Bool, true, false, not, ◌||◌, [], ◌∷◌, inl, inr, arith, Bool-cases,
}
use prappser_spaces.Base.Int.{
  ℤ, pos, ◌+ℤ◌, ◌≤ℤ◌, ltb_ℤ, leb_ℤ, eqb_ℤ, pos_part, half64, wrap64, wrap64_exact, IsInt64,
}
use prappser_spaces.Result.{ok, guard-eq-ok, storage_quota_exceeded}
use prappser_spaces.Storage.Repository.{Table, sum_sizes, get_used_bytes_by_uploader}
use prappser_spaces.Storage.Repository.Sums.{sum_sizes_counted}
use prappser_spaces.Storage.Repository.Within.{IsWithin, HasRoom}
use prappser_spaces.Storage.Run.{Service, State}
use prappser_spaces.Storage.Run.Hoare.{
  Hoare, OfTable, bind-Hoare, lift-Hoare, query-Hoare, weaken-Hoare, answered,
}
use prappser_spaces.Storage.Service.{check_quota, check_used}

-- A service with a quota that int64 can add a file to.
pub record IsLimited {Disk : Type 0} (o : Service Disk) : Type 0 where
  pub quota_on : leb_ℤ o.account_quota (pos 0) ≡ false
  pub no_overflow : pos_part o.account_quota + pos_part o.max_file_size < half64

sum-IsInt64 :
    (used size quota max : ℤ)
    → pos 0 ≤ℤ used
    → used ≤ℤ quota
    → pos 0 ≤ℤ size
    → ltb_ℤ max size ≡ false
    → pos_part quota + pos_part max < half64
    → IsInt64 (used +ℤ size)
sum-IsInt64 used size quota max a b c d e = (ground arith, ground arith)

not-false : (b : Bool) → not b ≡ true → b ≡ false
not-false b h = ground arith

fits : (quota used size : ℤ) → ltb_ℤ quota (used +ℤ size) ≡ false → size +ℤ used ≤ℤ quota
fits quota used size h = ground arith

get_used-sum :
    (key : String) (t : Table) (used : ℤ)
    → get_used_bytes_by_uploader key t ≡ ok used
    → used ≡ sum_sizes key t.rows
unfolding get_used_bytes_by_uploader
get_used-sum key t used e =
    elim (Bool-cases (eqb_ℤ (wrap64 (sum_sizes key t.rows)) (sum_sizes key t.rows))) [
      | inl x ↦ ground arith
      | inr x ↦ absurd (ground arith)
    ]

module _ {Disk : Type 0} (o : Service Disk) (l : IsLimited o) (size : ℤ) (n : pos 0 ≤ℤ size)
    (m : ltb_ℤ o.max_file_size size ≡ false) where
  -- A check that passes leaves room under the quota, also where the sum is not, as long as the
  -- addition does not overflow.
  checked-room :
      (bound : ℤ) (no_overflow : pos_part bound + pos_part o.max_file_size < half64) (key : String)
      (t : Table) (used : ℤ)
      → IsWithin key bound t
      → get_used_bytes_by_uploader key t ≡ ok used
      → check_used o used size ≡ ok tt
      → size +ℤ sum_sizes key t.rows ≤ℤ o.account_quota
  checked-room bound no_overflow key t used w e c =
      let sum = sum_sizes key t.rows in
      let exact : wrap64 (sum +ℤ size) ≡ sum +ℤ size = wrap64_exact (sum +ℤ size) (
        sum-IsInt64 sum size bound o.max_file_size (sum_sizes_counted key t.rows w.counted) w.within
          n m no_overflow) in
      let passed : ltb_ℤ o.account_quota (wrap64 (sum +ℤ size)) ≡ false =
        subst (λ u. ltb_ℤ o.account_quota (wrap64 (u +ℤ size)) ≡ false) (get_used-sum key t used e)
          (not-false (ltb_ℤ o.account_quota (wrap64 (used +ℤ size))) (
            guard-eq-ok (not (ltb_ℤ o.account_quota (wrap64 (used +ℤ size))))
              (storage_quota_exceeded ∷ []) c)) in
      fits o.account_quota sum size (subst (λ v. ltb_ℤ o.account_quota v ≡ false) exact passed)

  HasRoom-checked :
      (key uploader : String) (t : Table) (used : ℤ)
      → IsWithin key o.account_quota t
      → get_used_bytes_by_uploader uploader t ≡ ok used
      → check_used o used size ≡ ok tt
      → HasRoom key o.account_quota uploader size t
  HasRoom-checked key uploader t used w e c = record {
    now = w;
    room = λ u.
        checked-room o.account_quota l.no_overflow key t used w
          (subst (λ k. get_used_bytes_by_uploader k t ≡ ok used) u e) c;
  }

  exempt-case :
      (quota_exempt : Bool) (exempt : quota_exempt ≡ false)
      → (leb_ℤ o.account_quota (pos 0) || quota_exempt) ≡ false
  exempt-case quota_exempt exempt = rw (l.quota_on, exempt) refl

  -- The uploads of `key` are never exempt; those of another uploader may be.
  pub check_quota-Hoare :
      (key uploader : String) (quota_exempt : Bool)
      → (uploader ≡ key → quota_exempt ≡ false)
      → Hoare
          (OfTable (IsWithin key o.account_quota))
          (check_quota o uploader size quota_exempt)
          (λ _. OfTable (HasRoom key o.account_quota uploader size))
          (OfTable (IsWithin key o.account_quota))
  unfolding check_quota
  check_quota-Hoare key uploader quota_exempt h =
      elim (Bool-cases (leb_ℤ o.account_quota (pos 0) || quota_exempt)) [
        | inl x ↦ rw x (record {
          holds = λ s w. record {
            now = w;
            room = λ u. absurd (let no = exempt-case quota_exempt (h u) in ground arith);
          };
        })
        | inr x ↦ rw x (
            bind-Hoare (query-Hoare o.faults.on_used (get_used_bytes_by_uploader uploader)) (λ used.
              weaken-Hoare (λ a s k. HasRoom-checked key uploader s.table used k.0.0 k.0.1 k.1)
                (λ s k. k.0) (lift-Hoare (check_used o used size))))
      ]

  -- The same of the check as a whole, for an uploader that is not exempt.
  check_quota_in :
      (bound : ℤ) (no_overflow : pos_part bound + pos_part o.max_file_size < half64) (key : String)
      (t : Table)
      → IsWithin key bound t
      → Hoare {S = State Disk}
          (OfTable (λ u. u ≡ t))
          (check_quota o key size false)
          (λ _ _. size +ℤ sum_sizes key t.rows ≤ℤ o.account_quota)
          (OfTable (λ u. u ≡ t))
  unfolding check_quota
  check_quota_in bound no_overflow key t w = rw (exempt-case false refl) (
      bind-Hoare (query-Hoare o.faults.on_used (get_used_bytes_by_uploader key)) (λ used.
        weaken-Hoare
          (λ a s k.
            checked-room bound no_overflow key t used w
              (subst (λ u. get_used_bytes_by_uploader key u ≡ ok used) k.0.0 k.0.1) k.1)
          (λ s k. k.0) (lift-Hoare (check_used o used size))))

  pub check_quota-room :
      (bound : ℤ) (no_overflow : pos_part bound + pos_part o.max_file_size < half64) (key : String)
      (st : State Disk)
      → IsWithin key bound st.table
      → (check_quota o key size false st).0 ≡ ok tt
      → size +ℤ sum_sizes key st.table.rows ≤ℤ o.account_quota
  check_quota-room bound no_overflow key st w e =
      answered (λ _ _. size +ℤ sum_sizes key st.table.rows ≤ℤ o.account_quota)
        (OfTable (λ u. u ≡ st.table)) (check_quota o key size false st) tt
        ((check_quota_in bound no_overflow key st.table w).holds st refl) e
