-- ===== src/Storage/Overlap/Bound.antt =====
-- How far uploads that overlap exceed the quota (checkQuota in internal/storage/service.go).
use mathlib.Core.Path.{subst}
use prappser_spaces.Base.{
  ℕ, String, Bool, false, Option, none, some, List, [], ◌∷◌, ◌==◌, ◌≡◌, refl, ◌≤◌, ◌<◌, ◌+◌, ◌*◌,
  inl, inr, arith, eq_iff, Bool-cases,
}
use prappser_spaces.Base.Int.{ℤ, pos, pos_part, ◌+ℤ◌, ◌≤ℤ◌, half64}
use prappser_spaces.Result.{Result, ok, err}
use prappser_spaces.Storage.{Storage}
use prappser_spaces.Storage.Repository.{sum_sizes}
use prappser_spaces.Storage.Repository.Within.{IsWithin}
use prappser_spaces.Storage.Run.{Service, State, on_disk}
use prappser_spaces.Storage.Service.{check_quota}
use prappser_spaces.Storage.Service.Quota.{IsLimited, check_quota-room}
use prappser_spaces.Storage.Service.Upload.{after_insert}
use prappser_spaces.Storage.Service.Upload.Keeps.{after_insert-Keeps}
use prappser_spaces.Storage.History.{serve, serve_other-IsWithin, kept}
use prappser_spaces.Storage.Overlap.{
  Flight, Action, checks, writes, inserts, ends, gives_up, serves, nth, without, entering,
  insert_waiting, act, act_all, IsChecked, IsAllowed, IsRun,
}
use prappser_spaces.Storage.Overlap.Waiting.{
  own_size, reserved, reserved_le, All-without, All-nth, reserved-without, reserved-without_le,
  others, fits, zero_plus, limit_small, moved_over, grown,
}
use prappser_spaces.Storage.Overlap.Invariant.{
  Inv, Inv-shrink, own-IsWithin, Inv-IsWithin, insert-IsWithin,
}

abbrev limit : ℤ → ℕ → ℕ → ℤ
limit quota ceiling n = quota +ℤ pos (n * ceiling)

module _ {Disk : Type 0} (key : String) (quota : ℤ) (ceiling n : ℕ)
    (no_overflow : pos_part quota + n * ceiling + ceiling < half64) where
  abbrev Fine : Flight Disk → Type 0
  Fine f = Inv key ceiling (limit quota ceiling n) f

  gives_up-Fine :
      (i : ℕ) (f : Flight Disk) → Fine f → Fine (record f { waiting = without i f.waiting })
  gives_up-Fine i f h = record {
    counted = h.counted;
    sizes = All-without ceiling i f.waiting h.sizes;
    within =
        fewer (sum_sizes key f.state.table.rows) (limit quota ceiling n)
          (reserved key (without i f.waiting)) (reserved key f.waiting)
          (reserved-without_le key i f.waiting) h.within;
  }
    where
      fewer : (a c : ℤ) (r r' : ℕ) → r ≤ r' → a +ℤ pos r' ≤ℤ c → a +ℤ pos r ≤ℤ c
      fewer a c r r' k l = ground arith

  insert-Fine :
      (o : Service Disk) (i : ℕ) (f : Flight Disk) (r : Option Storage)
      → nth i f.waiting ≡ r
      → Fine f
      → Fine (record { state = insert_waiting o r f.state; waiting = without i f.waiting })
  insert-Fine o i f none e h = gives_up-Fine i f h
  insert-Fine o i f (some s) e h =
      let sum = sum_sizes key f.state.table.rows in
      let fit = All-nth ceiling i f.waiting s h.sizes e in
      let w =
        insert-IsWithin o key s f.state sum fit.natural
          (own-IsWithin key ceiling (limit quota ceiling n) f h) in
      record {
        counted = w.counted;
        sizes = All-without ceiling i f.waiting h.sizes;
        within =
            moved_over (sum_sizes key (insert_waiting o (some s) f.state).table.rows) sum
              (limit quota ceiling n) (own_size key s) (reserved key f.waiting)
              (reserved key (without i f.waiting)) w.within (reserved-without key i f.waiting s e)
              h.within;
      }

  limited :
      (o : Service Disk) (s : Storage) (quota_exempt : Bool) (waiting : List Storage)
      → IsChecked key quota ceiling n o s quota_exempt waiting
      → IsLimited o
  limited o s quota_exempt waiting c = record {
    quota_on = rw c.same_quota c.quota_on;
    no_overflow = rw (c.same_quota, c.same_cap) (omega arith);
  }

  passed-room :
      (o : Service Disk) (s : Storage) (quota_exempt : Bool) (f : Flight Disk)
      → (check_quota o s.uploader_public_key s.size_bytes quota_exempt f.state).0 ≡ ok tt
      → IsChecked key quota ceiling n o s quota_exempt f.waiting
      → Fine f
      → s.uploader_public_key ≡ key
      → s.size_bytes +ℤ sum_sizes key f.state.table.rows ≤ℤ quota
  passed-room o s quota_exempt f e c h u =
      let checked : (check_quota o key s.size_bytes false f.state).0 ≡ ok tt =
        subst (λ b. (check_quota o key s.size_bytes b f.state).0 ≡ ok tt) (c.counted u)
          (subst (λ k. (check_quota o k s.size_bytes quota_exempt f.state).0 ≡ ok tt) u e) in
      subst (λ q. s.size_bytes +ℤ sum_sizes key f.state.table.rows ≤ℤ q) c.same_quota
        (check_quota-room o (limited o s quota_exempt f.waiting c) s.size_bytes c.natural
          (rw c.same_cap c.capped) (limit quota ceiling n)
          (rw c.same_cap (limit_small quota (n * ceiling) ceiling no_overflow)) key f.state
          (Inv-IsWithin key ceiling (limit quota ceiling n) f h) checked)

  check-Fine :
      (o : Service Disk) (s : Storage) (quota_exempt : Bool) (f : Flight Disk)
      (r : Result (Unit {0}))
      → (check_quota o s.uploader_public_key s.size_bytes quota_exempt f.state).0 ≡ r
      → IsChecked key quota ceiling n o s quota_exempt f.waiting
      → Fine f
      → Fine (record f { waiting = entering s f.waiting r })
  check-Fine o s quota_exempt f (err x) e c h = h
  check-Fine o s quota_exempt f (ok u) e c h = record {
    counted = h.counted;
    sizes = (record { natural = c.natural; capped = fits ceiling s.size_bytes c.capped }, h.sizes);
    within = elim (Bool-cases (s.uploader_public_key == key)) [
      | inl t ↦ rw t (
          grown (sum_sizes key f.state.table.rows) quota s.size_bytes (reserved key f.waiting)
            (n * ceiling) c.natural
            (passed-room o s quota_exempt f e c h ((eq_iff s.uploader_public_key key).0 t))
            (reserved_le key ceiling n f.waiting h.sizes (others key n s f.waiting c.few t)))
      | inr t ↦ rw t (
          subst (λ v. sum_sizes key f.state.table.rows +ℤ pos v ≤ℤ limit quota ceiling n)
            (zero_plus (reserved key f.waiting)) h.within)
    ];
  }

  act-Fine :
      (a : Action Disk) (f : Flight Disk)
      → IsAllowed key quota ceiling n a f
      → Fine f
      → Fine (act a f)
  unfolding act
  act-Fine (checks o s quota_exempt) f c h =
      check-Fine o s quota_exempt f
        (check_quota o s.uploader_public_key s.size_bytes quota_exempt f.state).0 refl c h
  act-Fine (writes o s x) f c h =
      Inv-shrink key ceiling (limit quota ceiling n) f
        (on_disk (o.backend.store s.storage_path x) f.state).1
        (own-IsWithin key ceiling (limit quota ceiling n) f h) h
  act-Fine (inserts o i) f c h = insert-Fine o i f (nth i f.waiting) refl h
  act-Fine (ends o s x base_url r) f c h =
      let sum = sum_sizes key f.state.table.rows in
      Inv-shrink key ceiling (limit quota ceiling n) f (after_insert o s x base_url r f.state).1
        (kept (IsWithin key sum) (after_insert o s x base_url r f.state) (
          (after_insert-Keeps o key sum s x base_url r).holds f.state
            (own-IsWithin key ceiling (limit quota ceiling n) f h)))
        h
  act-Fine (gives_up i) f c h = gives_up-Fine i f h
  act-Fine (serves o r) f c h =
      Inv-shrink key ceiling (limit quota ceiling n) f (serve o r f.state)
        (serve_other-IsWithin key (sum_sizes key f.state.table.rows) o r f.state c
          (own-IsWithin key ceiling (limit quota ceiling n) f h))
        h

  act_all-Fine :
      (actions : List (Action Disk)) (f : Flight Disk)
      → IsRun key quota ceiling n actions f
      → Fine f
      → Fine (act_all actions f)
  unfolding act_all
  act_all-Fine [] f r h = h
  act_all-Fine (a ∷ rest) f r h = act_all-Fine rest (act a f) r.1 (act-Fine a f r.0 h)

-- In a table whose sizes are not negative and where the files of an uploader sum up to no more than
-- the quota, uploads are checked, inserted and given up in any order, with other requests in
-- between and whatever faults strike them. If at most n + 1 uploads of the uploader are between
-- check and insert at once, the files of the uploader sum up to no more than the quota and n times
-- the cap on a file. This holds of checks under that quota and that cap (which leave room below
-- 2 ^ 63) that do not exempt the uploader, of sizes that are not negative and within the cap.
pub overshoot_bounded :
    {Disk : Type 0} (key : String) (quota : ℤ) (ceiling n : ℕ) (actions : List (Action Disk))
    (s : State Disk)
    → pos_part quota + n * ceiling + ceiling < half64
    → IsWithin key quota s.table
    → IsRun key quota ceiling n actions (record { state = s; waiting = [] })
    → IsWithin key
        (quota +ℤ pos (n * ceiling))
        (act_all actions (record { state = s; waiting = [] })).state.table
overshoot_bounded key quota ceiling n actions s b w r =
    let start : Flight _ = record { state = s; waiting = [] } in
    Inv-IsWithin key ceiling (limit quota ceiling n) (act_all actions start) (
      act_all-Fine key quota ceiling n b actions start r (record {
        counted = w.counted;
        sizes = tt;
        within = at_start (sum_sizes key s.table.rows) quota (n * ceiling) w.within;
      }))
  where
    at_start : (a quota : ℤ) (m : ℕ) → a ≤ℤ quota → a +ℤ pos 0 ≤ℤ quota +ℤ pos m
    at_start a quota m h = ground arith
