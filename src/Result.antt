-- ===== src/Result.antt =====
-- Go errors, as the marks by which `errors.Is` and `errors.As` tell them apart
-- (the sentinels of internal/event, internal/application, internal/user, internal/storage,
-- internal/component/lens and internal/invitation; driver and pq errors).
-- The text of an error is not modelled, so `fmt.Errorf("...: %w", err)` is `err` itself.
use prappser_spaces.Base.{String, ◌==◌, ◌≡◌, refl, Bool, true, false, List}

pub data Mark : Type 0 where
  validation unappliable unauthorized stale cursor_not_found : Mark
  not_found moving not_moving not_owner invalid_move app_limit owner_not_caller : Mark
  agent_read_off not_member : Mark
  bad_version missing_step unsupported breaking read_only : Mark
  invalid_path file_too_large storage_quota_exceeded blob_not_found : Mark
  device_conflict identity_not_granted single_use_required account_limit : Mark
  membership_not_granted account_key_not_proven max_uses_reached app_unauthorized : Mark
  not_for_member space_use_not_allowed invitation_not_found app_mismatch : Mark
  invalid_invite_role invalid_invite_options invalid_proof invalid_assertion : Mark
  -- *application.MovedError
  moved : String → String → Mark
  -- driver.ErrBadConn, sql.ErrConnDone, io.EOF, io.ErrUnexpectedEOF, a net.Error, and
  -- context.Canceled or context.DeadlineExceeded
  bad_conn conn_done eof unexpected_eof net canceled deadline : Mark
  -- a *pq.Error: the class of its code, the code and the constraint
  pq : String → String → String → Mark

-- What an error wraps, the outermost first; an error made by `fmt.Errorf` alone wraps nothing.
abbrev pub Error : Type 0
Error = List Mark

abbrev pub is_validation : Mark → Bool
is_validation validation = true
is_validation _ = false

abbrev pub is_unappliable : Mark → Bool
is_unappliable unappliable = true
is_unappliable _ = false

abbrev pub is_not_found : Mark → Bool
is_not_found not_found = true
is_not_found _ = false

abbrev pub is_pq_unique : Mark → Bool
is_pq_unique (pq _ code _) = code == "23505"
is_pq_unique _ = false

abbrev pub is_moving : Mark → Bool
is_moving moving = true
is_moving _ = false

abbrev pub is_moved : Mark → Bool
is_moved (moved _ _) = true
is_moved _ = false

pub data Result {ℓ} (A : Type ℓ) : Type ℓ where
  ok : A → Result A
  err : Error → Result A

-- `if !test { return err }`
abbrev pub guard : (test : Bool) (refusal : Error) → Result (Unit {0})
guard false refusal = err refusal
guard true refusal = ok tt

infixl 5 ◌>>=◌ ◌>>◌
abbrev pub ◌>>=◌ {ℓ κ} : {A : Type ℓ} {B : Type κ} (m : Result A) (f : A → Result B) → Result B
err e >>= f = err e
ok a >>= f = f a

abbrev pub ◌>>◌ {ℓ} : {B : Type ℓ} (first : Result (Unit {0})) (next : Result B) → Result B
first >> next = first >>= λ _. next

-- A chain that ends well has a first part that does.
pub >>=-eq-ok {ℓ κ} :
    {B : Type κ} {A : Type ℓ} (m : Result A) (f : A → Result B) {b : B} (h : (m >>= f) ≡ ok b)
    → (a : A) × (m ≡ ok a) × (f a ≡ ok b)
>>=-eq-ok (err e) f h = cc
>>=-eq-ok (ok a) f h = (a, refl, h)

pub guard-eq-ok : (b : Bool) (e : Error) → guard b e ≡ ok tt → b ≡ true
guard-eq-ok true e h = refl
guard-eq-ok false e h = cc

pub >>-eq-ok {ℓ} :
    {B : Type ℓ} (m : Result (Unit {0})) (k : Result B) {b : B} → (m >> k) ≡ ok b → k ≡ ok b
>>-eq-ok (ok u) k h = h
>>-eq-ok (err e) k h = cc

pub >>-holds {ℓ} :
    {B : Type ℓ} (m : Result (Unit {0})) (k : Result B) {b : B} → (m >> k) ≡ ok b → m ≡ ok tt
>>-holds (ok u) k h = refl
>>-holds (err e) k h = cc
