-- ===== src/Invitation/Service/Created.antt =====
-- The invitation that CreateInvitation makes of checked options (internal/invitation/invitation_service.go).
pub mod Stored
use mathlib.Core.Path.{subst}
use prappser_spaces.Base.{
  ℕ, String, ◌≡◌, refl, sym, ap, ◌∙◌, ◌*◌, ◌≤◌, Bool, true, false, not, ◌&&◌, ◌||◌, Option, none,
  some, List, [], ◌∷◌, ◌==◌, any, length, arith, if◌then◌else◌,
}
use prappser_spaces.Base.Int.{ℤ, pos, negsuc, ◌+ℤ◌, ◌≤ℤ◌, leb_ℤ}
use prappser_spaces.Result.{Result, ok, err, Error, guard, ◌>>=◌, ◌>>◌, invalid_invite_role, pq}
use prappser_spaces.Application.{User, role_of, is_grantable}
use prappser_spaces.Invitation.{Invitation, InvitationResponse, hours_later}
use prappser_spaces.Invitation.Options.{
  CreateInvitationOptions, is_empty, is_between, at_least, otherwise, map_option, option_error,
  bound_uses, max_expiry, role_or_default, membership, identity, space_use, single_by_default,
  check_options, max_membership_duration_hours, or_text,
}
use prappser_spaces.Invitation.Tokens.{generate_token}
use prappser_spaces.Invitation.Repository.{Table, has_id, create_invitation_row}
use prappser_spaces.Invitation.Repository.Bounds.{IsBounded, AllBounded, create-AllBounded}
use prappser_spaces.Invitation.Run.{Service}
use prappser_spaces.Invitation.Service.{invitation_of}

-- A new invitation at a time: with a role that may be granted, at least one use or no limit, an end
-- within its bound (48 hours, or 720 for a member-bound one), and a limit if it grants an identity
-- or space use, which it grants with a membership only.
pub record IsSound (now longest : ℤ) (i : Invitation) : Type 0 where
  pub grantable : is_grantable (role_of i.role) ≡ true
  pub bounded : IsBounded i
  pub usable : at_least (pos 1) i.max_uses ≡ true
  pub ends : (t : ℤ) → i.expires_at ≡ some t → (now ≤ℤ t) × (t ≤ℤ hours_later now longest)
  pub limited : (i.grants_identity || i.grants_space_use) ≡ true → (n : ℤ) × (i.max_uses ≡ some n)
  pub with_membership :
      i.grants_membership ≡ false → (i.grants_identity ≡ false) × (i.grants_space_use ≡ false)

guarded :
    {k : Result (Unit {0})} (b : Bool) (e : Error)
    → (guard b e >> k) ≡ ok tt
    → (b ≡ true) × (k ≡ ok tt)
guarded true x e = (refl, e)
guarded false x e = absurd (ground arith)

options_checked :
    (opts : CreateInvitationOptions)
    → check_options opts ≡ ok tt
    → (is_grantable (role_of (role_or_default opts)) ≡ true)
      × (is_between (pos 0) (max_expiry opts) opts.expires_in_hours ≡ true)
      × (at_least (pos 1) (bound_uses opts) ≡ true)
unfolding check_options
options_checked opts e =
    let g = guarded (is_grantable (role_of (role_or_default opts))) (invalid_invite_role ∷ []) e in
    let h = guarded (is_between (pos 0) (max_expiry opts) opts.expires_in_hours) option_error g.1 in
    let i = guarded (at_least (pos 1) (bound_uses opts)) option_error h.1 in (g.0, h.0, i.0)

at_least-single :
    (b : Bool) (uses : Option ℤ)
    → at_least (pos 1) uses ≡ true
    → at_least (pos 1) (single_by_default b uses) ≡ true
at_least-single true none h = refl
at_least-single true (some n) h = h
at_least-single false none h = h
at_least-single false (some n) h = h

single-limited :
    (b : Bool) (uses : Option ℤ) → b ≡ true → (n : ℤ) × (single_by_default b uses ≡ some n)
single-limited true none h = (pos 1, refl)
single-limited true (some n) h = (n, refl)
single-limited false uses h = absurd (ground arith)

above_zero : (n : ℤ) → leb_ℤ (pos 1) n ≡ true → pos 0 ≤ℤ n
above_zero (pos n) h = ground arith
above_zero (negsuc n) h = ground arith

unused-within :
    (uses : Option ℤ)
    → at_least (pos 1) uses ≡ true
    → (limit : ℤ) → uses ≡ some limit
    → pos 0 ≤ℤ limit
unused-within none h limit e = absurd (ground arith)
unused-within (some n) h limit e =
    let q : n ≡ limit = cc in subst (λ k. pos 0 ≤ℤ k) q (above_zero n h)

later : (now : ℤ) (h m : ℕ) → h ≤ m → (now ≤ℤ now +ℤ pos h) × (now +ℤ pos h ≤ℤ now +ℤ pos m)
later (pos now) h m k = ground arith
later (negsuc now) h m k = ground arith

between-later :
    (now : ℤ) (m : ℕ) (h : ℤ)
    → (leb_ℤ (pos 0) h && leb_ℤ h (pos m)) ≡ true
    → (now ≤ℤ hours_later now h) × (hours_later now h ≤ℤ hours_later now (pos m))
between-later now m (pos h) e = later now (h * 3600) (m * 3600) (ground arith)
between-later now m (negsuc h) e = absurd (ground arith)

ends_within :
    (now : ℤ) (m : ℕ) (hours : Option ℤ)
    → is_between (pos 0) (pos m) hours ≡ true
    → (t : ℤ) → map_option (hours_later now) hours ≡ some t
    → (now ≤ℤ t) × (t ≤ℤ hours_later now (pos m))
ends_within now m none h t e = absurd (ground arith)
ends_within now m (some k) h t e =
    let q : hours_later now k ≡ t = cc in
    subst (λ x. (now ≤ℤ x) × (x ≤ℤ hours_later now (pos m))) q (between-later now m k h)

preview : (b c : Bool) → b ≡ false → (b && c) ≡ false
preview b c h = ground arith

module _ {World : Type 0} (o : Service World) (caller : User) (opts : CreateInvitationOptions) where
  abbrev pub Sound : Invitation → Type 0
  Sound = IsSound o.now.unix (max_expiry opts)

  ends_by :
      (b : Bool)
      → is_between (pos 0) (if b then pos 48 else pos 720) opts.expires_in_hours ≡ true
      → (t : ℤ) → map_option (hours_later o.now.unix) opts.expires_in_hours ≡ some t
      → (o.now.unix ≤ℤ t) × (t ≤ℤ hours_later o.now.unix (if b then pos 48 else pos 720))
  ends_by true h = ends_within o.now.unix 48 opts.expires_in_hours h
  ends_by false h = ends_within o.now.unix 720 opts.expires_in_hours h

  ends_in_time :
      is_between (pos 0) (max_expiry opts) opts.expires_in_hours ≡ true
      → (t : ℤ) → map_option (hours_later o.now.unix) opts.expires_in_hours ≡ some t
      → (o.now.unix ≤ℤ t) × (t ≤ℤ hours_later o.now.unix (max_expiry opts))
  ends_in_time h t e = ends_by (is_empty opts.member_public_keys) h t e

  pub checked-IsSound : check_options opts ≡ ok tt → Sound (invitation_of o caller opts)
  unfolding invitation_of
  checked-IsSound e =
      let c = options_checked opts e in
      let used = at_least-single (identity opts || space_use opts) (bound_uses opts) c.2 in
      record {
        grantable = c.0;
        bounded = record {
          counted = ground arith;
          within =
              unused-within (single_by_default (identity opts || space_use opts) (bound_uses opts))
                used;
        };
        usable = used;
        ends = ends_in_time c.1;
        limited = single-limited (identity opts || space_use opts) (bound_uses opts);
        with_membership = λ h. (
          preview (membership opts) (otherwise true opts.grants_identity) h,
          preview (membership opts) (otherwise false opts.grants_space_use) h,
        );
      }
