-- ===== src/Invitation/Service/Gates.antt =====
-- Who may sign up, and who becomes a user of the space (signupBlocked, canPromote and promote in
-- internal/invitation/invitation_service.go).
use prappser_spaces.Base.{
  String, Bool, true, false, not, ◌&&◌, ◌||◌, Option, none, some, [], ◌∷◌, ◌==◌, if◌then◌else◌,
}
use prappser_spaces.Base.Int.{ℤ, pos, ltb_ℤ, eqb_ℤ}
use prappser_spaces.Result.{
  Result, ok, err, guard, identity_not_granted, single_use_required, account_limit,
}
use prappser_spaces.Invitation.{Invitation, Account, Device}
use prappser_spaces.Invitation.Options.{is_empty}
use prappser_spaces.Invitation.Run.{Service, Run, ◌>>=◌, ◌>>◌, give, lift, ask, call, caught}

abbrev pub is_single_use : Option ℤ → Bool
is_single_use none = false
is_single_use (some n) = eqb_ℤ n (pos 1)

-- A device that is the account's own and was not revoked.
abbrev pub is_absent {ℓ} : {A : Type ℓ} → Option A → Bool
is_absent none = true
is_absent (some a) = false

abbrev pub is_own : String → Result (Option Device) → Bool
is_own key (err e) = false
is_own key (ok none) = false
is_own key (ok (some d)) = (d.user_public_key == key) && is_absent d.revoked_at

module _ {World : Type 0} (o : Service World) where
  -- signupBlocked
  unfoldable pub signup_blocked : Invitation → Run World (Unit {0})
  signup_blocked i = do
    lift (
        guard
          (not o.single_use_signup
            || not (is_empty i.member_public_keys)
            || is_single_use i.max_uses)
          (single_use_required ∷ identity_not_granted ∷ []))
    (if ltb_ℤ (pos 0) o.max_accounts
        then (ask o.others.count_users >>= λ n.
            lift (guard (ltb_ℤ n o.max_accounts) (account_limit ∷ identity_not_granted ∷ [])))
        else give tt)

  -- canPromote
  unfoldable pub can_promote : Invitation → Account → String → Run World Bool
  can_promote i acct device =
      if not i.grants_space_use || not (acct.role == "guest")
      then give false
      else if device == acct.public_key
      then give true
      else (caught (ask (o.others.get_device device)) >>= λ d. give (is_own acct.public_key d))

  -- promote
  unfoldable pub promote : String → Run World (Unit {0})
  promote key = call (o.others.update_user_role key "user")
