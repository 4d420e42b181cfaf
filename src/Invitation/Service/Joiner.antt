-- ===== src/Invitation/Service/Joiner.antt =====
-- The checks of a join before it changes anything (Join in
-- internal/invitation/invitation_service.go).
use prappser_spaces.Base.{
  String, Bool, true, false, not, ◌||◌, Option, none, some, [], ◌∷◌, ◌==◌, any, if◌then◌else◌,
}
use prappser_spaces.Result.{
  Result, ok, err, guard, not_for_member, membership_not_granted, invalid_invite_role,
  invalid_assertion, identity_not_granted, account_key_not_proven,
}
use prappser_spaces.Application.{role_of, is_grantable}
use prappser_spaces.Invitation.{
  Invitation, InviteTokenClaims, Account, Device, is_past, is_max_uses_reached,
}
use prappser_spaces.Invitation.Options.{is_empty}
use prappser_spaces.Invitation.Tokens.{validate_token}
use prappser_spaces.Invitation.Proof.{JoinProofClaims, verify_join_proof}
use prappser_spaces.Invitation.Repository.{get_invitation_by_id}
use prappser_spaces.Invitation.Run.{Service, Run, ◌>>=◌, ◌>>◌, give, lift, ask, query, caught}
use prappser_spaces.Invitation.Service.Gates.{is_absent, signup_blocked}

-- A join whose token and proof were taken: its invitation, the claims of the proof, and who vouches
-- for the account. `admit` is what the binding then has to do, if there is one.
pub record Joiner (World : Type 0) : Type 0 where
  pub invite : Invitation
  pub proof : JoinProofClaims
  pub device_name : Option String
  pub vouched : Bool
  pub admit : Option (World → Result (Unit {0}) × World)

abbrev pub known : Result (Option Account) → Option Account
known (err e) = none
known (ok acct) = acct

-- The account that an assertion names has to be the one of the proof.
abbrev pub asserted_for : String → Result String → Result (Unit {0})
asserted_for key (err e) = err (invalid_assertion ∷ [])
asserted_for key (ok id) = guard (id == key) (invalid_assertion ∷ [])

abbrev pub is_listed : Invitation → String → Bool
is_listed i key = is_empty i.member_public_keys || any (λ k. k == key) i.member_public_keys

abbrev pub joiner :
    {World : Type 0}
    → Invitation
    → JoinProofClaims
    → Option String
    → Bool
    → Option (World → Result (Unit {0}) × World)
    → Joiner World
joiner i p name vouched admit = record {
  invite = i;
  proof = p;
  device_name = name;
  vouched = vouched;
  admit = admit;
}

module _ {World : Type 0} (o : Service World) where
  -- The checks of a joining key and of the terms of its invitation.
  abbrev pub check_terms : Invitation → String → Run World (Unit {0})
  check_terms i key = do
    ask (o.others.move_guard i.application_id key true)
    lift (guard (is_listed i key) (not_for_member ∷ []))
    lift (guard i.grants_membership (membership_not_granted ∷ []))
    lift (guard (is_grantable (role_of i.role)) (invalid_invite_role ∷ []))

  unfoldable pub check_invitation : Invitation → String → Run World (Unit {0})
  check_invitation i key = lift (guard (not (is_max_uses_reached i)) []) >> check_terms i key

  -- Who vouches for the account: a binding with an assertion, an assertion, or nobody.
  unfoldable pub check_vouchers :
      Invitation → JoinProofClaims → Option String → String → String → Run World (Joiner World)
  check_vouchers i p name assertion binding =
      if not (binding == "")
      then (lift (guard (not (assertion == "")) (invalid_assertion ∷ []))
          >> (ask
                (o.others.verify_admission p.public_key p.device_public_key binding assertion name)
              >>= λ admit. give (joiner i p name true (some admit))))
      else if not (assertion == "")
      then (caught (lift (o.verify_assertion assertion p.device_public_key p.public_key)) >>= λ r.
          lift (asserted_for p.public_key r) >> give (joiner i p name true none))
      else give (joiner i p name false none)

  -- What follows the proof: the row, after the end of the invitation.
  abbrev pub check_row :
      InviteTokenClaims → String → String → String → JoinProofClaims → Run World (Joiner World)
  check_row c assertion binding device_name p = do
    i ← query o.faults.on_get (get_invitation_by_id c.invite_id)
    check_invitation i p.public_key
    check_vouchers i p (o.normalize_device_name device_name) assertion binding

  abbrev pub check_proven :
      InviteTokenClaims → String → String → String → JoinProofClaims → Run World (Joiner World)
  check_proven c assertion binding device_name p =
      lift (guard (not (is_past o.now.unix c.expires_at)) [])
      >> check_row c assertion binding device_name p

  -- Everything that follows the token, up to the vouchers.
  unfoldable pub check_claims :
      InviteTokenClaims → String → String → String → String → Run World (Joiner World)
  check_claims c proof assertion binding device_name =
      lift (verify_join_proof o.proofs proof c.invite_id o.now) >>= λ p.
      check_proven c assertion binding device_name p

  unfoldable pub check_join : String → String → String → String → String → Run World (Joiner World)
  unfolding check_claims
  check_join token proof assertion binding device_name = do
    c ← lift (validate_token o token)
    check_claims c proof assertion binding device_name

  abbrev pub roster_allows : Option Account → Option Device → Run World Bool
  roster_allows none d = give false
  roster_allows (some acct) d = ask (o.others.roster_allowed acct d)

  -- The gates of a new account, and the proof that an unvouched device is the account's.
  unfoldable pub check_account : Joiner World → Option Account → Run World (Unit {0})
  check_account j acct = do
    lift (
        guard (not (is_absent acct) || j.vouched || j.invite.grants_identity)
          (identity_not_granted ∷ []))
    (if is_absent acct then signup_blocked o j.invite else give tt)
    (if j.vouched || (j.proof.device_public_key == j.proof.public_key)
        then give tt
        else (ask (o.others.get_device j.proof.device_public_key) >>= λ d.
            roster_allows acct d >>= λ allowed. lift (guard allowed (account_key_not_proven ∷ []))))
