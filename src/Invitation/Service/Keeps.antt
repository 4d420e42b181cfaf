-- ===== src/Invitation/Service/Keeps.antt =====
-- The parts of the invitation service that change neither its tables nor a claim
-- (internal/invitation/invitation_service.go).
use prappser_spaces.Base.{
  String, ◌≡◌, refl, sym, ap, ◌∙◌, Bool, true, false, not, ◌&&◌, ◌||◌, Option, none, some, List, [],
  ◌∷◌, ◌==◌, any, find, arith, eq_iff,
}
use prappser_spaces.Base.Members.{find-some}
use prappser_spaces.Base.Int.{pos, ltb_ℤ}
use prappser_spaces.Result.{
  Result, ok, guard, single_use_required, identity_not_granted, account_limit, not_for_member,
  membership_not_granted, invalid_invite_role, account_key_not_proven, invalid_assertion,
  agent_read_off, space_use_not_allowed,
}
use prappser_spaces.Application.{User, Role, owner, admin, is_grantable, role_of, agent_allowed}
use prappser_spaces.Invitation.{
  Invitation, InviteTokenClaims, Account, Device, is_past, is_max_uses_reached,
}
use prappser_spaces.Invitation.Options.{
  CreateInvitationOptions, check_options, is_empty, otherwise, or_text,
}
use prappser_spaces.Invitation.Tokens.{validate_token}
use prappser_spaces.Invitation.Proof.{JoinProofClaims, verify_join_proof}
use prappser_spaces.Invitation.Repository.{Table, has_id, get_invitation_by_id, or_not_found}
use prappser_spaces.Invitation.Run.{State, Service, give, query}
use prappser_spaces.Invitation.Run.Hoare.{
  Hoare, Keeps, OfTable, bind-Hoare, lift-Hoare, lift-Keeps, give-Keeps, ask-Keeps, query-Hoare,
  call-Keeps, caught-Hoare, if-Hoare, weaken-Hoare, given-Hoare,
}
use prappser_spaces.Invitation.Service.{
  allows, agent_error, authorize_app_role, check_agent, authorize_manager, check_creation,
}
use prappser_spaces.Invitation.Service.Gates.{
  is_single_use, is_own, is_absent, signup_blocked, can_promote, promote,
}
use prappser_spaces.Invitation.Service.Joiner.{
  Joiner, joiner, is_listed, asserted_for, check_invitation, check_vouchers, check_claims,
  check_join, check_account, roster_allows,
}

module _ {World : Type 0} (o : Service World) (T : Table → Bool → Type 0) where
  abbrev Holds : State World → Type 0
  Holds = OfTable T

  pub signup_blocked-Keeps : (i : Invitation) → Keeps Holds (signup_blocked o i)
  unfolding signup_blocked
  signup_blocked-Keeps i =
      bind-Hoare
        (lift-Keeps (
          guard
            (not o.single_use_signup
              || not (is_empty i.member_public_keys)
              || is_single_use i.max_uses)
            (single_use_required ∷ identity_not_granted ∷ [])))
        (λ _.
          if-Hoare (ltb_ℤ (pos 0) o.max_accounts)
            (bind-Hoare (ask-Keeps o.others.count_users) (λ n.
              lift-Keeps
                (guard (ltb_ℤ n o.max_accounts) (account_limit ∷ identity_not_granted ∷ []))))
            (give-Keeps tt))

  pub can_promote-Keeps :
      (i : Invitation) (acct : Account) (device : String)
      → Keeps Holds (can_promote o i acct device)
  unfolding can_promote
  can_promote-Keeps i acct device =
      if-Hoare (not i.grants_space_use || not (acct.role == "guest")) (give-Keeps false) (
        if-Hoare (device == acct.public_key) (give-Keeps true) (
          bind-Hoare (caught-Hoare (ask-Keeps (o.others.get_device device)))
            (λ d. give-Keeps (is_own acct.public_key d))))

  pub promote-Keeps : (key : String) → Keeps Holds (promote o key)
  unfolding promote
  promote-Keeps key = call-Keeps T (o.others.update_user_role key "user")

  pub check_invitation-Keeps :
      (i : Invitation) (key : String) → Keeps Holds (check_invitation o i key)
  unfolding check_invitation
  check_invitation-Keeps i key =
      bind-Hoare (lift-Keeps (guard (not (is_max_uses_reached i)) [])) (λ _.
        bind-Hoare (ask-Keeps (o.others.move_guard i.application_id key true)) (λ _.
          bind-Hoare (lift-Keeps (guard (is_listed i key) (not_for_member ∷ []))) (λ _.
            bind-Hoare (lift-Keeps (guard i.grants_membership (membership_not_granted ∷ []))) (λ _.
              lift-Keeps (guard (is_grantable (role_of i.role)) (invalid_invite_role ∷ []))))))

  roster_allows-Keeps :
      (acct : Option Account) (d : Option Device) → Keeps Holds (roster_allows o acct d)
  roster_allows-Keeps none d = give-Keeps false
  roster_allows-Keeps (some acct) d = ask-Keeps (o.others.roster_allowed acct d)

  pub check_account-Keeps :
      (j : Joiner World) (acct : Option Account) → Keeps Holds (check_account o j acct)
  unfolding check_account
  check_account-Keeps j acct =
      bind-Hoare
        (lift-Keeps (
          guard (not (is_absent acct) || j.vouched || j.invite.grants_identity)
            (identity_not_granted ∷ [])))
        (λ _.
          bind-Hoare (if-Hoare (is_absent acct) (signup_blocked-Keeps j.invite) (give-Keeps tt))
            (λ _.
              if-Hoare (j.vouched || (j.proof.device_public_key == j.proof.public_key))
                (give-Keeps tt)
                (bind-Hoare (ask-Keeps (o.others.get_device j.proof.device_public_key)) (λ d.
                  bind-Hoare (roster_allows-Keeps acct d)
                    (λ allowed. lift-Keeps (guard allowed (account_key_not_proven ∷ [])))))))

  -- The invitation of a joiner is the one that was passed.
  Of : String → Joiner World → State World → Type 0
  Of id j s = T s.table s.held_claim × (j.invite.id ≡ id)

  passed : (id : String) (j : Joiner World) → j.invite.id ≡ id → Hoare Holds (give j) (Of id) Holds
  unfolding Of
  passed id j e = record { holds = λ s h. (h, e) }

  check_vouchers-Hoare :
      (i : Invitation) (p : JoinProofClaims) (name : Option String) (assertion binding : String)
      → Hoare Holds (check_vouchers o i p name assertion binding) (Of i.id) Holds
  unfolding check_vouchers Of
  check_vouchers-Hoare i p name assertion binding =
      if-Hoare (not (binding == ""))
        (bind-Hoare (lift-Keeps (guard (not (assertion == "")) (invalid_assertion ∷ []))) (λ _.
          bind-Hoare
            (ask-Keeps
              (o.others.verify_admission p.public_key p.device_public_key binding assertion name))
            (λ admit. passed i.id (joiner i p name true (some admit)) refl)))
        (if-Hoare (not (assertion == ""))
          (bind-Hoare
            (caught-Hoare
              (lift-Keeps (o.verify_assertion assertion p.device_public_key p.public_key)))
            (λ r.
              bind-Hoare (lift-Keeps (asserted_for p.public_key r))
                (λ _. passed i.id (joiner i p name true none) refl)))
          (passed i.id (joiner i p name false none) refl))

  authorize_app_role-Keeps :
      (app_id key : String) (allowed : List Role)
      → Keeps Holds (authorize_app_role o app_id key allowed)
  unfolding authorize_app_role
  authorize_app_role-Keeps app_id key allowed =
      bind-Hoare (ask-Keeps (o.others.get_member app_id key)) (λ m. lift-Keeps (allows o allowed m))

  pub authorize_manager-Keeps :
      (app_id : String) (caller : User) (writes : Bool)
      → Keeps Holds (authorize_manager o app_id caller writes)
  unfolding authorize_manager
  authorize_manager-Keeps app_id caller writes =
      bind-Hoare (authorize_app_role-Keeps app_id caller.public_key (owner ∷ admin ∷ []))
        (λ _. ask-Keeps (o.others.move_guard app_id caller.public_key writes))

  check_agent-Keeps : (app_id : String) (caller : User) → Keeps Holds (check_agent o app_id caller)
  unfolding check_agent
  check_agent-Keeps app_id caller =
      if-Hoare caller.agent
        (bind-Hoare (caught-Hoare (ask-Keeps (o.others.get_application app_id))) (λ r.
          bind-Hoare (lift-Keeps (agent_error o r)) (λ app. lift-Keeps (
            guard
              (agent_allowed app caller && any (λ m. m.public_key == caller.public_key) app.members)
              (agent_read_off ∷ [])))))
        (give-Keeps tt)

  -- Who passes the checks of a new invitation gave sound options, and owns the space if the
  -- invitation is to grant its use.
  pub check_creation-Hoare :
      (caller : User) (opts : CreateInvitationOptions)
      → Hoare Holds
          (check_creation o caller opts)
          (λ u s. T s.table s.held_claim × (check_options opts ≡ ok u))
          Holds
  unfolding check_creation
  check_creation-Hoare caller opts =
      bind-Hoare (lift-Keeps (guard (not (opts.application_id == "")) [])) (λ _.
        bind-Hoare (lift-Keeps (guard (not (caller.public_key == "")) [])) (λ _.
          bind-Hoare (check_agent-Keeps opts.application_id caller) (λ _.
            bind-Hoare (authorize_manager-Keeps opts.application_id caller true) (λ _.
              bind-Hoare
                (lift-Keeps (
                  guard (not (otherwise false opts.grants_space_use) || (caller.role == "owner"))
                    (space_use_not_allowed ∷ [])))
                (λ _.
                  bind-Hoare
                    (lift-Keeps (guard (not (or_text o.external_url opts.space_url == "")) []))
                    (λ _. lift-Hoare (check_options opts)))))))

module _ where
  same_claims :
      (c c' : InviteTokenClaims) {r : Result InviteTokenClaims}
      → r ≡ ok c
      → r ≡ ok c'
      → c'.invite_id ≡ c.invite_id
  same_claims c c' v e = let q : c' ≡ c = cc in ap (λ x. x.invite_id) q

  found_id :
      (id : String) (r : Option Invitation) (i : Invitation)
      → ((k : Invitation) → r ≡ some k → k.id ≡ id)
      → or_not_found r ≡ ok i
      → i.id ≡ id
  found_id id none i f e = absurd (ground arith)
  found_id id (some k) i f e = let q : k ≡ i = cc in sym (ap (λ x. x.id) q) ∙ f k refl

  pub fetched_id :
      (id : String) (t : Table) (i : Invitation) → get_invitation_by_id id t ≡ ok i → i.id ≡ id
  unfolding get_invitation_by_id
  fetched_id id t i e =
      found_id id (find (has_id id) t.invitations) i
        (λ k f. (eq_iff k.id id).0 (find-some (has_id id) t.invitations k f).1) e

module _ {World : Type 0} (o : Service World) (T : Table → Bool → Type 0) where
  fetched-Hoare :
      (id : String)
      → Hoare {S = State World}
          (OfTable T)
          (query o.faults.on_get (get_invitation_by_id id))
          (λ i s. T s.table s.held_claim × (i.id ≡ id))
          (OfTable T)
  fetched-Hoare id =
      weaken-Hoare (λ i s h. (h.0, fetched_id id s.table i h.1)) (λ s h. h)
        (query-Hoare o.faults.on_get (get_invitation_by_id id))

  abbrev Chosen : InviteTokenClaims → Joiner World → State World → Type 0
  Chosen c j s = T s.table s.held_claim × (j.invite.id ≡ c.invite_id)

  check_claims-Hoare :
      (c : InviteTokenClaims) (proof assertion binding device_name : String)
      → Hoare
          (OfTable T)
          (check_claims o c proof assertion binding device_name)
          (Chosen c)
          (OfTable T)
  unfolding check_claims Of
  check_claims-Hoare c proof assertion binding device_name =
      bind-Hoare (lift-Keeps (verify_join_proof o.proofs proof c.invite_id o.now)) (λ p.
        bind-Hoare (lift-Keeps (guard (not (is_past o.now.unix c.expires_at)) [])) (λ _.
          bind-Hoare (fetched-Hoare c.invite_id) (λ i. given-Hoare (λ t.
            bind-Hoare (check_invitation-Keeps o T i p.public_key) (λ _.
              weaken-Hoare (λ j s h. (h.0, h.1 ∙ t)) (λ s h. h)
                (check_vouchers-Hoare o T i p (o.normalize_device_name device_name) assertion
                  binding))))))

  -- A join that passes its checks has the invitation of its token.
  pub check_join-Hoare :
      (token proof assertion binding device_name : String) (c : InviteTokenClaims)
      → validate_token o token ≡ ok c
      → Hoare
          (OfTable T)
          (check_join o token proof assertion binding device_name)
          (Chosen c)
          (OfTable T)
  unfolding check_join
  check_join-Hoare token proof assertion binding device_name c v =
      bind-Hoare (lift-Hoare (validate_token o token)) (λ c'. given-Hoare (λ e.
        weaken-Hoare (λ j s h. (h.0, h.1 ∙ same_claims c c' v e)) (λ s h. h)
          (check_claims-Hoare c' proof assertion binding device_name)))

  pub check_join-Keeps :
      (token proof assertion binding device_name : String)
      → Keeps (OfTable T) (check_join o token proof assertion binding device_name)
  unfolding check_join
  check_join-Keeps token proof assertion binding device_name =
      bind-Hoare (lift-Keeps (validate_token o token)) (λ c.
        weaken-Hoare (λ j s h. h.0) (λ s h. h)
          (check_claims-Hoare c proof assertion binding device_name))
