-- ===== src/Invitation/Service/Created/Stored.antt =====
-- What CreateInvitation stores (internal/invitation/invitation_service.go).
use prappser_spaces.Base.{◌≡◌, refl, sym, ap, ◌∙◌, ◌∷◌, [], any}
use prappser_spaces.Result.{ok, pq}
use prappser_spaces.Application.{User}
use prappser_spaces.Invitation.{Invitation, InvitationResponse}
use prappser_spaces.Invitation.Options.{CreateInvitationOptions, or_text}
use prappser_spaces.Invitation.Tokens.{generate_token}
use prappser_spaces.Invitation.Repository.{Table, has_id, create_invitation_row}
use prappser_spaces.Invitation.Repository.Bounds.{AllBounded, create-AllBounded, refused_or}
use prappser_spaces.Invitation.Service.{invitation_of, response_of, create_invitation}
use prappser_spaces.Invitation.Service.Created.{Sound, checked-IsSound}
use prappser_spaces.Invitation.Service.Keeps.{check_creation-Hoare}
use prappser_spaces.Invitation.Run.{State, Service}
use prappser_spaces.Invitation.Run.Hoare.{
  Hoare, Keeps, OfTable, bind-Hoare, lift-Keeps, give-Keeps, change-Hoare, weaken-Hoare,
  given-Hoare, answered, passes,
}

module _ {World : Type 0} (o : Service World) (caller : User) (opts : CreateInvitationOptions) where
  -- The row was added in front of those of before, and is sound.
  abbrev pub Stored : Table → InvitationResponse → State World → Type 0
  Stored t r s =
      (s.table.invitations ≡ invitation_of o caller opts ∷ t.invitations)
      × (r.id ≡ o.invite_id)
      × Sound o caller opts (invitation_of o caller opts)

  inserted :
      (i : Invitation) (t t' : Table)
      → create_invitation_row i t ≡ ok t'
      → t'.invitations ≡ i ∷ t.invitations
  unfolding create_invitation_row
  inserted i t t' e = sym (
      ap (λ u. u.invitations)
        (refused_or (any (has_id i.id) t.invitations) (pq "23" "23505" "invitations_pkey" ∷ [])
          (record t { invitations = i ∷ t.invitations }) t' e))

  create-Hoare :
      (t : Table)
      → Hoare
          (OfTable (λ t' b. t' ≡ t))
          (create_invitation o caller opts)
          (Stored t)
          (λ _. Unit {0})
  unfolding create_invitation
  create-Hoare t =
      bind-Hoare
        (weaken-Hoare (λ u s p. p) (λ s p. tt)
          (check_creation-Hoare o (λ t' b. t' ≡ t) caller opts))
        (λ u. given-Hoare (λ c.
          bind-Hoare
            (change-Hoare o.faults.on_create (create_invitation_row (invitation_of o caller opts))
              (λ s p. tt)
              (λ s t' p e.
                inserted (invitation_of o caller opts) s.table t' e
                ∙ ap (λ x. invitation_of o caller opts ∷ x.invitations) p))
            (λ _.
              bind-Hoare
                (passes (
                  lift-Keeps (
                    generate_token o (invitation_of o caller opts).id
                      (or_text o.external_url opts.space_url)
                      (invitation_of o caller opts).expires_at)))
                (λ token. record { holds = λ s p. (p, refl, checked-IsSound o caller opts c) }))))

  -- A creation that answers has added one unused invitation in front of the others, under the id
  -- that it answers with. Its role may be granted, it has a use or no limit, it ends within 48
  -- hours, or 720 if it is bound to members, it has a limit if it grants an identity or space use,
  -- and it grants neither without a membership.
  pub created-IsSound :
      (s : State World) (r : InvitationResponse)
      → (create_invitation o caller opts s).0 ≡ ok r
      → Stored s.table r (create_invitation o caller opts s).1
  created-IsSound s r e =
      answered (Stored s.table) (λ _. Unit {0}) (create_invitation o caller opts s) r
        ((create-Hoare s.table).holds s refl) e

  pub create_invitation-Keeps :
      Keeps (OfTable (λ t b. AllBounded t)) (create_invitation o caller opts)
  unfolding create_invitation
  create_invitation-Keeps =
      bind-Hoare (check_creation-Hoare o (λ t b. AllBounded t) caller opts) (λ u. given-Hoare (λ c.
        bind-Hoare
          (change-Hoare o.faults.on_create (create_invitation_row (invitation_of o caller opts))
            (λ s p. p)
            (λ s t p e.
              create-AllBounded (invitation_of o caller opts) s.table t
                (checked-IsSound o caller opts c).bounded p e))
          (λ _.
            bind-Hoare
              (lift-Keeps (
                generate_token o (invitation_of o caller opts).id
                  (or_text o.external_url opts.space_url) (invitation_of o caller opts).expires_at))
              (λ token. give-Keeps (response_of o (invitation_of o caller opts) token)))))
