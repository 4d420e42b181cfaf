-- ===== src/Invitation/History.antt =====
-- Histories of requests to the invitation service (internal/invitation/invitation_service.go).
use prappser_spaces.Base.{String, true, not, List, [], ◌∷◌, ◌==◌}
use prappser_spaces.Result.{Result, ok, err, guard, app_mismatch}
use prappser_spaces.Application.{User}
use prappser_spaces.Invitation.Options.{CreateInvitationOptions}
use prappser_spaces.Invitation.Repository.{get_invitation_by_id, delete_invitation_row}
use prappser_spaces.Invitation.Repository.Bounds.{AllBounded, delete-AllBounded}
use prappser_spaces.Invitation.Run.{State, Service}
use prappser_spaces.Invitation.Run.Hoare.{
  Post, Keeps, bind-Hoare, lift-Keeps, give-Keeps, query-Keeps, call-Keeps, caught-Hoare,
  ignored-Hoare, change-Hoare,
}
use prappser_spaces.Invitation.Service.{
  or_no_invitation, revoked_event, create_invitation, revoke_invitation,
}
use prappser_spaces.Invitation.Service.Created.Stored.{create_invitation-Keeps}
use prappser_spaces.Invitation.Service.Keeps.{authorize_manager-Keeps}
use prappser_spaces.Invitation.Service.Join.{join}
use prappser_spaces.Invitation.Service.Join.Keeps.{Bounded, join-Keeps}

-- The calls of the service that change its tables.
pub data Request : Type 0 where
  creation : User → CreateInvitationOptions → Request
  revocation : User → String → String → Request
  joining : String → String → String → String → String → Request

module _ {World : Type 0} {A : Type 0} where
  ended : (r : Result A × State World) → Post (λ _. Bounded) Bounded r → Bounded r.1
  ended (ok a, s) h = h
  ended (err e, s) h = h

module _ {World : Type 0} (o : Service World) where
  revoke-Keeps :
      (caller : User) (app_id invite_id : String)
      → Keeps Bounded (revoke_invitation o caller app_id invite_id)
  unfolding revoke_invitation
  revoke-Keeps caller app_id invite_id =
      bind-Hoare (lift-Keeps (guard (not (caller.public_key == "")) [])) (λ _.
        bind-Hoare (authorize_manager-Keeps o (λ t b. AllBounded t) app_id caller true) (λ _.
          bind-Hoare (caught-Hoare (query-Keeps o.faults.on_get (get_invitation_by_id invite_id)))
            (λ r. bind-Hoare (lift-Keeps (or_no_invitation o r)) (λ i.
              bind-Hoare (lift-Keeps (guard (i.application_id == app_id) (app_mismatch ∷ []))) (λ _.
                bind-Hoare
                  (change-Hoare o.faults.on_delete (delete_invitation_row i.id) (λ s p. p)
                    (λ s t p e. delete-AllBounded i.id s.table t p e))
                  (λ _. ignored-Hoare (
                    bind-Hoare
                      (call-Keeps (λ t b. AllBounded t)
                        (o.others.produce_event (revoked_event o caller i)))
                      (λ e. give-Keeps tt))))))))

  -- A request at a service whose settings, clock, fresh ids and faults are those of the moment.
  unfoldable pub serve : Request → State World → State World
  serve (creation caller opts) s = (create_invitation o caller opts s).1
  serve (revocation caller app_id id) s = (revoke_invitation o caller app_id id s).1
  serve (joining token proof assertion binding name) s =
      (join o token proof assertion binding name s).1

  serve-Bounded : (r : Request) (s : State World) → Bounded s → Bounded (serve r s)
  unfolding serve
  serve-Bounded (creation caller opts) s b =
      ended (create_invitation o caller opts s) ((create_invitation-Keeps o caller opts).holds s b)
  serve-Bounded (revocation caller app_id id) s b =
      ended (revoke_invitation o caller app_id id s) ((revoke-Keeps caller app_id id).holds s b)
  serve-Bounded (joining token proof assertion binding name) s b =
      ended (join o token proof assertion binding name s)
        ((join-Keeps o token proof assertion binding name).holds s b)

module _ {World : Type 0} where
  unfoldable pub serve_all : List (Service World × Request) → State World → State World
  serve_all [] s = s
  serve_all ((o, r) ∷ rest) s = serve_all rest (serve o r s)

  -- However requests to create, to revoke and to join follow each other, whatever the other
  -- components answer and whatever statement of the database fails: if every invitation was used
  -- no more often than its limit allows before, then every one is after them.
  pub uses_bounded :
      (requests : List (Service World × Request)) (s : State World)
      → AllBounded s.table
      → AllBounded (serve_all requests s).table
  unfolding serve_all
  uses_bounded [] s b = b
  uses_bounded ((o, r) ∷ rest) s b = uses_bounded rest (serve o r s) (serve-Bounded o r s b)
