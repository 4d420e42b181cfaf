-- ===== src/Invitation/Service/Join/Keeps.antt =====
-- Every invitation stays within its limit during a join (Join in internal/invitation/invitation_service.go).
use prappser_spaces.Base.{
  String, Bool, true, false, not, ◌&&◌, Option, none, some, [], ◌∷◌, ◌==◌, any, if◌then◌else◌,
}
use prappser_spaces.Base.Int.{pos, eqb_ℤ}
use prappser_spaces.Result.{Result, ok, err, guard, is_pq_unique, device_conflict}
use prappser_spaces.Invitation.{Account}
use prappser_spaces.Invitation.Repository.{
  increment_use_count, release_use, record_use, has_been_used_by,
}
use prappser_spaces.Invitation.Repository.Bounds.{
  AllBounded, increment-AllBounded, release-AllBounded, record_use-AllBounded,
}
use prappser_spaces.Invitation.Run.{State, Service, give, hold}
use prappser_spaces.Invitation.Run.Hoare.{
  Post, Keeps, OfTable, bind-Hoare, lift-Keeps, give-Keeps, ask-Keeps, query-Keeps, call-Keeps,
  caught-Hoare, ignored-Hoare, change-Hoare, if-Hoare, deferred-Hoare,
}
use prappser_spaces.Invitation.Service.Gates.{is_absent}
use prappser_spaces.Invitation.Service.Joiner.{Joiner, known}
use prappser_spaces.Invitation.Service.Keeps.{
  can_promote-Keeps, promote-Keeps, check_account-Keeps, check_join-Keeps,
}
use prappser_spaces.Invitation.Service.Join.{
  new_member, old_member, guest, use_of, record_this, claim_unless, conflicts, or_missing, has_none,
  admit_binding, release_held, claim, release, after_create, enroll, ensure_device,
  ensure_first_device, promote_member, rejoin, added_event, add_member, enter, return_claim, join,
}

abbrev pub Bounded : {World : Type 0} → State World → Type 0
Bounded = OfTable (λ t b. AllBounded t)

module _ {World : Type 0} (o : Service World) (j : Joiner World) where
  claim-Keeps : Keeps Bounded (claim o j)
  unfolding claim
  claim-Keeps =
      change-Hoare o.faults.on_claim (increment_use_count j.invite.id) (λ s p. p)
        (λ s t p e. increment-AllBounded j.invite.id s.table t p e)

  release-Keeps : Keeps Bounded (release o j)
  unfolding release
  release-Keeps = ignored-Hoare (
      change-Hoare o.faults.on_release (release_use j.invite.id) (λ s p. p)
        (λ s t p e. release-AllBounded j.invite.id s.table t p e))

  record_this-Keeps : Keeps Bounded (record_this o j)
  record_this-Keeps =
      change-Hoare o.faults.on_record (record_use (use_of o j)) (λ s p. p)
        (λ s t p e. record_use-AllBounded (use_of o j) s.table t p e)

  hold-Keeps : (b : Bool) → Keeps {S = State World} Bounded (hold b)
  hold-Keeps b = record { holds = λ s p. p }

  ensure-Keeps : (device : String) → Keeps Bounded (ensure_device o j device)
  ensure-Keeps device =
      call-Keeps (λ t b. AllBounded t)
        (o.others.ensure_device device j.proof.public_key j.device_name)

  after_create-Keeps : (r : Result (Unit {0})) → Keeps Bounded (after_create o j r)
  unfolding after_create
  after_create-Keeps (ok u) =
      bind-Hoare
        (if-Hoare (is_absent j.admit) (ensure-Keeps j.proof.device_public_key) (give-Keeps tt))
        (λ _. give-Keeps true)
  after_create-Keeps (err e) =
      if-Hoare (j.vouched && any is_pq_unique e) (give-Keeps false) (lift-Keeps (err e))

  enroll-Keeps : (acct : Option Account) → Keeps Bounded (enroll o j acct)
  unfolding enroll
  enroll-Keeps (some acct) = give-Keeps (false, acct)
  enroll-Keeps none = bind-Hoare (lift-Keeps (guard (not (j.proof.public_key == "")) [])) (λ _.
      bind-Hoare
        (if-Hoare j.vouched
          (bind-Hoare (ask-Keeps (o.others.get_device j.proof.device_public_key))
            (λ d. lift-Keeps (guard (not (conflicts j.proof.public_key d)) (device_conflict ∷ []))))
          (give-Keeps tt))
        (λ _. bind-Hoare claim-Keeps (λ _. bind-Hoare (hold-Keeps true) (λ _.
          bind-Hoare
            (caught-Hoare (call-Keeps (λ t b. AllBounded t) (o.others.create_user (guest o j))))
            (λ r. bind-Hoare (after_create-Keeps r) (λ is_new.
              bind-Hoare (ask-Keeps (o.others.get_user j.proof.public_key)) (λ found.
                bind-Hoare (lift-Keeps (or_missing found))
                  (λ acct. give-Keeps (is_new, acct)))))))))

  admit-Keeps : (a : Option (World → Result (Unit {0}) × World)) → Keeps Bounded (admit_binding o a)
  admit-Keeps none = give-Keeps tt
  admit-Keeps (some f) = call-Keeps (λ t b. AllBounded t) f

  first_device-Keeps : (e : Bool × Account) → Keeps Bounded (ensure_first_device o j e)
  unfolding ensure_first_device
  first_device-Keeps (is_new, acct) =
      if-Hoare (not is_new && is_absent j.admit && eqb_ℤ acct.binding_iat (pos 0))
        (bind-Hoare (ask-Keeps (o.others.list_devices j.proof.public_key)) (λ devices.
          if-Hoare (has_none devices) (ensure-Keeps j.proof.public_key) (give-Keeps tt)))
        (give-Keeps tt)

  held-Keeps : (held : Bool) → Keeps Bounded (release_held o j held)
  held-Keeps true = bind-Hoare (hold-Keeps false) (λ _. release-Keeps)
  held-Keeps false = give-Keeps tt

  promote_member-Keeps : Keeps Bounded (promote_member o j)
  unfolding promote_member
  promote_member-Keeps =
      bind-Hoare (query-Keeps o.faults.on_used (has_been_used_by j.invite.id j.proof.public_key))
        (λ used. if-Hoare used (give-Keeps tt) (
          bind-Hoare claim-Keeps (λ _.
            bind-Hoare (promote-Keeps o (λ t b. AllBounded t) j.proof.public_key)
              (λ _. record_this-Keeps))))

  rejoin-Keeps : (acct : Account) → Keeps Bounded (rejoin o j acct)
  unfolding rejoin
  rejoin-Keeps acct =
      bind-Hoare (record { holds = λ s p. (held-Keeps s.held_claim).holds s p })
        (λ _.
          bind-Hoare (ask-Keeps (o.others.get_member j.invite.application_id j.proof.public_key))
            (λ found. bind-Hoare (lift-Keeps (or_missing found)) (λ m.
              bind-Hoare
                (can_promote-Keeps o (λ t b. AllBounded t) j.invite acct j.proof.device_public_key)
                (λ may.
                  bind-Hoare (if-Hoare may promote_member-Keeps (give-Keeps tt))
                    (λ _. give-Keeps (old_member o j m))))))

  unless-Keeps : (held : Bool) → Keeps Bounded (claim_unless o j held)
  unless-Keeps true = give-Keeps tt
  unless-Keeps false = claim-Keeps

  add_member-Keeps : (acct : Account) → Keeps Bounded (add_member o j acct)
  unfolding add_member
  add_member-Keeps acct =
      bind-Hoare (record { holds = λ s p. (unless-Keeps s.held_claim).holds s p })
        (λ _. bind-Hoare (hold-Keeps false) (λ _.
          bind-Hoare
            (call-Keeps (λ t b. AllBounded t) (o.others.produce_event (added_event o j acct)))
            (λ e. bind-Hoare record_this-Keeps (λ _.
              bind-Hoare
                (can_promote-Keeps o (λ t b. AllBounded t) j.invite acct j.proof.device_public_key)
                (λ may.
                  bind-Hoare
                    (if-Hoare may
                      (ignored-Hoare (promote-Keeps o (λ t b. AllBounded t) j.proof.public_key))
                      (give-Keeps tt))
                    (λ _. give-Keeps (new_member o j e)))))))

  enter-Keeps : (acct : Option Account) → Keeps Bounded (enter o j acct)
  unfolding enter
  enter-Keeps acct = bind-Hoare (enroll-Keeps acct) (λ entered.
      bind-Hoare (admit-Keeps j.admit) (λ _. bind-Hoare (first_device-Keeps entered) (λ _.
        bind-Hoare (ask-Keeps (o.others.is_member j.invite.application_id j.proof.public_key))
          (λ member. if-Hoare member (rejoin-Keeps entered.1) (add_member-Keeps entered.1)))))

  returned-Keeps : (held : Bool) → Keeps Bounded (if held then release o j else give tt)
  returned-Keeps true = release-Keeps
  returned-Keeps false = give-Keeps tt

  returned : (r : Result (Unit {0}) × State World) → Post (λ _. Bounded) Bounded r → Bounded r.1
  returned (ok u, s) h = h
  returned (err e, s) h = h

  returned-Bounded : (s : State World) → Bounded s → Bounded (return_claim o j s).1
  unfolding return_claim
  returned-Bounded s b =
      returned ((if s.held_claim then release o j else give tt) s)
        ((returned-Keeps s.held_claim).holds s b)

module _ {World : Type 0} (o : Service World) where
  pub join-Keeps :
      (token proof assertion binding device_name : String)
      → Keeps Bounded (join o token proof assertion binding device_name)
  unfolding join
  join-Keeps token proof assertion binding device_name =
      bind-Hoare
        (check_join-Keeps o (λ t b. AllBounded t) token proof assertion binding device_name)
        (λ j. bind-Hoare (caught-Hoare (ask-Keeps (o.others.get_user j.proof.public_key))) (λ r.
          bind-Hoare (check_account-Keeps o (λ t b. AllBounded t) j (known r)) (λ _.
            bind-Hoare (hold-Keeps o j false) (λ _.
              deferred-Hoare (return_claim o j) (λ a s b. returned-Bounded o j s b)
                (λ s b. returned-Bounded o j s b) (enter-Keeps o j (known r))))))
