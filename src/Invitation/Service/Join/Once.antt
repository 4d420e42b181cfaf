-- ===== src/Invitation/Service/Join/Once.antt =====
-- How many uses a join takes (Join in internal/invitation/invitation_service.go).
use mathlib.Core.Path.{subst}
use prappser_spaces.Base.{
  String, ◌≡◌, refl, sym, ap, ◌∙◌, Bool, true, false, Option, none, ◌⊎◌, inl, inr, if◌then◌else◌,
}
use prappser_spaces.Base.Int.{ℤ, pos, ◌+ℤ◌, ◌≤ℤ◌}
use prappser_spaces.Result.{ok}
use prappser_spaces.Event.{Event}
use prappser_spaces.Invitation.{InviteTokenClaims, JoinResult, Account}
use prappser_spaces.Invitation.Tokens.{validate_token}
use prappser_spaces.Invitation.Repository.{Table, record_use, has_been_used_by}
use prappser_spaces.Invitation.Repository.Uses.{count_of}
use prappser_spaces.Invitation.Repository.Bounds.{AllBounded, record_use-count_of, count_of-counted}
use prappser_spaces.Invitation.Run.{State, Service, ◌>>◌, give, hold, deferred}
use prappser_spaces.Invitation.Run.Hoare.{
  Post, Hoare, Keeps, OfTable, bind-Hoare, lift-Keeps, give-Keeps, ask-Keeps, query-Keeps,
  call-Keeps, caught-Hoare, ignored-Hoare, change-Hoare, if-Hoare, weaken-Hoare, given-Hoare,
  deferred-Hoare, answered, passes,
}
use prappser_spaces.Invitation.Service.Gates.{is_absent}
use prappser_spaces.Invitation.Service.Joiner.{Joiner, known}
use prappser_spaces.Invitation.Service.Join.Claims.{
  IsAt, At, Nothing, Held, claimed-Hoare, enroll-Hoare, admit_binding-Keeps,
  ensure_first_device-Keeps, release_any-Hoare, unheld-Hoare,
}
use prappser_spaces.Invitation.Service.Keeps.{
  can_promote-Keeps, promote-Keeps, check_account-Keeps, check_join-Hoare,
}
use prappser_spaces.Invitation.Service.Join.{
  new_member, use_of, record_this, claim_unless, or_missing, release, promote_member, rejoin,
  added_event, add_member, enter, return_claim, join,
}

-- What a join that answered has done.
abbrev pub Spent : String → ℤ → JoinResult → Table → Type 0
Spent id n r t =
    (r.is_new_member ≡ true) × (count_of id t.invitations ≡ n +ℤ pos 1)
    ⊎ (r.is_new_member ≡ false)
      × ((count_of id t.invitations ≡ n) ⊎ (count_of id t.invitations ≡ n +ℤ pos 1))

-- At the end of a join, which holds no claim.
record IsDone (id : String) (n : ℤ) (r : JoinResult) (t : Table) (flag : Bool) : Type 0 where
  dropped : flag ≡ false
  spent : Spent id n r t

module _ {World : Type 0} (o : Service World) (j : Joiner World) (n : ℤ) (counted : pos 0 ≤ℤ n)
    (released : o.faults.on_release ≡ none) where
  -- One more use than before, or none.
  abbrev Maybe : State World → Type 0
  Maybe s =
      (s.held_claim ≡ false)
      × ((count_of j.invite.id s.table.invitations ≡ n)
          ⊎ (count_of j.invite.id s.table.invitations ≡ n +ℤ pos 1))

  Held-record_this : Keeps (Held j n) (record_this o j)
  Held-record_this =
      change-Hoare o.faults.on_record (record_use (use_of o j)) (λ s p. p)
        (λ s t p e. (p.0, sym (record_use-count_of j.invite.id (use_of o j) s.table t e) ∙ p.1))

  promote_member-Hoare : Hoare (At j n false) (promote_member o j) (λ _. Maybe) Nothing
  unfolding promote_member
  promote_member-Hoare =
      bind-Hoare
        (passes (query-Keeps o.faults.on_used (has_been_used_by j.invite.id j.proof.public_key)))
        (λ used.
          if-Hoare used (record { holds = λ s p. (p.same_flag, inl p.count) })
            (bind-Hoare (claimed-Hoare o j n counted released) (λ _.
              weaken-Hoare (λ a s p. (p.0, inr p.1)) (λ s p. tt)
                (bind-Hoare
                  (promote-Keeps o
                    (λ t b. (b ≡ false) × (count_of j.invite.id t.invitations ≡ n +ℤ pos 1))
                    j.proof.public_key)
                  (λ _. Held-record_this)))))

  abbrev Done : JoinResult → State World → Type 0
  Done r = OfTable (IsDone j.invite.id n r)

  rejoin-Hoare : (held : Bool) (acct : Account) → Hoare (At j n held) (rejoin o j acct) Done Nothing
  unfolding rejoin
  rejoin-Hoare held acct = bind-Hoare (release_any-Hoare o j n counted released held) (λ _.
      bind-Hoare
        (passes (ask-Keeps (o.others.get_member j.invite.application_id j.proof.public_key)))
        (λ found. bind-Hoare (passes (lift-Keeps (or_missing found))) (λ m.
          bind-Hoare
            (passes (
              can_promote-Keeps o (IsAt j.invite.id n false) j.invite acct
                j.proof.device_public_key))
            (λ may.
              bind-Hoare
                (if-Hoare may promote_member-Hoare
                  (record { holds = λ s p. (p.same_flag, inl p.count) }))
                (λ _. record {
                  holds = λ s p. record { dropped = p.0; spent = inr (refl, p.1) };
                })))))

  claim_unless-Hoare :
      (held : Bool)
      → Hoare
          (At j n held)
          (claim_unless o j held)
          (λ _ s. count_of j.invite.id s.table.invitations ≡ n +ℤ pos 1)
          Nothing
  claim_unless-Hoare true = record { holds = λ s p. p.count }
  claim_unless-Hoare false =
      weaken-Hoare (λ a s p. p.1) (λ s p. p) (claimed-Hoare o j n counted released)

  claim_any-Hoare :
      (held : Bool)
      → Hoare
          (At j n held)
          (λ s. claim_unless o j s.held_claim s)
          (λ _ s. count_of j.invite.id s.table.invitations ≡ n +ℤ pos 1)
          Nothing
  claim_any-Hoare held = record {
    holds = λ s p.
        subst
          (λ b.
            Post (λ _ s'. count_of j.invite.id s'.table.invitations ≡ n +ℤ pos 1) Nothing
              (claim_unless o j b s))
          (sym p.same_flag) ((claim_unless-Hoare held).holds s p);
  }

  abbrev Taken : Table → Bool → Type 0
  Taken t b = (b ≡ false) × (count_of j.invite.id t.invitations ≡ n +ℤ pos 1)

  joined : (e : Event) → Hoare (OfTable Taken) (give (new_member o j e)) Done (OfTable Taken)
  joined e = record { holds = λ s p. record { dropped = p.0; spent = inl (refl, p.1) } }

  add_member-Hoare :
      (held : Bool) (acct : Account) → Hoare (At j n held) (add_member o j acct) Done Nothing
  unfolding add_member
  add_member-Hoare held acct = bind-Hoare (claim_any-Hoare held) (λ _.
      bind-Hoare (unheld-Hoare o j n counted released) (λ _.
        weaken-Hoare (λ r s p. p) (λ s p. tt)
          (bind-Hoare (call-Keeps Taken (o.others.produce_event (added_event o j acct))) (λ e.
            bind-Hoare Held-record_this (λ _.
              bind-Hoare (can_promote-Keeps o Taken j.invite acct j.proof.device_public_key) (λ may.
                bind-Hoare
                  (if-Hoare may (ignored-Hoare (promote-Keeps o Taken j.proof.public_key))
                    (give-Keeps tt))
                  (λ _. joined e)))))))

  enter-Hoare : (acct : Option Account) → Hoare (At j n false) (enter o j acct) Done Nothing
  unfolding enter
  enter-Hoare acct = bind-Hoare (enroll-Hoare o j n counted released acct) (λ entered.
      bind-Hoare (passes (admit_binding-Keeps o j n counted released (is_absent acct) j.admit))
        (λ _.
          bind-Hoare
            (passes (ensure_first_device-Keeps o j n counted released (is_absent acct) entered))
            (λ _.
              bind-Hoare
                (passes (ask-Keeps (o.others.is_member j.invite.application_id j.proof.public_key)))
                (λ member.
                  if-Hoare member (rejoin-Hoare (is_absent acct) entered.1)
                    (add_member-Hoare (is_absent acct) entered.1)))))

module _ {World : Type 0} (o : Service World) where
  -- The deferred function finds no claim at the end of a join that answered.
  returned :
      (j : Joiner World) (n : ℤ) (r : JoinResult) (s : State World)
      → OfTable (IsDone j.invite.id n r) s
      → OfTable (IsDone j.invite.id n r) (return_claim o j s).1
  unfolding return_claim
  returned j n r s d =
      subst (λ b. OfTable (IsDone j.invite.id n r) ((if b then release o j else give tt) s).1)
        (sym d.dropped) d

  -- What is counted before a join.
  abbrev Counted : String → ℤ → Table → Bool → Type 0
  Counted id n t b = count_of id t.invitations ≡ n

  abbrev Answered : String → ℤ → JoinResult → State World → Type 0
  Answered id n r = OfTable (λ t b. Spent id n r t)

  started :
      (j : Joiner World) (id : String) (n : ℤ)
      → j.invite.id ≡ id
      → Hoare {S = State World}
          (OfTable (Counted id n))
          (hold false)
          (λ _. OfTable (IsAt j.invite.id n false))
          (λ _. Unit {0})
  started j id n e = record {
    holds =
        λ s p. record { same_flag = refl; count = ap (λ k. count_of k s.table.invitations) e ∙ p };
  }

  entered-Hoare :
      (j : Joiner World) (acct : Option Account) (id : String) (n : ℤ)
      → pos 0 ≤ℤ n
      → o.faults.on_release ≡ none
      → j.invite.id ≡ id
      → Hoare
          (OfTable (Counted id n))
          (hold false >> deferred (return_claim o j) (enter o j acct))
          (Answered id n)
          (λ _. Unit {0})
  entered-Hoare j acct id n c f e = bind-Hoare (started j id n e) (λ _.
      weaken-Hoare (λ r s d. subst (λ k. Spent k n r s.table) e d.spent) (λ s p. p)
        (deferred-Hoare (return_claim o j) (returned j n) (λ s p. tt) (enter-Hoare o j n c f acct)))

  join-Hoare :
      (token proof assertion binding device_name : String) (c : InviteTokenClaims) (n : ℤ)
      → pos 0 ≤ℤ n
      → o.faults.on_release ≡ none
      → validate_token o token ≡ ok c
      → Hoare
          (OfTable (Counted c.invite_id n))
          (join o token proof assertion binding device_name)
          (Answered c.invite_id n)
          (λ _. Unit {0})
  unfolding join
  join-Hoare token proof assertion binding device_name c n k f v =
      bind-Hoare
        (weaken-Hoare (λ j s p. p) (λ s p. tt)
          (check_join-Hoare o (Counted c.invite_id n) token proof assertion binding device_name c
            v))
        (λ j. given-Hoare (λ e.
          bind-Hoare (caught-Hoare (ask-Keeps (o.others.get_user j.proof.public_key))) (λ r.
            bind-Hoare (passes (check_account-Keeps o (Counted c.invite_id n) j (known r)))
              (λ _. entered-Hoare j (known r) c.invite_id n k f e))))

  -- A join that answers takes exactly one use of the token's invitation when it made a member, and
  -- at most one when the account was a member already (the promotion of a guest takes one), where
  -- no release fails in the database and every count of uses is within its limit.
  pub join-spends_once :
      (token proof assertion binding device_name : String) (c : InviteTokenClaims) (s : State World)
      (r : JoinResult)
      → validate_token o token ≡ ok c
      → o.faults.on_release ≡ none
      → AllBounded s.table
      → (join o token proof assertion binding device_name s).0 ≡ ok r
      → Spent c.invite_id
          (count_of c.invite_id s.table.invitations)
          r
          (join o token proof assertion binding device_name s).1.table
  join-spends_once token proof assertion binding device_name c s r v f b e =
      let n : ℤ = count_of c.invite_id s.table.invitations in
      answered (Answered c.invite_id n) (λ _. Unit {0})
        (join o token proof assertion binding device_name s) r
        ((join-Hoare token proof assertion binding device_name c n
            (count_of-counted c.invite_id s.table.invitations b.each) f v).holds
          s refl)
        e
