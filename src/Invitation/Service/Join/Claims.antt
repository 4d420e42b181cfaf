-- ===== src/Invitation/Service/Join/Claims.antt =====
-- The claim of a use during a join (Join in internal/invitation/invitation_service.go).
use mathlib.Core.Path.{subst}
use prappser_spaces.Base.{
  String, ◌≡◌, refl, sym, ap, ◌∙◌, Bool, true, false, not, ◌&&◌, Option, none, some, [], ◌∷◌, ◌==◌,
  any, arith, if◌then◌else◌,
}
use prappser_spaces.Base.Int.{ℤ, pos, ◌+ℤ◌, ◌≤ℤ◌, eqb_ℤ}
use prappser_spaces.Result.{Result, ok, err, Error, guard, is_pq_unique, device_conflict}
use prappser_spaces.Invitation.{Account}
use prappser_spaces.Invitation.Repository.{Table, increment_use_count, release_use}
use prappser_spaces.Invitation.Repository.Uses.{count_of}
use prappser_spaces.Invitation.Repository.Bounds.{increment-count_of, release-count_of}
use prappser_spaces.Invitation.Run.{State, Service, ◌>>=◌, give, lift, ask, committed, change, hold}
use prappser_spaces.Invitation.Run.Hoare.{
  Post, Hoare, Keeps, OfTable, bind-Hoare, lift-Keeps, give-Keeps, ask-Keeps, call-Keeps,
  caught-Hoare, ignored-Hoare, change-Hoare, if-Hoare, strengthen-Hoare, passes,
}
use prappser_spaces.Invitation.Service.Gates.{is_absent}
use prappser_spaces.Invitation.Service.Joiner.{Joiner}
use prappser_spaces.Invitation.Service.Join.{
  guest, conflicts, or_missing, has_none, admit_binding, release_held, claim, release, after_create,
  enroll, ensure_first_device,
}

-- The uses that are counted, of `n` before a join that holds a claim or not.
abbrev pub owed : ℤ → Bool → ℤ
owed n true = n +ℤ pos 1
owed n false = n

-- A state in the middle of a join.
pub record IsAt (id : String) (n : ℤ) (held : Bool) (t : Table) (flag : Bool) : Type 0 where
  pub same_flag : flag ≡ held
  pub count : count_of id t.invitations ≡ owed n held

module _ {World : Type 0} (j : Joiner World) (n : ℤ) where
  abbrev pub At : Bool → State World → Type 0
  At held = OfTable (IsAt j.invite.id n held)

  abbrev pub Held : State World → Type 0
  Held s = (s.held_claim ≡ false) × (count_of j.invite.id s.table.invitations ≡ n +ℤ pos 1)

abbrev pub Nothing : {World : Type 0} → State World → Type 0
Nothing s = Unit

module _ {World : Type 0} (o : Service World) (j : Joiner World) (n : ℤ) (counted : pos 0 ≤ℤ n)
    (released : o.faults.on_release ≡ none) where
  -- A claim moves the count from n to n + 1, and leaves the variable alone.
  pub claimed-Hoare :
      Hoare
        (At j n false)
        (claim o j)
        (λ _ s. (s.held_claim ≡ false) × (count_of j.invite.id s.table.invitations ≡ n +ℤ pos 1))
        Nothing
  unfolding claim
  claimed-Hoare =
      change-Hoare o.faults.on_claim (increment_use_count j.invite.id) (λ s p. tt)
        (λ s t p e.
          (p.same_flag, increment-count_of j.invite.id s.table t e ∙ ap (λ m. m +ℤ pos 1) p.count))

  hold-Hoare :
      (b : Bool)
      → Hoare
          (λ s. (s.held_claim ≡ false) × (count_of j.invite.id s.table.invitations ≡ owed n b))
          (hold b)
          (λ _. At j n b)
          Nothing
  hold-Hoare b = record { holds = λ s p. record { same_flag = refl; count = p.1 } }

  conflict-Keeps :
      (held : Bool)
      → Keeps (At j n held) (
          if j.vouched
          then (ask (o.others.get_device j.proof.device_public_key) >>= λ d.
              lift (guard (not (conflicts j.proof.public_key d)) (device_conflict ∷ [])))
          else give tt)
  conflict-Keeps held =
      if-Hoare j.vouched
        (bind-Hoare (ask-Keeps (o.others.get_device j.proof.device_public_key))
          (λ d. lift-Keeps (guard (not (conflicts j.proof.public_key d)) (device_conflict ∷ []))))
        (give-Keeps tt)

  created-Keeps : (r : Result (Unit {0})) → Keeps (At j n true) (after_create o j r)
  unfolding after_create
  created-Keeps (ok u) =
      bind-Hoare
        (if-Hoare (is_absent j.admit)
          (call-Keeps (IsAt j.invite.id n true)
            (o.others.ensure_device j.proof.device_public_key j.proof.public_key j.device_name))
          (give-Keeps tt))
        (λ _. give-Keeps true)
  created-Keeps (err e) =
      if-Hoare (j.vouched && any is_pq_unique e) (give-Keeps false) (lift-Keeps (err e))

  -- A new account holds its claim, and a known one has none.
  pub enroll-Hoare :
      (acct : Option Account)
      → Hoare (At j n false) (enroll o j acct) (λ _. At j n (is_absent acct)) Nothing
  unfolding enroll
  enroll-Hoare (some acct) = passes (give-Keeps (false, acct))
  enroll-Hoare none =
      bind-Hoare (passes (lift-Keeps (guard (not (j.proof.public_key == "")) []))) (λ _.
        bind-Hoare (passes (conflict-Keeps false)) (λ _. bind-Hoare claimed-Hoare (λ _.
          bind-Hoare (hold-Hoare true) (λ _. passes (
            bind-Hoare
              (caught-Hoare
                (call-Keeps (IsAt j.invite.id n true) (o.others.create_user (guest o j))))
              (λ r. bind-Hoare (created-Keeps r) (λ is_new.
                bind-Hoare (ask-Keeps (o.others.get_user j.proof.public_key)) (λ found.
                  bind-Hoare (lift-Keeps (or_missing found))
                    (λ acct. give-Keeps (is_new, acct))))))))))

  pub admit_binding-Keeps :
      (held : Bool) (a : Option (World → Result (Unit {0}) × World))
      → Keeps (At j n held) (admit_binding o a)
  admit_binding-Keeps held none = give-Keeps tt
  admit_binding-Keeps held (some f) = call-Keeps (IsAt j.invite.id n held) f

  pub ensure_first_device-Keeps :
      (held : Bool) (e : Bool × Account) → Keeps (At j n held) (ensure_first_device o j e)
  unfolding ensure_first_device
  ensure_first_device-Keeps held (is_new, acct) =
      if-Hoare (not is_new && is_absent j.admit && eqb_ℤ acct.binding_iat (pos 0))
        (bind-Hoare (ask-Keeps (o.others.list_devices j.proof.public_key)) (λ devices.
          if-Hoare (has_none devices)
            (call-Keeps (IsAt j.invite.id n held)
              (o.others.ensure_device j.proof.public_key j.proof.public_key j.device_name))
            (give-Keeps tt)))
        (give-Keeps tt)

  pub unheld-Hoare :
      Hoare
        (λ s. count_of j.invite.id s.table.invitations ≡ n +ℤ pos 1)
        (hold false)
        (λ _. (Held j n))
        Nothing
  unheld-Hoare = record { holds = λ s p. (refl, p) }

  given_back :
      (s : State World) (r : Result Table)
      → release_use j.invite.id s.table ≡ r
      → (Held j n) s
      → Post (λ _. At j n false) (At j n false) (committed s r)
  unfolding release_use
  given_back s (ok t) e h = record {
    same_flag = h.0;
    count = release-count_of j.invite.id s.table t n e counted h.1;
  }
  given_back s (err x) e h = absurd (ground arith)

  given_back-Hoare :
      (f : Option Error)
      → f ≡ none
      → Hoare (Held j n) (change f (release_use j.invite.id)) (λ _. At j n false) (At j n false)
  given_back-Hoare (some x) e = absurd (ground arith)
  given_back-Hoare none e = record {
    holds = λ s p. given_back s (release_use j.invite.id s.table) refl p;
  }

  -- A use that is given back, unless there is none to give.
  release_held-Hoare :
      (held : Bool) → Hoare (At j n held) (release_held o j held) (λ _. At j n false) Nothing
  unfolding release
  release_held-Hoare false = passes (give-Keeps tt)
  release_held-Hoare true =
      bind-Hoare (strengthen-Hoare (λ s p. p.count) unheld-Hoare)
        (λ _. ignored-Hoare (given_back-Hoare o.faults.on_release released))

  pub release_any-Hoare :
      (held : Bool)
      → Hoare (At j n held) (λ s. release_held o j s.held_claim s) (λ _. At j n false) Nothing
  release_any-Hoare held = record {
    holds = λ s p.
        subst (λ b. Post (λ _. At j n false) Nothing (release_held o j b s)) (sym p.same_flag)
          ((release_held-Hoare held).holds s p);
  }
