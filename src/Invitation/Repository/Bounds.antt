-- ===== src/Invitation/Repository/Bounds.antt =====
-- The limit of uses under the statements of the repository
-- (internal/invitation/invitation_repository.go).
use mathlib.Core.Path.{subst}
use prappser_spaces.Base.{
  String, ◌≡◌, refl, sym, ap, ◌∙◌, Bool, true, false, not, Option, none, some, List, [], ◌∷◌, ◌==◌,
  All, any, filter, inl, inr, arith, Bool-cases, if◌then◌else◌,
}
use prappser_spaces.Base.Members.{All-filter}
use prappser_spaces.Base.Int.{ℤ, pos, negsuc, ◌+ℤ◌, ◌-ℤ◌, ◌≤ℤ◌, ltb_ℤ}
use prappser_spaces.Result.{ok, err, Error, pq}
use prappser_spaces.Invitation.{Invitation, InvitationUse}
use prappser_spaces.Invitation.Repository.Uses.{
  count_of, count_of-here, count_of-later, Changed, update_row-Changed, update_row-All,
}
use prappser_spaces.Invitation.Repository.{
  Table, has_id, kept_row, below, claimed_or_reached, released_or_same, update_row, claimed,
  released, has_use_left, is_used, increment_use_count, release_use, create_invitation_row,
  delete_invitation_row, record_use,
}

-- The uses of an invitation stay within its limit.
pub record IsBounded (i : Invitation) : Type 0 where
  pub counted : pos 0 ≤ℤ i.used_count
  pub within : (limit : ℤ) → i.max_uses ≡ some limit → i.used_count ≤ℤ limit

add_sub : (n : ℤ) → (n +ℤ pos 1) -ℤ pos 1 ≡ n
add_sub (pos n) = ground arith
add_sub (negsuc n) = ground arith

le_succ : (n : ℤ) → pos 0 ≤ℤ n → ltb_ℤ (pos 0) (n +ℤ pos 1) ≡ true
le_succ (pos n) h = ground arith
le_succ (negsuc n) h = ground arith

lt_succ : (n k : ℤ) → ltb_ℤ n k ≡ true → n +ℤ pos 1 ≤ℤ k
lt_succ (pos n) (pos k) h = ground arith
lt_succ (pos n) (negsuc k) h = ground arith
lt_succ (negsuc n) (pos k) h = ground arith
lt_succ (negsuc n) (negsuc k) h = ground arith

succ_counted : (n : ℤ) → pos 0 ≤ℤ n → pos 0 ≤ℤ n +ℤ pos 1
succ_counted (pos n) h = ground arith
succ_counted (negsuc n) h = ground arith

pred_counted : (n : ℤ) → ltb_ℤ (pos 0) n ≡ true → pos 0 ≤ℤ n -ℤ pos 1
pred_counted (pos n) h = ground arith
pred_counted (negsuc n) h = ground arith

pred_within : (n k : ℤ) → n ≤ℤ k → n -ℤ pos 1 ≤ℤ k
pred_within (pos n) (pos k) h = ground arith
pred_within (pos n) (negsuc k) h = ground arith
pred_within (negsuc n) (pos k) h = ground arith
pred_within (negsuc n) (negsuc k) h = ground arith

below-claimed :
    (limit : Option ℤ) (n : ℤ) → below limit n ≡ true → (k : ℤ) → limit ≡ some k → n +ℤ pos 1 ≤ℤ k
below-claimed none n h k e = absurd (ground arith)
below-claimed (some m) n h k e = let q : m ≡ k = cc in lt_succ n k (ap (λ x. ltb_ℤ n x) (sym q) ∙ h)

pub claimed-IsBounded :
    (i : Invitation) → IsBounded i → has_use_left i ≡ true → IsBounded (claimed i)
unfolding claimed has_use_left
claimed-IsBounded i b h = record {
  counted = succ_counted i.used_count b.counted;
  within = below-claimed i.max_uses i.used_count h;
}

pub released-IsBounded : (i : Invitation) → IsBounded i → is_used i ≡ true → IsBounded (released i)
unfolding released is_used
released-IsBounded i b h = record {
  counted = pred_counted i.used_count h;
  within = λ limit e. pred_within i.used_count limit (b.within limit e);
}

-- Each statement keeps every invitation within its limit.
pub record AllBounded (t : Table) : Type 0 where
  pub each : All IsBounded t.invitations

module _ (id : String) where
  of_claim :
      (t t' : Table) (o : Option (List Invitation))
      → claimed_or_reached t o ≡ ok t'
      → (l : List Invitation) × (o ≡ some l) × (l ≡ t'.invitations)
  of_claim t t' none e = absurd (ground arith)
  of_claim t t' (some l) e =
      let q : record t { invitations = l } ≡ t' = cc in (l, refl, ap (λ u. u.invitations) q)

  pub increment-AllBounded :
      (t t' : Table) → AllBounded t → increment_use_count id t ≡ ok t' → AllBounded t'
  unfolding increment_use_count
  increment-AllBounded t t' b e =
      let c = of_claim t t' (update_row has_use_left claimed id t.invitations) e in
      record {
        each =
            subst (λ m. All IsBounded m) c.2
              (update_row-All has_use_left claimed id IsBounded t.invitations c.0 claimed-IsBounded
                b.each c.1);
      }

  -- One more use, where there was one left.
  pub increment-count_of :
      (t t' : Table)
      → increment_use_count id t ≡ ok t'
      → count_of id t'.invitations ≡ count_of id t.invitations +ℤ pos 1
  unfolding increment_use_count claimed Changed
  increment-count_of t t' e =
      let c = of_claim t t' (update_row has_use_left claimed id t.invitations) e in
      let d = update_row-Changed has_use_left claimed id (λ i. refl) t.invitations c.0 c.1 in
      sym (ap (λ m. count_of id m) c.2) ∙ d.3 ∙ ap (λ n. n +ℤ pos 1) (sym d.2)

  freed-AllBounded :
      (t : Table) (o : Option (List Invitation))
      → update_row is_used released id t.invitations ≡ o
      → AllBounded t
      → AllBounded (released_or_same t o)
  freed-AllBounded t none e b = b
  freed-AllBounded t (some l) e b = record {
    each = update_row-All is_used released id IsBounded t.invitations l released-IsBounded b.each e;
  }

  pub release-AllBounded : (t t' : Table) → AllBounded t → release_use id t ≡ ok t' → AllBounded t'
  unfolding release_use
  release-AllBounded t t' b e =
      let q : released_or_same t (update_row is_used released id t.invitations) ≡ t' = cc in
      subst AllBounded q (freed-AllBounded t (update_row is_used released id t.invitations) refl b)

module _ (id : String) where
  at_id :
      (i : Invitation) (rest : List Invitation) (b : Bool)
      → has_id id i ≡ b
      → update_row is_used released id (i ∷ rest) ≡ (
          if b
          then (if is_used i then some (released i ∷ rest) else none)
          else kept_row i (update_row is_used released id rest))
  unfolding update_row
  at_id i rest b h =
      ap
        (λ x.
          if x
          then (if is_used i then some (released i ∷ rest) else none)
          else kept_row i (update_row is_used released id rest))
        h

  taken_row :
      (i : Invitation) (rest : List Invitation)
      → (if is_used i then some (released i ∷ rest) else none) ≡ none
      → ltb_ℤ (pos 0) i.used_count ≡ false
  unfolding is_used
  taken_row i rest e = elim (Bool-cases (ltb_ℤ (pos 0) i.used_count)) [
    | inl h ↦ absurd (ground arith)
    | inr h ↦ h
  ]

  not_kept : (i : Invitation) (o : Option (List Invitation)) → kept_row i o ≡ none → o ≡ none
  not_kept i none e = refl
  not_kept i (some l) e = absurd (ground arith)

  unused_row :
      (l : List Invitation)
      → update_row is_used released id l ≡ none
      → ltb_ℤ (pos 0) (count_of id l) ≡ false
  unfolding update_row
  unused_row [] e = refl
  unused_row (i ∷ rest) e = elim (Bool-cases (has_id id i)) [
    | inl h ↦
        ap (λ n. ltb_ℤ (pos 0) n) (count_of-here id i rest h)
        ∙ taken_row i rest (sym (at_id i rest true h) ∙ e)
    | inr h ↦
        ap (λ n. ltb_ℤ (pos 0) n) (count_of-later id i rest h)
        ∙ unused_row rest
            (not_kept i (update_row is_used released id rest) (sym (at_id i rest false h) ∙ e))
  ]

  freed-count_of :
      (t : Table) (n : ℤ) (o : Option (List Invitation))
      → update_row is_used released id t.invitations ≡ o
      → pos 0 ≤ℤ n
      → count_of id t.invitations ≡ n +ℤ pos 1
      → count_of id (released_or_same t o).invitations ≡ n
  unfolding Changed released
  freed-count_of t n none e h k =
      let f : true ≡ false =
        sym (le_succ n h) ∙ ap (λ m. ltb_ℤ (pos 0) m) (sym k) ∙ unused_row t.invitations e in
      absurd (ground arith)
  freed-count_of t n (some l) e h k =
      let d = update_row-Changed is_used released id (λ i. refl) t.invitations l e in
      d.3 ∙ ap (λ m. m -ℤ pos 1) (sym d.2 ∙ k) ∙ add_sub n

  -- A use that is given back, after it was claimed.
  pub release-count_of :
      (t t' : Table) (n : ℤ)
      → release_use id t ≡ ok t'
      → pos 0 ≤ℤ n
      → count_of id t.invitations ≡ n +ℤ pos 1
      → count_of id t'.invitations ≡ n
  unfolding release_use
  release-count_of t t' n e h k =
      let q : released_or_same t (update_row is_used released id t.invitations) ≡ t' = cc in
      sym (ap (λ u. count_of id u.invitations) q)
      ∙ freed-count_of t n (update_row is_used released id t.invitations) refl h k

  pub count_of-counted : (l : List Invitation) → All IsBounded l → pos 0 ≤ℤ count_of id l
  count_of-counted [] h = ground arith
  count_of-counted (i ∷ rest) h = elim (Bool-cases (has_id id i)) [
    | inl e ↦ subst (λ n. pos 0 ≤ℤ n) (sym (count_of-here id i rest e)) h.0.counted
    | inr e ↦ subst (λ n. pos 0 ≤ℤ n) (sym (count_of-later id i rest e)) (count_of-counted rest h.1)
  ]

-- The other statements.
AllBounded-of_eq : (t t' : Table) → t.invitations ≡ t'.invitations → AllBounded t → AllBounded t'
AllBounded-of_eq t t' e b = record { each = subst (λ m. All IsBounded m) e b.each }

pub refused_or :
    (b : Bool) (x : Error) (t t' : Table) → (if b then err x else ok t) ≡ ok t' → t ≡ t'
refused_or true x t t' e = absurd (ground arith)
refused_or false x t t' e = cc

allowed_or : (b : Bool) (x : Error) (t t' : Table) → (if b then ok t else err x) ≡ ok t' → t ≡ t'
allowed_or false x t t' e = absurd (ground arith)
allowed_or true x t t' e = cc

pub create-AllBounded :
    (i : Invitation) (t t' : Table)
    → IsBounded i
    → AllBounded t
    → create_invitation_row i t ≡ ok t'
    → AllBounded t'
unfolding create_invitation_row
create-AllBounded i t t' w b e =
    subst AllBounded
      (refused_or (any (has_id i.id) t.invitations) (pq "23" "23505" "invitations_pkey" ∷ [])
        (record t { invitations = i ∷ t.invitations }) t' e)
      (record { each = (w, b.each) })

pub delete-AllBounded :
    (id : String) (t t' : Table) → AllBounded t → delete_invitation_row id t ≡ ok t' → AllBounded t'
unfolding delete_invitation_row
delete-AllBounded id t t' b e =
    subst AllBounded
      (allowed_or (any (has_id id) t.invitations) []
        (record {
          invitations = filter (λ i. not (has_id id i)) t.invitations;
          uses = filter (λ u. not (u.invitation_id == id)) t.uses;
        })
        t' e)
      (record { each = All-filter IsBounded (λ i. not (has_id id i)) t.invitations b.each })

recorded :
    (b c : Bool) (x y : Error) (u : InvitationUse) (t t' : Table)
    → (if b then err x else if c then ok (record t { uses = u ∷ t.uses }) else err y) ≡ ok t'
    → t.invitations ≡ t'.invitations
recorded true c x y u t t' e = absurd (ground arith)
recorded false true x y u t t' e =
    let q : record t { uses = u ∷ t.uses } ≡ t' = cc in ap (λ v. v.invitations) q
recorded false false x y u t t' e = absurd (ground arith)

-- A recorded use leaves the invitations as they are.
pub record_use-invitations :
    (u : InvitationUse) (t t' : Table) → record_use u t ≡ ok t' → t.invitations ≡ t'.invitations
unfolding record_use
record_use-invitations u t t' e =
    recorded (any (λ v. v.id == u.id) t.uses) (any (has_id u.invitation_id) t.invitations)
      (pq "23" "23505" "invitation_uses_pkey" ∷ [])
      (pq "23" "23503" "invitation_uses_invitation_id_fkey" ∷ []) u t t' e

pub record_use-AllBounded :
    (u : InvitationUse) (t t' : Table) → AllBounded t → record_use u t ≡ ok t' → AllBounded t'
record_use-AllBounded u t t' b e = AllBounded-of_eq t t' (record_use-invitations u t t' e) b

pub record_use-count_of :
    (id : String) (u : InvitationUse) (t t' : Table)
    → record_use u t ≡ ok t'
    → count_of id t.invitations ≡ count_of id t'.invitations
record_use-count_of id u t t' e = ap (λ l. count_of id l) (record_use-invitations u t t' e)
