-- ===== src/Hub/Delivery.antt =====
-- Whom a broadcast reaches.
use prappser_spaces.Base.{
  ℕ, String, ◌≡◌, refl, sym, ◌∙◌, inl, inr, Bool, false, ap, ◌&&◌, List, [], ◌∷◌, ◌++◌, any, filter,
  length, arith, eqb, ltb, In, Bool-cases, if◌then◌else◌,
}
use mathlib.Core.Path.{subst}
use prappser_spaces.Base.Members.{In-of_filter}
use prappser_spaces.Application.{User}
use prappser_spaces.Event.{Event}
use prappser_spaces.Hub.{
  Hub, Message, events, new_hub, offer, offer_all, send_buffer_size, broadcast_to_app,
}
use prappser_spaces.Hub.Lists.{Once}
use prappser_spaces.Hub.Safety.{HubReach}
use prappser_spaces.Hub.Closed.{reach-Once}

Once-filter : (p : ℕ → Bool) (xs : List ℕ) → Once xs → Once (filter p xs)
Once-filter p [] o = tt
Once-filter p (x ∷ xs) o =
    let rest = Once-filter p xs o.1 in
    elim (Bool-cases (p x)) [
      | inl t ↦ rw t ((λ i. o.0 (In-of_filter p xs x i).0), rest)
      | inr f ↦ rw f rest
    ]

any-filter :
    (p : ℕ → Bool) (c : ℕ) (xs : List ℕ) → any (eqb c) (filter p xs) ≡ (any (eqb c) xs && p c)
any-filter p c [] = refl
any-filter p c (x ∷ xs) =
    let rest = any-filter p c xs in
    elim (Bool-cases (eqb c x)) [
      | inl t ↦
          let q : c ≡ x = ground arith in
          elim (Bool-cases (p x)) [
            | inl y ↦ ground (arith, t, y, rest, ap p q)
            | inr n ↦ ground (arith, t, n, rest, ap p q)
          ]
      | inr f ↦ elim (Bool-cases (p x)) [
        | inl y ↦ ground (arith, f, y, rest)
        | inr n ↦ ground (arith, f, n, rest)
      ]
    ]

-- The queue of a client that is offered a message.
abbrev pub offered : Message → List Message → List Message
offered msg q = if ltb (length q) send_buffer_size then q ++ msg ∷ [] else q

offer_own : (msg : Message) (c : ℕ) (q : ℕ → List Message) → offer msg c q c ≡ offered msg (q c)
unfolding offer
offer_own msg c q = ground arith

offer_other :
    (msg : Message) (x c : ℕ) (q : ℕ → List Message) → eqb c x ≡ false → offer msg x q c ≡ q c
unfolding offer
offer_other msg x c q f = ground arith

absent : (c : ℕ) (xs : List ℕ) → (In c xs → ⊥) → any (eqb c) xs ≡ false
absent c [] n = refl
absent c (x ∷ xs) n =
    let rest = absent c xs (λ i. n (inr i)) in
    elim (Bool-cases (eqb c x)) [
      | inl t ↦ let q : c ≡ x = ground arith in absurd (n (inl (sym q)))
      | inr f ↦ ground (arith, f, rest)
    ]

offer_all-exact :
    (msg : Message) (c : ℕ) (cs : List ℕ) (q : ℕ → List Message)
    → Once cs
    → offer_all msg cs q c ≡ (if any (eqb c) cs then offered msg (q c) else q c)
unfolding offer_all
offer_all-exact msg c [] q o = refl
offer_all-exact msg c (x ∷ xs) q o =
    let rest = offer_all-exact msg c xs (offer msg x q) o.1 in
    elim (Bool-cases (eqb c x)) [
      | inl t ↦
          let e : c ≡ x = ground arith in
          rw (t, rest, absent c xs (λ i. o.0 (subst (λ z. In z xs) e i)))
            (subst (λ z. offer msg z q c ≡ offered msg (q c)) e (offer_own msg c q))
      | inr f ↦
          rw (f, rest)
            (ap (λ z. if any (eqb c) xs then offered msg z else z) (offer_other msg x c q f))
    ]

-- A broadcast of an application adds the event, once, to the queue of each subscriber whose key is
-- among the recipients and whose buffer has room, and leaves every other queue as it is: in every
-- state that a new hub can reach.
pub broadcast_exact :
    (who : ℕ → User) (h : Hub) (app_id : String) (allowed : String → Bool) (e : Event) (c : ℕ)
    → HubReach who new_hub h
    → (broadcast_to_app who app_id allowed e h).queue c ≡ (
        if any (eqb c) (h.by_app app_id) && allowed (who c).public_key
        then offered (events e) (h.queue c)
        else h.queue c)
unfolding broadcast_to_app
broadcast_exact who h app_id allowed e c r =
    let test = λ (d : ℕ). allowed (who d).public_key in
    offer_all-exact (events e) c (filter test (h.by_app app_id)) h.queue
      (Once-filter test (h.by_app app_id) (reach-Once who h app_id r))
    ∙ ap (λ b. if b then offered (events e) (h.queue c) else h.queue c)
        (any-filter test c (h.by_app app_id))
