-- ===== src/Event/Service/Broadcast/Recipients.antt =====
-- Who is notified by a push.
use prappser_spaces.Base.{
  String, ◌≡◌, ◌≢◌, refl, sym, ◌∙◌, ◌⊎◌, inl, inr, Bool, true, false, not, ◌&&◌, List, [], ◌∷◌,
  ◌==◌, any, arith, eq_iff, In, Bool-cases, if◌then◌else◌,
}
use mathlib.Core.Path.{subst}
use prappser_spaces.Application.{Member}
use prappser_spaces.Event.{Event}
use prappser_spaces.Event.Authorizer.{string_at}
use prappser_spaces.Event.Validator.Checks.{or_empty}
use prappser_spaces.Event.Service.Broadcast.{
  recipient_keys, role_target, is_role_change, other_keys, has_explicit_recipients,
}

-- A key is that of another member than the author.
abbrev pub IsOther : Event → List Member → String → Type 0
IsOther e members k = (k ≢ e.creator_public_key) × (any (λ m. m.public_key == k) members ≡ true)

other_keys-IsOther :
    (e : Event) (members : List Member) (k : String)
    → In k (other_keys e.creator_public_key members)
    → IsOther e members k
other_keys-IsOther e [] k i = absurd i
other_keys-IsOther e (m ∷ l) k i =
    let rest = other_keys-IsOther e l k in
    elim (Bool-cases (m.public_key == e.creator_public_key)) [
      | inl t ↦ let r = rest (rw t at i) in (r.0, ground (arith, r.1))
      | inr f ↦
          let i' : In k (m.public_key ∷ other_keys e.creator_public_key l) = rw f at i in
          elim i' [
            | inl q ↦ (
              λ z. ground (arith, f, q, z, eq_iff m.public_key e.creator_public_key),
              ground (arith, q, eq_iff m.public_key k),
            )
            | inr j ↦ let r = rest j in (r.0, ground (arith, r.1))
          ]
    ]

guarded :
    (b : Bool) (k target : String)
    → In k (if b then target ∷ [] else [])
    → (b ≡ true) × (target ≡ k)
guarded true k target (inl e) = (refl, e)
guarded true k target (inr j) = absurd j
guarded false k target i = absurd i

role_target-IsOther :
    (e : Event) (members : List Member) (k : String)
    → In k (role_target e members)
    → IsOther e members k × (k ≡ or_empty (string_at "memberPublicKey" e.body))
unfolding role_target
role_target-IsOther e members k i =
    let target = or_empty (string_at "memberPublicKey" e.body) in
    let (t, q) =
      guarded
        (not (target == "")
          && not (target == e.creator_public_key)
          && any (λ m. m.public_key == target) members)
        k target i in
    (
      (
        (λ z. ground (arith, t, eq_iff target e.creator_public_key, q ∙ z)),
        subst (λ z. any (λ (m : Member). m.public_key == z) members ≡ true) q (ground (arith, t)),
      ),
      sym q,
    )

-- A push goes to other members than the author alone, unless the event lists its recipients; one of
-- a change of role goes to the member whose role it is alone.
pub recipients_are_others :
    (e : Event) (members : List Member) (k : String)
    → has_explicit_recipients e.type ≡ false
    → In k (recipient_keys e members)
    → (k ≢ e.creator_public_key)
      × (any (λ m. m.public_key == k) members ≡ true)
      × ((is_role_change e.type ≡ false) ⊎ (k ≡ or_empty (string_at "memberPublicKey" e.body)))
unfolding recipient_keys
recipients_are_others e members k x i = elim (Bool-cases (is_role_change e.type)) [
  | inl t ↦ let (o, q) = role_target-IsOther e members k (rw t at i) in (o.0, o.1, inr q)
  | inr f ↦ let o = other_keys-IsOther e members k (rw (f, x) at i) in (o.0, o.1, inl f)
]
