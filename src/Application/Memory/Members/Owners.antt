-- ===== src/Application/Memory/Members/Owners.antt =====
-- Changes of the members' rows that keep the rows of the owners.
use prappser_spaces.Base.{
  ℕ, String, ◌≡◌, ◌≢◌, refl, sym, ◌∙◌, Bool, true, false, ap, Option, none, some, List, [], ◌∷◌,
  arith, In,
}
use mathlib.Core.Path.{subst}
use prappser_spaces.Base.Dict.{get}
use prappser_spaces.Application.{Member, is_owner}
use prappser_spaces.Application.Memory.{Repository, values}
use prappser_spaces.Application.Memory.Members.{
  IsKeyed, rows-Differ, Differ, Keyed, AllDiffer, same_member_of_id,
}
use prappser_spaces.Application.Memory.Members.Writes.{
  In-remove, In-put, Keyed-remove, Keyed-put, AllDiffer-remove, AllDiffer-put, get-In,
}

-- The rows stay keyed, and every owner's row stays.
pub record OwnersKept (r r' : Repository) : Type 0 where
  pub keyed : IsKeyed r'
  pub owners :
      (m : Member) → In m (values r.members) → is_owner m.role ≡ true → In m (values r'.members)

pub same-OwnersKept : (r r' : Repository) → r'.members ≡ r.members → IsKeyed r → OwnersKept r r'
same-OwnersKept r r' q k = record {
  keyed = record {
    keyed = subst Keyed (sym q) k.keyed;
    differ = subst (λ l. AllDiffer (values l)) (sym q) k.differ;
  };
  owners = λ m i o. subst (λ l. In m (values l)) (sym q) i;
}

-- A row that is no owner's has another id than every owner's row.
other_id :
    (r : Repository) (t m : Member)
    → IsKeyed r
    → In t (values r.members)
    → is_owner t.role ≡ false
    → In m (values r.members)
    → is_owner m.role ≡ true
    → m.id ≢ t.id
other_id r t m k i n j o q =
    let e = same_member_of_id (values r.members) m t k.differ j i q in
    absurd (ground (arith, n, o, ap (λ (z : Member). is_owner z.role) e))

pub removed-OwnersKept :
    (r r' : Repository) (t : Member)
    → IsKeyed r
    → In t (values r.members)
    → is_owner t.role ≡ false
    → r'.members ≡ prappser_spaces.Base.Dict.remove t.id r.members
    → OwnersKept r r'
removed-OwnersKept r r' t k i n q = record {
  keyed = record {
    keyed = subst Keyed (sym q) (Keyed-remove t.id r.members k.keyed);
    differ = subst (λ l. AllDiffer (values l)) (sym q) (AllDiffer-remove t.id r.members k.differ);
  };
  owners = λ m j o.
      subst (λ l. In m (values l)) (sym q)
        (In-remove t.id r.members m k.keyed (other_id r t m k i n j o) j);
}

pub changed-OwnersKept :
    (r r' : Repository) (t row : Member) (v : Member)
    → IsKeyed r
    → In t (values r.members)
    → is_owner t.role ≡ false
    → get t.id r.members ≡ some row
    → v.id ≡ row.id
    → v.application_id ≡ row.application_id
    → v.public_key ≡ row.public_key
    → r'.members ≡ prappser_spaces.Base.Dict.put t.id v r.members
    → OwnersKept r r'
changed-OwnersKept r r' t row v k i n f vi va vk q =
    let (j, id) = get-In t.id r.members row k.keyed f in
    record {
      keyed = record {
        keyed = subst Keyed (sym q) (Keyed-put t.id v r.members (vi ∙ id) k.keyed);
        differ =
            subst (λ l. AllDiffer (values l)) (sym q)
              (AllDiffer-put t.id v r.members k.keyed k.differ (λ a ia na.
                let d : Differ row a =
                  rows-Differ (values r.members) row a k.differ j ia (λ z. na (sym z ∙ id)) in
                record {
                  ids = λ z. d.ids (sym vi ∙ z);
                  keys = λ x y. d.keys (sym va ∙ x) (sym vk ∙ y);
                }));
      };
      owners = λ m j o.
          subst (λ l. In m (values l)) (sym q)
            (In-put t.id v r.members m k.keyed (other_id r t m k i n j o) j);
    }

pub then_same : (r r₁ r' : Repository) → r'.members ≡ r₁.members → OwnersKept r r₁ → OwnersKept r r'
then_same r r₁ r' q o =
    let o' = same-OwnersKept r₁ r' q o.keyed in
    record { keyed = o'.keyed; owners = λ m i z. o'.owners m (o.owners m i z) z }
