-- ===== src/Application/Memory/Versions.antt =====
-- The sequence numbers of an account's applications (GetAppVersionsByMemberPublicKey in
-- internal/application/memory_repository.go).
use prappser_spaces.Base.{
  ℕ, String, ◌≡◌, refl, ◌∙◌, ap, ◌&&◌, Option, none, some, List, [], ◌∷◌, ◌==◌, any, All, arith,
  eq_iff, inl, inr, Bool-cases, if◌then◌else◌,
}
use prappser_spaces.Base.Dict.{Dict, get, put, get-put}
use prappser_spaces.Base.Int.{ℤ}
use prappser_spaces.Application.{Application, Member}
use prappser_spaces.Application.Memory.{Repository, is_none, is_member_active, member_of, values}

pub record AppVersionInfo : Type 0 where
  pub last_sequence : Option ℕ

abbrev version_info_of : Application → AppVersionInfo
version_info_of app = record { last_sequence = app.last_sequence }

-- The step of the loop for a row whose application is looked up.
abbrev with_version : Option Application → Dict AppVersionInfo → Dict AppVersionInfo
with_version none m = m
with_version (some app) m = if is_none app.deleted_at then put app.id (version_info_of app) m else m

-- The loop over the member rows, whose order Go leaves open.
unfoldable pub versions_of : ℤ → String → Dict Application → List Member → Dict AppVersionInfo
versions_of now key apps [] = []
versions_of now key apps (m ∷ rows) =
    let rest = versions_of now key apps rows in
    if m.public_key == key && is_member_active now m
    then with_version (get m.application_id apps) rest
    else rest

unfoldable pub get_app_versions_by_member_public_key : ℤ → String → Repository → Dict AppVersionInfo
get_app_versions_by_member_public_key now key r =
    versions_of now key r.applications (values r.members)

-- The information of an application that is there and not deleted.
abbrev pub visible_info : Option Application → Option AppVersionInfo
visible_info none = none
visible_info (some app) = if is_none app.deleted_at then some (version_info_of app) else none

-- The applications stand under their own ids.
abbrev pub OwnIds : Dict Application → Type 0
OwnIds apps = (id : String) (app : Application) → get id apps ≡ some app → app.id ≡ id

abbrev or_info : Option AppVersionInfo → Option AppVersionInfo → Option AppVersionInfo
or_info none other = other
or_info (some v) other = some v

-- An entry that is the one of its application.
abbrev pub IsInfo : Dict Application → String × AppVersionInfo → Type 0
IsInfo apps (id, v) = visible_info (get id apps) ≡ some v

module _ (now : ℤ) (key : String) (apps : Dict Application) (own : OwnIds apps) where
  -- A row that counts sets the entry of its application, and no other.
  get-with_version :
      (id j : String) (found : Option Application) (m : Dict AppVersionInfo)
      → get j apps ≡ found
      → get id (with_version found m)
        ≡ (if j == id then or_info (visible_info found) (get id m) else get id m)
  get-with_version id j none m h = ground arith
  get-with_version id j (some app) m h =
      ground (
        arith,
        own j app h,
        eq_iff app.id id,
        eq_iff j id,
        get-put id app.id (version_info_of app) m,
      )

  -- The entry of an id: that of its application, if a row of the account counts for it.
  pub get-versions_of :
      (id : String) (rows : List Member)
      → get id (versions_of now key apps rows)
        ≡ (if any (member_of now id key) rows then visible_info (get id apps) else none)
  unfolding versions_of get
  get-versions_of id [] = refl
  get-versions_of id (m ∷ rows) =
      let rest = versions_of now key apps rows in
      let found = get m.application_id apps in
      ground (
        arith,
        eq_iff m.application_id id,
        get-with_version id m.application_id found rest refl,
        get-versions_of id rows,
      )

  IsInfo-put :
      (id : String) (v : AppVersionInfo) (m : Dict AppVersionInfo)
      → IsInfo apps (id, v)
      → All (IsInfo apps) m
      → All (IsInfo apps) (put id v m)
  unfolding put
  IsInfo-put id v [] h a = (h, tt)
  IsInfo-put id v ((j, w) ∷ m) h a = elim (Bool-cases (j == id)) [
    | inl t ↦ rw (t, (eq_iff j id).0 t) (h, a.1)
    | inr f ↦ rw f (a.0, IsInfo-put id v m h a.1)
  ]

  IsInfo-with_version :
      (j : String) (found : Option Application) (m : Dict AppVersionInfo)
      → get j apps ≡ found
      → All (IsInfo apps) m
      → All (IsInfo apps) (with_version found m)
  IsInfo-with_version j none m h a = a
  IsInfo-with_version j (some app) m h a = elim (Bool-cases (is_none app.deleted_at)) [
    | inl t ↦ rw t (
        IsInfo-put app.id (version_info_of app) m
          (ap visible_info (ap (λ (z : String). get z apps) (own j app h) ∙ h) ∙ rw t refl) a)
    | inr f ↦ rw f a
  ]

  -- Every entry is that of its application.
  pub IsInfo-versions_of : (rows : List Member) → All (IsInfo apps) (versions_of now key apps rows)
  unfolding versions_of
  IsInfo-versions_of [] = tt
  IsInfo-versions_of (m ∷ rows) =
      elim (Bool-cases (m.public_key == key && is_member_active now m)) [
        | inl t ↦ rw t (
            IsInfo-with_version m.application_id (get m.application_id apps)
              (versions_of now key apps rows) refl (IsInfo-versions_of rows))
        | inr f ↦ rw f (IsInfo-versions_of rows)
      ]
