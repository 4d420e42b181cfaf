-- ===== src/Event/Service/Sync/Laws.antt =====
-- A client that has caught up, and one whose cursor is gone (GetEventsSince in
-- internal/event/event_service.go).
use prappser_spaces.Base.{
  String, ◌≡◌, refl, ◌∙◌, ap, Bool, true, false, Option, none, some, List, [], ◌∷◌, ◌==◌, any, All,
  arith, eq_iff, inl, inr, Bool-cases, Option-cases, if◌then◌else◌,
}
use prappser_spaces.Base.Dict.{Dict, get, get-put}
use prappser_spaces.Base.Int.{ℤ}
use prappser_spaces.Result.{Result, ◌>>◌, ok, err, Error}
use prappser_spaces.Application.{Application}
use prappser_spaces.Application.Memory.{Repository, is_none, is_member, member_of, values}
use prappser_spaces.Application.Memory.Versions.{
  AppVersionInfo, versions_of, get_app_versions_by_member_public_key, visible_info, OwnIds, IsInfo,
  IsInfo-versions_of, get-versions_of,
}
use prappser_spaces.Event.{Event}
use prappser_spaces.Event.Service.Persist.{struck}
use prappser_spaces.Event.Store.{Store, get_since}
use prappser_spaces.Event.Service.Sync.{
  AppVersion, EventsResponse, app_sequences, load_app_versions, respond, get_events_since,
}

-- The version that a client should see of an application.
unfoldable pub expected_version : Option Application → Option AppVersion
expected_version none = none
expected_version (some app) =
    if is_none app.deleted_at
    then elim app.last_sequence [ none ↦ none | some n ↦ some (record { last_sequence = n }) ]
    else none

abbrev numbered_info : Option AppVersionInfo → Option AppVersion
numbered_info none = none
numbered_info (some v) = elim v.last_sequence [
  | none ↦ none
  | some n ↦ some (record { last_sequence = n })
]

numbered_info-visible_info :
    (found : Option Application) → numbered_info (visible_info found) ≡ expected_version found
unfolding expected_version
numbered_info-visible_info none = refl
numbered_info-visible_info (some app) = ground arith

module _ (apps : Dict Application) where
  get-IsInfo :
      (id : String) (m : Dict AppVersionInfo) (v : AppVersionInfo)
      → All (IsInfo apps) m
      → get id m ≡ some v
      → IsInfo apps (id, v)
  unfolding get
  get-IsInfo id [] v a h = absurd (ground arith)
  get-IsInfo id ((j, w) ∷ m) v a h = elim (Bool-cases (j == id)) [
    | inl t ↦ ground (arith, t, eq_iff j id, a.0)
    | inr f ↦ get-IsInfo id m v a.1 (rw f at h)
  ]

  -- Of two entries for one id, which a map does not have, the second says the same.
  same_info :
      (id : String) (m : Dict AppVersionInfo) (w : AppVersionInfo)
      → All (IsInfo apps) m
      → IsInfo apps (id, w)
      → w.last_sequence ≡ none
      → numbered_info (get id m) ≡ none
  same_info id m w a h n = elim (Option-cases (get id m)) [
    | inl e ↦ rw e refl
    | inr (v, e) ↦ ground (arith, get-IsInfo id m v a e)
  ]

  get-app_sequences :
      (id : String) (m : Dict AppVersionInfo)
      → All (IsInfo apps) m
      → get id (app_sequences m) ≡ numbered_info (get id m)
  unfolding app_sequences get
  get-app_sequences id [] a = refl
  get-app_sequences id ((j, w) ∷ m) a = elim (Option-cases w.last_sequence) [
    | inl n ↦ ground (arith, n, eq_iff j id, get-app_sequences id m a.1, same_info j m w a.1 a.0 n)
    | inr (k, e) ↦ ground (
      arith,
      e,
      eq_iff j id,
      get-app_sequences id m a.1,
      get-put id j (record { last_sequence = k }) (app_sequences m),
    )
  ]

get-load_app_versions :
    (now : ℤ) (key id : String) (r : Repository)
    → OwnIds r.applications
    → get id (load_app_versions none now key r)
      ≡ (if is_member now id key r then expected_version (get id r.applications) else none)
unfolding load_app_versions get_app_versions_by_member_public_key is_member
get-load_app_versions now key id r own =
    get-app_sequences r.applications id (versions_of now key r.applications (values r.members))
      (IsInfo-versions_of now key r.applications own (values r.members))
    ∙ (ap numbered_info (get-versions_of now key r.applications own id (values r.members))
        ∙ branches (any (member_of now id key) (values r.members)))
  where
    branches :
        (b : Bool)
        → numbered_info (if b then visible_info (get id r.applications) else none)
          ≡ (if b then expected_version (get id r.applications) else none)
    branches true = numbered_info-visible_info (get id r.applications)
    branches false = refl

respond-versions :
    (versions : Dict AppVersion) (m : Result (List Event × Bool)) (resp : EventsResponse)
    → respond versions m ≡ ok resp
    → resp.has_more ≡ false
    → resp.app_versions ≡ versions
unfolding respond
respond-versions versions (ok p) resp h last = ground (arith, last)
respond-versions versions (err e) resp h last = ground (arith, last)

-- Where applications stand under their own ids and the query for the versions does not fail, a
-- response that announces no more pages, be it the last page or the demand of a full
-- synchronisation, has for each application id the last sequence number of that application, if
-- the account is an active member of it, it is not deleted and it has one, and nothing otherwise.
pub caught_up_versions :
    (events_error : Option Error) (now : ℤ) (key cursor id : String) (limit : ℤ) (s : Store)
    (resp : EventsResponse)
    → OwnIds s.repo.applications
    → get_events_since events_error none now key cursor limit s ≡ ok resp
    → resp.has_more ≡ false
    → get id resp.app_versions ≡ (
        if is_member now id key s.repo then expected_version (get id s.repo.applications) else none)
unfolding get_events_since
caught_up_versions events_error now key cursor id limit s resp own h last =
    ap (λ (z : Dict AppVersion). get id z)
      (respond-versions (load_app_versions none now key s.repo)
        (struck events_error >> get_since now key cursor limit s) resp h last)
    ∙ get-load_app_versions now key id s.repo own
