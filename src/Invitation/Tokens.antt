-- ===== src/Invitation/Tokens.antt =====
-- The tokens of invitations (GenerateToken and ValidateToken in
-- internal/invitation/invitation_service.go).
use prappser_spaces.Base.{String, Option, none, some, ◌==◌, [], if◌then◌else◌}
use prappser_spaces.Base.Int.{ℤ}
use prappser_spaces.Value.{Value, Fields, empty, field, str, int64, float64, read, as_string}
use prappser_spaces.Value.Number.{truncate}
use prappser_spaces.Result.{Result, ok, err}
use prappser_spaces.Invitation.{InviteTokenClaims}
use prappser_spaces.Invitation.Options.{text_of}
use prappser_spaces.Invitation.Run.{Service}

abbrev add_exp : Option ℤ → Fields → Fields
add_exp none m = m
add_exp (some t) m = field "exp" (int64 t) m

abbrev numeric_date : Value → Option ℤ
numeric_date (float64 x) = some (truncate x)
numeric_date _ = none

module _ {World : Type 0} (o : Service World) where
  -- GenerateToken
  unfoldable pub generate_token : String → String → Option ℤ → Result String
  generate_token id space_url expires_at = o.sign_token (
      field "id" (str id) (
        field "spaceUrl" (str space_url) (
          field "iat" (int64 o.now.unix)
            (field "nbf" (int64 o.now.unix) (add_exp expires_at empty)))))

  abbrev token_claims : String → Fields → Value → Result InviteTokenClaims
  token_claims id m (float64 iat) = ok (record {
    invite_id = id;
    space_url = text_of (as_string (read "spaceUrl" m));
    issued_at = truncate iat;
    expires_at = numeric_date (read "exp" m);
  })
  token_claims id m _ = err []

  abbrev with_id : Fields → Option String → Result InviteTokenClaims
  with_id m none = err []
  with_id m (some id) = if id == "" then err [] else token_claims id m (read "iat" m)

  abbrev claims_or_error : Option Fields → Result InviteTokenClaims
  claims_or_error none = err []
  claims_or_error (some m) = with_id m (as_string (read "id" m))

  -- ValidateToken
  unfoldable pub validate_token : String → Result InviteTokenClaims
  validate_token token = claims_or_error (o.parse_token token)
