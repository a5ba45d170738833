-- ===== src/Tenancy/Refresh.antt =====
-- services/tenancy/authflow.go: the refresh tokens with their rotation, the logout, and the exchange of
-- an API key for an access token.
use aether_edit.Prelude.{ℕ, String, Bool, not, Option, none, some, str_eq, leb, if◌then◌else◌}
use Prim.Native.String.{◌++◌ as append}
use aether_edit.Prelude.Steps.{next, reply, require, need, answer, ◌>>=◌, ◌>>◌}
use aether_edit.Tenancy.Directory.{RefreshToken, get_user}
use aether_edit.Tenancy.Credentials.{
  unset, get_refresh_token_by_hash, mark_refresh_token_used, revoke_refresh_family,
}
use aether_edit.Tenancy.Access.{
  fail, key_token, signed_out, M, answered, internal, on_absent, ask, ask_maybe, act, give,
  api_key_user_prefix,
}
use aether_edit.Tenancy.Keys.{KeyCalls, verify_api_key_string}
use aether_edit.Tenancy.Sessions.{SessionCalls, Issuer, Draw, issue_session}

-- The body of a refresh or a logout: there is none, it does not decode, or it names a token.
pub data Body : Type 0 where
  no_body malformed : Body
  body : String → Body

unfoldable pub of_cookie : String → M String
of_cookie cookie d =
    if str_eq cookie "" then (reply (fail 400 "missing_refresh_token"), d) else (next cookie, d)

-- `takeRefreshToken`; a cookie that is not there is empty.
unfoldable pub take_refresh_token : Body → String → M String
take_refresh_token malformed cookie d = (reply (fail 400 "invalid_body"), d)
take_refresh_token no_body cookie d = of_cookie cookie d
take_refresh_token (body t) cookie d = if str_eq t "" then of_cookie cookie d else (next t, d)

-- The guards on the token that is presented: a used one revokes its family.
unfoldable pub admit_token : SessionCalls → ℕ → RefreshToken → M (Unit {0})
admit_token up now t =
    if unset t.revoked_at
    then (if unset t.used_at
        then require (leb now t.expires_at) (fail 401 "refresh_expired")
        else (act up.revoke internal (revoke_refresh_family t.family_id now)
            >> answer (fail 401 "refresh_reused")))
    else answer (fail 401 "refresh_revoked")

-- `handleRefresh`
unfoldable pub handle_refresh : SessionCalls → Issuer → Draw → Body → String → M (Unit {0})
handle_refresh up issuer draw presented cookie = do
  raw ← take_refresh_token presented cookie
  t ←
      ask up.token (on_absent (fail 401 "invalid_refresh_token"))
        (get_refresh_token_by_hash (issuer.hash raw))
  admit_token up draw.now t
  act up.mark internal (mark_refresh_token_used t.id draw.now)
  user ← ask up.user internal (get_user t.user_id)
  issue_session up issuer draw user t.family_id

unfoldable pub end_family : Option RefreshToken → SessionCalls → ℕ → M (Unit {0})
end_family none up now = give tt
end_family (some t) up now = act up.revoke internal (revoke_refresh_family t.family_id now)

-- `handleLogout`: a token that is not known is signed out as well.
unfoldable pub handle_logout : SessionCalls → Issuer → Draw → Body → String → M (Unit {0})
handle_logout up issuer draw presented cookie = do
  raw ← take_refresh_token presented cookie
  known ← ask_maybe up.token (get_refresh_token_by_hash (issuer.hash raw))
  end_family known up draw.now
  answer signed_out

unfoldable pub raw_key : String → Body → M String
raw_key header b d =
    if str_eq header ""
    then elim b [
      | no_body ↦ (next "", d)
      | malformed ↦ (reply (fail 400 "invalid_body"), d)
      | body t ↦ (next t, d)
    ]
    else (next header, d)

-- `handleAPIKeyToken`, of the header and the body.
unfoldable pub handle_api_key_token :
    KeyCalls → Issuer → (String → String → Option Bool) → ℕ → String → Body → M (Unit {0})
handle_api_key_token up issuer check now header b = do
  raw ← raw_key header b
  require (not (str_eq raw "")) (fail 400 "missing_api_key")
  key ← act answered (on_absent (fail 401 "unauthorized")) (verify_api_key_string up check raw now)
  access ←
      need (issuer.mint (append api_key_user_prefix key.id) key.workspace_id) (fail 500 "internal")
  answer (key_token access key.workspace_id)
