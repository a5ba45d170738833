-- ===== src/Tenancy/Keys.antt =====
-- services/tenancy/apikeys.go: the format of a key, its check, and the handlers; and the middleware of
-- server.go that takes a token or a key. Argon2id with the format of its hash, and the check of a
-- token's signature, are parameters.
pub mod RoundTrip
pub mod Revocation
use aether_edit.Prelude.{
  ℕ, String, Bool, not, ◌&&◌, ◌||◌, Option, none, some, str_eq, leb, if◌then◌else◌, Result, ok, err,
}
use Prim.Native.String.{◌++◌ as append}
use aether_edit.Prelude.Steps.{require, need, answer, ◌>>=◌, ◌>>◌}
use aether_edit.Prelude.Text.{has_prefix, trim_prefix, cut, trim_space, byte_length}
use aether_edit.Tenancy.Directory.{
  admin, member, ApiKey, Directory, DirectoryError, not_found, failed,
}
use aether_edit.Tenancy.Credentials.{
  unset, create_api_key, get_api_key, list_api_keys, revoke_api_key, touch_api_key,
}
use aether_edit.Tenancy.Access.{
  fail, key_view, key_list, no_content, M, Outcome, answered, refused, lost, internal, on_absent,
  ask, act, give, Identity, api_key_user_prefix, require_user, require_role, decoded,
}

abbrev pub api_key_prefix : String
api_key_prefix = "aek_"

-- The key that `mintAPIKey` builds of its fresh id and secret.
unfoldable pub mint_api_key : String → String → String
mint_api_key id secret = append api_key_prefix (append id (append "_" secret))

abbrev pub both_named : Option (String × String) → Option (String × String)
both_named none = none
both_named (some (id, secret)) =
    if str_eq id "" || str_eq secret "" then none else some (id, secret)

-- `splitAPIKey`
unfoldable pub split_api_key : String → Option (String × String)
unfolding has_prefix trim_prefix cut
split_api_key raw =
    if has_prefix api_key_prefix raw
    then both_named (cut b'_' (trim_prefix api_key_prefix raw))
    else none

-- What becomes of the calls of the store.
pub record KeyCalls : Type 0 where
  pub get : Outcome
  pub touch : Outcome

abbrev pub reached : {A : Type 0} → Outcome → Result DirectoryError A → Result DirectoryError A
reached answered r = r
reached refused r = err failed
reached lost r = err failed

abbrev pub touched : Outcome → String → ℕ → Directory → Directory
touched answered id now d = (touch_api_key id now d).1
touched refused id now d = d
touched lost id now d = (touch_api_key id now d).1

-- The key that is there, with whether the secret fits its hash, if the hash can be read.
abbrev pub checked :
    Outcome → ApiKey → Option Bool → ℕ → Directory → Result DirectoryError ApiKey × Directory
checked up key fits now d =
    if unset key.revoked_at
    then elim fits [
      | none ↦ (err failed, d)
      | some match ↦ if match then (ok key, touched up key.id now d) else (err not_found, d)
    ]
    else (err not_found, d)

-- `verifyAPIKeyString`. That the last use cannot be written does not matter.
unfoldable pub verify_api_key_string :
    KeyCalls
    → (String → String → Option Bool)
    → String
    → ℕ
    → Directory
    → Result DirectoryError ApiKey × Directory
verify_api_key_string up check raw now d = elim (split_api_key raw) [
  | none ↦ (err not_found, d)
  | some (id, secret) ↦ elim (reached up.get (get_api_key id d)) [
    | err e ↦ (err e, d)
    | ok key ↦ checked up.touch key (check secret key.secret_hash) now d
  ]
]

-- `handleCreateAPIKey`, with the name in the body, a fresh id, and the secret with its hash, which may
-- not be made.
unfoldable pub handle_create_api_key :
    Outcome
    → Outcome
    → String
    → Option (String × String)
    → Option String
    → Option Identity
    → M (Unit {0})
handle_create_api_key role up fresh made body who = do
  id ← require_user who
  require_role role id.workspace_id id.user_id admin
  raw ← decoded body
  let name = trim_space raw
  require (not (str_eq name "") && leb (byte_length name) 128) (fail 400 "invalid_name")
  (secret, hash) ← need made (fail 500 "internal")
  let key : ApiKey = record {
    id = fresh;
    workspace_id = id.workspace_id;
    name = name;
    secret_hash = hash;
    created_by = id.user_id;
    last_used_at = none;
    revoked_at = none;
  }
  act up internal (create_api_key key)
  answer (key_view (mint_api_key fresh secret) key)

-- `handleListAPIKeys`
unfoldable pub handle_list_api_keys : Outcome → Outcome → Option Identity → M (Unit {0})
handle_list_api_keys role up who = do
  id ← require_user who
  require_role role id.workspace_id id.user_id member
  keys ← ask up internal (λ d. ok (list_api_keys id.workspace_id d))
  answer (key_list keys)

-- `handleRevokeAPIKey`
unfoldable pub handle_revoke_api_key :
    Outcome → Outcome → String → ℕ → Option Identity → M (Unit {0})
handle_revoke_api_key role up key now who = do
  id ← require_user who
  require_role role id.workspace_id id.user_id admin
  require (not (str_eq key "")) (fail 400 "invalid_key_id")
  act up (on_absent (fail 404 "key_not_found")) (revoke_api_key id.workspace_id key now)
  answer no_content

-- ---- the middleware ----

-- The token of the headers `Authorization` and `X-API-Key`; a header that is not there is empty.
unfoldable pub bearer : String → String → String
unfolding has_prefix trim_prefix
bearer authorization api_key =
    if has_prefix "Bearer " authorization then trim_prefix "Bearer " authorization else api_key

-- The identity of a key.
abbrev pub key_identity : ApiKey → Identity
key_identity key = record {
  user_id = append api_key_user_prefix key.id;
  workspace_id = key.workspace_id;
}

unfoldable pub by_key : KeyCalls → (String → String → Option Bool) → String → ℕ → M Identity
by_key up check token now = do
  key ←
      act answered (on_absent (fail 401 "unauthorized")) (verify_api_key_string up check token now)
  give (key_identity key)

-- `authMiddleware`, up to the call of the handler, with the check of a bearer token.
unfoldable pub authenticate :
    KeyCalls
    → (String → String → Option Bool)
    → (String → Option Identity)
    → String
    → String
    → ℕ
    → M Identity
authenticate up check verify authorization api_key now = do
  let token = bearer authorization api_key
  require (not (str_eq token "")) (fail 401 "unauthorized")
  (if has_prefix api_key_prefix token
      then by_key up check token now
      else need (verify token) (fail 401 "unauthorized"))
