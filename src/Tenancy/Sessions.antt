-- ===== src/Tenancy/Sessions.antt =====
-- services/tenancy/authflow.go: the sign-in with its redirect and callback, and the session. The identity provider with the check of its token
-- (oidc.go), the signature and the hash (tokens.go), and what is drawn at random are parameters.
use aether_edit.Prelude.{
  ℕ, ◌+◌, String, Bool, true, false, not, ◌||◌, Option, none, some, str_eq, if◌then◌else◌,
}
use Prim.Native.Char.{Char}
use Prim.Native.String.{◌++◌ as append}
use aether_edit.Prelude.Steps.{next, reply, require, need, answer, ◌>>=◌, ◌>>◌}
use aether_edit.Prelude.Text.{cut, to_lower}
use aether_edit.Tenancy.{Workspace}
use aether_edit.Tenancy.Directory.{
  User, LoginState, RefreshToken, save_login_state, take_login_state, upsert_user,
  set_active_workspace,
}
use aether_edit.Tenancy.Memberships.{create_workspace, get_membership}
use aether_edit.Tenancy.Credentials.{create_refresh_token}
use aether_edit.Tenancy.Access.{
  fail, redirect, session, M, Outcome, internal, on_absent, ask, act, give,
}

-- What becomes of the calls of the store.
pub record SessionCalls : Type 0 where
  pub login : Outcome
  pub upsert : Outcome
  pub create : Outcome
  pub activate : Outcome
  pub user : Outcome
  pub membership : Outcome
  pub token : Outcome
  pub mark : Outcome
  pub revoke : Outcome
  pub insert : Outcome

-- `verifiedIDToken`
pub record VerifiedIdToken : Type 0 where
  pub subject : String
  pub email : String
  pub name : String

-- What the identity provider answers to a code.
pub data SignIn : Type 0 where
  exchange_failed token_invalid : SignIn
  verified : VerifiedIdToken → SignIn

-- What a request draws at random, with the secret token that may not be made, and what time it is when
-- it comes and when its session is issued.
pub record Draw : Type 0 where
  pub user_id : String
  pub workspace_id : String
  pub family_id : String
  pub token_id : String
  pub raw : Option String
  pub now : ℕ
  pub later : ℕ

-- The configuration, `Mint` and `hashOpaqueToken`, and Unicode's lower case.
pub record Issuer : Type 0 where
  pub mint : String → String → Option String
  pub hash : String → String
  pub default_tier : String
  pub refresh_ttl : ℕ
  pub lower : Char → Char

abbrev pub login_state_ttl : ℕ
login_state_ttl = 600

-- `handleLogin`, with the drawn state, nonce and verifier.
unfoldable pub handle_login : SessionCalls → Option (String × String × String) → ℕ → M (Unit {0})
handle_login up drawn now = do
  (state, nonce, verifier) ← need drawn (fail 500 "internal")
  let ls : LoginState = record {
    state = state;
    nonce = nonce;
    pkce_verifier = verifier;
    expires_at = now + login_state_ttl;
  }
  act up.login internal (save_login_state ls)
  answer (redirect ls)

abbrev pub before_at : String → Option (String × String) → String
before_at name none = name
before_at name (some (before, after)) = if str_eq before "" then name else before

-- The name of the first workspace: the provider's name, or the local part of an email in its place.
unfoldable pub workspace_name : User → String
unfolding cut
workspace_name user =
    append
      (if str_eq user.name user.email then before_at user.name (cut b'@' user.email) else user.name)
      "'s workspace"

-- `bootstrapWorkspace`, with the user who has it active.
unfoldable pub bootstrap_workspace : SessionCalls → Issuer → Draw → User → M User
bootstrap_workspace up issuer draw user = do
  let ws : Workspace = record {
    id = draw.workspace_id;
    name = workspace_name user;
    plan_tier = issuer.default_tier;
    created_by = user.id;
  }
  act up.create internal (create_workspace ws user.id)
  act up.activate internal (set_active_workspace user.id ws.id)
  give (record user { active_workspace_id = ws.id })

-- The token that `issueSession` stores.
abbrev pub new_token : Issuer → Draw → String → String → String → RefreshToken
new_token issuer draw user family raw = record {
  id = draw.token_id;
  user_id = user;
  family_id = if str_eq family "" then draw.family_id else family;
  token_hash = issuer.hash raw;
  expires_at = draw.later + issuer.refresh_ttl;
  used_at = none;
  revoked_at = none;
}

-- `issueSession`, with the reply of the handlers that call it. Every error is an internal one.
unfoldable pub issue_session : SessionCalls → Issuer → Draw → User → String → M (Unit {0})
issue_session up issuer draw user family = do
  require (not (str_eq user.active_workspace_id "")) (fail 500 "internal")
  _ ← ask up.membership internal (get_membership user.active_workspace_id user.id)
  access ← need (issuer.mint user.id user.active_workspace_id) (fail 500 "internal")
  raw ← need draw.raw (fail 500 "internal")
  act up.insert internal (create_refresh_token (new_token issuer draw user.id family raw))
  answer (session access raw user)

unfoldable pub signed_by : SignIn → M VerifiedIdToken
signed_by exchange_failed d = (reply (fail 401 "oidc_exchange_failed"), d)
signed_by token_invalid d = (reply (fail 401 "oidc_token_invalid"), d)
signed_by (verified v) d = (next v, d)

-- A user's first sign-in makes a workspace.
unfoldable pub with_workspace : Bool → SessionCalls → Issuer → Draw → User → M User
with_workspace true up issuer draw user = bootstrap_workspace up issuer draw user
with_workspace false up issuer draw user = give user

-- `handleCallback`, with the query's error, state and code, and what the provider answers for the code
-- and the verifier and nonce of the state.
unfoldable pub handle_callback :
    SessionCalls
    → Issuer
    → Draw
    → (LoginState → String → SignIn)
    → String
    → String
    → String
    → M (Unit {0})
handle_callback up issuer draw provider error state code = do
  require (str_eq error "") (fail 400 "oidc_error")
  require (not (str_eq state "" || str_eq code "")) (fail 400 "invalid_callback")
  ls ← act up.login (on_absent (fail 400 "invalid_state")) (take_login_state state draw.now)
  v ← signed_by (provider ls code)
  user ←
      act up.upsert internal
        (upsert_user draw.user_id v.subject (to_lower issuer.lower v.email) v.name)
  active ← with_workspace (str_eq user.active_workspace_id "") up issuer draw user
  issue_session up issuer draw active ""
