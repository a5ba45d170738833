-- ===== src/Tenancy/Service.antt =====
-- services/tenancy/server.go: the routes. A request carries what the environment chooses for it: what the
-- calls of the store come to, the time, and what is drawn at random.
use aether_edit.Prelude.{ℕ, String, Bool, Option, some, List, [], ◌∷◌}
use aether_edit.Prelude.Steps.{◌>>=◌}
use aether_edit.Tenancy.Directory.{LoginState, Directory}
use aether_edit.Tenancy.Access.{M, Identity}
use aether_edit.Tenancy.Members.{
  Calls, AddMemberRequest, handle_me, handle_create_workspace, handle_list_workspaces,
  handle_active_workspace, handle_switch_workspace, handle_list_members, handle_add_member,
  handle_update_member_role, handle_remove_member,
}
use aether_edit.Tenancy.Keys.{
  KeyCalls, authenticate, handle_create_api_key, handle_list_api_keys, handle_revoke_api_key,
}
use aether_edit.Tenancy.Sessions.{SessionCalls, SignIn, Issuer, Draw, handle_login, handle_callback}
use aether_edit.Tenancy.Refresh.{Body, handle_refresh, handle_logout, handle_api_key_token}

-- The dependencies of the server that are parameters: its configuration with the signer, the check of
-- a key's secret, that of a token's signature, and the identity provider.
pub record Server : Type 0 where
  pub issuer : Issuer
  pub check : String → String → Option Bool
  pub verify : String → Option Identity
  pub provider : LoginState → String → SignIn

-- The routes that need an identity.
pub data ApiRequest : Type 0 where
  me : ApiRequest
  create_workspace : String → Option String → ApiRequest
  list_workspaces : ApiRequest
  active_workspace : ApiRequest
  switch_workspace : Option String → ApiRequest
  list_members : String → ApiRequest
  add_member : String → Option AddMemberRequest → ApiRequest
  update_member_role : String → String → Option String → ApiRequest
  remove_member : String → String → ApiRequest
  create_api_key : String → Option (String × String) → Option String → ApiRequest
  list_api_keys : ApiRequest
  revoke_api_key : String → ApiRequest

-- The headers `Authorization` and `X-API-Key`.
pub record Headers : Type 0 where
  pub authorization : String
  pub x_api_key : String

pub data Request : Type 0 where
  login : SessionCalls → Option (String × String × String) → ℕ → Request
  callback : SessionCalls → Draw → String → String → String → Request
  refresh : SessionCalls → Draw → Body → String → Request
  logout : SessionCalls → Draw → Body → String → Request
  token : KeyCalls → ℕ → String → Body → Request
  api : KeyCalls → Headers → ℕ → Calls → ApiRequest → Request

-- The handler of a route.
unfoldable pub dispatch : Server → Calls → ℕ → ApiRequest → Option Identity → M (Unit {0})
dispatch s up now me who = handle_me up who
dispatch s up now (create_workspace fresh name) who =
    handle_create_workspace up fresh s.issuer.default_tier name who
dispatch s up now list_workspaces who = handle_list_workspaces up who
dispatch s up now active_workspace who = handle_active_workspace up who
dispatch s up now (switch_workspace ws) who = handle_switch_workspace up s.issuer.mint ws who
dispatch s up now (list_members ws) who = handle_list_members up ws who
dispatch s up now (add_member ws req) who = handle_add_member up s.issuer.lower ws req who
dispatch s up now (update_member_role ws target role) who =
    handle_update_member_role up ws target role who
dispatch s up now (remove_member ws target) who = handle_remove_member up ws target who
dispatch s up now (create_api_key fresh made name) who =
    handle_create_api_key up.role up.write fresh made name who
dispatch s up now list_api_keys who = handle_list_api_keys up.role up.list who
dispatch s up now (revoke_api_key key) who = handle_revoke_api_key up.role up.write key now who

-- `Routes`
unfoldable pub serve : Server → Request → M (Unit {0})
serve s (login up drawn now) = handle_login up drawn now
serve s (callback up draw error state code) =
    handle_callback up s.issuer draw s.provider error state code
serve s (refresh up draw presented cookie) = handle_refresh up s.issuer draw presented cookie
serve s (logout up draw presented cookie) = handle_logout up s.issuer draw presented cookie
serve s (token up now header b) = handle_api_key_token up s.issuer s.check now header b
serve s (api keys headers now up req) = do
  id ← authenticate keys s.check s.verify headers.authorization headers.x_api_key now
  dispatch s up now req (some id)

-- Requests one after another.
unfoldable pub serve_all : Server → List Request → Directory → Directory
serve_all s [] d = d
serve_all s (q ∷ qs) d = serve_all s qs (serve s q d).1
