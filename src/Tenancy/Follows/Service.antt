-- ===== src/Tenancy/Follows/Service.antt =====
-- services/tenancy/server.go: what follows a request, from what follows every write.
use aether_edit.Prelude.{ℕ, String, Bool, Option}
use aether_edit.Tenancy.{Workspace}
use aether_edit.Tenancy.Directory.{
  Membership, ApiKey, RefreshToken, LoginState, Directory, save_login_state, take_login_state,
  upsert_user, set_active_workspace,
}
use aether_edit.Tenancy.Memberships.{
  create_workspace as insert_workspace, add_member as insert_member,
}
use aether_edit.Tenancy.Credentials.{
  create_refresh_token, mark_refresh_token_used, revoke_refresh_family,
  create_api_key as insert_key, revoke_api_key as end_key,
}
use aether_edit.Tenancy.Access.{Identity}
use aether_edit.Tenancy.Members.{Calls, handle_update_member_role, handle_remove_member}
use aether_edit.Tenancy.Keys.{KeyCalls, verify_api_key_string, authenticate}
use aether_edit.Tenancy.Service.{
  Server, Headers, ApiRequest, me, create_workspace, list_workspaces, active_workspace,
  switch_workspace, list_members, add_member, update_member_role, remove_member, create_api_key,
  list_api_keys, revoke_api_key, Request, login, callback, refresh, logout, token, api, dispatch,
  serve,
}
use aether_edit.Tenancy.Follows.{Law, Follows, follows}
use aether_edit.Tenancy.Follows.Workspaces.{
  handle_me-Follows, handle_create_workspace-Follows, handle_list_workspaces-Follows,
  handle_active_workspace-Follows, handle_switch_workspace-Follows, handle_list_members-Follows,
  handle_add_member-Follows, handle_create_api_key-Follows, handle_list_api_keys-Follows,
  handle_revoke_api_key-Follows, authenticate-Follows,
}
use aether_edit.Tenancy.Follows.Sessions.{
  handle_login-Follows, handle_callback-Follows, handle_refresh-Follows, handle_logout-Follows,
  handle_api_key_token-Follows,
}

-- What the writes of the routes that need an identity keep, and the two handlers that look before they
-- write.
pub record LawfulApi (l : Law) : Type 0 where
  pub workspaces :
      (ws : Workspace) (user : String) (d : Directory) → l.R d (insert_workspace ws user d).1
  pub actives : (user ws : String) (d : Directory) → l.R d (set_active_workspace user ws d).1
  pub members : (m : Membership) (d : Directory) → l.R d (insert_member m d).1
  pub roles :
      (up : Calls) (ws target : String) (role : Option String) (who : Option Identity)
      → Follows l (handle_update_member_role up ws target role who)
  pub removals :
      (up : Calls) (ws target : String) (who : Option Identity)
      → Follows l (handle_remove_member up ws target who)
  pub keys : (k : ApiKey) (d : Directory) → l.R d (insert_key k d).1
  pub revocations : (ws id : String) (now : ℕ) (d : Directory) → l.R d (end_key ws id now d).1
  pub checks :
      (up : KeyCalls) (check : String → String → Option Bool) (raw : String) (now : ℕ)
      (d : Directory)
      → l.R d (verify_api_key_string up check raw now d).1

-- What the writes of the sign-in keep.
pub record LawfulSignIn (l : Law) : Type 0 where
  pub states : (ls : LoginState) (d : Directory) → l.R d (save_login_state ls d).1
  pub takes : (state : String) (now : ℕ) (d : Directory) → l.R d (take_login_state state now d).1
  pub users :
      (fresh sub email name : String) (d : Directory) → l.R d (upsert_user fresh sub email name d).1
  pub tokens : (t : RefreshToken) (d : Directory) → l.R d (create_refresh_token t d).1
  pub uses : (id : String) (at : ℕ) (d : Directory) → l.R d (mark_refresh_token_used id at d).1
  pub families :
      (family : String) (at : ℕ) (d : Directory) → l.R d (revoke_refresh_family family at d).1

module _ (l : Law) (law : LawfulApi l) where
  pub dispatch-Follows :
      (s : Server) (up : Calls) (now : ℕ) (req : ApiRequest) (who : Option Identity)
      → Follows l (dispatch s up now req who)
  unfolding dispatch
  dispatch-Follows s up now me who = handle_me-Follows l _ _
  dispatch-Follows s up now (create_workspace fresh name) who =
      handle_create_workspace-Follows l _ _ _ _ _ law.workspaces
  dispatch-Follows s up now list_workspaces who = handle_list_workspaces-Follows l _ _
  dispatch-Follows s up now active_workspace who = handle_active_workspace-Follows l _ _
  dispatch-Follows s up now (switch_workspace ws) who =
      handle_switch_workspace-Follows l _ _ _ _ law.actives
  dispatch-Follows s up now (list_members ws) who = handle_list_members-Follows l _ _ _
  dispatch-Follows s up now (add_member ws req) who =
      handle_add_member-Follows l _ _ _ _ _ law.members
  dispatch-Follows s up now (update_member_role ws target role) who = law.roles _ _ _ _ _
  dispatch-Follows s up now (remove_member ws target) who = law.removals _ _ _ _
  dispatch-Follows s up now (create_api_key fresh made name) who =
      handle_create_api_key-Follows l _ _ _ _ _ _ law.keys
  dispatch-Follows s up now list_api_keys who = handle_list_api_keys-Follows l _ _ _
  dispatch-Follows s up now (revoke_api_key key) who =
      handle_revoke_api_key-Follows l _ _ _ _ _ law.revocations

  pub api-Follows :
      (s : Server) (up : KeyCalls) (headers : Headers) (now : ℕ) (calls : Calls) (req : ApiRequest)
      → Follows l (serve s (api up headers now calls req))
  unfolding serve
  api-Follows s up headers now calls req =
      let entry : Follows l
          (authenticate up s.check s.verify headers.authorization headers.x_api_key now) =
        authenticate-Follows l _ _ _ _ _ _ law.checks in
      search (follows, entry, dispatch-Follows)

  module _ (more : LawfulSignIn l) where
    pub serve-Follows : (s : Server) (q : Request) → Follows l (serve s q)
    unfolding serve
    serve-Follows s (login up drawn now) = handle_login-Follows l _ _ _ more.states
    serve-Follows s (callback up draw error state code) =
        handle_callback-Follows l _ _ _ _ _ _ _ more.takes more.users law.workspaces law.actives
          more.tokens
    serve-Follows s (refresh up draw presented cookie) =
        handle_refresh-Follows l _ _ _ _ _ more.families more.uses more.tokens
    serve-Follows s (logout up draw presented cookie) =
        handle_logout-Follows l _ _ _ _ _ more.families
    serve-Follows s (token up now header b) = handle_api_key_token-Follows l _ _ _ _ _ _ law.checks
    serve-Follows s (api up headers now calls req) = api-Follows s up headers now calls req
