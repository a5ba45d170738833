-- ===== src/Tenancy/Scope/Requests.antt =====
-- services/tenancy/server.go: for whom an access token is minted, over every request.
use aether_edit.Prelude.{ℕ, ◌≡◌, Option}
use aether_edit.Prelude.Steps.{reply}
use aether_edit.Tenancy.Directory.{Directory}
use aether_edit.Tenancy.Access.{Reply, Identity}
use aether_edit.Tenancy.Members.{Calls}
use aether_edit.Tenancy.Service.{
  Server, ApiRequest, me, create_workspace, list_workspaces, active_workspace, switch_workspace,
  list_members, add_member, update_member_role, remove_member, create_api_key, list_api_keys,
  revoke_api_key, Request, login, callback, refresh, logout, token, api, dispatch, serve,
}
use aether_edit.Tenancy.Scope.{Scoped, Sound, sound}
use aether_edit.Tenancy.Scope.Handlers.{
  handle_me-Sound, handle_create_workspace-Sound, handle_list_workspaces-Sound,
  handle_active_workspace-Sound, handle_switch_workspace-Sound, handle_list_members-Sound,
  handle_add_member-Sound, handle_update_member_role-Sound, handle_remove_member-Sound,
  handle_create_api_key-Sound, handle_list_api_keys-Sound, handle_revoke_api_key-Sound,
  authenticate-Sound,
}
use aether_edit.Tenancy.Scope.Sessions.{
  handle_login-Sound, handle_callback-Sound, handle_refresh-Sound, handle_logout-Sound,
  handle_api_key_token-Sound,
}

dispatch-Sound :
    (s : Server) (up : Calls) (now : ℕ) (req : ApiRequest) (who : Option Identity)
    → Sound s.issuer (dispatch s up now req who)
unfolding dispatch
dispatch-Sound s up now me who = handle_me-Sound s.issuer _ _
dispatch-Sound s up now (create_workspace fresh name) who =
    handle_create_workspace-Sound s.issuer _ _ _ _ _
dispatch-Sound s up now list_workspaces who = handle_list_workspaces-Sound s.issuer _ _
dispatch-Sound s up now active_workspace who = handle_active_workspace-Sound s.issuer _ _
dispatch-Sound s up now (switch_workspace ws) who = handle_switch_workspace-Sound s.issuer _ _ _
dispatch-Sound s up now (list_members ws) who = handle_list_members-Sound s.issuer _ _ _
dispatch-Sound s up now (add_member ws req) who = handle_add_member-Sound s.issuer _ _ _ _ _
dispatch-Sound s up now (update_member_role ws target role) who =
    handle_update_member_role-Sound s.issuer _ _ _ _ _
dispatch-Sound s up now (remove_member ws target) who = handle_remove_member-Sound s.issuer _ _ _ _
dispatch-Sound s up now (create_api_key fresh made name) who =
    handle_create_api_key-Sound s.issuer _ _ _ _ _ _
dispatch-Sound s up now list_api_keys who = handle_list_api_keys-Sound s.issuer _ _ _
dispatch-Sound s up now (revoke_api_key key) who = handle_revoke_api_key-Sound s.issuer _ _ _ _ _

serve-Sound : (s : Server) (q : Request) → Sound s.issuer (serve s q)
unfolding serve
serve-Sound s (login up drawn now) = handle_login-Sound s.issuer _ _ _
serve-Sound s (callback up draw error state code) = handle_callback-Sound s.issuer _ _ _ _ _ _
serve-Sound s (refresh up draw presented cookie) = handle_refresh-Sound s.issuer _ _ _ _
serve-Sound s (logout up draw presented cookie) = handle_logout-Sound s.issuer _ _ _ _
serve-Sound s (token up now header b) = handle_api_key_token-Sound s.issuer _ _ _ _ _
serve-Sound s (api up headers now calls req) = search (sound, authenticate-Sound, dispatch-Sound)

-- Every request that answers with a session or with a switch: the access token is the one minted for a
-- user and a workspace of which the user is then a member; for a session these are the user and their
-- active workspace, and a switch tells the role of that membership.
pub serve-Scoped :
    (s : Server) (q : Request) (d : Directory) (r : Reply)
    → (serve s q d).0 ≡ reply r
    → Scoped s.issuer r (serve s q d).1
unfolding Sound
serve-Scoped s q d r h = serve-Sound s q d r h
