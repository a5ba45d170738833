-- ===== src/Tenancy/Follows/Workspaces.antt =====
-- services/tenancy/workspaces.go, apikeys.go and server.go: what follows a handler, from what follows its
-- write.
use aether_edit.Prelude.{ℕ, String, Bool, true, false, Option}
use Prim.Native.Char.{Char}
use aether_edit.Tenancy.{Workspace}
use aether_edit.Tenancy.Directory.{Role, Membership, ApiKey, Directory, set_active_workspace}
use aether_edit.Tenancy.Memberships.{
  create_workspace, add_member, update_member_role as write_role, remove_member as delete_member,
}
use aether_edit.Tenancy.Credentials.{create_api_key, revoke_api_key}
use aether_edit.Tenancy.Access.{Outcome, Identity}
use aether_edit.Tenancy.Members.{
  Calls, AddMemberRequest, spare_owner, handle_update_member_role, handle_remove_member, handle_me,
  handle_create_workspace, handle_list_workspaces, handle_active_workspace, handle_switch_workspace,
  handle_list_members, handle_add_member,
}
use aether_edit.Tenancy.Keys.{
  KeyCalls, verify_api_key_string, handle_create_api_key, handle_list_api_keys,
  handle_revoke_api_key, by_key, authenticate,
}
use aether_edit.Tenancy.Follows.{Law, Follows, follows}

module _ (l : Law) where
  pub spare_owner-Follows :
      (up : Outcome) (ws : String) (b : Bool) → Follows l (spare_owner up ws b)
  unfolding spare_owner
  spare_owner-Follows up ws false = search follows
  spare_owner-Follows up ws true = search follows

  pub handle_update_member_role-Follows :
      (up : Calls) (ws target : String) (role : Option String) (who : Option Identity)
      → ((w user : String) (r : Role) (d : Directory) → l.R d (write_role w user r d).1)
      → Follows l (handle_update_member_role up ws target role who)
  unfolding handle_update_member_role
  handle_update_member_role-Follows up ws target role who h0 =
      search (follows, spare_owner-Follows) depth 20

  pub handle_remove_member-Follows :
      (up : Calls) (ws target : String) (who : Option Identity)
      → ((w user : String) (d : Directory) → l.R d (delete_member w user d).1)
      → Follows l (handle_remove_member up ws target who)
  unfolding handle_remove_member
  handle_remove_member-Follows up ws target who h0 = search (follows, spare_owner-Follows) depth 20

  pub handle_me-Follows : (up : Calls) (who : Option Identity) → Follows l (handle_me up who)
  unfolding handle_me
  handle_me-Follows up who = search follows depth 20

  pub handle_create_workspace-Follows :
      (up : Calls) (fresh tier : String) (name : Option String) (who : Option Identity)
      → ((ws : Workspace) (user : String) (d : Directory) → l.R d (create_workspace ws user d).1)
      → Follows l (handle_create_workspace up fresh tier name who)
  unfolding handle_create_workspace
  handle_create_workspace-Follows up fresh tier name who h0 = search follows depth 20

  pub handle_list_workspaces-Follows :
      (up : Calls) (who : Option Identity) → Follows l (handle_list_workspaces up who)
  unfolding handle_list_workspaces
  handle_list_workspaces-Follows up who = search follows depth 20

  pub handle_active_workspace-Follows :
      (up : Calls) (who : Option Identity) → Follows l (handle_active_workspace up who)
  unfolding handle_active_workspace
  handle_active_workspace-Follows up who = search follows depth 20

  pub handle_switch_workspace-Follows :
      (up : Calls) (mint : String → String → Option String) (ws : Option String)
      (who : Option Identity)
      → ((user ws : String) (d : Directory) → l.R d (set_active_workspace user ws d).1)
      → Follows l (handle_switch_workspace up mint ws who)
  unfolding handle_switch_workspace
  handle_switch_workspace-Follows up mint ws who h0 = search follows depth 20

  pub handle_list_members-Follows :
      (up : Calls) (ws : String) (who : Option Identity) → Follows l (handle_list_members up ws who)
  unfolding handle_list_members
  handle_list_members-Follows up ws who = search follows depth 20

  pub handle_add_member-Follows :
      (up : Calls) (lower : Char → Char) (ws : String) (req : Option AddMemberRequest)
      (who : Option Identity)
      → ((m : Membership) (d : Directory) → l.R d (add_member m d).1)
      → Follows l (handle_add_member up lower ws req who)
  unfolding handle_add_member
  handle_add_member-Follows up lower ws req who h0 = search follows depth 20

  pub handle_create_api_key-Follows :
      (role up : Outcome) (fresh : String) (made : Option (String × String)) (name : Option String)
      (who : Option Identity)
      → ((k : ApiKey) (d : Directory) → l.R d (create_api_key k d).1)
      → Follows l (handle_create_api_key role up fresh made name who)
  unfolding handle_create_api_key
  handle_create_api_key-Follows role up fresh made name who h0 = search follows depth 20

  pub handle_list_api_keys-Follows :
      (role up : Outcome) (who : Option Identity) → Follows l (handle_list_api_keys role up who)
  unfolding handle_list_api_keys
  handle_list_api_keys-Follows role up who = search follows depth 20

  pub handle_revoke_api_key-Follows :
      (role up : Outcome) (key : String) (now : ℕ) (who : Option Identity)
      → ((ws id : String) (now : ℕ) (d : Directory) → l.R d (revoke_api_key ws id now d).1)
      → Follows l (handle_revoke_api_key role up key now who)
  unfolding handle_revoke_api_key
  handle_revoke_api_key-Follows role up key now who h0 = search follows depth 20

  pub by_key-Follows :
      (up : KeyCalls) (check : String → String → Option Bool) (key : String) (now : ℕ)
      → ((up : KeyCalls) (check : String → String → Option Bool) (raw : String) (now : ℕ)
            (d : Directory)
          → l.R d (verify_api_key_string up check raw now d).1)
      → Follows l (by_key up check key now)
  unfolding by_key
  by_key-Follows up check key now h0 = search follows depth 20

  pub authenticate-Follows :
      (up : KeyCalls) (check : String → String → Option Bool) (verify : String → Option Identity)
      (authorization key : String) (now : ℕ)
      → ((up : KeyCalls) (check : String → String → Option Bool) (raw : String) (now : ℕ)
            (d : Directory)
          → l.R d (verify_api_key_string up check raw now d).1)
      → Follows l (authenticate up check verify authorization key now)
  unfolding authenticate
  authenticate-Follows up check verify authorization key now h =
      search (follows, by_key-Follows) depth 9
