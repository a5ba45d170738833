-- ===== src/Tenancy/Members.antt =====
-- services/tenancy/workspaces.go: the handlers of the workspaces and of their members.
use aether_edit.Prelude.{
  String, Bool, true, false, not, ◌&&◌, Option, none, some, map, str_eq, ltb, leb, if◌then◌else◌,
  Result, ok,
}
use Prim.Native.Char.{Char}
use aether_edit.Prelude.Steps.{need, require, answer, ◌>>=◌, ◌>>◌}
use aether_edit.Prelude.Text.{trim_space, to_lower, contains, byte_length}
use aether_edit.Tenancy.{Workspace}
use aether_edit.Tenancy.Directory.{
  Role, owner, admin, member, is_owner, valid_role, Membership, DirectoryError, get_user,
  get_user_by_email, set_active_workspace,
}
use aether_edit.Tenancy.Memberships.{
  get_membership, get_workspace, create_workspace, list_workspaces_for_user, list_members,
  add_member, update_member_role, remove_member, count_owners,
}
use aether_edit.Tenancy.Access.{
  fail, me_view, workspace_view, workspace_list, switched, member_list, member_view, role_view,
  no_content, M, Outcome, answered, internal, on_absent, on_duplicate, ask, act, answer_by, give,
  Identity, require_user, require_role, decoded,
}

-- What becomes of the calls of the store, by the method; the caller's own membership, which
-- `requireRole` reads, apart.
pub record Calls : Type 0 where
  pub user : Outcome
  pub workspace : Outcome
  pub role : Outcome
  pub membership : Outcome
  pub owners : Outcome
  pub list : Outcome
  pub write : Outcome

-- The active workspace is shown where both look-ups find it.
abbrev pub shown :
    Outcome
    → Result DirectoryError Membership
    → Outcome
    → Result DirectoryError Workspace
    → Option (Workspace × Role)
shown answered (ok m) answered (ok ws) = some (ws, m.role)
shown _ _ _ _ = none

-- `handleMe`
unfoldable pub handle_me : Calls → Option Identity → M (Unit {0})
handle_me up who = do
  id ← require_user who
  user ← ask up.user internal (get_user id.user_id)
  answer_by (λ d. me_view user (
      shown up.membership (get_membership id.workspace_id id.user_id d) up.workspace
        (get_workspace id.workspace_id d)))

-- `handleCreateWorkspace`, with the name in the body, and the id of the new row.
unfoldable pub handle_create_workspace :
    Calls → String → String → Option String → Option Identity → M (Unit {0})
handle_create_workspace up fresh tier body who = do
  id ← require_user who
  raw ← decoded body
  let name = trim_space raw
  require (not (str_eq name "") && leb (byte_length name) 128) (fail 400 "invalid_name")
  let ws : Workspace = record { id = fresh; name = name; plan_tier = tier; created_by = id.user_id }
  act up.write internal (create_workspace ws id.user_id)
  answer (workspace_view 201 ws owner false)

-- `handleListWorkspaces`
unfoldable pub handle_list_workspaces : Calls → Option Identity → M (Unit {0})
handle_list_workspaces up who = do
  id ← require_user who
  user ← ask up.user internal (get_user id.user_id)
  list ← ask up.list internal (λ d. ok (list_workspaces_for_user id.user_id d))
  answer (workspace_list (map (λ (ws, r). (ws, r, str_eq ws.id user.active_workspace_id)) list))

-- `handleActiveWorkspace`
unfoldable pub handle_active_workspace : Calls → Option Identity → M (Unit {0})
handle_active_workspace up who = do
  id ← require_user who
  m ←
      ask up.membership (on_absent (fail 403 "not_a_member"))
        (get_membership id.workspace_id id.user_id)
  ws ← ask up.workspace internal (get_workspace id.workspace_id)
  answer (workspace_view 200 ws m.role true)

-- `handleSwitchWorkspace`, with the token that `Mint` returns for the user and the workspace.
unfoldable pub handle_switch_workspace :
    Calls → (String → String → Option String) → Option String → Option Identity → M (Unit {0})
handle_switch_workspace up mint body who = do
  id ← require_user who
  ws ← decoded body
  require (not (str_eq ws "")) (fail 400 "invalid_workspace_id")
  m ← ask up.membership (on_absent (fail 403 "not_a_member")) (get_membership ws id.user_id)
  act up.write internal (set_active_workspace id.user_id ws)
  access ← need (mint id.user_id ws) (fail 500 "internal")
  row ← ask up.workspace internal (get_workspace ws)
  answer (switched access row m.role)

-- `handleListMembers`
unfoldable pub handle_list_members : Calls → String → Option Identity → M (Unit {0})
handle_list_members up ws who = do
  id ← require_user who
  require_role up.role ws id.user_id member
  list ← ask up.list internal (λ d. ok (list_members ws d))
  answer (member_list list)

-- `addMemberRequest`
pub record AddMemberRequest : Type 0 where
  pub email : String
  pub role : String

-- To grant more than the plain membership takes an owner.
abbrev pub least_role : Role → Role
least_role member = admin
least_role admin = owner
least_role owner = owner

-- `handleAddMember`, with Unicode's lower case.
unfoldable pub handle_add_member :
    Calls → (Char → Char) → String → Option AddMemberRequest → Option Identity → M (Unit {0})
handle_add_member up lower ws body who = do
  id ← require_user who
  req ← decoded body
  let email = trim_space (to_lower lower req.email)
  require (not (str_eq email "") && contains email b'@') (fail 400 "invalid_email")
  role ← need (valid_role req.role) (fail 400 "invalid_role")
  require_role up.role ws id.user_id (least_role role)
  target ← ask up.user (on_absent (fail 404 "user_not_found")) (get_user_by_email email)
  let m : Membership = record { workspace_id = ws; user_id = target.id; role = role }
  act up.write (on_duplicate (fail 409 "already_member")) (add_member m)
  answer (member_view m target)

-- The check before an owner ceases to be one.
unfoldable pub spare_owner : Outcome → String → Bool → M (Unit {0})
spare_owner up ws false = give tt
spare_owner up ws true = do
  owners ← ask up internal (λ s. ok (count_owners ws s))
  require (ltb 1 owners) (fail 409 "last_owner")

-- `handleUpdateMemberRole`
unfoldable pub handle_update_member_role :
    Calls → String → String → Option String → Option Identity → M (Unit {0})
handle_update_member_role up ws target body who = do
  id ← require_user who
  require_role up.role ws id.user_id owner
  raw ← decoded body
  role ← need (valid_role raw) (fail 400 "invalid_role")
  current ← ask up.membership (on_absent (fail 404 "member_not_found")) (get_membership ws target)
  spare_owner up.owners ws (is_owner current.role && not (is_owner role))
  act up.write internal (update_member_role ws target role)
  answer (role_view target role)

-- `handleRemoveMember`
unfoldable pub handle_remove_member : Calls → String → String → Option Identity → M (Unit {0})
handle_remove_member up ws target who = do
  id ← require_user who
  current ← ask up.membership (on_absent (fail 404 "member_not_found")) (get_membership ws target)
  require_role up.role ws id.user_id
      (if str_eq target id.user_id then member else least_role current.role)
  spare_owner up.owners ws (is_owner current.role)
  act up.write internal (remove_member ws target)
  answer no_content
