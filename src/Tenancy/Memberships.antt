-- ===== src/Tenancy/Memberships.antt =====
-- services/tenancy/postgres.go: the methods on the workspaces and their members.
use aether_edit.Prelude.{
  ℕ, String, Bool, ◌&&◌, Option, none, some, List, [], ◌∷◌, ◌++◌, map, str_eq, ltb, Result, ok, err,
}
use aether_edit.Prelude.Table.{select_first, select_all, count_where, update_where, delete_where}
use aether_edit.Tenancy.{Workspace}
use aether_edit.Tenancy.Directory.{
  Role, owner, is_owner, User, Membership, Directory, DirectoryError, duplicate, failed, found,
  changed,
}

abbrev pub at_key : String → String → Membership → Bool
at_key ws user m = str_eq m.workspace_id ws && str_eq m.user_id user

-- `AddMember`
unfoldable pub add_member : Membership → Directory → Result DirectoryError (Unit {0}) × Directory
unfolding select_first
add_member m d = elim (select_first (at_key m.workspace_id m.user_id) d.members) [
  | some _ ↦ (err duplicate, d)
  | none ↦ (ok tt, record d { members = d.members ++ m ∷ [] })
]

-- `CreateWorkspace`: both rows or none.
unfoldable pub create_workspace :
    Workspace → String → Directory → Result DirectoryError (Unit {0}) × Directory
unfolding select_first add_member
create_workspace ws user d = elim (select_first (λ w. str_eq w.id ws.id) d.workspaces) [
  | some _ ↦ (err duplicate, d)
  | none ↦ elim (select_first (at_key ws.id user) d.members) [
    | some _ ↦ (err failed, d)
    | none ↦ (
      ok tt,
      record d {
        workspaces = d.workspaces ++ ws ∷ [];
        members = d.members ++ record { workspace_id = ws.id; user_id = user; role = owner } ∷ [];
      },
    )
  ]
]

-- `GetWorkspace`
unfoldable pub get_workspace : String → Directory → Result DirectoryError Workspace
unfolding select_first
get_workspace id d = found (select_first (λ w. str_eq w.id id) d.workspaces)

-- `GetMembership`
unfoldable pub get_membership : String → String → Directory → Result DirectoryError Membership
unfolding select_first
get_membership ws user d = found (select_first (at_key ws user) d.members)

-- An inner join: the rows that have a partner, with it.
abbrev pub with_partner : {A B : Type 0} → A → Option B → List (A × B) → List (A × B)
with_partner a none rest = rest
with_partner a (some b) rest = (a, b) ∷ rest

unfoldable pub join : {A B : Type 0} → (A → Option B) → List A → List (A × B)
join f [] = []
join f (a ∷ rest) = with_partner a (f a) (join f rest)

-- `ListMembers`, in the order in which they were added.
unfoldable pub list_members : String → Directory → List (Membership × User)
unfolding select_all select_first
list_members ws d =
    join (λ m. select_first (λ u. str_eq u.id m.user_id) d.users)
      (select_all (λ m. str_eq m.workspace_id ws) d.members)

-- `ListWorkspacesForUser`, in the order in which they were created.
unfoldable pub list_workspaces_for_user : String → Directory → List (Workspace × Role)
unfolding select_all select_first
list_workspaces_for_user user d =
    map (λ (ws, m). (ws, m.role))
      (join (λ ws. select_first (at_key ws.id user) d.members) d.workspaces)

abbrev pub with_role : Role → Membership → Membership
with_role r m = record m { role = r }

-- `UpdateMemberRole`
unfoldable pub update_member_role :
    String → String → Role → Directory → Result DirectoryError (Unit {0}) × Directory
unfolding count_where update_where
update_member_role ws user r d =
    changed (ltb 0 (count_where (at_key ws user) d.members))
      (record d { members = update_where (at_key ws user) (with_role r) d.members }) d

-- `RemoveMember`
unfoldable pub remove_member :
    String → String → Directory → Result DirectoryError (Unit {0}) × Directory
unfolding count_where delete_where
remove_member ws user d =
    changed (ltb 0 (count_where (at_key ws user) d.members))
      (record d { members = delete_where (at_key ws user) d.members }) d

abbrev pub owns : String → Membership → Bool
owns ws m = str_eq m.workspace_id ws && is_owner m.role

-- `CountOwners`
unfoldable pub count_owners : String → Directory → ℕ
unfolding count_where
count_owners ws d = count_where (owns ws) d.members
