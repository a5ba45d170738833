-- ===== src/Tenancy/Authority/Requests.antt =====
-- services/tenancy: that the handlers change the members only for those who may.
use aether_edit.Prelude.{
  ℕ, ◌≤◌, String, ◌≡◌, refl, sym, ap, ◌∙◌, subst, ◌⊎◌, inl, inr, false, Option, none, some, arith,
  str_eq, eq_iff, if◌then◌else◌, Bool-cases, ok,
}
use Prim.Native.Char.{Char}
use aether_edit.Prelude.Steps.{next, need_reads, need_next, require_reads, then_path, and_path}
use aether_edit.Prelude.Text.{has_prefix}
use aether_edit.Tenancy.Directory.{
  Role, member, valid_role, Membership, Directory, set_active_workspace,
}
use aether_edit.Tenancy.Memberships.{get_membership}
use aether_edit.Tenancy.Credentials.{create_api_key as insert_key, revoke_api_key as end_key}
use aether_edit.Tenancy.Access.{fail, Identity, api_key_user_prefix, role_rank, decoded}
use aether_edit.Tenancy.Members.{
  Calls, AddMemberRequest, least_role, handle_add_member, handle_update_member_role,
  handle_remove_member, handle_create_workspace,
}
use aether_edit.Tenancy.Service.{
  Server, ApiRequest, me, create_workspace, list_workspaces, active_workspace, switch_workspace,
  list_members, add_member, update_member_role, remove_member, create_api_key, list_api_keys,
  revoke_api_key, dispatch,
}
use aether_edit.Tenancy.Follows.{
  Follows, ask_reads, ask_found, decoded_reads, require_user_reads, require_role_reads,
}
use aether_edit.Tenancy.Follows.Workspaces.{
  handle_me-Follows, handle_list_workspaces-Follows, handle_active_workspace-Follows,
  handle_switch_workspace-Follows, handle_list_members-Follows, handle_create_api_key-Follows,
  handle_list_api_keys-Follows, handle_revoke_api_key-Follows,
}
use aether_edit.Tenancy.Authority.{
  Entitled, creates, owner_adds, admin_adds, owner_updates, leaves, owner_removes, admin_removes,
  Unless, same_members, require_user_next, require_role_next, at_least_owner, least_cases,
  valid_member,
}

decoded_next :
    {A : Type 0} (o : Option A) (d : Directory) (a : A) → (decoded o d).0 ≡ next a → o ≡ some a
unfolding decoded
decoded_next none d a h = ground (arith, h)
decoded_next (some b) d a h = ground (arith, h)

-- A user's request, in a directory where they may make it.
abbrev May : Directory → Identity → ApiRequest → Type 0
May d id req = (has_prefix api_key_user_prefix id.user_id ≡ false) × Entitled d id.user_id req

as_caller :
    (d : Directory) (id a : Identity) (req : ApiRequest)
    → (a ≡ id) × (has_prefix api_key_user_prefix id.user_id ≡ false)
    → Entitled d a.user_id req
    → May d id req
as_caller d id a req (e, p) h = (p, subst (λ i. Entitled d i.user_id req) e h)

-- The caller's membership, of a rank at least.
abbrev Holds : Directory → String → String → Role → Type 0
Holds d ws user least =
    (m : Membership) × (get_membership ws user d ≡ ok m) × (role_rank least ≤ role_rank m.role)

adds-Entitled :
    (d : Directory) (ws user : String) (req : AddMemberRequest) (role : Role)
    → valid_role req.role ≡ some role
    → Holds d ws user (least_role role)
    → Entitled d user (add_member ws (some req))
adds-Entitled d ws user req role valid (m, found, rank) = elim (least_cases role m.role rank) [
  | inl o ↦ owner_adds m found o
  | inr (adm, plain) ↦ admin_adds m found adm (valid_member req.role (valid ∙ ap some plain))
]

removes-Entitled :
    (d : Directory) (ws user target : String) (t : Membership)
    → get_membership ws target d ≡ ok t
    → Holds d ws user (least_role t.role)
    → Entitled d user (remove_member ws target)
removes-Entitled d ws user target t there (m, found, rank) = elim (least_cases t.role m.role rank) [
  | inl o ↦ owner_removes m found o
  | inr (adm, plain) ↦ admin_removes m t found adm there plain
]

handle_add_member-May :
    (up : Calls) (lower : Char → Char) (ws : String) (req : Option AddMemberRequest) (id : Identity)
    (d : Directory)
    → Unless (May d id (add_member ws req)) d (handle_add_member up lower ws req (some id) d)
unfolding handle_add_member
handle_add_member-May up lower ws req id d =
    let P = Unless (May d id (add_member ws req)) d in
    then_path P _ _ d (require_user_reads _ d) (λ r _. inl refl)
      (λ a u.
        then_path P _ _ d (decoded_reads req d) (λ r _. inl refl)
          (λ b body.
            and_path P _ _ d (require_reads _ _ d) (λ r _. inl refl)
              (λ _ _.
                then_path P _ _ d (need_reads _ _ d) (λ r _. inl refl)
                  (λ role valid.
                    and_path P _ _ d (require_role_reads _ _ _ _ d) (λ r _. inl refl)
                      (λ c allowed. inr (
                        as_caller d id a (add_member ws req) (require_user_next id a d u) (
                          subst (λ q. Entitled d a.user_id (add_member ws q))
                            (sym (decoded_next req d b body))
                            (adds-Entitled d ws a.user_id b role
                              (need_next _ (fail 400 "invalid_role") d role valid)
                              (require_role_next up.role ws a.user_id (least_role role) d c
                                allowed)))))))))

handle_update_member_role-May :
    (up : Calls) (ws target : String) (role : Option String) (id : Identity) (d : Directory)
    → Unless
        (May d id (update_member_role ws target role))
        d
        (handle_update_member_role up ws target role (some id) d)
unfolding handle_update_member_role
handle_update_member_role-May up ws target role id d =
    let P = Unless (May d id (update_member_role ws target role)) d in
    then_path P _ _ d (require_user_reads _ d) (λ r _. inl refl)
      (λ a u.
        and_path P _ _ d (require_role_reads _ _ _ _ d) (λ r _. inl refl)
          (λ c allowed.
            let (m, found, rank) = require_role_next _ _ _ _ d c allowed in
            inr (
              as_caller d id a (update_member_role ws target role) (require_user_next id a d u)
                (owner_updates m found (at_least_owner m.role rank)))))

handle_remove_member-May :
    (up : Calls) (ws target : String) (id : Identity) (d : Directory)
    → Unless (May d id (remove_member ws target)) d (handle_remove_member up ws target (some id) d)
unfolding handle_remove_member
handle_remove_member-May up ws target id d =
    let P = Unless (May d id (remove_member ws target)) d in
    then_path P _ _ d (require_user_reads _ d) (λ r _. inl refl)
      (λ a u.
        then_path P _ _ d (ask_reads _ _ _ d) (λ r _. inl refl)
          (λ t there.
            and_path P _ _ d (require_role_reads _ _ _ _ d) (λ r _. inl refl)
              (λ c allowed. inr (
                as_caller d id a (remove_member ws target) (require_user_next id a d u)
                  (elim (Bool-cases (str_eq target a.user_id)) [
                    | inl self ↦ leaves ((eq_iff target a.user_id).0 self)
                    | inr other ↦
                        removes-Entitled d ws a.user_id target t
                          (ask_found up.membership _ _ d t there)
                          (subst
                            (λ x. Holds d ws a.user_id (if x then member else least_role t.role))
                            other (require_role_next up.role ws a.user_id _ d c allowed))
                  ])))))

handle_create_workspace-May :
    (up : Calls) (fresh tier : String) (name : Option String) (id : Identity) (d : Directory)
    → Unless
        (May d id (create_workspace fresh name))
        d
        (handle_create_workspace up fresh tier name (some id) d)
unfolding handle_create_workspace
handle_create_workspace-May up fresh tier name id d =
    let P = Unless (May d id (create_workspace fresh name)) d in
    then_path P _ _ d (require_user_reads _ d) (λ r _. inl refl)
      (λ a u. inr ((require_user_next id a d u).1, creates))

-- A request of an identity leaves the members of every workspace as they are, unless the identity is a
-- user's, not a key's, and the user may do what it asks: create a workspace; add a member as an owner,
-- or a plain one as an admin; change a role as an owner; leave; or remove a member as an owner, or a
-- plain one as an admin.
pub dispatch-Entitled :
    (s : Server) (up : Calls) (now : ℕ) (req : ApiRequest) (id : Identity) (d : Directory)
    → ((dispatch s up now req (some id) d).1.members ≡ d.members)
      ⊎ ((has_prefix api_key_user_prefix id.user_id ≡ false) × Entitled d id.user_id req)
unfolding dispatch Follows set_active_workspace insert_key end_key
dispatch-Entitled s up now me id d = inl (handle_me-Follows same_members _ _ d)
dispatch-Entitled s up now (create_workspace fresh name) id d =
    handle_create_workspace-May up fresh s.issuer.default_tier name id d
dispatch-Entitled s up now list_workspaces id d =
    inl (handle_list_workspaces-Follows same_members _ _ d)
dispatch-Entitled s up now active_workspace id d =
    inl (handle_active_workspace-Follows same_members _ _ d)
dispatch-Entitled s up now (switch_workspace ws) id d =
    inl (handle_switch_workspace-Follows same_members _ _ _ _ (λ user w e. ground arith) d)
dispatch-Entitled s up now (list_members ws) id d =
    inl (handle_list_members-Follows same_members _ _ _ d)
dispatch-Entitled s up now (add_member ws req) id d =
    handle_add_member-May up s.issuer.lower ws req id d
dispatch-Entitled s up now (update_member_role ws target role) id d =
    handle_update_member_role-May up ws target role id d
dispatch-Entitled s up now (remove_member ws target) id d =
    handle_remove_member-May up ws target id d
dispatch-Entitled s up now (create_api_key fresh made name) id d =
    inl (handle_create_api_key-Follows same_members _ _ _ _ _ _ (λ k e. ground arith) d)
dispatch-Entitled s up now list_api_keys id d =
    inl (handle_list_api_keys-Follows same_members _ _ _ d)
dispatch-Entitled s up now (revoke_api_key key) id d =
    inl (handle_revoke_api_key-Follows same_members _ _ _ _ _ (λ w k t e. ground arith) d)
