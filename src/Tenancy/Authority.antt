-- ===== src/Tenancy/Authority.antt =====
-- services/tenancy: who may change the members of a workspace.
pub mod Requests
use aether_edit.Prelude.{
  ℕ, zero, suc, ◌+◌, ◌-◌, ◌*◌, ◌/◌, ◌%◌, ◌^◌, ◌≤◌, ◌<◌, String, ◌≡◌, refl, sym, ap, ◌∙◌, subst, ◌≢◌,
  ◌↔◌, ◌⊎◌, inl, inr, Bool, true, false, not, ◌&&◌, ◌||◌, Option, none, some, List, [], ◌∷◌, ◌++◌,
  map, arith, str_eq, eq_iff, ltb, leb, ◌==◌, if◌then◌else◌, ltb→lt, lt→ltb, leb→le, ==_iff, tests,
  Bool-cases, Option-cases, length, get_elem?, set, length-append, get_or, take, drop, replicate,
  Result, Result-cases, ok, err, guard,
}
use Prim.Native.Char.{Char}
use aether_edit.Prelude.Steps.{
  Step, next, reply, need_reads, need_next, require_reads, require_next, then_path, and_path,
  require, need, ◌>>=◌, ◌>>◌,
}
use aether_edit.Prelude.Text.{has_prefix}
use aether_edit.Tenancy.Directory.{
  Role, owner, admin, member, is_member, valid_role, Membership, Directory, DirectoryError,
  set_active_workspace,
}
use aether_edit.Tenancy.Memberships.{get_membership}
use aether_edit.Tenancy.Credentials.{create_api_key as insert_key, revoke_api_key as end_key}
use aether_edit.Tenancy.Access.{
  Reply, fail, M, Outcome, answered, refused, lost, internal, ask, act, settle, give, Identity,
  api_key_user_prefix, require_user, require_role, role_rank, decoded,
}
use aether_edit.Tenancy.Members.{
  Calls, AddMemberRequest, least_role, handle_add_member, handle_update_member_role,
  handle_remove_member, handle_create_workspace,
}
use aether_edit.Tenancy.Service.{
  Server, ApiRequest, me, create_workspace, list_workspaces, active_workspace, switch_workspace,
  list_members, add_member, update_member_role, remove_member, create_api_key, list_api_keys,
  revoke_api_key, dispatch,
}
use aether_edit.Tenancy.Follows.{
  Law, Follows, ask_reads, ask_found, decoded_reads, require_user_reads, require_role_reads,
}
use aether_edit.Tenancy.Follows.Workspaces.{
  handle_me-Follows, handle_list_workspaces-Follows, handle_active_workspace-Follows,
  handle_switch_workspace-Follows, handle_list_members-Follows, handle_create_api_key-Follows,
  handle_list_api_keys-Follows, handle_revoke_api_key-Follows,
}

-- That a user may change the members as a request asks.
pub data Entitled (d : Directory) (user : String) : ApiRequest → Type 0 where
  creates : {fresh : String} {name : Option String} → Entitled d user (create_workspace fresh name)
  owner_adds :
      {ws : String} {req : Option AddMemberRequest} (m : Membership)
      → get_membership ws user d ≡ ok m
      → m.role ≡ owner
      → Entitled d user (add_member ws req)
  admin_adds :
      {ws : String} {req : AddMemberRequest} (m : Membership)
      → get_membership ws user d ≡ ok m
      → m.role ≡ admin
      → req.role ≡ "member"
      → Entitled d user (add_member ws (some req))
  owner_updates :
      {ws target : String} {role : Option String} (m : Membership)
      → get_membership ws user d ≡ ok m
      → m.role ≡ owner
      → Entitled d user (update_member_role ws target role)
  leaves : {ws target : String} → target ≡ user → Entitled d user (remove_member ws target)
  owner_removes :
      {ws target : String} (m : Membership)
      → get_membership ws user d ≡ ok m
      → m.role ≡ owner
      → Entitled d user (remove_member ws target)
  admin_removes :
      {ws target : String} (m t : Membership)
      → get_membership ws user d ≡ ok m
      → m.role ≡ admin
      → get_membership ws target d ≡ ok t
      → t.role ≡ member
      → Entitled d user (remove_member ws target)

-- A chain leaves the members alone, or has come to where `E` is known.
abbrev pub Unless : Type 0 → Directory → Step Reply (Unit {0}) × Directory → Type 0
Unless E d x = (x.1.members ≡ d.members) ⊎ E

abbrev pub same_members : Law
same_members = record {
  R = λ d e. e.members ≡ d.members;
  stays = λ d. refl;
  chains = λ d e f h g. g ∙ h;
}

pub require_user_next :
    (id a : Identity) (d : Directory)
    → (require_user (some id) d).0 ≡ next a
    → (a ≡ id) × (has_prefix api_key_user_prefix id.user_id ≡ false)
unfolding require_user
require_user_next id a d h = elim (Bool-cases (has_prefix api_key_user_prefix id.user_id)) [
  | inl e ↦ ground (arith, h, e)
  | inr e ↦ (ground (arith, h, e), e)
]

pub require_role_next :
    (up : Outcome) (ws user : String) (least : Role) (d : Directory) (a : Unit {0})
    → (require_role up ws user least d).0 ≡ next a
    → (m : Membership) × (get_membership ws user d ≡ ok m) × (role_rank least ≤ role_rank m.role)
unfolding require_role
require_role_next up ws user least d a =
    then_path
      (λ x.
        x.0 ≡ next a
        → (m : Membership) × (get_membership ws user d ≡ ok m)
          × (role_rank least ≤ role_rank m.role))
      _ _ d (ask_reads up _ _ d) (λ r _ h. ground (arith, h))
      (λ m e h. (m, ask_found up _ _ d m e, leb→le _ _ (require_next _ _ d a h)))

pub at_least_owner : (r : Role) → role_rank owner ≤ role_rank r → r ≡ owner
unfolding role_rank
at_least_owner owner h = refl
at_least_owner admin h = ground (arith, h)
at_least_owner member h = ground (arith, h)

at_least_admin : (r : Role) → role_rank admin ≤ role_rank r → (r ≡ owner) ⊎ (r ≡ admin)
unfolding role_rank
at_least_admin owner h = inl refl
at_least_admin admin h = inr refl
at_least_admin member h = ground (arith, h)

-- The rank that is asked for is an owner's, or the least that is granted or removed is a plain member.
pub least_cases :
    (least r : Role)
    → role_rank (least_role least) ≤ role_rank r
    → (r ≡ owner) ⊎ ((r ≡ admin) × (least ≡ member))
least_cases owner r h = inl (at_least_owner r h)
least_cases admin r h = inl (at_least_owner r h)
least_cases member r h = elim (at_least_admin r h) [ inl o ↦ inl o | inr a ↦ inr (a, refl) ]

pub valid_member : (s : String) → valid_role s ≡ some member → s ≡ "member"
unfolding valid_role
valid_member s h = ground (arith, h, eq_iff s "owner", eq_iff s "admin", eq_iff s "member")
