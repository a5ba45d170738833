-- ===== src/Tenancy/Owners/Calls.antt =====
-- services/tenancy: that every write of the service keeps the owners.
use aether_edit.Prelude.{refl, arith}
use aether_edit.Tenancy.Directory.{
  set_active_workspace, save_login_state, take_login_state, upsert_user,
}
use aether_edit.Tenancy.Credentials.{
  create_refresh_token, mark_refresh_token_used, revoke_refresh_family, create_api_key,
  revoke_api_key, touch_api_key,
}
use aether_edit.Tenancy.Keys.{verify_api_key_string}
use aether_edit.Tenancy.Follows.Service.{LawfulApi, LawfulSignIn}
use aether_edit.Tenancy.Owners.{
  owners_law, same_members-Kept, add_member-Kept, create_workspace-Kept,
}
use aether_edit.Tenancy.Owners.Roles.{handle_update_member_role-Kept, handle_remove_member-Kept}

pub owners-LawfulApi : LawfulApi owners_law
unfolding set_active_workspace create_api_key revoke_api_key verify_api_key_string touch_api_key
owners-LawfulApi = record {
  workspaces = create_workspace-Kept;
  actives = λ user ws d. same_members-Kept d _ (ground arith);
  members = add_member-Kept;
  roles = handle_update_member_role-Kept;
  removals = handle_remove_member-Kept;
  keys = λ k d. same_members-Kept d _ (ground arith);
  revocations = λ ws id now d. same_members-Kept d _ (ground arith);
  checks = λ up check raw now d. same_members-Kept d _ (ground arith);
}

pub owners-LawfulSignIn : LawfulSignIn owners_law
unfolding save_login_state take_login_state upsert_user create_refresh_token mark_refresh_token_used
    revoke_refresh_family
owners-LawfulSignIn = record {
  states = λ ls d. same_members-Kept d _ (ground arith);
  takes = λ state now d. same_members-Kept d _ (ground arith);
  users = λ fresh sub email name d. same_members-Kept d _ (ground arith);
  tokens = λ t d. same_members-Kept d _ (ground arith);
  uses = λ id at d. same_members-Kept d _ (ground arith);
  families = λ family at d. same_members-Kept d _ refl;
}
