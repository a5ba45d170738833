-- ===== src/Tenancy/Rotation/Runs.antt =====
-- services/tenancy: the refresh tokens over whole runs of the service.
use aether_edit.Prelude.{◌≤◌, String, ◌≡◌, List, [], ◌∷◌, arith}
use aether_edit.Tenancy.Directory.{Directory, set_active_workspace, save_login_state}
use aether_edit.Tenancy.Memberships.{
  create_workspace as insert_workspace, add_member as insert_member,
  update_member_role as write_role, remove_member as delete_member,
}
use aether_edit.Tenancy.Credentials.{
  revoke_refresh_family, create_api_key as insert_key, revoke_api_key as end_key, touch_api_key,
}
use aether_edit.Tenancy.Keys.{verify_api_key_string}
use aether_edit.Tenancy.Service.{
  Server, Request, login, callback, refresh, logout, token, api, serve, serve_all,
}
use aether_edit.Tenancy.Follows.{Follows}
use aether_edit.Tenancy.Follows.Workspaces.{
  handle_update_member_role-Follows, handle_remove_member-Follows,
}
use aether_edit.Tenancy.Follows.Sessions.{
  handle_login-Follows, handle_logout-Follows, handle_api_key_token-Follows,
}
use aether_edit.Tenancy.Follows.Service.{LawfulApi, api-Follows}
use aether_edit.Tenancy.Rotation.{rows, live, usable, Rotates, same_tokens-Rotates, revoke-Rotates}
use aether_edit.Tenancy.Rotation.Requests.{rotation_law, handle_callback-Rotates}
use aether_edit.Tenancy.Rotation.Exchange.{handle_refresh-Rotates}

-- The family that a request draws is new.
unfoldable pub DrawsFresh : Request → Directory → Type 0
DrawsFresh (login up drawn now) d = Unit
DrawsFresh (callback up draw error state code) d = rows draw.family_id d.tokens ≡ 0
DrawsFresh (refresh up draw presented cookie) d = rows draw.family_id d.tokens ≡ 0
DrawsFresh (logout up draw presented cookie) d = Unit
DrawsFresh (token up now header b) d = Unit
DrawsFresh (api up headers now calls req) d = Unit

-- Every request of a run draws a new family.
unfoldable pub IsFresh : Server → List Request → Directory → Type 0
IsFresh s [] d = Unit
IsFresh s (q ∷ qs) d = DrawsFresh q d × IsFresh s qs (serve s q d).1

tokens-LawfulApi : (family : String) → LawfulApi (rotation_law family)
unfolding insert_workspace set_active_workspace insert_member write_role delete_member insert_key
    end_key verify_api_key_string touch_api_key
tokens-LawfulApi family = record {
  workspaces = λ ws user d. same_tokens-Rotates family _ _ (ground arith);
  actives = λ user ws d. same_tokens-Rotates family _ _ (ground arith);
  members = λ m d. same_tokens-Rotates family _ _ (ground arith);
  roles = λ up ws target role who.
      handle_update_member_role-Follows (rotation_law family) up ws target role who
        (λ w user r d. same_tokens-Rotates family _ _ (ground arith));
  removals = λ up ws target who.
      handle_remove_member-Follows (rotation_law family) up ws target who
        (λ w user d. same_tokens-Rotates family _ _ (ground arith));
  keys = λ k d. same_tokens-Rotates family _ _ (ground arith);
  revocations = λ ws id now d. same_tokens-Rotates family _ _ (ground arith);
  checks = λ up check raw now d. same_tokens-Rotates family _ _ (ground arith);
}

serve-Rotates :
    (s : Server) (q : Request) (family : String) (d : Directory)
    → DrawsFresh q d
    → Rotates family d.tokens (serve s q d).1.tokens
unfolding serve DrawsFresh Follows save_login_state revoke_refresh_family
serve-Rotates s (login up drawn now) family d h =
    handle_login-Follows (rotation_law family) _ _ _
      (λ ls e. same_tokens-Rotates family _ _ (ground arith)) d
serve-Rotates s (callback up draw error state code) family d h =
    handle_callback-Rotates up s.issuer draw s.provider error state code family d h
serve-Rotates s (refresh up draw presented cookie) family d h =
    handle_refresh-Rotates up s.issuer draw presented cookie family d h
serve-Rotates s (logout up draw presented cookie) family d h =
    handle_logout-Follows (rotation_law family) _ _ _ _ _
      (λ other at e. revoke-Rotates family other at e.tokens) d
serve-Rotates s (token up now header b) family d h =
    handle_api_key_token-Follows (rotation_law family) _ _ _ _ _ _ (tokens-LawfulApi family).checks
      d
serve-Rotates s (api up headers now calls req) family d h =
    api-Follows (rotation_law family) (tokens-LawfulApi family) s up headers now calls req d

-- Over requests that draw new families, whatever the database refuses and whatever answers are lost:
-- where at most one token of each family can be exchanged, neither used nor revoked, that is so at the
-- end.
pub serve_all-usable :
    (s : Server) (qs : List Request) (d : Directory)
    → IsFresh s qs d
    → ((family : String) → usable family d.tokens ≤ 1)
    → (family : String) → usable family (serve_all s qs d).tokens ≤ 1
unfolding IsFresh serve_all
serve_all-usable s [] d fresh one family = one family
serve_all-usable s (q ∷ qs) d (h, fresh) one family =
    serve_all-usable s qs (serve s q d).1 fresh
      (λ f. let step = serve-Rotates s q f d h in step.single (one f)) family

pub serve_all-live :
    (s : Server) (qs : List Request) (d : Directory) (family : String)
    → IsFresh s qs d
    → 1 ≤ rows family d.tokens
    → live family d.tokens ≡ 0
    → live family (serve_all s qs d).tokens ≡ 0
unfolding IsFresh serve_all
serve_all-live s [] d family fresh some_row none_live = none_live
serve_all-live s (q ∷ qs) d family (h, fresh) some_row none_live =
    let step = serve-Rotates s q family d h in
    serve_all-live s qs (serve s q d).1 family fresh (omega (arith, some_row, step.kept))
      (step.ended some_row none_live)
