-- ===== src/Tenancy/Follows/Sessions.antt =====
-- services/tenancy/authflow.go: what follows a handler, from what follows its writes.
use aether_edit.Prelude.{ℕ, String, ◌≡◌, refl, Bool, true, false, Option, none, some, arith}
use aether_edit.Tenancy.{Workspace}
use aether_edit.Tenancy.Directory.{
  User, LoginState, RefreshToken, Directory, save_login_state, take_login_state, upsert_user,
  set_active_workspace,
}
use aether_edit.Tenancy.Memberships.{create_workspace}
use aether_edit.Tenancy.Credentials.{
  create_refresh_token, mark_refresh_token_used, revoke_refresh_family,
}
use aether_edit.Tenancy.Keys.{KeyCalls, verify_api_key_string}
use aether_edit.Tenancy.Sessions.{
  SessionCalls, SignIn, exchange_failed, token_invalid, verified, Issuer, Draw, signed_by,
  bootstrap_workspace, with_workspace, issue_session, handle_login, handle_callback,
}
use aether_edit.Tenancy.Refresh.{
  Body, no_body, malformed, body, of_cookie, take_refresh_token, raw_key, admit_token, end_family,
  handle_refresh, handle_logout, handle_api_key_token,
}
use aether_edit.Tenancy.Follows.{Law, Follows, reads-Follows, follows}

pub signed_by_reads : (s : SignIn) (d : Directory) → (signed_by s d).1 ≡ d
unfolding signed_by
signed_by_reads exchange_failed d = refl
signed_by_reads token_invalid d = refl
signed_by_reads (verified v) d = refl

pub take_refresh_token_reads :
    (b : Body) (cookie : String) (d : Directory) → (take_refresh_token b cookie d).1 ≡ d
unfolding take_refresh_token of_cookie
take_refresh_token_reads no_body cookie d = ground arith
take_refresh_token_reads malformed cookie d = refl
take_refresh_token_reads (body t) cookie d = ground arith

raw_key_reads : (header : String) (b : Body) (d : Directory) → (raw_key header b d).1 ≡ d
unfolding raw_key
raw_key_reads header no_body d = ground arith
raw_key_reads header malformed d = ground arith
raw_key_reads header (body t) d = ground arith

module _ (l : Law) where
  pub signed_by-Follows : (s : SignIn) → Follows l (signed_by s)
  signed_by-Follows s = reads-Follows l _ (signed_by_reads s)

  pub take_refresh_token-Follows :
      (b : Body) (cookie : String) → Follows l (take_refresh_token b cookie)
  take_refresh_token-Follows b cookie = reads-Follows l _ (take_refresh_token_reads b cookie)

  pub raw_key-Follows : (header : String) (b : Body) → Follows l (raw_key header b)
  raw_key-Follows header b = reads-Follows l _ (raw_key_reads header b)

  pub bootstrap_workspace-Follows :
      (up : SessionCalls) (issuer : Issuer) (draw : Draw) (user : User)
      → ((ws : Workspace) (user : String) (d : Directory) → l.R d (create_workspace ws user d).1)
      → ((user ws : String) (d : Directory) → l.R d (set_active_workspace user ws d).1)
      → Follows l (bootstrap_workspace up issuer draw user)
  unfolding bootstrap_workspace
  bootstrap_workspace-Follows up issuer draw user h0 h1 = search follows depth 20

  pub with_workspace-Follows :
      (first : Bool) (up : SessionCalls) (issuer : Issuer) (draw : Draw) (user : User)
      → ((ws : Workspace) (user : String) (d : Directory) → l.R d (create_workspace ws user d).1)
      → ((user ws : String) (d : Directory) → l.R d (set_active_workspace user ws d).1)
      → Follows l (with_workspace first up issuer draw user)
  unfolding with_workspace
  with_workspace-Follows true up issuer draw user h0 h1 =
      bootstrap_workspace-Follows up issuer draw user h0 h1
  with_workspace-Follows false up issuer draw user h0 h1 = search follows

  pub issue_session-Follows :
      (up : SessionCalls) (issuer : Issuer) (draw : Draw) (user : User) (family : String)
      → ((t : RefreshToken) (d : Directory) → l.R d (create_refresh_token t d).1)
      → Follows l (issue_session up issuer draw user family)
  unfolding issue_session
  issue_session-Follows up issuer draw user family h0 = search follows depth 20

  pub admit_token-Follows :
      (up : SessionCalls) (now : ℕ) (t : RefreshToken)
      → ((family : String) (at : ℕ) (d : Directory) → l.R d (revoke_refresh_family family at d).1)
      → Follows l (admit_token up now t)
  unfolding admit_token
  admit_token-Follows up now t h0 = search follows depth 20

  pub end_family-Follows :
      (t : Option RefreshToken) (up : SessionCalls) (now : ℕ)
      → ((family : String) (at : ℕ) (d : Directory) → l.R d (revoke_refresh_family family at d).1)
      → Follows l (end_family t up now)
  unfolding end_family
  end_family-Follows none up now h = search follows
  end_family-Follows (some t) up now h = search follows

ruleset sessions = (
  follows, signed_by-Follows, take_refresh_token-Follows, raw_key-Follows, with_workspace-Follows,
  issue_session-Follows, admit_token-Follows, end_family-Follows,
)

module _ (l : Law) where
  pub handle_login-Follows :
      (up : SessionCalls) (drawn : Option (String × String × String)) (now : ℕ)
      → ((ls : LoginState) (d : Directory) → l.R d (save_login_state ls d).1)
      → Follows l (handle_login up drawn now)
  unfolding handle_login
  handle_login-Follows up drawn now h0 = search follows depth 20

  pub handle_callback-Follows :
      (up : SessionCalls) (issuer : Issuer) (draw : Draw) (provider : LoginState → String → SignIn)
      (error state code : String)
      → ((state : String) (now : ℕ) (d : Directory) → l.R d (take_login_state state now d).1)
      → ((fresh sub email name : String) (d : Directory)
          → l.R d (upsert_user fresh sub email name d).1)
      → ((ws : Workspace) (user : String) (d : Directory) → l.R d (create_workspace ws user d).1)
      → ((user ws : String) (d : Directory) → l.R d (set_active_workspace user ws d).1)
      → ((t : RefreshToken) (d : Directory) → l.R d (create_refresh_token t d).1)
      → Follows l (handle_callback up issuer draw provider error state code)
  unfolding handle_callback
  handle_callback-Follows up issuer draw provider error state code h0 h1 h2 h3 h4 =
      search sessions depth 20

  pub handle_refresh-Follows :
      (up : SessionCalls) (issuer : Issuer) (draw : Draw) (b : Body) (cookie : String)
      → ((family : String) (at : ℕ) (d : Directory) → l.R d (revoke_refresh_family family at d).1)
      → ((id : String) (at : ℕ) (d : Directory) → l.R d (mark_refresh_token_used id at d).1)
      → ((t : RefreshToken) (d : Directory) → l.R d (create_refresh_token t d).1)
      → Follows l (handle_refresh up issuer draw b cookie)
  unfolding handle_refresh
  handle_refresh-Follows up issuer draw b cookie h0 h1 h2 = search sessions depth 20

  pub handle_logout-Follows :
      (up : SessionCalls) (issuer : Issuer) (draw : Draw) (b : Body) (cookie : String)
      → ((family : String) (at : ℕ) (d : Directory) → l.R d (revoke_refresh_family family at d).1)
      → Follows l (handle_logout up issuer draw b cookie)
  unfolding handle_logout
  handle_logout-Follows up issuer draw b cookie h0 = search sessions depth 20

  pub handle_api_key_token-Follows :
      (up : KeyCalls) (issuer : Issuer) (check : String → String → Option Bool) (now : ℕ)
      (header : String) (b : Body)
      → ((up : KeyCalls) (check : String → String → Option Bool) (raw : String) (now : ℕ)
            (d : Directory)
          → l.R d (verify_api_key_string up check raw now d).1)
      → Follows l (handle_api_key_token up issuer check now header b)
  unfolding handle_api_key_token
  handle_api_key_token-Follows up issuer check now header b h0 = search sessions depth 20
