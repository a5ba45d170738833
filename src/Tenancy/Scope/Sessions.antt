-- ===== src/Tenancy/Scope/Sessions.antt =====
-- services/tenancy: that the handlers of authflow.go answer with no access token but that of a session
-- in a workspace of the user's.
use aether_edit.Prelude.{
  ℕ, String, ◌≡◌, refl, sym, subst, inl, inr, Bool, true, false, ◌||◌, Option, none, some, arith,
  str_eq, Option-cases, ok,
}
use aether_edit.Prelude.Table.{select_first}
use aether_edit.Prelude.Steps.{
  Step, reply, if_at, then_path, and_path, and_both, require_reads, require_reply, need_reads,
  need_next, need_reply, answer, ◌>>◌,
}
use aether_edit.Tenancy.Directory.{Membership, User, LoginState, RefreshToken, Directory}
use aether_edit.Tenancy.Memberships.{get_membership}
use aether_edit.Tenancy.Credentials.{create_refresh_token}
use aether_edit.Tenancy.Access.{Reply, fail, session, internal, act}
use aether_edit.Tenancy.Keys.{KeyCalls}
use aether_edit.Tenancy.Sessions.{
  SessionCalls, SignIn, exchange_failed, token_invalid, verified, Issuer, Draw, signed_by,
  new_token, bootstrap_workspace, with_workspace, issue_session, handle_login, handle_callback,
}
use aether_edit.Tenancy.Refresh.{
  Body, no_body, malformed, body, of_cookie, take_refresh_token, raw_key, admit_token, end_family,
  handle_refresh, handle_logout, handle_api_key_token,
}
use aether_edit.Tenancy.Follows.{ask_reads, ask_found, ask_reply, act_next, act_reply}
use aether_edit.Tenancy.Scope.{Scoped, Sound, sound, same_reply, fail-Scoped}

module _ (issuer : Issuer) where
  replied :
      {A : Type 0} (n : ℕ) (code : String) (q r : Reply) (d : Directory)
      → q ≡ fail n code
      → ◌≡◌ {A = Step Reply A} (reply q) (reply r)
      → Scoped issuer r d
  replied n code q r d e g =
      same_reply issuer q r d g
        (subst (λ x. Scoped issuer x d) (sym e) (fail-Scoped issuer n code d))

  created :
      (t : RefreshToken) (ws user : String) (m : Membership) (d : Directory)
      → get_membership ws user d ≡ ok m
      → get_membership ws user (create_refresh_token t d).1 ≡ ok m
  unfolding get_membership create_refresh_token
  created t ws user m d h =
      elim (Option-cases
        (select_first (λ s. str_eq s.id t.id || str_eq s.token_hash t.token_hash) d.tokens)) [
          | inl e ↦ ground (arith, h, e)
          | inr (_, e) ↦ ground (arith, h, e)
        ]

  -- What a session answers at its end.
  granted :
      (access raw : String) (user : User) (m : Membership) (d : Directory) (r : Reply)
      → get_membership user.active_workspace_id user.id d ≡ ok m
      → issuer.mint user.id user.active_workspace_id ≡ some access
      → (answer (session access raw user) d).0 ≡ reply r
      → Scoped issuer r (answer (session access raw user) d).1
  unfolding answer Scoped
  granted access raw user m d r found minted e =
      let is_it : session access raw user ≡ r = ground (arith, e) in
      subst (λ x. Scoped issuer x d) is_it (m, found, minted)

  stored :
      (up : SessionCalls) (draw : Draw) (user : User) (family access raw : String) (m : Membership)
      (d : Directory) (r : Reply)
      → get_membership user.active_workspace_id user.id d ≡ ok m
      → issuer.mint user.id user.active_workspace_id ≡ some access
      → ((act up.insert internal (create_refresh_token (new_token issuer draw user.id family raw))
            >> answer (session access raw user))
          d).0
        ≡ reply r
      → Scoped issuer r
          ((act up.insert internal (create_refresh_token (new_token issuer draw user.id family raw))
              >> answer (session access raw user))
            d).1
  stored up draw user family access raw m d r found minted =
      let t = new_token issuer draw user.id family raw in
      let d1 : Directory = (act up.insert internal (create_refresh_token t) d).1 in
      and_both (λ x. x.0 ≡ reply r → Scoped issuer r x.1) _ _ d
        (λ q e g.
          replied 500 "internal" q r d1
            (act_reply up.insert internal (create_refresh_token t) d q e).1 g)
        (λ a went.
          let here = (act_next up.insert internal (create_refresh_token t) d a went).0 in
          granted access raw user m d1 r
            (subst (λ e. get_membership user.active_workspace_id user.id e ≡ ok m) (sym here)
              (created t user.active_workspace_id user.id m d found))
            minted)

  pub issue_session-Sound :
      (up : SessionCalls) (draw : Draw) (user : User) (family : String)
      → Sound issuer (issue_session up issuer draw user family)
  unfolding issue_session Sound
  issue_session-Sound up draw user family d r =
      let P : Step Reply (Unit {0}) × Directory → Type 0 =
        λ x. x.0 ≡ reply r → Scoped issuer r x.1 in
      and_path P _ _ d (require_reads _ _ d)
        (λ q e g. replied 500 "internal" q r d (require_reply _ _ q d e) g)
        (λ _ _.
          then_path P _ _ d (ask_reads up.membership _ _ d)
            (λ q e g. replied 500 "internal" q r d (ask_reply up.membership internal _ d q e).1 g)
            (λ m found.
              then_path P _ _ d (need_reads _ _ d)
                (λ q e g. replied 500 "internal" q r d (need_reply _ _ q d e) g)
                (λ access minted.
                  then_path P _ _ d (need_reads _ _ d)
                    (λ q e g. replied 500 "internal" q r d (need_reply _ _ q d e) g)
                    (λ raw _.
                      stored up draw user family access raw m d r
                        (ask_found up.membership internal _ d m found)
                        (need_next _ (fail 500 "internal") d access minted)))))

  pub signed_by-Sound : (s : SignIn) → Sound issuer (signed_by s)
  unfolding signed_by Sound
  signed_by-Sound exchange_failed d r e = replied 401 "oidc_exchange_failed" _ r d refl e
  signed_by-Sound token_invalid d r e = replied 401 "oidc_token_invalid" _ r d refl e
  signed_by-Sound (verified v) d r e = ground (arith, e)

  of_cookie-Sound : (cookie : String) → Sound issuer (of_cookie cookie)
  unfolding of_cookie Sound
  of_cookie-Sound cookie d r =
      if_at (λ (x : Step Reply String × Directory). x.0 ≡ reply r → Scoped issuer r x.1)
        (str_eq cookie "") _ _ (λ e. replied 400 "missing_refresh_token" _ r d refl e)
        (λ e. ground (arith, e))

  pub take_refresh_token-Sound :
      (b : Body) (cookie : String) → Sound issuer (take_refresh_token b cookie)
  unfolding take_refresh_token Sound
  take_refresh_token-Sound malformed cookie d r = λ e. replied 400 "invalid_body" _ r d refl e
  take_refresh_token-Sound no_body cookie d r = of_cookie-Sound cookie d r
  take_refresh_token-Sound (body t) cookie d r =
      if_at (λ (x : Step Reply String × Directory). x.0 ≡ reply r → Scoped issuer r x.1)
        (str_eq t "") _ _ (of_cookie-Sound cookie d r) (λ e. ground (arith, e))

  pub raw_key-Sound : (header : String) (b : Body) → Sound issuer (raw_key header b)
  unfolding raw_key Sound
  raw_key-Sound header no_body d r =
      if_at (λ (x : Step Reply String × Directory). x.0 ≡ reply r → Scoped issuer r x.1)
        (str_eq header "") _ _ (λ e. ground (arith, e)) (λ e. ground (arith, e))
  raw_key-Sound header malformed d r =
      if_at (λ (x : Step Reply String × Directory). x.0 ≡ reply r → Scoped issuer r x.1)
        (str_eq header "") _ _ (λ e. replied 400 "invalid_body" _ r d refl e)
        (λ e. ground (arith, e))
  raw_key-Sound header (body t) d r =
      if_at (λ (x : Step Reply String × Directory). x.0 ≡ reply r → Scoped issuer r x.1)
        (str_eq header "") _ _ (λ e. ground (arith, e)) (λ e. ground (arith, e))

  bootstrap_workspace-Sound :
      (up : SessionCalls) (draw : Draw) (user : User)
      → Sound issuer (bootstrap_workspace up issuer draw user)
  unfolding bootstrap_workspace
  bootstrap_workspace-Sound up draw user = search sound depth 12

  pub with_workspace-Sound :
      (first : Bool) (up : SessionCalls) (draw : Draw) (user : User)
      → Sound issuer (with_workspace first up issuer draw user)
  unfolding with_workspace
  with_workspace-Sound true up draw user = bootstrap_workspace-Sound up draw user
  with_workspace-Sound false up draw user = search sound

  pub admit_token-Sound :
      (up : SessionCalls) (now : ℕ) (t : RefreshToken) → Sound issuer (admit_token up now t)
  unfolding admit_token
  admit_token-Sound up now t = search sound depth 12

  pub end_family-Sound :
      (t : Option RefreshToken) (up : SessionCalls) (now : ℕ) → Sound issuer (end_family t up now)
  unfolding end_family
  end_family-Sound none up now = search sound
  end_family-Sound (some t) up now = search sound

ruleset sessions = (
  sound, signed_by-Sound, take_refresh_token-Sound, raw_key-Sound, with_workspace-Sound,
  issue_session-Sound, admit_token-Sound, end_family-Sound,
)

module _ (issuer : Issuer) where
  pub handle_login-Sound :
      (up : SessionCalls) (drawn : Option (String × String × String)) (now : ℕ)
      → Sound issuer (handle_login up drawn now)
  unfolding handle_login
  handle_login-Sound up drawn now = search sessions depth 24

  pub handle_callback-Sound :
      (up : SessionCalls) (draw : Draw) (provider : LoginState → String → SignIn)
      (error state code : String)
      → Sound issuer (handle_callback up issuer draw provider error state code)
  unfolding handle_callback
  handle_callback-Sound up draw provider error state code = search sessions depth 24

  pub handle_refresh-Sound :
      (up : SessionCalls) (draw : Draw) (b : Body) (cookie : String)
      → Sound issuer (handle_refresh up issuer draw b cookie)
  unfolding handle_refresh
  handle_refresh-Sound up draw b cookie = search sessions depth 24

  pub handle_logout-Sound :
      (up : SessionCalls) (draw : Draw) (b : Body) (cookie : String)
      → Sound issuer (handle_logout up issuer draw b cookie)
  unfolding handle_logout
  handle_logout-Sound up draw b cookie = search sessions depth 24

  pub handle_api_key_token-Sound :
      (up : KeyCalls) (check : String → String → Option Bool) (now : ℕ) (header : String) (b : Body)
      → Sound issuer (handle_api_key_token up issuer check now header b)
  unfolding handle_api_key_token
  handle_api_key_token-Sound up check now header b = search sessions depth 24
