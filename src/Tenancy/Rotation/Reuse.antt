-- ===== src/Tenancy/Rotation/Reuse.antt =====
-- services/tenancy: that a refresh token which is presented again ends its family.
use aether_edit.Prelude.{
  ℕ, ◌≤◌, String, ◌≡◌, refl, sym, ap, subst, ◌≢◌, inl, inr, true, false, List, ◌∷◌, arith, str_eq,
  eq_iff, Bool-cases, Result, ok,
}
use aether_edit.Prelude.Counting.{count_where-select_first-some}
use aether_edit.Prelude.Steps.{
  Step, next, reply, then_path, and_both, if_path, require_reply, answer, ◌>>=◌, ◌>>◌,
}
use aether_edit.Tenancy.Directory.{
  get_user, Directory, DirectoryError, not_found, duplicate, failed, RefreshToken, User,
}
use aether_edit.Tenancy.Credentials.{
  mark_refresh_token_used, unset, live_in, revoke_refresh_family, get_refresh_token_by_hash,
}
use aether_edit.Tenancy.Access.{
  Reply, Outcome, answered, fail, internal, on_absent, session, ask, act, settle,
}
use aether_edit.Tenancy.Sessions.{SessionCalls, Issuer, Draw, issue_session}
use aether_edit.Tenancy.Refresh.{Body, take_refresh_token, admit_token, handle_refresh}
use aether_edit.Tenancy.Service.{Server, Request, refresh, serve, serve_all}
use aether_edit.Tenancy.Follows.{ask_reads, ask_found, ask_reply, act_reply}
use aether_edit.Tenancy.Follows.Sessions.{take_refresh_token_reads}
use aether_edit.Tenancy.Rotation.{of_family, rows, live, revoke_lem}
use aether_edit.Tenancy.Rotation.Exchange.{admit_token_next, handle_refresh-Rotates}
use aether_edit.Tenancy.Rotation.Runs.{DrawsFresh, IsFresh, serve_all-live}

-- The reply, if it is there, is no session.
abbrev pub Sessionless : {A : Type 0} → Step Reply A → Type 0
Sessionless x = (access raw : String) (user : User) → x ≢ reply (session access raw user)

fail-Sessionless :
    {A : Type 0} (r : Reply) (status : ℕ) (code : String)
    → r ≡ fail status code
    → Sessionless {A = A} (reply r)
fail-Sessionless r status code e access raw user h = ground (arith, e, h)

on_absent-Sessionless :
    {A : Type 0} (r : Reply) (status : ℕ) (code : String)
    → ((e : DirectoryError) × (r ≡ on_absent (fail status code) e))
    → Sessionless {A = A} (reply r)
on_absent-Sessionless r status code (not_found, e) = fail-Sessionless r _ _ e
on_absent-Sessionless r status code (duplicate, e) = fail-Sessionless r _ _ e
on_absent-Sessionless r status code (failed, e) = fail-Sessionless r _ _ e

admit_token-Sessionless :
    (up : SessionCalls) (now : ℕ) (t : RefreshToken) (d : Directory)
    → Sessionless (admit_token up now t d).0
unfolding admit_token answer
admit_token-Sessionless up now t d =
    let P : Step Reply (Unit {0}) × Directory → Type 0 = λ x. Sessionless x.0 in
    if_path P (unset t.revoked_at) _ _ d
      (λ _.
        if_path P (unset t.used_at) _ _ d
          (λ _ access raw user h.
            fail-Sessionless {A = Unit {0}} _ 401 "refresh_expired" (require_reply _ _ _ d h) access
              raw user refl)
          (λ _.
            and_both P _ _ d (λ r e. fail-Sessionless r 500 "internal" (act_reply _ _ _ d r e).1)
              (λ _ _ access raw user h. ground (arith, h))))
      (λ _ access raw user h. ground (arith, h))

-- A row of a family without a live one is revoked.
is_revoked :
    (hash : String) (t : RefreshToken) (d : Directory)
    → get_refresh_token_by_hash hash d ≡ ok t
    → live t.family_id d.tokens ≡ 0
    → unset t.revoked_at ≡ false
unfolding get_refresh_token_by_hash
is_revoked hash t d found none_live = elim (Bool-cases (unset t.revoked_at)) [
  | inr e ↦ e
  | inl e ↦
      let one =
        count_where-select_first-some (λ s. str_eq s.token_hash hash) (live_in t.family_id) d.tokens
          t (ground (arith, found)) (ground (arith, e, eq_iff t.family_id t.family_id)) in
      ground (arith, one, none_live)
]

found_row :
    (hash : String) (t : RefreshToken) (d : Directory)
    → get_refresh_token_by_hash hash d ≡ ok t
    → 1 ≤ rows t.family_id d.tokens
unfolding get_refresh_token_by_hash
found_row hash t d found =
    count_where-select_first-some (λ s. str_eq s.token_hash hash) (of_family t.family_id) d.tokens t
      (ground (arith, found)) ((eq_iff t.family_id t.family_id).1 refl)

-- A token of a family without a live row gets no session.
dead_family :
    (up : SessionCalls) (issuer : Issuer) (draw : Draw) (presented : Body) (cookie secret : String)
    (t : RefreshToken) (d : Directory)
    → (take_refresh_token presented cookie d).0 ≡ next secret
    → get_refresh_token_by_hash (issuer.hash secret) d ≡ ok t
    → live t.family_id d.tokens ≡ 0
    → Sessionless (handle_refresh up issuer draw presented cookie d).0
unfolding handle_refresh
dead_family up issuer draw presented cookie secret t d named found none_live =
    let P : Step Reply (Unit {0}) × Directory → Type 0 = λ x. Sessionless x.0 in
    then_path P _ _ d (take_refresh_token_reads presented cookie d)
      (λ r e access raw user h. ground (arith, named, e))
      (λ s e.
        then_path P _ _ d (ask_reads up.token _ _ d)
          (λ r q.
            on_absent-Sessionless r 401 "invalid_refresh_token" (ask_reply up.token _ _ d r q))
          (λ v there.
            and_both P _ _ d
              (λ r q access raw user h.
                admit_token-Sessionless up draw.now v d access raw user (ground (arith, q, h)))
              (λ a through access raw user _.
                let (_, open_still, _) = admit_token_next up draw.now v d a through in
                let same : s ≡ secret = ground (arith, e, named) in
                let row =
                  subst (λ z. get_refresh_token_by_hash (issuer.hash z) d ≡ ok v) same
                    (ask_found up.token _ _ d v there) in
                let v_is_t : v ≡ t = ground (arith, row, found) in
                let shut = is_revoked (issuer.hash secret) t d found none_live in
                ground (arith, subst (λ x. unset x.revoked_at ≡ true) v_is_t open_still, shut))))

ask_hits :
    {A : Type 0} (up : Outcome) (on : DirectoryError → Reply)
    (q : Directory → Result DirectoryError A) (d : Directory) (a : A)
    → up ≡ answered
    → q d ≡ ok a
    → (ask up on q d).0 ≡ next a
unfolding ask
ask_hits up on q d a e h = subst (λ u. (ask u on q d).0 ≡ next a) (sym e) (ap (settle on) h)

revoke_answer :
    (t : RefreshToken) (now : ℕ) (d : Directory)
    → live t.family_id
        ((act answered internal (revoke_refresh_family t.family_id now)
            >> answer (fail 401 "refresh_reused"))
          d).1.tokens
      ≡ 0
unfolding ◌>>◌ act answer revoke_refresh_family
revoke_answer t now d = revoke_lem t.family_id now d.tokens

-- The guards on a used token revoke its family.
admit_token_reused :
    (up : SessionCalls) (now : ℕ) (t : RefreshToken) (d : Directory)
    → up.revoke ≡ answered
    → unset t.revoked_at ≡ true
    → unset t.used_at ≡ false
    → live t.family_id (admit_token up now t d).1.tokens ≡ 0
unfolding admit_token
admit_token_reused up now t d e r u =
    let P : Step Reply (Unit {0}) × Directory → Type 0 = λ x. live t.family_id x.1.tokens ≡ 0 in
    if_path P (unset t.revoked_at) _ _ d
      (λ _.
        if_path P (unset t.used_at) _ _ d (λ k. ground (arith, k, u))
          (λ _.
            subst
              (λ o.
                live t.family_id
                  ((act o internal (revoke_refresh_family t.family_id now)
                      >> answer (fail 401 "refresh_reused"))
                    d).1.tokens
                ≡ 0)
              (sym e) (revoke_answer t now d)))
      (λ k. ground (arith, k, r))

-- A token that was used and is presented again: no session, and its family has no live row.
reuse_ends :
    (up : SessionCalls) (issuer : Issuer) (draw : Draw) (presented : Body) (cookie secret : String)
    (t : RefreshToken) (d : Directory)
    → up.token ≡ answered
    → up.revoke ≡ answered
    → (take_refresh_token presented cookie d).0 ≡ next secret
    → get_refresh_token_by_hash (issuer.hash secret) d ≡ ok t
    → unset t.revoked_at ≡ true
    → unset t.used_at ≡ false
    → live t.family_id (handle_refresh up issuer draw presented cookie d).1.tokens ≡ 0
unfolding handle_refresh
reuse_ends up issuer draw presented cookie secret t d reads revokes named found r u =
    let P : Step Reply (Unit {0}) × Directory → Type 0 = λ x. live t.family_id x.1.tokens ≡ 0 in
    then_path P _ _ d (take_refresh_token_reads presented cookie d)
      (λ q e. ground (arith, named, e))
      (λ s e.
        let same : s ≡ secret = ground (arith, e, named) in
        let hit =
          ask_hits up.token (on_absent (fail 401 "invalid_refresh_token"))
            (get_refresh_token_by_hash (issuer.hash s)) d t reads
            (subst (λ z. get_refresh_token_by_hash (issuer.hash z) d ≡ ok t) (sym same) found) in
        then_path P _ _ d (ask_reads up.token _ _ d) (λ q f. ground (arith, hit, f))
          (λ v there.
            let v_is_t : v ≡ t = ground (arith, hit, there) in
            subst
              (λ x. P (
                (admit_token up draw.now x
                    >> (act up.mark internal (mark_refresh_token_used x.id draw.now)
                        >> (ask up.user internal (get_user x.user_id) >>= λ user.
                            issue_session up issuer draw user x.family_id)))
                  d))
              (sym v_is_t)
              (and_both P _ _ d (λ q _. admit_token_reused up draw.now t d revokes r u)
                (λ a through.
                  let (_, _, unused) = admit_token_next up draw.now t d a through in
                  ground (arith, unused, u)))))

-- A refresh token that was used before and is not revoked is presented again, and the database answers
-- to the look-up and the revocation. Then whatever requests follow, as long as each draws a new family,
-- a refresh with any token of that family gets no session.
pub serve_all-Sessionless :
    (s : Server) (up later : SessionCalls) (draw drawn : Draw) (presented again : Body)
    (cookie crumb secret stolen : String) (t v : RefreshToken) (qs : List Request) (d : Directory)
    → up.token ≡ answered
    → up.revoke ≡ answered
    → (take_refresh_token presented cookie d).0 ≡ next secret
    → get_refresh_token_by_hash (s.issuer.hash secret) d ≡ ok t
    → unset t.revoked_at ≡ true
    → unset t.used_at ≡ false
    → IsFresh s (refresh up draw presented cookie ∷ qs) d
    → (take_refresh_token again crumb (serve_all s (refresh up draw presented cookie ∷ qs) d)).0
      ≡ next stolen
    → get_refresh_token_by_hash
        (s.issuer.hash stolen)
        (serve_all s (refresh up draw presented cookie ∷ qs) d)
      ≡ ok v
    → v.family_id ≡ t.family_id
    → Sessionless
        (handle_refresh later s.issuer drawn again crumb
          (serve_all s (refresh up draw presented cookie ∷ qs) d)).0
unfolding serve_all serve IsFresh DrawsFresh
serve_all-Sessionless s up later draw drawn presented again cookie crumb secret stolen t v qs d
      reads revokes named found r u (h, fresh) named_again found_again family =
    let d1 = (handle_refresh up s.issuer draw presented cookie d).1 in
    let ended =
      reuse_ends up s.issuer draw presented cookie secret t d reads revokes named found r u in
    let some_row = found_row (s.issuer.hash secret) t d found in
    let step = handle_refresh-Rotates up s.issuer draw presented cookie t.family_id d h in
    let still =
      serve_all-live s qs d1 t.family_id fresh (omega (arith, some_row, step.kept)) ended in
    dead_family later s.issuer drawn again crumb stolen v (serve_all s qs d1) named_again
      found_again (subst (λ f. live f (serve_all s qs d1).tokens ≡ 0) (sym family) still)
