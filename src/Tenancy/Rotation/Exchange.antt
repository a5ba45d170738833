-- ===== src/Tenancy/Rotation/Exchange.antt =====
-- services/tenancy/authflow.go: what a refresh does to a family of refresh tokens.
use aether_edit.Prelude.{
  ℕ, String, ◌≡◌, refl, sym, ap, ◌∙◌, subst, inl, inr, true, ◌∷◌, arith, str_eq, ltb, Bool-cases,
  ok,
}
use aether_edit.Prelude.Table.{count_where}
use aether_edit.Prelude.Counting.{count_where-update_where_same}
use aether_edit.Prelude.Steps.{
  Step, next, then_path, and_both, if_path, require_reads, answer, ◌>>=◌, ◌>>◌,
}
use aether_edit.Tenancy.Directory.{get_user, RefreshToken, Directory}
use aether_edit.Tenancy.Credentials.{
  unset, unused_at, used, get_refresh_token_by_hash, mark_refresh_token_used, revoke_refresh_family,
}
use aether_edit.Tenancy.Access.{Reply, Outcome, internal, ask, act}
use aether_edit.Tenancy.Sessions.{SessionCalls, Issuer, Draw, new_token, issue_session}
use aether_edit.Tenancy.Refresh.{Body, admit_token, handle_refresh}
use aether_edit.Tenancy.Follows.{Follows, ask_reads, ask_found, act_next, act_R}
use aether_edit.Tenancy.Follows.Sessions.{take_refresh_token_reads, admit_token-Follows}
use aether_edit.Tenancy.Rotation.{
  of_family, rows, Rotates, same_tokens-Rotates, mark, mark-Rotates, revoke-Rotates,
  exchange-Rotates,
}
use aether_edit.Tenancy.Rotation.Requests.{rotation_law, issue_session-Adds, new_family}

-- The guards let a token through only as it is.
pub admit_token_next :
    (up : SessionCalls) (now : ℕ) (t : RefreshToken) (d : Directory) (a : Unit {0})
    → (admit_token up now t d).0 ≡ next a
    → ((admit_token up now t d).1 ≡ d) × (unset t.revoked_at ≡ true) × (unset t.used_at ≡ true)
unfolding admit_token answer
admit_token_next up now t d a =
    let P : Step Reply (Unit {0}) × Directory → Type 0 =
      λ x. x.0 ≡ next a → (x.1 ≡ d) × (unset t.revoked_at ≡ true) × (unset t.used_at ≡ true) in
    if_path P (unset t.revoked_at) _ _ d
      (λ r.
        if_path P (unset t.used_at) _ _ d (λ u h. (require_reads _ _ d, r, u))
          (λ u. and_both P _ _ d (λ q _ h. ground (arith, h)) (λ _ _ h. ground (arith, h))))
      (λ r h. ground (arith, h))

mark_next :
    (up : Outcome) (id : String) (at : ℕ) (d : Directory) (a : Unit {0})
    → (act up internal (mark_refresh_token_used id at) d).0 ≡ next a
    → (act up internal (mark_refresh_token_used id at) d).1.tokens ≡ mark id at d.tokens
unfolding mark_refresh_token_used
mark_next up id at d a h =
    let (same, there) = act_next up internal (mark_refresh_token_used id at) d a h in
    ap (λ e. e.tokens) same ∙ ground (arith, there)

-- The new row of a token that is exchanged.
rotated :
    (issuer : Issuer) (draw : Draw) (user raw family hash : String) (t : RefreshToken)
    (d : Directory)
    → rows draw.family_id d.tokens ≡ 0
    → get_refresh_token_by_hash hash d ≡ ok t
    → unset t.revoked_at ≡ true
    → unset t.used_at ≡ true
    → Rotates family d.tokens
        (new_token issuer draw user t.family_id raw ∷ mark t.id draw.now d.tokens)
unfolding get_refresh_token_by_hash
rotated issuer draw user raw family hash t d fresh found r u =
    elim (Bool-cases (str_eq t.family_id "")) [
      | inl e ↦
          let n =
            count_where-update_where_same (unused_at t.id) (of_family draw.family_id)
              (used draw.now) d.tokens (λ _. refl) in
          (rotation_law family).chains d (record d { tokens = mark t.id draw.now d.tokens })
            (record d {
              tokens = new_token issuer draw user t.family_id raw ∷ mark t.id draw.now d.tokens;
            })
            (mark-Rotates family t.id draw.now d.tokens)
            (new_family issuer draw t.family_id user raw family (mark t.id draw.now d.tokens) e
              (ground (arith, n, fresh)))
      | inr e ↦
          exchange-Rotates family (λ s. str_eq s.token_hash hash) t
            (new_token issuer draw user t.family_id raw) draw.now d.tokens (ground (arith, found)) r
            u (ground (arith, e))
    ]

use_mark-Rotates :
    (family id : String) (at : ℕ) (d : Directory)
    → Rotates family d.tokens (mark_refresh_token_used id at d).1.tokens
unfolding mark_refresh_token_used
use_mark-Rotates family id at d = elim (Bool-cases (ltb 0 (count_where (unused_at id) d.tokens))) [
  | inl e ↦ subst (Rotates family d.tokens) (ground (arith, e)) (mark-Rotates family id at d.tokens)
  | inr e ↦ same_tokens-Rotates family d.tokens _ (ground (arith, e))
]

-- A refresh from where its token has passed the guards.
exchanged :
    (up : SessionCalls) (issuer : Issuer) (draw : Draw) (family hash : String) (t : RefreshToken)
    (d : Directory)
    → rows draw.family_id d.tokens ≡ 0
    → get_refresh_token_by_hash hash d ≡ ok t
    → unset t.revoked_at ≡ true
    → unset t.used_at ≡ true
    → Rotates family d.tokens
        ((act up.mark internal (mark_refresh_token_used t.id draw.now)
            >> (ask up.user internal (get_user t.user_id) >>= λ user.
                issue_session up issuer draw user t.family_id))
          d).1.tokens
exchanged up issuer draw family hash t d fresh found r u =
    let P : Step Reply (Unit {0}) × Directory → Type 0 = λ x. Rotates family d.tokens x.1.tokens in
    let marks =
      act_R (rotation_law family) up.mark internal (mark_refresh_token_used t.id draw.now)
        (use_mark-Rotates family t.id draw.now) d in
    let d1 : Directory = (act up.mark internal (mark_refresh_token_used t.id draw.now) d).1 in
    and_both P _ _ d (λ q _. marks)
      (λ a went.
        let e1 = mark_next up.mark t.id draw.now d a went in
        then_path P _ _ d1 (ask_reads up.user _ _ d1) (λ q _. marks)
          (λ user _. elim (issue_session-Adds up issuer draw user t.family_id d1) [
            | inl e ↦ subst (Rotates family d.tokens) (sym e) marks
            | inr (v, raw, e) ↦
                subst (Rotates family d.tokens)
                  (sym (e ∙ ap (λ ts. new_token issuer draw v t.family_id raw ∷ ts) e1))
                  (rotated issuer draw v raw family hash t d fresh found r u)
          ]))

refused_token :
    (up : SessionCalls) (now : ℕ) (t : RefreshToken) (family : String) (d : Directory)
    → Rotates family d.tokens (admit_token up now t d).1.tokens
unfolding Follows revoke_refresh_family
refused_token up now t family d =
    admit_token-Follows (rotation_law family) up now t
      (λ other at e. revoke-Rotates family other at e.tokens) d

pub handle_refresh-Rotates :
    (up : SessionCalls) (issuer : Issuer) (draw : Draw) (presented : Body) (cookie family : String)
    (d : Directory)
    → rows draw.family_id d.tokens ≡ 0
    → Rotates family d.tokens (handle_refresh up issuer draw presented cookie d).1.tokens
unfolding handle_refresh
handle_refresh-Rotates up issuer draw presented cookie family d fresh =
    let P : Step Reply (Unit {0}) × Directory → Type 0 = λ x. Rotates family d.tokens x.1.tokens in
    let done = same_tokens-Rotates family d.tokens d.tokens refl in
    then_path P _ _ d (take_refresh_token_reads presented cookie d) (λ r _. done)
      (λ raw _.
        then_path P _ _ d (ask_reads up.token _ _ d) (λ r _. done)
          (λ t found.
            and_both P _ _ d (λ r _. refused_token up draw.now t family d)
              (λ a through.
                let (same, r, u) = admit_token_next up draw.now t d a through in
                subst
                  (λ e. P (
                    (act up.mark internal (mark_refresh_token_used t.id draw.now)
                        >> (ask up.user internal (get_user t.user_id) >>= λ user.
                            issue_session up issuer draw user t.family_id))
                      e))
                  (sym same)
                  (exchanged up issuer draw family _ t d fresh (ask_found up.token _ _ d t found) r
                    u))))
