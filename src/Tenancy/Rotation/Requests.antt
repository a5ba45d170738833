-- ===== src/Tenancy/Rotation/Requests.antt =====
-- services/tenancy/authflow.go: what a session and a sign-in do to a family of refresh tokens.
use aether_edit.Prelude.{
  ℕ, String, ◌≡◌, refl, sym, ◌∙◌, subst, ◌⊎◌, inl, inr, Bool, true, ◌||◌, List, ◌∷◌, arith, str_eq,
  if◌then◌else◌, Option-cases,
}
use aether_edit.Prelude.Table.{select_first}
use aether_edit.Prelude.Steps.{
  Step, then_path, and_path, then_both, and_both, require_reads, need_reads, ◌>>=◌, ◌>>◌,
}
use aether_edit.Tenancy.Directory.{
  User, LoginState, RefreshToken, Directory, DirectoryError, take_login_state, upsert_user,
  set_active_workspace,
}
use aether_edit.Tenancy.Memberships.{create_workspace}
use aether_edit.Tenancy.Credentials.{create_refresh_token}
use aether_edit.Tenancy.Access.{Reply, M, internal, act}
use aether_edit.Tenancy.Sessions.{
  SessionCalls, SignIn, Issuer, Draw, new_token, issue_session, with_workspace, handle_callback,
}
use aether_edit.Tenancy.Follows.{Law, Follows, ask_reads, act_answer, act-Follows, require-Follows}
use aether_edit.Tenancy.Follows.Sessions.{signed_by-Follows, with_workspace-Follows}
use aether_edit.Tenancy.Rotation.{rows, Rotates, same_tokens-Rotates, fresh-Rotates}

abbrev pub rotation_law : String → Law
rotation_law family = record {
  R = λ d e. Rotates family d.tokens e.tokens;
  stays = λ d. same_tokens-Rotates family d.tokens d.tokens refl;
  chains = λ d e f a b. record {
    single = λ h. b.single (a.single h);
    ended = λ r h. b.ended (omega (arith, r, a.kept)) (a.ended r h);
    kept = omega (arith, a.kept, b.kept);
  };
}

abbrev tokens_law : Law
tokens_law = record {
  R = λ d e. e.tokens ≡ d.tokens;
  stays = λ d. refl;
  chains = λ d e f h g. g ∙ h;
}

-- The rows after a session was issued, or not.
abbrev Adds : Issuer → Draw → String → Directory → Directory → Type 0
Adds issuer draw family d e =
    (e.tokens ≡ d.tokens)
    ⊎ ((user raw : String) × (e.tokens ≡ new_token issuer draw user family raw ∷ d.tokens))

create_adds :
    (t : RefreshToken) (d : Directory)
    → ((create_refresh_token t d).1.tokens ≡ d.tokens)
      ⊎ ((create_refresh_token t d).1.tokens ≡ t ∷ d.tokens)
unfolding create_refresh_token
create_adds t d =
    elim (Option-cases
      (select_first (λ s. str_eq s.id t.id || str_eq s.token_hash t.token_hash) d.tokens)) [
        | inl e ↦ inr (ground (arith, e))
        | inr (_, e) ↦ inl (ground (arith, e))
      ]

pub issue_session-Adds :
    (up : SessionCalls) (issuer : Issuer) (draw : Draw) (user : User) (family : String)
    (d : Directory)
    → Adds issuer draw family d (issue_session up issuer draw user family d).1
unfolding issue_session
issue_session-Adds up issuer draw user family d =
    let P : Step Reply (Unit {0}) × Directory → Type 0 = λ x. Adds issuer draw family d x.1 in
    and_path P _ _ d (require_reads _ _ d) (λ r _. inl refl)
      (λ _ _.
        then_path P _ _ d (ask_reads _ _ _ d) (λ r _. inl refl)
          (λ _ _.
            then_path P _ _ d (need_reads _ _ d) (λ r _. inl refl)
              (λ access _.
                then_path P _ _ d (need_reads _ _ d) (λ r _. inl refl)
                  (λ raw _.
                    act_answer (Adds issuer draw family d) up.insert internal _ _ d (inl refl)
                      (elim (create_adds (new_token issuer draw user.id family raw) d) [
                        | inl e ↦ inl e
                        | inr e ↦ inr (user.id, raw, e)
                      ])))))

-- A session of a new family, or of none.
pub new_family :
    (issuer : Issuer) (draw : Draw) (family user raw f : String) (ts : List RefreshToken)
    → str_eq family "" ≡ true
    → rows draw.family_id ts ≡ 0
    → Rotates f ts (new_token issuer draw user family raw ∷ ts)
new_family issuer draw family user raw f ts e fresh =
    fresh-Rotates f (new_token issuer draw user family raw) ts
      (subst (λ b. rows (if b then draw.family_id else family) ts ≡ 0) (sym e) fresh)

issued-Rotates :
    (up : SessionCalls) (issuer : Issuer) (draw : Draw) (user : User) (family : String)
    (d : Directory)
    → rows draw.family_id d.tokens ≡ 0
    → Rotates family d.tokens (issue_session up issuer draw user "" d).1.tokens
issued-Rotates up issuer draw user family d fresh =
    elim (issue_session-Adds up issuer draw user "" d) [
      | inl e ↦ same_tokens-Rotates family _ _ e
      | inr (u, raw, e) ↦
          subst (Rotates family d.tokens) (sym e)
            (new_family issuer draw "" u raw family d.tokens refl fresh)
    ]

-- A step that leaves the tokens alone, on the way to one that does not.
quiet :
    {A : Type 0} (family : String) (m : M A) (f : A → M (Unit {0})) (d e : Directory)
    → Follows tokens_law m
    → e.tokens ≡ d.tokens
    → ((a : A) (g : Directory) → g.tokens ≡ d.tokens → Rotates family d.tokens (f a g).1.tokens)
    → Rotates family d.tokens ((m >>= f) e).1.tokens
unfolding Follows
quiet family m f d e h same k =
    let P : Step Reply (Unit {0}) × Directory → Type 0 = λ x. Rotates family d.tokens x.1.tokens in
    then_both P m f e (λ r _. same_tokens-Rotates family d.tokens (m e).1.tokens (h e ∙ same))
      (λ a _. k a (m e).1 (h e ∙ same))

quiet_test :
    (family : String) (m k : M (Unit {0})) (d e : Directory)
    → Follows tokens_law m
    → e.tokens ≡ d.tokens
    → ((g : Directory) → g.tokens ≡ d.tokens → Rotates family d.tokens (k g).1.tokens)
    → Rotates family d.tokens ((m >> k) e).1.tokens
unfolding Follows
quiet_test family m k d e h same g =
    let P : Step Reply (Unit {0}) × Directory → Type 0 = λ x. Rotates family d.tokens x.1.tokens in
    and_both P m k e (λ r _. same_tokens-Rotates family d.tokens (m e).1.tokens (h e ∙ same))
      (λ a _. g (m e).1 (h e ∙ same))

take-Follows :
    (up : SessionCalls) (on : DirectoryError → Reply) (state : String) (now : ℕ)
    → Follows tokens_law (act up.login on (take_login_state state now))
unfolding take_login_state
take-Follows up on state now = act-Follows tokens_law _ _ _ (λ d. ground arith)

upsert-Follows :
    (up : SessionCalls) (fresh sub email name : String)
    → Follows tokens_law (act up.upsert internal (upsert_user fresh sub email name))
unfolding upsert_user
upsert-Follows up fresh sub email name = act-Follows tokens_law _ _ _ (λ d. ground arith)

first-Follows :
    (first : Bool) (up : SessionCalls) (issuer : Issuer) (draw : Draw) (user : User)
    → Follows tokens_law (with_workspace first up issuer draw user)
unfolding create_workspace set_active_workspace
first-Follows first up issuer draw user =
    with_workspace-Follows tokens_law first up issuer draw user (λ ws u d. ground arith)
      (λ u ws d. ground arith)

pub handle_callback-Rotates :
    (up : SessionCalls) (issuer : Issuer) (draw : Draw) (provider : LoginState → String → SignIn)
    (error state code family : String) (d : Directory)
    → rows draw.family_id d.tokens ≡ 0
    → Rotates family d.tokens (handle_callback up issuer draw provider error state code d).1.tokens
unfolding handle_callback
handle_callback-Rotates up issuer draw provider error state code family d fresh =
    quiet_test family _ _ d d (require-Follows tokens_law _ _) refl (λ d1 e1.
      quiet_test family _ _ d d1 (require-Follows tokens_law _ _) e1 (λ d2 e2.
        quiet family _ _ d d2 (take-Follows up _ state draw.now) e2 (λ ls d3 e3.
          quiet family _ _ d d3 (signed_by-Follows tokens_law _) e3 (λ v d4 e4.
            quiet family _ _ d d4 (upsert-Follows up _ _ _ _) e4 (λ u d5 e5.
              quiet family _ _ d d5 (first-Follows _ up issuer draw u) e5 (λ a d6 e6.
                subst (λ ts. Rotates family ts (issue_session up issuer draw a "" d6).1.tokens) e6
                  (issued-Rotates up issuer draw a family d6
                    (subst (λ ts. rows draw.family_id ts ≡ 0) (sym e6) fresh))))))))
