-- ===== src/Tenancy/Scope.antt =====
-- services/tenancy: for whom an access token is minted, through the chains of steps.
pub mod Handlers
pub mod Sessions
pub mod Requests
use aether_edit.Prelude.{
  ℕ, zero, suc, ◌+◌, ◌-◌, ◌*◌, ◌/◌, ◌%◌, ◌^◌, ◌≤◌, ◌<◌, String, ◌≡◌, refl, sym, ap, ◌∙◌, subst, ◌≢◌,
  ◌↔◌, ◌⊎◌, inl, inr, Bool, true, false, not, ◌&&◌, ◌||◌, Option, none, some, List, [], ◌∷◌, ◌++◌,
  map, arith, str_eq, eq_iff, ltb, leb, ◌==◌, if◌then◌else◌, ltb→lt, lt→ltb, leb→le, ==_iff, tests,
  Bool-cases, Option-cases, length, get_elem?, set, length-append, get_or, take, drop, replicate,
  Result, Result-cases, ok, err, guard,
}
use aether_edit.Prelude.Steps.{
  Step, next, reply, then_both, and_both, require_reply, answer, require, need, ◌>>=◌, ◌>>◌,
}
use aether_edit.Prelude.Text.{has_prefix}
use aether_edit.Tenancy.{Workspace}
use aether_edit.Tenancy.Directory.{
  Role, User, Membership, ApiKey, LoginState, Directory, DirectoryError, not_found, duplicate,
  failed,
}
use aether_edit.Tenancy.Memberships.{get_membership}
use aether_edit.Tenancy.Access.{
  Reply, fail, me_view, workspace_view, workspace_list, switched, member_list, member_view,
  role_view, key_view, key_list, no_content, redirect, session, key_token, signed_out, M, Outcome,
  answered, refused, lost, ask, ask_maybe, act, on_absent, on_duplicate, give, answer_by, Identity,
  api_key_user_prefix, require_user, require_role, decoded,
}
use aether_edit.Tenancy.Sessions.{Issuer}
use aether_edit.Tenancy.Follows.{ask_reply, act_reply}

-- The access token of a session or of a switch is minted for a user and a workspace that has them as
-- a member; a switch tells the member's role.
unfoldable pub Scoped : Issuer → Reply → Directory → Type 0
Scoped issuer (session access raw user) d =
    (m : Membership) × (get_membership user.active_workspace_id user.id d ≡ ok m)
    × (issuer.mint user.id user.active_workspace_id ≡ some access)
Scoped issuer (switched access ws role) d =
    (user : String) × (m : Membership) × (get_membership ws.id user d ≡ ok m)
    × (m.role ≡ role)
    × (issuer.mint user ws.id ≡ some access)
Scoped issuer _ d = Unit {0}

-- What a chain answers, if it answers.
unfoldable pub Sound : Issuer → {A : Type 0} → M A → Type 0
Sound issuer m = (d : Directory) (r : Reply) → (m d).0 ≡ reply r → Scoped issuer r (m d).1

pub same_reply :
    {A : Type 0} (issuer : Issuer) (q r : Reply) (d : Directory)
    → ◌≡◌ {A = Step Reply A} (reply q) (reply r)
    → Scoped issuer q d
    → Scoped issuer r d
same_reply issuer q r d e h =
    let same : q ≡ r = ground (arith, e) in subst (λ x. Scoped issuer x d) same h

module _ (issuer : Issuer) where
  pub then-Sound :
      {A B : Type 0} (m : M A) (f : A → M B)
      → Sound issuer m
      → ((a : A) → Sound issuer (f a))
      → Sound issuer (m >>= f)
  unfolding Sound
  then-Sound m f h k d r =
      then_both (λ x. x.0 ≡ reply r → Scoped issuer r x.1) m f d
        (λ q e g. same_reply issuer q r (m d).1 g (h d q e)) (λ a e. k a (m d).1 r)

  pub and_Sound :
      {B : Type 0} (m : M (Unit {0})) (k : M B)
      → Sound issuer m
      → Sound issuer k
      → Sound issuer (m >> k)
  unfolding Sound
  and_Sound m k h g d r =
      and_both (λ x. x.0 ≡ reply r → Scoped issuer r x.1) m k d
        (λ q e i. same_reply issuer q r (m d).1 i (h d q e)) (λ a e. g (m d).1 r)

  pub if_Sound :
      {A : Type 0} (b : Bool) (m k : M A)
      → Sound issuer m
      → Sound issuer k
      → Sound issuer (if b then m else k)
  if_Sound true m k h g = h
  if_Sound false m k h g = g

  pub fail-Scoped : (n : ℕ) (code : String) (d : Directory) → Scoped issuer (fail n code) d
  unfolding Scoped
  fail-Scoped n code d = tt

  pub on_absent-Scoped :
      (n : ℕ) (code : String) (e : DirectoryError) (d : Directory)
      → Scoped issuer (on_absent (fail n code) e) d
  on_absent-Scoped n code not_found d = fail-Scoped n code d
  on_absent-Scoped n code duplicate d = fail-Scoped 500 "internal" d
  on_absent-Scoped n code failed d = fail-Scoped 500 "internal" d

  pub on_duplicate-Scoped :
      (n : ℕ) (code : String) (e : DirectoryError) (d : Directory)
      → Scoped issuer (on_duplicate (fail n code) e) d
  on_duplicate-Scoped n code not_found d = fail-Scoped 500 "internal" d
  on_duplicate-Scoped n code duplicate d = fail-Scoped n code d
  on_duplicate-Scoped n code failed d = fail-Scoped 500 "internal" d

  pub me_view-Scoped :
      (u : User) (w : Option (Workspace × Role)) (d : Directory) → Scoped issuer (me_view u w) d
  unfolding Scoped
  me_view-Scoped u w d = tt

  pub workspace_view-Scoped :
      (n : ℕ) (w : Workspace) (r : Role) (b : Bool) (d : Directory)
      → Scoped issuer (workspace_view n w r b) d
  unfolding Scoped
  workspace_view-Scoped n w r b d = tt

  pub workspace_list-Scoped :
      (l : List (Workspace × Role × Bool)) (d : Directory) → Scoped issuer (workspace_list l) d
  unfolding Scoped
  workspace_list-Scoped l d = tt

  pub member_list-Scoped :
      (l : List (Membership × User)) (d : Directory) → Scoped issuer (member_list l) d
  unfolding Scoped
  member_list-Scoped l d = tt

  pub member_view-Scoped :
      (m : Membership) (u : User) (d : Directory) → Scoped issuer (member_view m u) d
  unfolding Scoped
  member_view-Scoped m u d = tt

  pub role_view-Scoped : (u : String) (r : Role) (d : Directory) → Scoped issuer (role_view u r) d
  unfolding Scoped
  role_view-Scoped u r d = tt

  pub key_view-Scoped : (k : String) (a : ApiKey) (d : Directory) → Scoped issuer (key_view k a) d
  unfolding Scoped
  key_view-Scoped k a d = tt

  pub key_list-Scoped : (l : List ApiKey) (d : Directory) → Scoped issuer (key_list l) d
  unfolding Scoped
  key_list-Scoped l d = tt

  pub redirect-Scoped : (l : LoginState) (d : Directory) → Scoped issuer (redirect l) d
  unfolding Scoped
  redirect-Scoped l d = tt

  pub key_token-Scoped : (a w : String) (d : Directory) → Scoped issuer (key_token a w) d
  unfolding Scoped
  key_token-Scoped a w d = tt

  pub no_content-Scoped : (d : Directory) → Scoped issuer no_content d
  unfolding Scoped
  no_content-Scoped d = tt

  pub signed_out-Scoped : (d : Directory) → Scoped issuer signed_out d
  unfolding Scoped
  signed_out-Scoped d = tt

  pub answer-Sound : (r : Reply) → ((d : Directory) → Scoped issuer r d) → Sound issuer (answer r)
  unfolding Sound answer
  answer-Sound r h d q e = subst (λ x. Scoped issuer x d) (ground (arith, e)) (h d)

  pub answer_by-Sound :
      (f : Directory → Reply)
      → ((d : Directory) → Scoped issuer (f d) d)
      → Sound issuer (answer_by f)
  unfolding Sound answer_by
  answer_by-Sound f h d q e = subst (λ x. Scoped issuer x d) (ground (arith, e)) (h d)

  pub give-Sound : {A : Type 0} (a : A) → Sound issuer (give a)
  unfolding Sound give
  give-Sound a d r e = ground (arith, e)

  pub require-Sound :
      (b : Bool) (r : Reply) → ((d : Directory) → Scoped issuer r d) → Sound issuer (require b r)
  unfolding Sound
  require-Sound b r h d q e =
      subst (λ x. Scoped issuer x (require b r d).1) (sym (require_reply b r q d e))
        (h (require b r d).1)

  pub need-Sound :
      {A : Type 0} (o : Option A) (r : Reply)
      → ((d : Directory) → Scoped issuer r d)
      → Sound issuer (need o r)
  unfolding Sound need
  need-Sound none r h d q e = subst (λ x. Scoped issuer x d) (ground (arith, e)) (h d)
  need-Sound (some a) r h d q e = ground (arith, e)

  pub decoded-Sound : {A : Type 0} (o : Option A) → Sound issuer (decoded o)
  unfolding Sound decoded
  decoded-Sound none d q e =
      subst (λ x. Scoped issuer x d) (ground (arith, e)) (fail-Scoped 400 "invalid_body" d)
  decoded-Sound (some a) d q e = ground (arith, e)

  pub ask-Sound :
      {A : Type 0} (up : Outcome) (on : DirectoryError → Reply)
      (q : Directory → Result DirectoryError A)
      → ((e : DirectoryError) (d : Directory) → Scoped issuer (on e) d)
      → Sound issuer (ask up on q)
  unfolding Sound
  ask-Sound up on q h d r e =
      let (f, is_f) = ask_reply up on q d r e in
      subst (λ x. Scoped issuer x (ask up on q d).1) (sym is_f) (h f (ask up on q d).1)

  pub act-Sound :
      {A : Type 0} (up : Outcome) (on : DirectoryError → Reply)
      (q : Directory → Result DirectoryError A × Directory)
      → ((e : DirectoryError) (d : Directory) → Scoped issuer (on e) d)
      → Sound issuer (act up on q)
  unfolding Sound
  act-Sound up on q h d r e =
      let (f, is_f) = act_reply up on q d r e in
      subst (λ x. Scoped issuer x (act up on q d).1) (sym is_f) (h f (act up on q d).1)

  pub ask_maybe-Sound :
      {A : Type 0} (up : Outcome) (q : Directory → Result DirectoryError A)
      → Sound issuer (ask_maybe up q)
  unfolding Sound ask_maybe
  ask_maybe-Sound answered q d r e = elim (Result-cases (q d)) [
    | inl (a, f) ↦ ground (arith, e, f)
    | inr (not_found, f) ↦ ground (arith, e, f)
    | inr (duplicate, f) ↦
        subst (λ x. Scoped issuer x d) (ground (arith, e, f)) (fail-Scoped 500 "internal" d)
    | inr (failed, f) ↦
        subst (λ x. Scoped issuer x d) (ground (arith, e, f)) (fail-Scoped 500 "internal" d)
  ]
  ask_maybe-Sound refused q d r e =
      subst (λ x. Scoped issuer x d) (ground (arith, e)) (fail-Scoped 500 "internal" d)
  ask_maybe-Sound lost q d r e =
      subst (λ x. Scoped issuer x d) (ground (arith, e)) (fail-Scoped 500 "internal" d)

  refused_user :
      (id : Identity) (d : Directory) (r : Reply)
      → has_prefix api_key_user_prefix id.user_id ≡ true
      → (require_user (some id) d).0 ≡ reply r
      → Scoped issuer r (require_user (some id) d).1
  unfolding require_user
  refused_user id d r p e =
      let same : fail 403 "user_required" ≡ r = ground (arith, p, e) in
      let here : d ≡ (require_user (some id) d).1 = ground (arith, p) in
      subst (λ x. Scoped issuer r x) here
        (subst (λ x. Scoped issuer x d) same (fail-Scoped 403 "user_required" d))

  pub require_user-Sound : (who : Option Identity) → Sound issuer (require_user who)
  unfolding Sound require_user
  require_user-Sound none d r e =
      subst (λ x. Scoped issuer x d) (ground (arith, e)) (fail-Scoped 401 "unauthorized" d)
  require_user-Sound (some id) d r e =
      elim (Bool-cases (has_prefix api_key_user_prefix id.user_id)) [
        | inl p ↦ refused_user id d r p e
        | inr p ↦ ground (arith, p, e)
      ]

pub ruleset sound = (
  then-Sound, and_Sound, if_Sound, give-Sound, answer-Sound, answer_by-Sound, require-Sound,
  need-Sound, decoded-Sound, require_user-Sound, ask-Sound, ask_maybe-Sound, act-Sound, fail-Scoped,
  on_absent-Scoped, on_duplicate-Scoped, no_content-Scoped, signed_out-Scoped, me_view-Scoped,
  workspace_view-Scoped, workspace_list-Scoped, member_list-Scoped, member_view-Scoped,
  role_view-Scoped, key_view-Scoped, key_list-Scoped, redirect-Scoped, key_token-Scoped,
)
