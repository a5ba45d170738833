-- ===== src/Tenancy/Keys/Revocation.antt =====
-- services/tenancy: an API key that is revoked, over whole runs of the service.
use aether_edit.Prelude.{
  ℕ, String, ◌≡◌, refl, sym, ap, subst, ◌≢◌, inl, inr, Bool, true, false, Option, some, List, [],
  ◌∷◌, arith, str_eq, ltb, if◌then◌else◌, Bool-cases, Option-cases, Result, Result-cases, ok,
}
use aether_edit.Prelude.Table.{select_first, count_where, update_where}
use aether_edit.Prelude.Selecting.{select_first-append, select_first-update_where}
use aether_edit.Tenancy.Directory.{
  Directory, DirectoryError, changed, ApiKey, set_active_workspace, save_login_state,
  take_login_state, upsert_user,
}
use aether_edit.Tenancy.Memberships.{
  create_workspace as insert_workspace, add_member as insert_member,
  update_member_role as write_role, remove_member as delete_member,
}
use aether_edit.Tenancy.Credentials.{
  unset, create_refresh_token, mark_refresh_token_used, revoke_refresh_family,
  create_api_key as insert_key, get_api_key, revocable, key_revoked, key_used,
  revoke_api_key as end_key, touch_api_key,
}
use aether_edit.Tenancy.Keys.{
  KeyCalls, reached, touched, checked, split_api_key, verify_api_key_string,
}
use aether_edit.Tenancy.Access.{Outcome, answered, refused, lost}
use aether_edit.Tenancy.Service.{Server, Request, serve, serve_all}
use aether_edit.Tenancy.Follows.{Law, Follows}
use aether_edit.Tenancy.Follows.Workspaces.{
  handle_update_member_role-Follows, handle_remove_member-Follows,
}
use aether_edit.Tenancy.Follows.Service.{LawfulApi, LawfulSignIn, serve-Follows}

-- The key is there, and revoked.
abbrev pub IsRevoked : String → List ApiKey → Type 0
IsRevoked id ks =
    (k : ApiKey) × (select_first (λ r. str_eq r.id id) ks ≡ some k) × (unset k.revoked_at ≡ false)

abbrev revoked_law : String → Law
revoked_law id = record {
  R = λ d e. IsRevoked id d.keys → IsRevoked id e.keys;
  stays = λ d h. h;
  chains = λ d e f a b h. b (a h);
}

same_keys : (id : String) (ks ls : List ApiKey) → ls ≡ ks → IsRevoked id ks → IsRevoked id ls
same_keys id ks ls e = subst (IsRevoked id) (sym e)

insert_key-IsRevoked :
    (id : String) (k : ApiKey) (d : Directory)
    → IsRevoked id d.keys
    → IsRevoked id (insert_key k d).1.keys
unfolding insert_key
insert_key-IsRevoked id k d (r, found, shut) =
    elim (Option-cases (select_first (λ s. str_eq s.id k.id) d.keys)) [
      | inl e ↦
          let there = select_first-append (λ s. str_eq s.id id) d.keys (k ∷ []) r found in
          (r, ground (arith, e, there), shut)
      | inr (_, e) ↦ (r, ground (arith, e, found), shut)
    ]

-- An update that does not see the id, and leaves no key unrevoked.
update-IsRevoked :
    (id : String) (q : ApiKey → Bool) (f : ApiKey → ApiKey) (ks : List ApiKey)
    → ((k : ApiKey) → (f k).id ≡ k.id)
    → ((k : ApiKey) → unset k.revoked_at ≡ false → unset (f k).revoked_at ≡ false)
    → IsRevoked id ks
    → IsRevoked id (update_where q f ks)
update-IsRevoked id q f ks same shuts (r, found, shut) = (
  (if q r then f r else r),
  select_first-update_where (λ s. str_eq s.id id) q f ks r (λ k. ap (λ i. str_eq i id) (same k))
      found,
  ground (arith, shut, shuts r shut),
)

changed_at :
    (P : Directory → Type 0) (b : Bool) (new old : Directory)
    → P new
    → P old
    → P (changed b new old).1
changed_at P true new old h g = h
changed_at P false new old h g = g

end_key-IsRevoked :
    (id ws key : String) (at : ℕ) (d : Directory)
    → IsRevoked id d.keys
    → IsRevoked id (end_key ws key at d).1.keys
unfolding end_key
end_key-IsRevoked id ws key at d h =
    let new =
      update-IsRevoked id (revocable ws key) (key_revoked at) d.keys (λ _. refl) (λ k _. refl) h in
    changed_at (λ e. IsRevoked id e.keys) (ltb 0 (count_where (revocable ws key) d.keys))
      (record d { keys = update_where (revocable ws key) (key_revoked at) d.keys }) d new h

touched-IsRevoked :
    (id key : String) (up : Outcome) (at : ℕ) (d : Directory)
    → IsRevoked id d.keys
    → IsRevoked id (touched up key at d).keys
unfolding touch_api_key
touched-IsRevoked id key answered at d h =
    update-IsRevoked id (λ k. str_eq k.id key) (key_used at) d.keys (λ _. refl) (λ k e. e) h
touched-IsRevoked id key refused at d h = h
touched-IsRevoked id key lost at d h =
    update-IsRevoked id (λ k. str_eq k.id key) (key_used at) d.keys (λ _. refl) (λ k e. e) h

-- The check of a key changes at most the time of its use.
checked_at :
    (P : Directory → Type 0) (up : Outcome) (key : ApiKey) (fits : Option Bool) (now : ℕ)
    (d : Directory)
    → P d
    → P (touched up key.id now d)
    → P (checked up key fits now d).1
checked_at P up key fits now d h g = elim (Bool-cases (unset key.revoked_at)) [
  | inr e ↦ subst P (ground (arith, e)) h
  | inl e ↦ elim (Option-cases fits) [
    | inl f ↦ subst P (ground (arith, e, f)) h
    | inr (match, f) ↦ elim (Bool-cases match) [
      | inl m ↦ subst P (ground (arith, e, f, m)) g
      | inr m ↦ subst P (ground (arith, e, f, m)) h
    ]
  ]
]

verify_at :
    (P : Directory → Type 0) (up : KeyCalls) (check : String → String → Option Bool) (raw : String)
    (now : ℕ) (d : Directory)
    → P d
    → ((key : ApiKey) → P (touched up.touch key.id now d))
    → P (verify_api_key_string up check raw now d).1
unfolding verify_api_key_string
verify_at P up check raw now d h k = elim (Option-cases (split_api_key raw)) [
  | inl e ↦ subst P (ground (arith, e)) h
  | inr ((name, secret), e) ↦ elim (Result-cases (reached up.get (get_api_key name d))) [
    | inr (f, g) ↦ subst P (ground (arith, e, g)) h
    | inl (key, g) ↦
        subst P (ground (arith, e, g))
          (checked_at P up.touch key (check secret key.secret_hash) now d h (k key))
  ]
]

verify-IsRevoked :
    (id : String) (up : KeyCalls) (check : String → String → Option Bool) (raw : String) (now : ℕ)
    (d : Directory)
    → IsRevoked id d.keys
    → IsRevoked id (verify_api_key_string up check raw now d).1.keys
verify-IsRevoked id up check raw now d h =
    verify_at (λ e. IsRevoked id e.keys) up check raw now d h
      (λ key. touched-IsRevoked id key.id up.touch now d h)

keys-LawfulApi : (id : String) → LawfulApi (revoked_law id)
unfolding insert_workspace set_active_workspace insert_member write_role delete_member
keys-LawfulApi id = record {
  workspaces = λ ws user d. same_keys id _ _ (ground arith);
  actives = λ user ws d. same_keys id _ _ (ground arith);
  members = λ m d. same_keys id _ _ (ground arith);
  roles = λ up ws target role who.
      handle_update_member_role-Follows (revoked_law id) up ws target role who
        (λ w user r d. same_keys id _ _ (ground arith));
  removals = λ up ws target who.
      handle_remove_member-Follows (revoked_law id) up ws target who
        (λ w user d. same_keys id _ _ (ground arith));
  keys = insert_key-IsRevoked id;
  revocations = end_key-IsRevoked id;
  checks = verify-IsRevoked id;
}

keys-LawfulSignIn : (id : String) → LawfulSignIn (revoked_law id)
unfolding save_login_state take_login_state upsert_user create_refresh_token mark_refresh_token_used
    revoke_refresh_family
keys-LawfulSignIn id = record {
  states = λ ls d. same_keys id _ _ (ground arith);
  takes = λ state now d. same_keys id _ _ (ground arith);
  users = λ fresh sub email name d. same_keys id _ _ (ground arith);
  tokens = λ t d. same_keys id _ _ (ground arith);
  uses = λ used_id at d. same_keys id _ _ (ground arith);
  families = λ family at d. same_keys id _ _ refl;
}

serve_all-IsRevoked :
    (s : Server) (qs : List Request) (d : Directory) (id : String)
    → IsRevoked id d.keys
    → IsRevoked id (serve_all s qs d).keys
unfolding serve_all Follows
serve_all-IsRevoked s [] d id h = h
serve_all-IsRevoked s (q ∷ qs) d id h =
    serve_all-IsRevoked s qs (serve s q d).1 id
      (serve-Follows (revoked_law id) (keys-LawfulApi id) (keys-LawfulSignIn id) s q d h)

reached_ok :
    {A : Type 0} (up : Outcome) (x : Result DirectoryError A) (a : A)
    → reached up x ≡ ok a
    → x ≡ ok a
reached_ok answered x a h = h
reached_ok refused x a h = ground (arith, h)
reached_ok lost x a h = ground (arith, h)

refused_key :
    (up : KeyCalls) (check : String → String → Option Bool) (raw id secret : String) (now : ℕ)
    (key : ApiKey) (d : Directory)
    → IsRevoked id d.keys
    → split_api_key raw ≡ some (id, secret)
    → (verify_api_key_string up check raw now d).0 ≢ ok key
unfolding verify_api_key_string get_api_key
refused_key up check raw id secret now key d (r, found, shut) e h =
    elim (Result-cases (reached up.get (get_api_key id d))) [
      | inr (f, g) ↦ ground (arith, e, g, h)
      | inl (k, g) ↦
          let same : k ≡ r = ground (arith, reached_ok up.get (get_api_key id d) k g, found) in
          let closed = subst (λ x. unset x.revoked_at ≡ false) (sym same) shut in
          ground (arith, e, g, h, closed)
    ]

-- An API key that is revoked stays so: whatever requests follow, whatever the database refuses and
-- whatever answers are lost, no text that names the key is accepted as an API key.
pub serve_all-verify_api_key_string :
    (s : Server) (qs : List Request) (up : KeyCalls) (raw id secret : String) (now : ℕ)
    (revoked accepted : ApiKey) (d : Directory)
    → get_api_key id d ≡ ok revoked
    → unset revoked.revoked_at ≡ false
    → split_api_key raw ≡ some (id, secret)
    → (verify_api_key_string up s.check raw now (serve_all s qs d)).0 ≢ ok accepted
unfolding get_api_key
serve_all-verify_api_key_string s qs up raw id secret now revoked accepted d found shut e =
    refused_key up s.check raw id secret now accepted (serve_all s qs d)
      (serve_all-IsRevoked s qs d id (revoked, ground (arith, found), shut)) e
