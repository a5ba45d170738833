-- ===== src/Tenancy/Credentials.antt =====
-- services/tenancy/postgres.go: the methods on the refresh tokens and the API keys.
use aether_edit.Prelude.{
  ℕ, String, Bool, true, false, ◌&&◌, ◌||◌, Option, none, some, List, [], ◌∷◌, ◌++◌, str_eq, ltb,
  Result, ok, err,
}
use aether_edit.Prelude.Table.{select_first, select_all, count_where, update_where}
use aether_edit.Tenancy.Directory.{
  RefreshToken, ApiKey, Directory, DirectoryError, failed, found, changed,
}

-- ---- refresh tokens ----

-- `CreateRefreshToken`; the id and the hash are unique.
unfoldable pub create_refresh_token :
    RefreshToken → Directory → Result DirectoryError (Unit {0}) × Directory
unfolding select_first
create_refresh_token t d =
    elim (select_first (λ s. str_eq s.id t.id || str_eq s.token_hash t.token_hash) d.tokens) [
      | some _ ↦ (err failed, d)
      | none ↦ (ok tt, record d { tokens = t ∷ d.tokens })
    ]

-- `GetRefreshTokenByHash`
unfoldable pub get_refresh_token_by_hash : String → Directory → Result DirectoryError RefreshToken
unfolding select_first
get_refresh_token_by_hash hash d = found (select_first (λ t. str_eq t.token_hash hash) d.tokens)

abbrev pub unset : Option ℕ → Bool
unset none = true
unset (some _) = false

abbrev pub unused_at : String → RefreshToken → Bool
unused_at id t = str_eq t.id id && unset t.used_at

abbrev pub used : ℕ → RefreshToken → RefreshToken
used at t = record t { used_at = some at }

-- `MarkRefreshTokenUsed`: of two calls for a token only the first finds it unused.
unfoldable pub mark_refresh_token_used :
    String → ℕ → Directory → Result DirectoryError (Unit {0}) × Directory
unfolding count_where update_where
mark_refresh_token_used id at d =
    changed (ltb 0 (count_where (unused_at id) d.tokens))
      (record d { tokens = update_where (unused_at id) (used at) d.tokens }) d

abbrev pub live_in : String → RefreshToken → Bool
live_in family t = str_eq t.family_id family && unset t.revoked_at

abbrev pub revoked : ℕ → RefreshToken → RefreshToken
revoked at t = record t { revoked_at = some at }

-- `RevokeRefreshFamily`
unfoldable pub revoke_refresh_family :
    String → ℕ → Directory → Result DirectoryError (Unit {0}) × Directory
unfolding update_where
revoke_refresh_family family at d =
    (ok tt, record d { tokens = update_where (live_in family) (revoked at) d.tokens })

-- ---- API keys ----

-- `CreateAPIKey`
unfoldable pub create_api_key : ApiKey → Directory → Result DirectoryError (Unit {0}) × Directory
unfolding select_first
create_api_key k d = elim (select_first (λ r. str_eq r.id k.id) d.keys) [
  | some _ ↦ (err failed, d)
  | none ↦ (ok tt, record d { keys = d.keys ++ k ∷ [] })
]

-- `GetAPIKey`
unfoldable pub get_api_key : String → Directory → Result DirectoryError ApiKey
unfolding select_first
get_api_key id d = found (select_first (λ k. str_eq k.id id) d.keys)

-- `ListAPIKeys`, in the order in which they were created.
unfoldable pub list_api_keys : String → Directory → List ApiKey
unfolding select_all
list_api_keys ws d = select_all (λ k. str_eq k.workspace_id ws) d.keys

abbrev pub revocable : String → String → ApiKey → Bool
revocable ws id k = str_eq k.id id && str_eq k.workspace_id ws && unset k.revoked_at

abbrev pub key_revoked : ℕ → ApiKey → ApiKey
key_revoked at k = record k { revoked_at = some at }

-- `RevokeAPIKey`
unfoldable pub revoke_api_key :
    String → String → ℕ → Directory → Result DirectoryError (Unit {0}) × Directory
unfolding count_where update_where
revoke_api_key ws id at d =
    changed (ltb 0 (count_where (revocable ws id) d.keys))
      (record d { keys = update_where (revocable ws id) (key_revoked at) d.keys }) d

abbrev pub key_used : ℕ → ApiKey → ApiKey
key_used at k = record k { last_used_at = some at }

-- `TouchAPIKey`
unfoldable pub touch_api_key : String → ℕ → Directory → Result DirectoryError (Unit {0}) × Directory
unfolding update_where
touch_api_key id at d =
    (ok tt, record d { keys = update_where (λ k. str_eq k.id id) (key_used at) d.keys })
