-- ===== src/Tenancy/Directory.antt =====
-- services/tenancy: the rows of store.go, and the methods of postgres.go on them, one function each.
-- A method is one SQL statement or transaction. The CHECK on a membership's role leaves the three
-- constructors. The times that no code reads are left out. A statement that a foreign key refuses is
-- among those that the database does not carry out, which the handlers' models let the environment
-- choose.
use aether_edit.Prelude.{
  ℕ, String, Bool, true, false, not, ◌&&◌, Option, none, some, List, [], ◌∷◌, ◌++◌, str_eq, ltb,
  if◌then◌else◌, Result, ok, err,
}
use aether_edit.Prelude.Table.{select_first, count_where, update_where, delete_where}
use aether_edit.Tenancy.{Workspace}

pub data Role : Type 0 where
  owner admin member : Role

-- `validRole`, of a text in a request.
unfoldable pub valid_role : String → Option Role
valid_role s =
    if str_eq s "owner"
    then some owner
    else if str_eq s "admin"
    then some admin
    else if str_eq s "member"
    then some member
    else none

abbrev pub is_owner : Role → Bool
is_owner owner = true
is_owner _ = false

abbrev pub is_member : Role → Bool
is_member member = true
is_member _ = false

-- `User`
pub record User : Type 0 where
  pub id : String
  pub google_sub : String
  pub email : String
  pub name : String
  pub active_workspace_id : String

-- `Membership`
pub record Membership : Type 0 where
  pub workspace_id : String
  pub user_id : String
  pub role : Role

-- `RefreshToken`
pub record RefreshToken : Type 0 where
  pub id : String
  pub user_id : String
  pub family_id : String
  pub token_hash : String
  pub expires_at : ℕ
  pub used_at : Option ℕ
  pub revoked_at : Option ℕ

-- `LoginState`
pub record LoginState : Type 0 where
  pub state : String
  pub nonce : String
  pub pkce_verifier : String
  pub expires_at : ℕ

-- `APIKey`
pub record ApiKey : Type 0 where
  pub id : String
  pub workspace_id : String
  pub name : String
  pub secret_hash : String
  pub created_by : String
  pub last_used_at : Option ℕ
  pub revoked_at : Option ℕ

-- The tables.
pub record Directory : Type 0 where
  pub users : List User
  pub workspaces : List Workspace
  pub members : List Membership
  pub tokens : List RefreshToken
  pub logins : List LoginState
  pub keys : List ApiKey

-- `ErrNotFound` and `ErrDuplicate`, and any other error.
pub data DirectoryError : Type 0 where
  not_found duplicate failed : DirectoryError

abbrev pub found : {A : Type 0} → Option A → Result DirectoryError A
found none = err not_found
found (some a) = ok a

abbrev pub changed : Bool → Directory → Directory → Result DirectoryError (Unit {0}) × Directory
changed true new old = (ok tt, new)
changed false new old = (err not_found, old)

-- ---- login states ----

-- `SaveLoginState`; a state that is taken is refused.
unfoldable pub save_login_state :
    LoginState → Directory → Result DirectoryError (Unit {0}) × Directory
unfolding select_first
save_login_state ls d = elim (select_first (λ l. str_eq l.state ls.state) d.logins) [
  | some _ ↦ (err failed, d)
  | none ↦ (ok tt, record d { logins = ls ∷ d.logins })
]

-- `TakeLoginState`: the row is gone also where it has expired.
unfoldable pub take_login_state :
    String → ℕ → Directory → Result DirectoryError LoginState × Directory
unfolding select_first delete_where
take_login_state state now d = elim (select_first (λ l. str_eq l.state state) d.logins) [
  | none ↦ (err not_found, d)
  | some ls ↦ (
    if ltb ls.expires_at now then err not_found else ok ls,
    record d { logins = delete_where (λ l. str_eq l.state state) d.logins },
  )
]

-- ---- users ----

abbrev pub signed_in : String → String → User → User
signed_in email name u = record u { email = email; name = name }

-- `UpsertUserByGoogleSub`, with the email in lower case and the id of a new row. A row of another user
-- with the email is refused by the unique index.
unfoldable pub upsert_user :
    String → String → String → String → Directory → Result DirectoryError User × Directory
unfolding select_first update_where
upsert_user fresh sub email name d =
    elim (select_first (λ u. not (str_eq u.google_sub sub) && str_eq u.email email) d.users) [
      | some _ ↦ (err failed, d)
      | none ↦ elim (select_first (λ u. str_eq u.google_sub sub) d.users) [
        | some u ↦ (
          ok (signed_in email name u),
          record d {
            users = update_where (λ v. str_eq v.google_sub sub) (signed_in email name) d.users;
          },
        )
        | none ↦
            let u : User = record {
              id = fresh;
              google_sub = sub;
              email = email;
              name = name;
              active_workspace_id = "";
            } in
            (ok u, record d { users = d.users ++ u ∷ [] })
      ]
    ]

-- `GetUser`
unfoldable pub get_user : String → Directory → Result DirectoryError User
unfolding select_first
get_user id d = found (select_first (λ u. str_eq u.id id) d.users)

-- `GetUserByEmail`; emails are stored in lower case.
unfoldable pub get_user_by_email : String → Directory → Result DirectoryError User
unfolding select_first
get_user_by_email email d = found (select_first (λ u. str_eq u.email email) d.users)

abbrev pub active_in : String → User → User
active_in ws u = record u { active_workspace_id = ws }

-- `SetActiveWorkspace`
unfoldable pub set_active_workspace :
    String → String → Directory → Result DirectoryError (Unit {0}) × Directory
unfolding count_where update_where
set_active_workspace user ws d =
    changed (ltb 0 (count_where (λ u. str_eq u.id user) d.users))
      (record d { users = update_where (λ u. str_eq u.id user) (active_in ws) d.users }) d
