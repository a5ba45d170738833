-- ===== src/Tenancy/Access.antt =====
-- services/tenancy/server.go: the replies of the API, the calls of the store with their errors, and the
-- checks of the caller that the handlers share. A handler is a chain of steps over the directory. The
-- environment chooses for every call of the store whether the database answers.
use aether_edit.Prelude.{
  ℕ, String, Bool, Option, none, some, List, leb, if◌then◌else◌, Result, ok, err,
}
use aether_edit.Prelude.Steps.{Step, next, reply, require, ◌>>=◌}
use aether_edit.Prelude.Text.{has_prefix}
use aether_edit.Tenancy.{Workspace}
use aether_edit.Tenancy.Directory.{
  Role, owner, admin, member, User, Membership, Directory, DirectoryError, not_found, duplicate,
  failed, ApiKey, LoginState,
}
use aether_edit.Tenancy.Memberships.{get_membership}

-- What a handler writes: `writeError` with its status and code, or the answer.
pub data Reply : Type 0 where
  fail : ℕ → String → Reply
  me_view : User → Option (Workspace × Role) → Reply
  workspace_view : ℕ → Workspace → Role → Bool → Reply
  workspace_list : List (Workspace × Role × Bool) → Reply
  switched : String → Workspace → Role → Reply
  member_list : List (Membership × User) → Reply
  member_view : Membership → User → Reply
  role_view : String → Role → Reply
  key_view : String → ApiKey → Reply
  key_list : List ApiKey → Reply
  no_content : Reply
  redirect : LoginState → Reply
  session : String → String → User → Reply
  key_token : String → String → Reply
  signed_out : Reply

abbrev pub M : Type 0 → Type 0
M A = Directory → Step Reply A × Directory

-- What becomes of a call of the database: answered, refused or not arrived, or carried out with the
-- answer lost.
pub data Outcome : Type 0 where
  answered refused lost : Outcome

-- `internalError`
abbrev pub internal : DirectoryError → Reply
internal e = fail 500 "internal"

-- The row that is not there has a reply of its own.
abbrev pub on_absent : Reply → DirectoryError → Reply
on_absent r not_found = r
on_absent r duplicate = fail 500 "internal"
on_absent r failed = fail 500 "internal"

abbrev pub on_duplicate : Reply → DirectoryError → Reply
on_duplicate r not_found = fail 500 "internal"
on_duplicate r duplicate = r
on_duplicate r failed = fail 500 "internal"

abbrev pub settle : {A : Type 0} → (DirectoryError → Reply) → Result DirectoryError A → Step Reply A
settle on (ok a) = next a
settle on (err e) = reply (on e)

-- A call that reads.
unfoldable pub ask :
    {A : Type 0} → Outcome → (DirectoryError → Reply) → (Directory → Result DirectoryError A) → M A
ask answered on q d = (settle on (q d), d)
ask refused on q d = (reply (on failed), d)
ask lost on q d = (reply (on failed), d)

-- A call that writes.
unfoldable pub act :
    {A : Type 0}
    → Outcome
    → (DirectoryError → Reply)
    → (Directory → Result DirectoryError A × Directory)
    → M A
act answered on q d = (settle on (q d).0, (q d).1)
act refused on q d = (reply (on failed), d)
act lost on q d = (reply (on failed), (q d).1)

-- A row that may not be there.
unfoldable pub ask_maybe :
    {A : Type 0} → Outcome → (Directory → Result DirectoryError A) → M (Option A)
ask_maybe answered q d = (
  elim (q d) [
    | ok a ↦ next (some a)
    | err not_found ↦ next none
    | err duplicate ↦ reply (internal duplicate)
    | err failed ↦ reply (internal failed)
  ],
  d,
)
ask_maybe refused q d = (reply (internal failed), d)
ask_maybe lost q d = (reply (internal failed), d)

-- The value of a chain.
unfoldable pub give : {A : Type 0} → A → M A
give a d = (next a, d)

-- An answer that is read from the directory.
unfoldable pub answer_by : (Directory → Reply) → M (Unit {0})
answer_by f d = (reply (f d), d)

-- ---- the caller ----

-- `Identity`
pub record Identity : Type 0 where
  pub user_id : String
  pub workspace_id : String

abbrev pub api_key_user_prefix : String
api_key_user_prefix = "apikey:"

-- `requireUser`, of the identity that the middleware has put into the context.
unfoldable pub require_user : Option Identity → M Identity
unfolding has_prefix
require_user none d = (reply (fail 401 "unauthorized"), d)
require_user (some id) d =
    if has_prefix api_key_user_prefix id.user_id
    then (reply (fail 403 "user_required"), d)
    else (next id, d)

-- `roleRank`
unfoldable pub role_rank : Role → ℕ
role_rank owner = 3
role_rank admin = 2
role_rank member = 1

-- `requireRole`
unfoldable pub require_role : Outcome → String → String → Role → M (Unit {0})
require_role up ws user least = do
  m ← ask up (on_absent (fail 403 "not_a_member")) (get_membership ws user)
  require (leb (role_rank least) (role_rank m.role)) (fail 403 "insufficient_role")

-- `decodeJSONBody`, of a body that may not decode.
unfoldable pub decoded : {A : Type 0} → Option A → M A
decoded none d = (reply (fail 400 "invalid_body"), d)
decoded (some a) d = (next a, d)
