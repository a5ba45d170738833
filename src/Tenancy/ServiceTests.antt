-- ===== src/Tenancy/ServiceTests.antt =====
-- services/tenancy: concrete requests.
use aether_edit.Prelude.{
  ◌<◌, String, ◌≡◌, sym, ◌∙◌, ◌⊎◌, inl, inr, false, some, List, [], ◌∷◌, arith, str_eq, eq_iff,
  Bool-cases,
}
use Prim.Native.String.{◌++◌ as append}
use aether_edit.Prelude.Table.{count_where}
use aether_edit.Prelude.Text.{has_prefix}
use aether_edit.Tenancy.Access.{Identity, api_key_user_prefix}
use aether_edit.Tenancy.Service.{dispatch}
use aether_edit.Tenancy.Authority.{Entitled}
use aether_edit.Tenancy.Authority.Requests.{dispatch-Entitled}
use aether_edit.Tenancy.Directory.{owner, Directory}
use aether_edit.Tenancy.Memberships.{count_owners}
use aether_edit.Tenancy.Access.{answered, lost}
use aether_edit.Tenancy.Members.{Calls}
use aether_edit.Tenancy.Keys.{KeyCalls}
use aether_edit.Tenancy.Sessions.{verified}
use aether_edit.Tenancy.Service.{
  Server, ApiRequest, remove_member, update_member_role, Request, api, serve_all,
}
use aether_edit.Tenancy.Owners.{IsKeyed}
use aether_edit.Tenancy.Custody.{serve_all-count_owners}

-- ---- the owners ----

abbrev server : Server
server = record {
  issuer = record {
    mint = λ user ws. some user;
    hash = λ raw. raw;
    default_tier = "free";
    refresh_ttl = 100;
    lower = λ c. c;
  };
  check = λ secret hash. some (str_eq secret hash);
  verify = λ user. some (record { user_id = user; workspace_id = "w" });
  provider = λ ls code. verified (record { subject = code; email = "a@x"; name = "A" });
}

abbrev up : Calls
up = record {
  user = answered;
  workspace = answered;
  role = answered;
  membership = answered;
  owners = answered;
  list = answered;
  write = lost;
}

abbrev key_calls : KeyCalls
key_calls = record { get = answered; touch = answered }

abbrev by : String → ApiRequest → Request
by user req =
    api key_calls (record { authorization = append "Bearer " user; x_api_key = "" }) 7 up req

abbrev start : Directory
start = record {
  users = [];
  workspaces = record { id = "w"; name = "W"; plan_tier = "free"; created_by = "u" } ∷ [];
  members =
      record { workspace_id = "w"; user_id = "u"; role = owner }
      ∷ record { workspace_id = "w"; user_id = "v"; role = owner }
      ∷ [];
  tokens = [];
  logins = [];
  keys = [];
}

-- Both owners go, one after the other: the second one cannot.
abbrev leaving : List Request
leaving =
    by "u" (remove_member "w" "u")
    ∷ by "v" (remove_member "w" "v")
    ∷ by "v" (update_member_role "w" "v" (some "member"))
    ∷ []

two_users : (user : String) → (str_eq "u" user ≡ false) ⊎ (str_eq "v" user ≡ false)
two_users user = elim (Bool-cases (str_eq "u" user)) [
  | inr a ↦ inl a
  | inl a ↦ elim (Bool-cases (str_eq "v" user)) [
    | inr b ↦ inr b
    | inl b ↦
        let clash = (eq_iff "u" "v").1 ((eq_iff "u" user).0 a ∙ sym ((eq_iff "v" user).0 b)) in
        ground (arith, clash)
  ]
]

start-IsKeyed : IsKeyed start
unfolding count_where
start-IsKeyed ws user = elim (two_users user) [
  | inl a ↦ ground (arith, a)
  | inr b ↦ ground (arith, b)
]

start_owned : 0 < count_owners "w" start
unfolding count_owners count_where
start_owned = omega arith

serve_all-count_owners_example :
    IsKeyed (serve_all server leaving start)
    × (0 < count_owners "w" (serve_all server leaving start))
serve_all-count_owners_example =
    serve_all-count_owners server leaving start "w" start-IsKeyed start_owned

abbrev plain_user : Identity
plain_user = record { user_id = "u"; workspace_id = "w" }

dispatch-Entitled_example :
    ((dispatch server up 7 (remove_member "w" "v") (some plain_user) start).1.members
      ≡ start.members)
    ⊎ ((has_prefix api_key_user_prefix "u" ≡ false) × Entitled start "u" (remove_member "w" "v"))
dispatch-Entitled_example = dispatch-Entitled server up 7 (remove_member "w" "v") plain_user start
