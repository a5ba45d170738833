-- ===== src/Tenancy/TokenTests.antt =====
-- services/tenancy: concrete refresh tokens and API keys.
use aether_edit.Prelude.{◌≤◌, String, ◌≡◌, refl, ◌≢◌, false, none, some, [], ◌∷◌, arith, str_eq, ok}
use aether_edit.Prelude.Table.{select_first, count_where, update_where}
use aether_edit.Prelude.Steps.{next, require, answer, ◌>>=◌, ◌>>◌}
use aether_edit.Prelude.Text.{has_prefix, trim_prefix, cut, contains}
use aether_edit.Tenancy.Directory.{RefreshToken, ApiKey, Directory}
use aether_edit.Tenancy.Credentials.{get_refresh_token_by_hash, revoke_refresh_family, get_api_key}
use aether_edit.Tenancy.Access.{answered, lost, refused, ask, act}
use aether_edit.Tenancy.Keys.{KeyCalls, mint_api_key, split_api_key, verify_api_key_string}
use aether_edit.Tenancy.Keys.RoundTrip.{split_api_key-mint_api_key}
use aether_edit.Tenancy.Keys.Revocation.{serve_all-verify_api_key_string}
use aether_edit.Tenancy.Sessions.{SessionCalls, token_invalid, Draw}
use aether_edit.Tenancy.Refresh.{body, take_refresh_token, of_cookie, admit_token, handle_refresh}
use aether_edit.Tenancy.Service.{Server, Request, refresh, serve, serve_all}
use aether_edit.Tenancy.Directory.{User, member, get_user}
use aether_edit.Prelude.Steps.{reply, need}
use aether_edit.Tenancy.Memberships.{get_membership}
use aether_edit.Tenancy.Credentials.{mark_refresh_token_used, create_refresh_token}
use aether_edit.Tenancy.Access.{session}
use aether_edit.Tenancy.Sessions.{issue_session}
use aether_edit.Tenancy.Scope.{Scoped}
use aether_edit.Tenancy.Scope.Requests.{serve-Scoped}
use aether_edit.Tenancy.Rotation.{usable}
use aether_edit.Tenancy.Rotation.Runs.{DrawsFresh, IsFresh, serve_all-usable}
use aether_edit.Tenancy.Rotation.Reuse.{Sessionless, serve_all-Sessionless}

abbrev server : Server
server = record {
  issuer = record {
    mint = λ user ws. some user;
    hash = λ raw. raw;
    default_tier = "free";
    refresh_ttl = 100;
    lower = λ c. c;
  };
  check = λ secret hash. some (str_eq secret hash);
  verify = λ user. none;
  provider = λ ls code. token_invalid;
}

abbrev up : SessionCalls
up = record {
  login = answered;
  upsert = answered;
  create = answered;
  activate = answered;
  user = answered;
  membership = answered;
  token = answered;
  mark = lost;
  revoke = answered;
  insert = answered;
}

abbrev draw : Draw
draw = record {
  user_id = "u2";
  workspace_id = "w2";
  family_id = "g";
  token_id = "i3";
  raw = some "r3";
  now = 7;
  later = 7;
}

-- A token of the family that was exchanged, and the one that it was exchanged for.
abbrev first : RefreshToken
first = record {
  id = "i1";
  user_id = "u";
  family_id = "f";
  token_hash = "r1";
  expires_at = 50;
  used_at = some 3;
  revoked_at = none;
}

abbrev second : RefreshToken
second = record {
  id = "i2";
  user_id = "u";
  family_id = "f";
  token_hash = "r2";
  expires_at = 90;
  used_at = none;
  revoked_at = none;
}

abbrev ended_key : ApiKey
ended_key = record {
  id = "k";
  workspace_id = "w";
  name = "ci";
  secret_hash = "s";
  created_by = "u";
  last_used_at = none;
  revoked_at = some 2;
}

abbrev start : Directory
start = record {
  users = [];
  workspaces = [];
  members = [];
  tokens = second ∷ first ∷ [];
  logins = [];
  keys = ended_key ∷ [];
}

abbrev exchange : Request
exchange = refresh up draw (body "r2") ""

abbrev reuse : Request
reuse = refresh up draw (body "r1") ""

start-IsFresh : IsFresh server (exchange ∷ []) start
unfolding IsFresh DrawsFresh count_where
start-IsFresh = (refl, tt)

start_usable : (family : String) → usable family start.tokens ≤ 1
unfolding count_where
start_usable family = ground arith

serve_all-usable_example : usable "f" (serve_all server (exchange ∷ []) start).tokens ≤ 1
serve_all-usable_example =
    serve_all-usable server (exchange ∷ []) start start-IsFresh start_usable "f"

reuse-IsFresh : IsFresh server (reuse ∷ []) start
unfolding IsFresh DrawsFresh count_where
reuse-IsFresh = (refl, tt)

first_found : get_refresh_token_by_hash "r1" start ≡ ok first
unfolding get_refresh_token_by_hash select_first
first_found = refl

named :
    (secret : String) (d : Directory)
    → str_eq secret "" ≡ false
    → (take_refresh_token (body secret) "" d).0 ≡ next secret
unfolding take_refresh_token
named secret d h = ground (arith, h)

second_found :
    get_refresh_token_by_hash "r2" (serve_all server (reuse ∷ []) start)
    ≡ ok (record second { revoked_at = some 7 })
unfolding get_refresh_token_by_hash select_first serve_all serve handle_refresh take_refresh_token
    of_cookie ask act admit_token answer require ◌>>=◌ ◌>>◌ revoke_refresh_family update_where
second_found = refl

serve_all-Sessionless_example :
    Sessionless
      (handle_refresh up server.issuer draw (body "r2") "" (serve_all server (reuse ∷ []) start)).0
serve_all-Sessionless_example =
    serve_all-Sessionless server up up draw draw (body "r1") (body "r2") "" "" "r1" "r2" first
      (record second { revoked_at = some 7 }) [] start refl refl (named "r1" start refl) first_found
      refl refl reuse-IsFresh (named "r2" (serve_all server (reuse ∷ []) start) refl) second_found
      refl

plain : contains "a-1" b'_' ≡ false
unfolding contains
plain = refl

split_api_key-mint_api_key_example : split_api_key (mint_api_key "a-1" "s_2") ≡ some ("a-1", "s_2")
split_api_key-mint_api_key_example = split_api_key-mint_api_key "a-1" "s_2" refl refl plain

abbrev key_calls : KeyCalls
key_calls = record { get = answered; touch = refused }

ended_key_found : get_api_key "k" start ≡ ok ended_key
unfolding get_api_key select_first
ended_key_found = refl

split : split_api_key "aek_k_s" ≡ some ("k", "s")
unfolding split_api_key has_prefix trim_prefix cut
split = refl

serve_all-verify_api_key_string_example :
    (verify_api_key_string key_calls server.check "aek_k_s" 9
      (serve_all server (exchange ∷ []) start)).0
    ≢ ok ended_key
serve_all-verify_api_key_string_example =
    serve_all-verify_api_key_string server (exchange ∷ []) key_calls "aek_k_s" "k" "s" 9 ended_key
      ended_key start ended_key_found refl split

abbrev ann : User
ann = record { id = "u"; google_sub = "g"; email = "a@x"; name = "Ann"; active_workspace_id = "w" }

abbrev working : SessionCalls
working = record up { mark = answered }

abbrev at_work : Directory
at_work = record start {
  users = ann ∷ [];
  members = record { workspace_id = "w"; user_id = "u"; role = member } ∷ [];
}

exchanged :
    (serve server (refresh working draw (body "r2") "") at_work).0 ≡ reply (session "u" "r3" ann)
unfolding serve handle_refresh take_refresh_token of_cookie ask act admit_token require answer ◌>>=◌
    ◌>>◌ mark_refresh_token_used get_user issue_session need create_refresh_token get_membership
    get_refresh_token_by_hash select_first update_where count_where
exchanged = refl

serve-Scoped_example :
    Scoped server.issuer
      (session "u" "r3" ann)
      (serve server (refresh working draw (body "r2") "") at_work).1
serve-Scoped_example =
    serve-Scoped server (refresh working draw (body "r2") "") at_work (session "u" "r3" ann)
      exchanged
