-- ===== src/Tenancy/Keys/RoundTrip.antt =====
-- services/tenancy/apikeys.go: that a key which is minted is read back.
use aether_edit.Prelude.{String, ◌≡◌, refl, true, false, some, arith, str_eq}
use Prim.Native.String.{◌++◌ as append}
use text.Mathlib.TextLemmas.{nil-append, cons-append}
use aether_edit.Prelude.Text.{has_prefix, trim_prefix, cut, contains}
use aether_edit.Tenancy.Keys.{api_key_prefix, mint_api_key, split_api_key}

cut-append :
    (id rest : String)
    → contains id b'_' ≡ false
    → cut b'_' (append id (append "_" rest)) ≡ some (id, rest)
unfolding cut contains
cut-append String.[] rest h = rw (nil-append, cons-append, nil-append) refl
cut-append (String.◌∷◌ c id) rest h =
    let ih = cut-append id rest in rw cons-append (ground (arith, ih, h))

prefixed :
    (rest : String)
    → (has_prefix api_key_prefix (append api_key_prefix rest) ≡ true)
      × (trim_prefix api_key_prefix (append api_key_prefix rest) ≡ rest)
unfolding has_prefix trim_prefix
prefixed rest = rw (cons-append, cons-append, cons-append, cons-append, nil-append) (refl, refl)

-- `splitAPIKey` reads back the id and the secret of every key that `mintAPIKey` can build: where both
-- are not empty and the id has no underscore.
pub split_api_key-mint_api_key :
    (id secret : String)
    → str_eq id "" ≡ false
    → str_eq secret "" ≡ false
    → contains id b'_' ≡ false
    → split_api_key (mint_api_key id secret) ≡ some (id, secret)
unfolding split_api_key mint_api_key
split_api_key-mint_api_key id secret i s h =
    let (starts, rest) = prefixed (append id (append "_" secret)) in
    ground (arith, i, s, starts, rest, cut-append id secret h)
