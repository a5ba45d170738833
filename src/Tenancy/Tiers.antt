-- ===== src/Tenancy/Tiers.antt =====
-- services/tenancy/tiers.go: the check of the tier file, and exactly what passes it.
use aether_edit.Prelude.{
  String, ◌≡◌, refl, ◌↔◌, inl, inr, Bool, true, false, not, Option, none, some, List, [], ◌∷◌,
  arith, str_eq, Option-cases, Result, Result-cases, ok, ◌>>◌, guard,
}
use aether_edit.Prelude.Float.{Float}
use aether_edit.Prelude.Int.{pos, ltb_ℤ}
use aether_edit.Prelude.Assoc.{Assoc, lookup}
use aether_edit.Tenancy.Quota.{Tier}

-- `TierConfig`; the order of the list is that in which a loop visits the map.
pub record TierConfig (fl : Float) : Type 0 where
  pub default_tier : String
  pub tiers : Assoc (Tier fl)

pub data TierError : Type 0 where
  no_tiers no_default default_undefined : TierError
  empty_name negative_hours negative_storage negative_upload : TierError

-- Whether a map has the key.
abbrev pub has {ℓ} : {A : Type ℓ} → Option A → Bool
has none = false
has (some _) = true

abbrev pub not_empty {ℓ} : {A : Type ℓ} → List A → Bool
not_empty [] = false
not_empty (_ ∷ _) = true

module _ {fl : Float} where
  -- The body of the loop of `validate`.
  unfoldable pub validate_tier : String → Tier fl → Result TierError (Unit {0})
  validate_tier name t = do
    guard (not (str_eq name "")) empty_name
    guard (not (fl.lt t.encode_hours_per_month (fl.of_nat 0))) negative_hours
    guard (not (ltb_ℤ t.storage_bytes (pos 0))) negative_storage
    guard (not (ltb_ℤ t.max_upload_bytes (pos 0))) negative_upload

  unfoldable pub validate_tiers : Assoc (Tier fl) → Result TierError (Unit {0})
  validate_tiers [] = ok tt
  validate_tiers ((name, t) ∷ rest) = validate_tier name t >> validate_tiers rest

  -- `validate`
  unfoldable pub validate_config : TierConfig fl → Result TierError (Unit {0})
  unfolding lookup
  validate_config c = do
    guard (not_empty c.tiers) no_tiers
    guard (not (str_eq c.default_tier "")) no_default
    guard (has (lookup c.default_tier c.tiers)) default_undefined
    validate_tiers c.tiers

  -- A tier that is named and has no negative limit.
  abbrev pub IsLimited : String → Tier fl → Type 0
  IsLimited name t =
      (str_eq name "" ≡ false)
      × (fl.lt t.encode_hours_per_month (fl.of_nat 0) ≡ false)
      × (ltb_ℤ t.storage_bytes (pos 0) ≡ false)
      × (ltb_ℤ t.max_upload_bytes (pos 0) ≡ false)

  unfoldable pub AllLimited : Assoc (Tier fl) → Type 0
  AllLimited [] = Unit
  AllLimited ((name, t) ∷ rest) = IsLimited name t × AllLimited rest

  validate_tier_iff :
      (name : String) (t : Tier fl) → (validate_tier name t ≡ ok tt) ↔ IsLimited name t
  unfolding validate_tier
  validate_tier_iff name t = (λ h. ground (arith, h), λ h. ground (arith, h))

  validate_tiers_iff : (ts : Assoc (Tier fl)) → (validate_tiers ts ≡ ok tt) ↔ AllLimited ts
  unfolding validate_tiers AllLimited
  validate_tiers_iff [] = (λ h. tt, λ h. refl)
  validate_tiers_iff ((name, t) ∷ rest) =
      let one = validate_tier_iff name t in
      let others = validate_tiers_iff rest in
      (
        λ h. elim (Result-cases (validate_tier name t)) [
          | inl (u, e) ↦ (one.0 e, others.0 (ground (arith, e, h)))
          | inr (u, e) ↦ ground (arith, e, h)
        ],
        λ (a, b). let e = one.1 a in let f = others.1 b in ground (arith, e, f),
      )

  defined_tier :
      (name : String) (ts : Assoc (Tier fl)) (t : Tier fl)
      → lookup name ts ≡ some t
      → not_empty ts ≡ true
  unfolding lookup
  defined_tier name [] t h = ground (arith, h)
  defined_tier name (x ∷ rest) t h = ground arith

  -- A tier file passes the check exactly if its default tier has a name and is defined, and every tier
  -- has a name and no negative limit.
  pub validate_config_iff :
      (c : TierConfig fl)
      → (validate_config c ≡ ok tt) ↔ (
          (str_eq c.default_tier "" ≡ false)
          × ((t : Tier fl) × (lookup c.default_tier c.tiers ≡ some t))
          × AllLimited c.tiers)
  unfolding validate_config
  validate_config_iff c = (
    (λ h. elim (Option-cases (lookup c.default_tier c.tiers)) [
      | inl e ↦ ground (arith, e, h)
      | inr (t, e) ↦
          (ground (arith, h), (t, e), (validate_tiers_iff c.tiers).0 (ground (arith, e, h)))
    ]),
    (λ (named, (t, e), all).
        let some_tier = defined_tier c.default_tier c.tiers t e in
        ground (arith, named, e, some_tier, (validate_tiers_iff c.tiers).1 all)),
  )
