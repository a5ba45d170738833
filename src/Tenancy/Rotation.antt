-- ===== src/Tenancy/Rotation.antt =====
-- services/tenancy: the rows of a family of refresh tokens under the writes of the store.
pub mod Requests
pub mod Exchange
pub mod Runs
pub mod Reuse
use aether_edit.Prelude.{
  ℕ, zero, suc, ◌+◌, ◌-◌, ◌*◌, ◌/◌, ◌%◌, ◌^◌, ◌≤◌, ◌<◌, String, ◌≡◌, refl, sym, ap, ◌∙◌, subst, ◌≢◌,
  ◌↔◌, ◌⊎◌, inl, inr, Bool, true, false, not, ◌&&◌, ◌||◌, Option, none, some, List, [], ◌∷◌, ◌++◌,
  map, arith, str_eq, eq_iff, ltb, leb, ◌==◌, if◌then◌else◌, ltb→lt, lt→ltb, leb→le, ==_iff, tests,
  Bool-cases, Option-cases, length, get_elem?, set, length-append, get_or, take, drop, replicate,
  Result, Result-cases, ok, err, guard,
}
use aether_edit.Prelude.Table.{select_first, count_where, update_where}
use aether_edit.Prelude.Counting.{
  both, count_where-both, count_where-update_where_same, count_where-update_where_loss,
  count_where-select_first-some, count_where_le,
}
use aether_edit.Tenancy.Directory.{RefreshToken, Directory}
use aether_edit.Tenancy.Credentials.{
  unset, unused_at, used, live_in, revoked, get_refresh_token_by_hash,
}

abbrev pub of_family : String → RefreshToken → Bool
of_family family t = str_eq t.family_id family

-- A token that can still be exchanged.
abbrev pub usable_in : String → RefreshToken → Bool
usable_in family t = str_eq t.family_id family && (unset t.revoked_at && unset t.used_at)

abbrev pub rows : String → List RefreshToken → ℕ
rows family ts = count_where (of_family family) ts

abbrev pub live : String → List RefreshToken → ℕ
live family ts = count_where (live_in family) ts

abbrev pub usable : String → List RefreshToken → ℕ
usable family ts = count_where (usable_in family) ts

-- What every request does to a family: one token at most can be exchanged, a family that was revoked
-- stays so, and no row goes.
pub record Rotates (family : String) (ts us : List RefreshToken) : Type 0 where
  pub single : usable family ts ≤ 1 → usable family us ≤ 1
  pub ended : 1 ≤ rows family ts → live family ts ≡ 0 → live family us ≡ 0
  pub kept : rows family ts ≤ rows family us

pub same_tokens-Rotates :
    (family : String) (ts us : List RefreshToken) → us ≡ ts → Rotates family ts us
same_tokens-Rotates family ts us h =
    subst (Rotates family ts) (sym h)
      (record { single = λ x. x; ended = λ _ x. x; kept = omega arith })

-- `mark_refresh_token_used` on the rows.
abbrev pub mark : String → ℕ → List RefreshToken → List RefreshToken
mark id at ts = update_where (unused_at id) (used at) ts

-- `revoke_refresh_family` on the rows.
abbrev pub revoke : String → ℕ → List RefreshToken → List RefreshToken
revoke family at ts = update_where (live_in family) (revoked at) ts

usable_of_used :
    (family : String) (at : ℕ) (t : RefreshToken) → usable_in family (used at t) ≡ false
usable_of_used family at t = ground arith

usable_of_revoked :
    (family : String) (at : ℕ) (t : RefreshToken) → usable_in family (revoked at t) ≡ false
usable_of_revoked family at t = ground arith

live_of_revoked :
    (family : String) (at : ℕ) (t : RefreshToken) → live_in family (revoked at t) ≡ false
live_of_revoked family at t = ground arith

pub mark-Rotates :
    (family id : String) (at : ℕ) (ts : List RefreshToken) → Rotates family ts (mark id at ts)
mark-Rotates family id at ts =
    let u =
      count_where-update_where_loss (unused_at id) (usable_in family) (used at) ts
        (usable_of_used family at) in
    let l =
      count_where-update_where_same (unused_at id) (live_in family) (used at) ts (λ _. refl) in
    let r =
      count_where-update_where_same (unused_at id) (of_family family) (used at) ts (λ _. refl) in
    record {
      single = λ h. omega (arith, h, u);
      ended = λ _ h. omega (arith, h, l);
      kept = omega (arith, r);
    }

pub revoke-Rotates :
    (family other : String) (at : ℕ) (ts : List RefreshToken)
    → Rotates family ts (revoke other at ts)
revoke-Rotates family other at ts =
    let u =
      count_where-update_where_loss (live_in other) (usable_in family) (revoked at) ts
        (usable_of_revoked family at) in
    let l =
      count_where-update_where_loss (live_in other) (live_in family) (revoked at) ts
        (live_of_revoked family at) in
    let r =
      count_where-update_where_same (live_in other) (of_family family) (revoked at) ts
        (λ _. refl) in
    record {
      single = λ h. omega (arith, h, u);
      ended = λ _ h. omega (arith, h, l);
      kept = omega (arith, r);
    }

-- A revoked family has no live row.
pub revoke_lem :
    (family : String) (at : ℕ) (ts : List RefreshToken) → live family (revoke family at ts) ≡ 0
revoke_lem family at ts =
    let l =
      count_where-update_where_loss (live_in family) (live_in family) (revoked at) ts
        (live_of_revoked family at) in
    let b =
      count_where_le (live_in family) (both (live_in family) (live_in family)) ts
        (λ x h. ground (arith, h)) in
    omega (arith, l, b)

-- A new row of a family that has none.
pub fresh-Rotates :
    (family : String) (t : RefreshToken) (ts : List RefreshToken)
    → rows t.family_id ts ≡ 0
    → Rotates family ts (t ∷ ts)
unfolding count_where
fresh-Rotates family t ts fresh =
    let u = count_where_le (usable_in family) (of_family family) ts (λ x h. ground (arith, h)) in
    record {
      single = λ h. elim (Bool-cases (str_eq t.family_id family)) [
        | inl e ↦
            let none_yet = subst (λ f. rows f ts ≡ 0) ((eq_iff t.family_id family).0 e) fresh in
            ground (arith, u, none_yet, h)
        | inr e ↦ ground (arith, e, h)
      ];
      ended = λ some_row h. elim (Bool-cases (str_eq t.family_id family)) [
        | inl e ↦
            let none_yet = subst (λ f. rows f ts ≡ 0) ((eq_iff t.family_id family).0 e) fresh in
            ground (arith, none_yet, some_row)
        | inr e ↦ ground (arith, e, h)
      ];
      kept = ground arith;
    }

-- A token of the rows is exchanged for a new one of its family.
pub exchange-Rotates :
    (family : String) (p : RefreshToken → Bool) (t n : RefreshToken) (at : ℕ)
    (ts : List RefreshToken)
    → select_first p ts ≡ some t
    → unset t.revoked_at ≡ true
    → unset t.used_at ≡ true
    → n.family_id ≡ t.family_id
    → Rotates family ts (n ∷ mark t.id at ts)
unfolding count_where
exchange-Rotates family p t n at ts found r u same =
    let m = mark-Rotates family t.id at ts in
    let one : (str_eq t.family_id family ≡ true)
        → 1 ≤ count_where (both (unused_at t.id) (usable_in family)) ts =
      λ e.
        count_where-select_first-some p (both (unused_at t.id) (usable_in family)) ts t found
          (ground (arith, e, r, u, eq_iff t.id t.id)) in
    let open_one : (str_eq t.family_id family ≡ true) → 1 ≤ live family ts =
      λ e. count_where-select_first-some p (live_in family) ts t found (ground (arith, e, r)) in
    let loss =
      count_where-update_where_loss (unused_at t.id) (usable_in family) (used at) ts
        (usable_of_used family at) in
    record {
      single = λ h. elim (Bool-cases (str_eq t.family_id family)) [
        | inl e ↦ let o = one e in ground (arith, o, loss, h)
        | inr e ↦
            let other = subst (λ f. str_eq f family ≡ false) (sym same) e in
            let k = m.single h in ground (arith, other, k)
      ];
      ended = λ some_row h. elim (Bool-cases (str_eq t.family_id family)) [
        | inl e ↦ let o = open_one e in ground (arith, o, h)
        | inr e ↦
            let other = subst (λ f. str_eq f family ≡ false) (sym same) e in
            let k = m.ended some_row h in ground (arith, other, k)
      ];
      kept = let k = m.kept in ground (arith, k);
    }
