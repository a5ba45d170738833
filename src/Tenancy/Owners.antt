-- ===== src/Tenancy/Owners.antt =====
-- services/tenancy: who owns a workspace, over everything that the API can be asked.
pub mod Calls
pub mod Roles
use aether_edit.Prelude.{
  ℕ, zero, suc, ◌+◌, ◌-◌, ◌*◌, ◌/◌, ◌%◌, ◌^◌, ◌≤◌, ◌<◌, String, ◌≡◌, refl, sym, ap, ◌∙◌, subst, ◌≢◌,
  ◌↔◌, ◌⊎◌, inl, inr, Bool, true, false, not, ◌&&◌, ◌||◌, Option, none, some, List, [], ◌∷◌, ◌++◌,
  map, arith, str_eq, eq_iff, ltb, leb, ◌==◌, if◌then◌else◌, ltb→lt, lt→ltb, leb→le, ==_iff, tests,
  Bool-cases, Option-cases, length, get_elem?, set, length-append, get_or, take, drop, replicate,
  Result, Result-cases, ok, err, guard,
}
use aether_edit.Prelude.Table.{select_first, count_where, update_where, delete_where}
use aether_edit.Prelude.Counting.{
  both, count_where-both, count_where-update_where, count_where-update_where_same,
  count_where-update_where_gain, count_where-delete_where, count_where-select_first,
  count_where_none, count_where-append, count_where-select_first-none,
}
use aether_edit.Tenancy.{Workspace}
use aether_edit.Tenancy.Directory.{Role, owner, admin, member, is_owner, Membership, Directory}
use aether_edit.Tenancy.Follows.{Law}
use aether_edit.Tenancy.Memberships.{
  at_key, owns, with_role, count_owners, add_member, create_workspace, update_member_role,
  remove_member, get_membership,
}

-- The primary key of the memberships.
abbrev pub IsKeyed : Directory → Type 0
IsKeyed d = (ws user : String) → count_where (at_key ws user) d.members ≤ 1

-- What every request does to the memberships.
pub record Kept (d e : Directory) : Type 0 where
  pub keyed : IsKeyed d → IsKeyed e
  pub owned : IsKeyed d → (ws : String) → 0 < count_owners ws d → 0 < count_owners ws e

pub Kept-refl : (d : Directory) → Kept d d
Kept-refl d = record { keyed = λ k. k; owned = λ k ws h. h }

pub Kept-trans : (d e f : Directory) → Kept d e → Kept e f → Kept d f
Kept-trans d e f a b = record {
  keyed = λ k. b.keyed (a.keyed k);
  owned = λ k ws h. b.owned (a.keyed k) ws (a.owned k ws h);
}

abbrev pub owners_law : Law
owners_law = record { R = Kept; stays = Kept-refl; chains = Kept-trans }

-- The other tables do not matter.
pub same_members-Kept : (d e : Directory) → e.members ≡ d.members → Kept d e
unfolding count_owners
same_members-Kept d e h = record {
  keyed = λ k ws user. subst (λ ms. count_where (at_key ws user) ms ≤ 1) (sym h) (k ws user);
  owned = λ k ws g. subst (λ ms. 0 < count_where (owns ws) ms) (sym h) g;
}

no_owner_elsewhere :
    (ws user other : String) (ms : List Membership)
    → ws ≢ other
    → count_where (both (at_key ws user) (owns other)) ms ≡ 0
no_owner_elsewhere ws user other ms differ =
    count_where_none (both (at_key ws user) (owns other)) ms
      (λ m. ground (arith, differ, eq_iff m.workspace_id ws, eq_iff m.workspace_id other))

-- The owners that go are at most those at the key.
update_owners :
    (ws user other : String) (r : Role) (d : Directory)
    → count_owners other d
      ≤ count_owners other (update_member_role ws user r d).1
        + count_where (both (at_key ws user) (owns other)) d.members
unfolding count_owners update_member_role
update_owners ws user other r d =
    ground (arith, count_where-update_where (at_key ws user) (owns other) (with_role r) d.members)

remove_owners :
    (ws user other : String) (d : Directory)
    → count_owners other d
      ≤ count_owners other (remove_member ws user d).1
        + count_where (both (at_key ws user) (owns other)) d.members
unfolding count_owners remove_member
remove_owners ws user other d =
    ground (arith, count_where-delete_where (at_key ws user) (owns other) d.members)

-- A member who is no owner takes none away, and any member takes at most one.
own_loss :
    (ws user : String) (d : Directory) (m : Membership)
    → IsKeyed d
    → get_membership ws user d ≡ ok m
    → (count_where (both (at_key ws user) (owns ws)) d.members ≤ 1)
      × ((is_owner m.role ≡ true) ⊎ (count_where (both (at_key ws user) (owns ws)) d.members ≡ 0))
unfolding get_membership
own_loss ws user d m k e =
    let one = k ws user in
    let most = count_where-both (at_key ws user) (owns ws) d.members in
    let first = count_where-select_first (at_key ws user) (owns ws) d.members m one in
    (ground (arith, one, most), ground (arith, e, first))

-- To make an owner takes none away.
promoted :
    (ws user : String) (r : Role) (d : Directory)
    → is_owner r ≡ true
    → count_owners ws d ≤ count_owners ws (update_member_role ws user r d).1
unfolding count_owners update_member_role
promoted ws user r d o =
    let gain =
      count_where-update_where_gain (at_key ws user) (owns ws) (with_role r) d.members
        (λ m h. ground (arith, o, h)) in
    ground (arith, gain)

-- An owner may only go where another one stays.
abbrev pub IsSpared : String → Bool → Directory → Type 0
IsSpared ws loses d = (loses ≡ false) ⊎ (1 < count_owners ws d)

-- From the loss at the workspace and at the others to every workspace.
everywhere :
    (ws user : String) (d e : Directory)
    → ((other : String)
        → count_owners other d
          ≤ count_owners other e + count_where (both (at_key ws user) (owns other)) d.members)
    → (0 < count_owners ws d → 0 < count_owners ws e)
    → (other : String) → 0 < count_owners other d
    → 0 < count_owners other e
everywhere ws user d e loss here other h = elim (Bool-cases (str_eq ws other)) [
  | inl same ↦
      let eq : ws ≡ other = (eq_iff ws other).0 same in
      subst (λ w. 0 < count_owners w e) eq (here (subst (λ w. 0 < count_owners w d) (sym eq) h))
  | inr differ ↦
      let l = loss other in
      let none_here = no_owner_elsewhere ws user other d.members in
      ground (arith, h, l, differ, eq_iff ws other, none_here)
]

pub update_member_role-Kept :
    (ws user : String) (r : Role) (d : Directory) (m : Membership)
    → get_membership ws user d ≡ ok m
    → IsSpared ws (is_owner m.role && not (is_owner r)) d
    → Kept d (update_member_role ws user r d).1
unfolding update_member_role
update_member_role-Kept ws user r d m e spared = record {
  keyed = λ k w u.
      let same =
        count_where-update_where_same (at_key ws user) (at_key w u) (with_role r) d.members
          (λ _. refl) in
      let one = k w u in ground (arith, same, one);
  owned = λ k.
      everywhere ws user d (update_member_role ws user r d).1
        (λ other. update_owners ws user other r d)
        (λ h. ground (
          arith,
          h,
          spared,
          own_loss ws user d m k e,
          update_owners ws user ws r d,
          promoted ws user r d,
        ));
}

pub remove_member-Kept :
    (ws user : String) (d : Directory) (m : Membership)
    → get_membership ws user d ≡ ok m
    → IsSpared ws (is_owner m.role) d
    → Kept d (remove_member ws user d).1
unfolding remove_member
remove_member-Kept ws user d m e spared = record {
  keyed = λ k w u.
      let loss = count_where-delete_where (at_key ws user) (at_key w u) d.members in
      let one = k w u in ground (arith, loss, one);
  owned = λ k.
      everywhere ws user d (remove_member ws user d).1 (λ other. remove_owners ws user other d)
        (λ h. ground (arith, h, spared, own_loss ws user d m k e, remove_owners ws user ws d));
}

-- A row at a key that is free.
joined-Kept :
    (d e : Directory) (m : Membership)
    → select_first (at_key m.workspace_id m.user_id) d.members ≡ none
    → e.members ≡ d.members ++ m ∷ []
    → Kept d e
unfolding count_owners
joined-Kept d e m free h = record {
  keyed = λ k w u.
      subst (λ ms. count_where (at_key w u) ms ≤ 1) (sym h)
        (ground (
          arith,
          k w u,
          count_where-append (at_key w u) d.members m,
          count_where-select_first-none (at_key m.workspace_id m.user_id) d.members free,
          eq_iff m.workspace_id w,
          eq_iff m.user_id u,
        ));
  owned = λ k w g.
      subst (λ ms. 0 < count_where (owns w) ms) (sym h)
        (ground (arith, g, count_where-append (owns w) d.members m));
}

pub add_member-Kept : (m : Membership) (d : Directory) → Kept d (add_member m d).1
unfolding add_member
add_member-Kept m d =
    elim (Option-cases (select_first (at_key m.workspace_id m.user_id) d.members)) [
      | inl free ↦ joined-Kept d (add_member m d).1 m free (ground (arith, free))
      | inr (_, taken) ↦ same_members-Kept d (add_member m d).1 (ground (arith, taken))
    ]

pub create_workspace-Kept :
    (ws : Workspace) (user : String) (d : Directory) → Kept d (create_workspace ws user d).1
unfolding create_workspace
create_workspace-Kept ws user d =
    elim (Option-cases (select_first (λ w. str_eq w.id ws.id) d.workspaces)) [
      | inr (_, taken) ↦ same_members-Kept d (create_workspace ws user d).1 (ground (arith, taken))
      | inl fresh ↦ elim (Option-cases (select_first (at_key ws.id user) d.members)) [
        | inl free ↦
            joined-Kept d (create_workspace ws user d).1
              (record { workspace_id = ws.id; user_id = user; role = owner }) free
              (ground (arith, fresh, free))
        | inr (_, taken) ↦
            same_members-Kept d (create_workspace ws user d).1 (ground (arith, fresh, taken))
      ]
    ]
