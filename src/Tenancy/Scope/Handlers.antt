-- ===== src/Tenancy/Scope/Handlers.antt =====
-- services/tenancy: that the handlers of workspaces.go and apikeys.go, and the middleware, answer with no
-- access token but that of a switch to a workspace of the caller's.
use aether_edit.Prelude.{
  ℕ, String, ◌≡◌, refl, sym, subst, inl, inr, Bool, true, false, Option, some, arith, str_eq,
  eq_iff, ltb, Bool-cases, Result, ok,
}
use Prim.Native.Char.{Char}
use aether_edit.Prelude.Table.{count_where}
use aether_edit.Prelude.Steps.{
  Step, reply, then_path, and_both, need_reads, need_next, need_reply, answer, need, ◌>>=◌, ◌>>◌,
}
use aether_edit.Tenancy.{Workspace}
use aether_edit.Tenancy.Directory.{
  Role, Membership, Directory, DirectoryError, set_active_workspace,
}
use aether_edit.Tenancy.Memberships.{get_membership, get_workspace}
use aether_edit.Tenancy.Access.{
  Reply, fail, switched, Outcome, internal, on_absent, ask, act, Identity, require_role,
}
use aether_edit.Tenancy.Members.{
  Calls, AddMemberRequest, spare_owner, handle_me, handle_create_workspace, handle_list_workspaces,
  handle_active_workspace, handle_switch_workspace, handle_list_members, handle_add_member,
  handle_update_member_role, handle_remove_member,
}
use aether_edit.Tenancy.Keys.{
  KeyCalls, handle_create_api_key, handle_list_api_keys, handle_revoke_api_key, by_key,
  authenticate,
}
use aether_edit.Tenancy.Sessions.{Issuer}
use aether_edit.Prelude.Selecting.{select_first_lem}
use aether_edit.Tenancy.Follows.{ask_reads, ask_found, ask_reply, act_reply, act_next}
use aether_edit.Tenancy.Scope.{Scoped, Sound, sound, same_reply, fail-Scoped, on_absent-Scoped}

module _ (issuer : Issuer) where
  require_role-Sound :
      (up : Outcome) (ws user : String) (least : Role)
      → Sound issuer (require_role up ws user least)
  unfolding require_role
  require_role-Sound up ws user least = search sound depth 9

  spare_owner-Sound : (up : Outcome) (ws : String) (b : Bool) → Sound issuer (spare_owner up ws b)
  unfolding spare_owner
  spare_owner-Sound up ws false = search sound depth 9
  spare_owner-Sound up ws true = search sound depth 9

ruleset shared = (sound, require_role-Sound, spare_owner-Sound)

module _ (issuer : Issuer) where
  pub handle_me-Sound : (up : Calls) (who : Option Identity) → Sound issuer (handle_me up who)
  unfolding handle_me
  handle_me-Sound up who = search shared depth 24

  pub handle_create_workspace-Sound :
      (up : Calls) (fresh tier : String) (name : Option String) (who : Option Identity)
      → Sound issuer (handle_create_workspace up fresh tier name who)
  unfolding handle_create_workspace
  handle_create_workspace-Sound up fresh tier name who = search shared depth 24

  pub handle_list_workspaces-Sound :
      (up : Calls) (who : Option Identity) → Sound issuer (handle_list_workspaces up who)
  unfolding handle_list_workspaces
  handle_list_workspaces-Sound up who = search shared depth 24

  pub handle_active_workspace-Sound :
      (up : Calls) (who : Option Identity) → Sound issuer (handle_active_workspace up who)
  unfolding handle_active_workspace
  handle_active_workspace-Sound up who = search shared depth 24

  pub handle_list_members-Sound :
      (up : Calls) (ws : String) (who : Option Identity)
      → Sound issuer (handle_list_members up ws who)
  unfolding handle_list_members
  handle_list_members-Sound up ws who = search shared depth 24

  pub handle_add_member-Sound :
      (up : Calls) (lower : Char → Char) (ws : String) (req : Option AddMemberRequest)
      (who : Option Identity)
      → Sound issuer (handle_add_member up lower ws req who)
  unfolding handle_add_member
  handle_add_member-Sound up lower ws req who = search shared depth 24

  pub handle_update_member_role-Sound :
      (up : Calls) (ws target : String) (role : Option String) (who : Option Identity)
      → Sound issuer (handle_update_member_role up ws target role who)
  unfolding handle_update_member_role
  handle_update_member_role-Sound up ws target role who = search shared depth 24

  pub handle_remove_member-Sound :
      (up : Calls) (ws target : String) (who : Option Identity)
      → Sound issuer (handle_remove_member up ws target who)
  unfolding handle_remove_member
  handle_remove_member-Sound up ws target who = search shared depth 24

  pub handle_create_api_key-Sound :
      (role up : Outcome) (fresh : String) (made : Option (String × String)) (name : Option String)
      (who : Option Identity)
      → Sound issuer (handle_create_api_key role up fresh made name who)
  unfolding handle_create_api_key
  handle_create_api_key-Sound role up fresh made name who = search shared depth 24

  pub handle_list_api_keys-Sound :
      (role up : Outcome) (who : Option Identity) → Sound issuer (handle_list_api_keys role up who)
  unfolding handle_list_api_keys
  handle_list_api_keys-Sound role up who = search shared depth 24

  pub handle_revoke_api_key-Sound :
      (role up : Outcome) (key : String) (now : ℕ) (who : Option Identity)
      → Sound issuer (handle_revoke_api_key role up key now who)
  unfolding handle_revoke_api_key
  handle_revoke_api_key-Sound role up key now who = search shared depth 24

  pub by_key-Sound :
      (up : KeyCalls) (check : String → String → Option Bool) (key : String) (now : ℕ)
      → Sound issuer (by_key up check key now)
  unfolding by_key
  by_key-Sound up check key now = search shared depth 24

ruleset entry = (shared, by_key-Sound)

module _ (issuer : Issuer) where
  pub authenticate-Sound :
      (up : KeyCalls) (check : String → String → Option Bool) (verify : String → Option Identity)
      (authorization key : String) (now : ℕ)
      → Sound issuer (authenticate up check verify authorization key now)
  unfolding authenticate
  authenticate-Sound up check verify authorization key now = search entry depth 12

  -- The write of a switch leaves the members alone.
  activated :
      (user ws id : String) (m : Membership) (d : Directory)
      → get_membership ws id d ≡ ok m
      → get_membership ws id (set_active_workspace user ws d).1 ≡ ok m
  unfolding get_membership set_active_workspace
  activated user ws id m d h =
      elim (Bool-cases (ltb 0 (count_where (λ u. str_eq u.id user) d.users))) [
        | inl e ↦ ground (arith, h, e)
        | inr e ↦ ground (arith, h, e)
      ]

  named_row :
      (ws : String) (row : Workspace) (d : Directory) → get_workspace ws d ≡ ok row → row.id ≡ ws
  unfolding get_workspace
  named_row ws row d h =
      (eq_iff row.id ws).0
        (select_first_lem (λ w. str_eq w.id ws) d.workspaces row (ground (arith, h)))

  ask_scoped :
      {A : Type 0} (up : Outcome) (n : ℕ) (code : String) (q : Directory → Result DirectoryError A)
      (d : Directory) (r : Reply)
      → (ask up (on_absent (fail n code)) q d).0 ≡ reply r
      → Scoped issuer r d
  ask_scoped up n code q d r e =
      let (f, is_f) = ask_reply up (on_absent (fail n code)) q d r e in
      subst (λ x. Scoped issuer x d) (sym is_f) (on_absent-Scoped issuer n code f d)

  -- What a switch answers at its end.
  granted :
      (user ws access : String) (m : Membership) (row : Workspace) (d : Directory) (r : Reply)
      → get_membership ws user d ≡ ok m
      → issuer.mint user ws ≡ some access
      → get_workspace ws d ≡ ok row
      → (answer (switched access row m.role) d).0 ≡ reply r
      → Scoped issuer r (answer (switched access row m.role) d).1
  unfolding answer Scoped
  granted user ws access m row d r found minted there e =
      let is_it : switched access row m.role ≡ r = ground (arith, e) in
      let same = named_row ws row d there in
      subst (λ x. Scoped issuer x d) is_it
        (
          user,
          m,
          subst (λ w. get_membership w user d ≡ ok m) (sym same) found,
          refl,
          subst (λ w. issuer.mint user w ≡ some access) (sym same) minted,
        )

  switch_Sound :
      (up : Calls) (user ws : String)
      → Sound issuer (
          ask up.membership (on_absent (fail 403 "not_a_member")) (get_membership ws user) >>= λ m.
          act up.write internal (set_active_workspace user ws)
          >> (need (issuer.mint user ws) (fail 500 "internal") >>= λ access.
              ask up.workspace internal (get_workspace ws) >>= λ row.
              answer (switched access row m.role)))
  unfolding Sound
  switch_Sound up user ws d r =
      let P : Step Reply (Unit {0}) × Directory → Type 0 =
        λ x. x.0 ≡ reply r → Scoped issuer r x.1 in
      then_path P _ _ d (ask_reads up.membership _ _ d)
        (λ q e g. same_reply issuer q r d g (ask_scoped up.membership 403 "not_a_member" _ d q e))
        (λ m found.
          let d1 : Directory = (act up.write internal (set_active_workspace user ws) d).1 in
          and_both P _ _ d
            (λ q e g.
              let (f, is_f) = act_reply up.write internal (set_active_workspace user ws) d q e in
              same_reply issuer q r d1 g
                (subst (λ x. Scoped issuer x d1) (sym is_f) (fail-Scoped issuer 500 "internal" d1)))
            (λ a went.
              let here = (act_next up.write internal (set_active_workspace user ws) d a went).0 in
              let still =
                subst (λ e. get_membership ws user e ≡ ok m) (sym here)
                  (activated user ws user m d (ask_found up.membership _ _ d m found)) in
              then_path P _ _ d1 (need_reads _ _ d1)
                (λ q e g. same_reply issuer q r d1 g (
                  subst (λ x. Scoped issuer x d1) (sym (need_reply _ _ q d1 e))
                    (fail-Scoped issuer 500 "internal" d1)))
                (λ access minted.
                  then_path P _ _ d1 (ask_reads up.workspace _ _ d1)
                    (λ q e g.
                      let (f, is_f) = ask_reply up.workspace internal (get_workspace ws) d1 q e in
                      same_reply issuer q r d1 g (
                        subst (λ x. Scoped issuer x d1) (sym is_f)
                          (fail-Scoped issuer 500 "internal" d1)))
                    (λ row there.
                      granted user ws access m row d1 r still
                        (need_next _ (fail 500 "internal") d1 access minted)
                        (ask_found up.workspace _ _ d1 row there)))))

  pub handle_switch_workspace-Sound :
      (up : Calls) (ws : Option String) (who : Option Identity)
      → Sound issuer (handle_switch_workspace up issuer.mint ws who)
  unfolding handle_switch_workspace
  handle_switch_workspace-Sound up ws who = search (shared, switch_Sound) depth 12
