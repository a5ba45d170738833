-- ===== src/Tenancy/Owners/Roles.antt =====
-- services/tenancy/workspaces.go: that the two handlers that can take an owner away keep the owners, by
-- the look-ups that come before the write.
use aether_edit.Prelude.{String, ◌≡◌, refl, inl, inr, Bool, true, false, Option, arith}
use aether_edit.Prelude.Steps.{Step, next, need_reads, then_path, and_path, require, ◌>>=◌}
use aether_edit.Tenancy.Directory.{owner, Directory}
use aether_edit.Tenancy.Memberships.{update_member_role, remove_member}
use aether_edit.Tenancy.Access.{
  Reply, Outcome, answered, refused, lost, internal, ask, give, Identity,
}
use aether_edit.Tenancy.Members.{
  Calls, spare_owner, handle_update_member_role, handle_remove_member,
}
use aether_edit.Tenancy.Follows.{
  Follows, act_answer, ask_reads, ask_found, decoded_reads, require_user_reads, require_role_reads,
}
use aether_edit.Tenancy.Owners.{
  Kept, Kept-refl, owners_law, IsSpared, update_member_role-Kept, remove_member-Kept,
}

pub spare_owner_reads :
    (up : Outcome) (ws : String) (b : Bool) (d : Directory) → (spare_owner up ws b d).1 ≡ d
unfolding spare_owner ◌>>=◌ give ask require
spare_owner_reads up ws false d = refl
spare_owner_reads answered ws true d = ground arith
spare_owner_reads refused ws true d = refl
spare_owner_reads lost ws true d = refl

pub spare_owner-IsSpared :
    (up : Outcome) (ws : String) (b : Bool) (d : Directory) (a : Unit {0})
    → (spare_owner up ws b d).0 ≡ next a
    → IsSpared ws b d
unfolding spare_owner ◌>>=◌ give ask require
spare_owner-IsSpared up ws false d a h = inl refl
spare_owner-IsSpared answered ws true d a h = inr (ground (arith, h))
spare_owner-IsSpared refused ws true d a h = ground (arith, h)
spare_owner-IsSpared lost ws true d a h = ground (arith, h)

-- At the end of a path that has only read, the directory is still the first one.
abbrev KeptBy : Directory → Step Reply (Unit {0}) × Directory → Type 0
KeptBy d x = Kept d x.1

pub handle_update_member_role-Kept :
    (up : Calls) (ws target : String) (role : Option String) (who : Option Identity)
    → Follows owners_law (handle_update_member_role up ws target role who)
unfolding handle_update_member_role Follows
handle_update_member_role-Kept up ws target role who d =
    let done : (r : Reply) → Kept d d = λ _. Kept-refl d in
    then_path (KeptBy d) _ _ d (require_user_reads who d) (λ r _. done r)
      (λ id _.
        and_path (KeptBy d) _ _ d (require_role_reads up.role ws id.user_id owner d) (λ r _. done r)
          (λ _ _.
            then_path (KeptBy d) _ _ d (decoded_reads role d) (λ r _. done r)
              (λ raw _.
                then_path (KeptBy d) _ _ d (need_reads _ _ d) (λ r _. done r)
                  (λ r _.
                    then_path (KeptBy d) _ _ d (ask_reads up.membership _ _ d) (λ r _. done r)
                      (λ m e.
                        and_path (KeptBy d) _ _ d (spare_owner_reads up.owners ws _ d)
                          (λ r _. done r)
                          (λ a spared.
                            act_answer (Kept d) up.write internal (update_member_role ws target r) _
                              d (Kept-refl d)
                              (update_member_role-Kept ws target r d m
                                (ask_found up.membership _ _ d m e)
                                (spare_owner-IsSpared up.owners ws _ d a spared))))))))

pub handle_remove_member-Kept :
    (up : Calls) (ws target : String) (who : Option Identity)
    → Follows owners_law (handle_remove_member up ws target who)
unfolding handle_remove_member Follows
handle_remove_member-Kept up ws target who d =
    let done : (r : Reply) → Kept d d = λ _. Kept-refl d in
    then_path (KeptBy d) _ _ d (require_user_reads who d) (λ r _. done r)
      (λ id _.
        then_path (KeptBy d) _ _ d (ask_reads up.membership _ _ d) (λ r _. done r)
          (λ m e.
            and_path (KeptBy d) _ _ d (require_role_reads up.role ws id.user_id _ d) (λ r _. done r)
              (λ _ _.
                and_path (KeptBy d) _ _ d (spare_owner_reads up.owners ws _ d) (λ r _. done r)
                  (λ a spared.
                    act_answer (Kept d) up.write internal (remove_member ws target) _ d
                      (Kept-refl d)
                      (remove_member-Kept ws target d m (ask_found up.membership _ _ d m e)
                        (spare_owner-IsSpared up.owners ws _ d a spared))))))
