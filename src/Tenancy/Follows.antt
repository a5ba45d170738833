-- ===== src/Tenancy/Follows.antt =====
-- services/tenancy: what holds between the directories before and after a chain of steps, where it holds
-- for each of its calls of the store.
pub mod Workspaces
pub mod Sessions
pub mod Service
use aether_edit.Prelude.{
  ℕ, zero, suc, ◌+◌, ◌-◌, ◌*◌, ◌/◌, ◌%◌, ◌^◌, ◌≤◌, ◌<◌, String, ◌≡◌, refl, sym, ap, ◌∙◌, subst, ◌≢◌,
  ◌↔◌, ◌⊎◌, inl, inr, Bool, true, false, not, ◌&&◌, ◌||◌, Option, none, some, List, [], ◌∷◌, ◌++◌,
  map, arith, str_eq, eq_iff, ltb, leb, ◌==◌, if◌then◌else◌, ltb→lt, lt→ltb, leb→le, ==_iff, tests,
  Bool-cases, Option-cases, length, get_elem?, set, length-append, get_or, take, drop, replicate,
  Result, Result-cases, ok, err, guard,
}
use aether_edit.Prelude.Steps.{
  Step, next, reply, bind, bind_reads, require_reads, need_reads, answer, require, need, ◌>>=◌,
  ◌>>◌,
}
use aether_edit.Tenancy.Directory.{Role, Directory, DirectoryError, failed}
use aether_edit.Tenancy.Memberships.{get_membership, count_owners}
use aether_edit.Tenancy.Access.{
  Reply, M, Outcome, answered, refused, lost, ask, ask_maybe, act, settle, give, answer_by,
  Identity, require_user, require_role, decoded,
}

-- ---- the steps that only read ----

pub ask_reads :
    {A : Type 0} (up : Outcome) (on : DirectoryError → Reply)
    (q : Directory → Result DirectoryError A) (d : Directory)
    → (ask up on q d).1 ≡ d
unfolding ask
ask_reads answered on q d = refl
ask_reads refused on q d = refl
ask_reads lost on q d = refl

settle_next :
    {A : Type 0} (on : DirectoryError → Reply) (r : Result DirectoryError A) (a : A)
    → settle on r ≡ next a
    → r ≡ ok a
settle_next on (ok b) a h = ground (arith, h)
settle_next on (err e) a h = ground (arith, h)

settle_reply :
    {A : Type 0} (on : DirectoryError → Reply) (x : Result DirectoryError A) (r : Reply)
    → settle on x ≡ reply r
    → (e : DirectoryError) × (r ≡ on e)
settle_reply on (ok b) r h = ground (arith, h)
settle_reply on (err e) r h = (e, ground (arith, h))

-- What a row that was read is.
pub ask_found :
    {A : Type 0} (up : Outcome) (on : DirectoryError → Reply)
    (q : Directory → Result DirectoryError A) (d : Directory) (a : A)
    → (ask up on q d).0 ≡ next a
    → q d ≡ ok a
unfolding ask
ask_found answered on q d a h = elim (Result-cases (q d)) [
  | inl (b, e) ↦ ground (arith, e, h)
  | inr (b, e) ↦ ground (arith, e, h)
]
ask_found refused on q d a h = ground (arith, h)
ask_found lost on q d a h = ground (arith, h)

-- A write with its answer, at the directories that it can lead to.
pub act_answer :
    (P : Directory → Type 0) (up : Outcome) (on : DirectoryError → Reply)
    (q : Directory → Result DirectoryError (Unit {0}) × Directory) (r : Reply) (d : Directory)
    → P d
    → P (q d).1
    → P ((act up on q >> answer r) d).1
unfolding ◌>>◌ act answer
act_answer P answered on q r d h g =
    subst P (sym (bind_reads (settle on (q d).0, (q d).1) (λ _ s. (reply r, s)) (λ _ _. refl))) g
act_answer P refused on q r d h g = h
act_answer P lost on q r d h g = g

-- The reply of a call is that of an error.
pub ask_reply :
    {A : Type 0} (up : Outcome) (on : DirectoryError → Reply)
    (q : Directory → Result DirectoryError A) (d : Directory) (r : Reply)
    → (ask up on q d).0 ≡ reply r
    → (e : DirectoryError) × (r ≡ on e)
unfolding ask
ask_reply answered on q d r h = settle_reply on (q d) r h
ask_reply refused on q d r h = (failed, ground (arith, h))
ask_reply lost on q d r h = (failed, ground (arith, h))

pub act_reply :
    {A : Type 0} (up : Outcome) (on : DirectoryError → Reply)
    (q : Directory → Result DirectoryError A × Directory) (d : Directory) (r : Reply)
    → (act up on q d).0 ≡ reply r
    → (e : DirectoryError) × (r ≡ on e)
unfolding act
act_reply answered on q d r h = settle_reply on (q d).0 r h
act_reply refused on q d r h = (failed, ground (arith, h))
act_reply lost on q d r h = (failed, ground (arith, h))

-- A write that goes on was carried out.
pub act_next :
    {A : Type 0} (up : Outcome) (on : DirectoryError → Reply)
    (q : Directory → Result DirectoryError A × Directory) (d : Directory) (a : A)
    → (act up on q d).0 ≡ next a
    → ((act up on q d).1 ≡ (q d).1) × ((q d).0 ≡ ok a)
unfolding act
act_next answered on q d a h = (refl, settle_next on (q d).0 a h)
act_next refused on q d a h = ground (arith, h)
act_next lost on q d a h = ground (arith, h)

pub decoded_reads : {A : Type 0} (a : Option A) (d : Directory) → (decoded a d).1 ≡ d
unfolding decoded
decoded_reads none d = refl
decoded_reads (some a) d = refl

pub require_user_reads : (who : Option Identity) (d : Directory) → (require_user who d).1 ≡ d
unfolding require_user
require_user_reads none d = refl
require_user_reads (some id) d = ground arith

pub require_role_reads :
    (up : Outcome) (ws user : String) (least : Role) (d : Directory)
    → (require_role up ws user least d).1 ≡ d
unfolding require_role ◌>>=◌
require_role_reads up ws user least d =
    bind_reads (ask up _ (get_membership ws user) d) _ (λ m s. require_reads _ _ s)
    ∙ ask_reads up _ (get_membership ws user) d

-- ---- the laws ----

-- A relation between directories that a run of calls can be followed by.
pub record Law : Type 1 where
  pub R : Directory → Directory → Type 0
  pub stays : (d : Directory) → R d d
  pub chains : (d e f : Directory) → R d e → R e f → R d f

unfoldable pub Follows : Law → {A : Type 0} → M A → Type 0
Follows l m = (d : Directory) → l.R d (m d).1

module _ (l : Law) where
  pub same_directory : (d e : Directory) → e ≡ d → l.R d e
  same_directory d e h = subst (l.R d) (sym h) (l.stays d)

  pub reads-Follows : {A : Type 0} (m : M A) → ((d : Directory) → (m d).1 ≡ d) → Follows l m
  unfolding Follows
  reads-Follows m h d = same_directory d (m d).1 (h d)

  bind-R :
      {A B : Type 0} (d : Directory) (x : Step Reply A × Directory) (f : A → M B)
      → l.R d x.1
      → ((a : A) → l.R x.1 (f a x.1).1)
      → l.R d (bind x f).1
  bind-R d (next a, e) f h k = l.chains d e (f a e).1 h (k a)
  bind-R d (reply r, e) f h k = h

  pub then-Follows :
      {A B : Type 0} (m : M A) (f : A → M B)
      → Follows l m
      → ((a : A) → Follows l (f a))
      → Follows l (m >>= f)
  unfolding Follows ◌>>=◌
  then-Follows m f h k d = bind-R d (m d) f (h d) (λ a. k a (m d).1)

  pub and_Follows :
      {B : Type 0} (m : M (Unit {0})) (k : M B) → Follows l m → Follows l k → Follows l (m >> k)
  unfolding Follows ◌>>◌
  and_Follows m k h g d = bind-R d (m d) (λ _. k) (h d) (λ _. g (m d).1)

  pub if_Follows :
      {A : Type 0} (b : Bool) (m k : M A)
      → Follows l m
      → Follows l k
      → Follows l (if b then m else k)
  if_Follows true m k h g = h
  if_Follows false m k h g = g

  pub ask-Follows :
      {A : Type 0} (up : Outcome) (on : DirectoryError → Reply)
      (q : Directory → Result DirectoryError A)
      → Follows l (ask up on q)
  ask-Follows up on q = reads-Follows _ (ask_reads up on q)

  pub ask_maybe-Follows :
      {A : Type 0} (up : Outcome) (q : Directory → Result DirectoryError A)
      → Follows l (ask_maybe up q)
  unfolding Follows ask_maybe
  ask_maybe-Follows answered q d = l.stays d
  ask_maybe-Follows refused q d = l.stays d
  ask_maybe-Follows lost q d = l.stays d

  pub act-Follows :
      {A : Type 0} (up : Outcome) (on : DirectoryError → Reply)
      (q : Directory → Result DirectoryError A × Directory)
      → ((d : Directory) → l.R d (q d).1)
      → Follows l (act up on q)
  unfolding Follows act
  act-Follows answered on q h d = h d
  act-Follows refused on q h d = l.stays d
  act-Follows lost on q h d = h d

  pub act_R :
      {A : Type 0} (up : Outcome) (on : DirectoryError → Reply)
      (q : Directory → Result DirectoryError A × Directory)
      → ((d : Directory) → l.R d (q d).1)
      → (d : Directory) → l.R d (act up on q d).1
  unfolding Follows
  act_R up on q h d = act-Follows up on q h d

  pub require-Follows : (b : Bool) (r : Reply) → Follows l (require b r)
  require-Follows b r = reads-Follows _ (require_reads b r)

  pub need-Follows : {A : Type 0} (a : Option A) (r : Reply) → Follows l (need a r)
  need-Follows a r = reads-Follows _ (need_reads a r)

  pub decoded-Follows : {A : Type 0} (a : Option A) → Follows l (decoded a)
  decoded-Follows a = reads-Follows _ (decoded_reads a)

  pub require_user-Follows : (who : Option Identity) → Follows l (require_user who)
  require_user-Follows who = reads-Follows _ (require_user_reads who)

  pub require_role-Follows :
      (up : Outcome) (ws user : String) (least : Role) → Follows l (require_role up ws user least)
  require_role-Follows up ws user least = reads-Follows _ (require_role_reads up ws user least)

  pub answer-Follows : (r : Reply) → Follows l (answer r)
  unfolding Follows answer
  answer-Follows r d = l.stays d

  pub answer_by-Follows : (f : Directory → Reply) → Follows l (answer_by f)
  unfolding Follows answer_by
  answer_by-Follows f d = l.stays d

  pub give-Follows : {A : Type 0} (a : A) → Follows l (give a)
  unfolding Follows give
  give-Follows a d = l.stays d

pub ruleset follows = (
  then-Follows, and_Follows, if_Follows, give-Follows, answer-Follows, answer_by-Follows,
  require-Follows, need-Follows, decoded-Follows, require_user-Follows, require_role-Follows,
  ask-Follows, ask_maybe-Follows, act-Follows,
)
