-- ===== src/Prelude/Steps.antt =====
-- An HTTP handler as a chain of steps over a state: a step goes on with a value, or ends in the reply.
use mathlib.Core.Bool.{Bool, true, false}
use mathlib.Core.Option.{Option, none, some}
use mathlib.Core.Path.{◌≡◌, refl, sym, subst}
use mathlib.Core.Logic.{◌⊎◌, inl, inr}
use aether_edit.Prelude.Tests.{if◌then◌else◌}
use native.Mathlib.Omega.{arith}

pub data Step (R A : Type 0) : Type 0 where
  next : A → Step R A
  reply : R → Step R A

abbrev pub bind : {S R A B : Type 0} → Step R A × S → (A → S → Step R B × S) → Step R B × S
bind (next a, s) f = f a s
bind (reply r, s) f = (reply r, s)

infixl 5 ◌>>=◌ ◌>>◌
unfoldable pub ◌>>=◌ :
    {S R A B : Type 0} → (S → Step R A × S) → (A → S → Step R B × S) → S → Step R B × S
◌>>=◌ m f s = bind (m s) f

unfoldable pub ◌>>◌ :
    {S R B : Type 0} → (S → Step R (Unit {0}) × S) → (S → Step R B × S) → S → Step R B × S
◌>>◌ m k s = bind (m s) (λ _. k)

unfoldable pub answer : {S R : Type 0} → R → S → Step R (Unit {0}) × S
answer r s = (reply r, s)

-- `if !test { write r; return }`
unfoldable pub require : {S R : Type 0} → Bool → R → S → Step R (Unit {0}) × S
require true r s = (next tt, s)
require false r s = (reply r, s)

unfoldable pub need : {S R A : Type 0} → Option A → R → S → Step R A × S
need (some a) r s = (next a, s)
need none r s = (reply r, s)

-- A step that ends in a reply did so at once, or after the first of its two parts.
pub bind_inv :
    {S R A B : Type 0} (m : Step R A × S) (f : A → S → Step R B × S) (r : R)
    → (bind m f).0 ≡ reply r
    → ((a : A) × (m.0 ≡ next a) × (bind m f ≡ f a m.1)) ⊎ (m.0 ≡ reply r)
bind_inv (next a, s) f r h = inl (a, refl, refl)
bind_inv (reply q, s) f r h = inr (ground (arith, h))

pub Step-cases :
    {R A : Type 0} (m : Step R A) → ((a : A) × (m ≡ next a)) ⊎ ((r : R) × (m ≡ reply r))
Step-cases (next a) = inl (a, refl)
Step-cases (reply r) = inr (r, refl)

-- Two steps that leave the state alone.
pub bind_reads :
    {S R A B : Type 0} (x : Step R A × S) (f : A → S → Step R B × S)
    → ((a : A) (s : S) → (f a s).1 ≡ s)
    → (bind x f).1 ≡ x.1
bind_reads (next a, s) f h = h a s
bind_reads (reply r, s) f h = refl

pub require_reads : {S R : Type 0} (b : Bool) (r : R) (s : S) → (require b r s).1 ≡ s
unfolding require
require_reads true r s = refl
require_reads false r s = refl

pub need_reads : {S R A : Type 0} (a : Option A) (r : R) (s : S) → (need a r s).1 ≡ s
unfolding need
need_reads none r s = refl
need_reads (some a) r s = refl

-- What holds of both ends of a chain whose first part only reads.
pub bind_path :
    {S R A B : Type 0} (P : Step R B × S → Type 0) (x : Step R A × S) (f : A → S → Step R B × S)
    (s : S)
    → x.1 ≡ s
    → ((r : R) → x.0 ≡ reply r → P (reply r, s))
    → ((a : A) → x.0 ≡ next a → P (f a s))
    → P (bind x f)
bind_path P (next a, t) f s h g k = subst (λ u. P (f a u)) (sym h) (k a refl)
bind_path P (reply r, t) f s h g k = subst (λ u. P (reply r, u)) (sym h) (g r refl)

pub then_path :
    {S R A B : Type 0} (P : Step R B × S → Type 0) (m : S → Step R A × S) (f : A → S → Step R B × S)
    (s : S)
    → (m s).1 ≡ s
    → ((r : R) → (m s).0 ≡ reply r → P (reply r, s))
    → ((a : A) → (m s).0 ≡ next a → P (f a s))
    → P ((m >>= f) s)
unfolding ◌>>=◌
then_path P m f s h g k = bind_path P (m s) f s h g k

pub and_path :
    {S R B : Type 0} (P : Step R B × S → Type 0) (m : S → Step R (Unit {0}) × S)
    (f : S → Step R B × S) (s : S)
    → (m s).1 ≡ s
    → ((r : R) → (m s).0 ≡ reply r → P (reply r, s))
    → ((a : Unit {0}) → (m s).0 ≡ next a → P (f s))
    → P ((m >> f) s)
unfolding ◌>>◌
and_path P m f s h g k = bind_path P (m s) (λ _. f) s h g k

pub require_next :
    {S R : Type 0} (b : Bool) (r : R) (s : S) (a : Unit {0}) → (require b r s).0 ≡ next a → b ≡ true
unfolding require
require_next true r s a h = refl
require_next false r s a h = ground (arith, h)

pub need_next :
    {S R A : Type 0} (o : Option A) (r : R) (s : S) (a : A) → (need o r s).0 ≡ next a → o ≡ some a
unfolding need
need_next none r s a h = ground (arith, h)
need_next (some b) r s a h = ground (arith, h)

-- What holds of both ends of a chain, whatever its first part does.
pub then_both :
    {S R A B : Type 0} (P : Step R B × S → Type 0) (m : S → Step R A × S) (f : A → S → Step R B × S)
    (s : S)
    → ((r : R) → (m s).0 ≡ reply r → P (reply r, (m s).1))
    → ((a : A) → (m s).0 ≡ next a → P (f a (m s).1))
    → P ((m >>= f) s)
unfolding ◌>>=◌
then_both P m f s g k = bind_path P (m s) f (m s).1 refl g k

pub and_both :
    {S R B : Type 0} (P : Step R B × S → Type 0) (m : S → Step R (Unit {0}) × S)
    (f : S → Step R B × S) (s : S)
    → ((r : R) → (m s).0 ≡ reply r → P (reply r, (m s).1))
    → ((a : Unit {0}) → (m s).0 ≡ next a → P (f (m s).1))
    → P ((m >> f) s)
unfolding ◌>>◌
and_both P m f s g k = bind_path P (m s) (λ _. f) (m s).1 refl g k

pub if_path :
    {S X : Type 0} (P : X → Type 0) (b : Bool) (m k : S → X) (s : S)
    → (b ≡ true → P (m s))
    → (b ≡ false → P (k s))
    → P ((if b then m else k) s)
if_path P true m k s g h = g refl
if_path P false m k s g h = h refl

pub require_reply :
    {S R : Type 0} (b : Bool) (r q : R) (s : S) → (require b r s).0 ≡ reply q → q ≡ r
unfolding require
require_reply true r q s h = ground (arith, h)
require_reply false r q s h = ground (arith, h)

pub need_reply :
    {S R A : Type 0} (o : Option A) (r q : R) (s : S) → (need o r s).0 ≡ reply q → q ≡ r
unfolding need
need_reply none r q s h = ground (arith, h)
need_reply (some a) r q s h = ground (arith, h)

pub if_at : {X : Type 0} (P : X → Type 0) (b : Bool) (x y : X) → P x → P y → P (if b then x else y)
if_at P true x y h g = h
if_at P false x y h g = g
