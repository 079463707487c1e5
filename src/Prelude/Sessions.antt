-- ===== src/Prelude/Sessions.antt =====
-- A session body either returns or raises; `get_db` of db.py commits the first and rolls back the second.
use mathlib.Core.Path.{◌≡◌, refl, subst}
use mathlib.Core.Logic.{◌⊎◌, inl, inr}
use mathlib.Core.Option.{Option, none, some}

pub data Result {ℓ κ} (E : Type κ) (A : Type ℓ) : Type (ℓ ⊔ κ) where
  ok : A → Result E A
  err : E → Result E A

infixl 5 ◌>>=◌
abbrev pub ◌>>=◌ {ℓ κ μ} :
    {E : Type μ} {A : Type ℓ} {B : Type κ} → Result E A → (A → Result E B) → Result E B
ok a >>= f = f a
err e >>= f = err e

abbrev pub or_raise {ℓ κ} : {E : Type κ} {A : Type ℓ} → Option A → E → Result E A
or_raise (some a) e = ok a
or_raise none e = err e

-- The state after the session: what the body wrote, or the state before it.
abbrev pub commit {ℓ κ μ} :
    {E : Type κ} {A : Type ℓ} {S : Type μ} → S → Result E (A × S) → Result E A × S
commit s (ok (a, s')) = (ok a, s')
commit s (err e) = (err e, s)

-- A block that returned: its first step returned, and the rest did.
pub >>=_ok {ℓ κ μ} :
    {E : Type μ} {A : Type ℓ} {B : Type κ} (m : Result E A) (f : A → Result E B) (b : B)
    → (m >>= f) ≡ ok b
    → (a : A) × (m ≡ ok a) × (f a ≡ ok b)
>>=_ok (ok a) f b h = (a, refl, h)
>>=_ok (err e) f b h = cc

pub Result-cases {ℓ κ} :
    {E : Type κ} {A : Type ℓ} (m : Result E A) → ((a : A) × (m ≡ ok a)) ⊎ ((e : E) × (m ≡ err e))
Result-cases (ok a) = inl (a, refl)
Result-cases (err e) = inr (e, refl)

-- What holds of the value and the state that a session body returns, if it returns.
abbrev pub Returns {ℓ κ μ ν} :
    {E : Type κ} {A : Type ℓ} {S : Type μ} → (A → S → Type ν) → Result E (A × S) → Type ν
Returns P (ok (a, s)) = P a s
Returns P (err e) = Unit

pub Returns->>= {ℓ ℓ' κ μ ν ν'} :
    {E : Type κ} {A : Type ℓ} {B : Type ℓ'} {S : Type μ} (Q : A → S → Type ν) (P : B → S → Type ν')
    (m : Result E (A × S)) (f : A × S → Result E (B × S))
    → Returns Q m
    → ((a : A) (s : S) → Q a s → Returns P (f (a, s)))
    → Returns P (m >>= f)
Returns->>= Q P (ok (a, s)) f q rest = rest a s q
Returns->>= Q P (err e) f q rest = tt

pub Returns->>=_pure {ℓ ℓ' κ μ ν} :
    {E : Type κ} {A : Type ℓ} {B : Type ℓ'} {S : Type μ} (P : B → S → Type ν) (m : Result E A)
    (f : A → Result E (B × S))
    → ((a : A) → Returns P (f a))
    → Returns P (m >>= f)
Returns->>=_pure P (ok a) f rest = rest a
Returns->>=_pure P (err e) f rest = tt

pub Returns_ok {ℓ κ μ ν} :
    {E : Type κ} {A : Type ℓ} {S : Type μ} (P : A → S → Type ν) (m : Result E (A × S)) (a : A)
    (s : S)
    → m ≡ ok (a, s)
    → Returns P m
    → P a s
Returns_ok P m a s e h = subst (Returns P) e h

-- What holds before a session and after its body, if the body returns, holds after the session.
pub commit_ind {ℓ κ μ ν} :
    {E : Type κ} {A : Type ℓ} {S : Type μ} (P : S → Type ν) (s : S) (m : Result E (A × S))
    → P s
    → Returns (λ _. P) m
    → P (commit s m).1
commit_ind P s (ok (a, s')) before after = after
commit_ind P s (err e) before after = before
