-- ===== src/Prelude/Table.antt =====
-- A database table as the list of its rows: the SELECT, UPDATE and INSERT that the services use.
use Prim.Native.Nat.{ℕ, ◌+◌, ◌≤◌}
use Prim.Native.String.{String}
use text.Mathlib.Text.{◌==◌ as str_eq}
use mathlib.Core.Path.{◌≡◌, refl}
use mathlib.Core.Bool.{Bool, true, false}
use mathlib.Core.Option
use mathlib.Core.Option.{Option, none, some}
use mathlib.Core.List.{List, [], ◌∷◌, ◌++◌}
use native.Mathlib.Omega.{arith}
use auto_bot_lbc_pj.Prelude.Tests.{◌==◌, ==→eq, if◌then◌else◌}
use auto_bot_lbc_pj.Prelude.Lists.{length, any, All}

module _ {ℓ} {A : Type ℓ} where
  -- `select(T).where(p)`, first row.
  abbrev pub find : (A → Bool) → List A → Option A
  find p [] = none
  find p (x ∷ xs) = if p x then some x else find p xs

  -- `select(T).where(p)`, all rows.
  abbrev pub select : (A → Bool) → List A → List A
  select p [] = []
  select p (x ∷ xs) = let rest = select p xs in if p x then x ∷ rest else rest

  -- `update(T).where(p).values(...)`.
  abbrev pub update : (A → Bool) → (A → A) → List A → List A
  update p f [] = []
  update p f (x ∷ xs) = (if p x then f x else x) ∷ update p f xs

  pub length-update : (p : A → Bool) (f : A → A) (xs : List A) → length (update p f xs) ≡ length xs
  length-update p f [] = refl
  length-update p f (x ∷ xs) = omega (arith, length-update p f xs)

  pub All-update {κ} :
      (P : A → Type κ) (p : A → Bool) (f : A → A) (xs : List A)
      → ((a : A) → p a ≡ true → P a → P (f a))
      → All P xs
      → All P (update p f xs)
  All-update P p f [] keep h = tt
  All-update P p f (x ∷ xs) keep h = (ground (arith, keep x), All-update P p f xs keep h.1)

  pub length-select-snoc :
      (p : A → Bool) (xs : List A) (a : A)
      → length (select p (xs ++ a ∷ [])) ≡ length (select p xs) + (if p a then 1 else 0)
  length-select-snoc p [] a = ground arith
  length-select-snoc p (x ∷ xs) a = ground (arith, length-select-snoc p xs a)

  pub length-select-append :
      (p : A → Bool) (xs ys : List A)
      → length (select p (xs ++ ys)) ≡ length (select p xs) + length (select p ys)
  length-select-append p [] ys = omega arith
  length-select-append p (x ∷ xs) ys = ground (arith, length-select-append p xs ys)

  pub length-select-update :
      (p q : A → Bool) (f : A → A) (xs : List A)
      → ((a : A) → p (f a) ≡ p a)
      → length (select p (update q f xs)) ≡ length (select p xs)
  length-select-update p q f [] keep = refl
  length-select-update p q f (x ∷ xs) keep =
      ground (arith, keep x, length-select-update p q f xs keep)

  pub length-select-find-none :
      (p : A → Bool) (xs : List A) → find p xs ≡ none → length (select p xs) ≡ 0
  length-select-find-none p [] h = refl
  length-select-find-none p (x ∷ xs) h = ground (arith, length-select-find-none p xs)

  pub length-select_le : (p : A → Bool) (xs : List A) → length (select p xs) ≤ length xs
  length-select_le p [] = omega arith
  length-select_le p (x ∷ xs) = ground (arith, length-select_le p xs)

  pub length-select_none :
      (p : A → Bool) (xs : List A) → any p xs ≡ false → length (select p xs) ≡ 0
  length-select_none p [] h = refl
  length-select_none p (x ∷ xs) h = ground (arith, length-select_none p xs)

  pub All-select {κ} :
      (P : A → Type κ) (p : A → Bool) (xs : List A) → All P xs → All P (select p xs)
  All-select P p [] h = tt
  All-select P p (x ∷ xs) h = ground (arith, All-select P p xs h.1)

  pub select_holds : (p : A → Bool) (xs : List A) → All (λ a. p a ≡ true) (select p xs)
  select_holds p [] = tt
  select_holds p (x ∷ xs) = ground (arith, select_holds p xs)

  pub find_holds : (p : A → Bool) (xs : List A) (a : A) → find p xs ≡ some a → p a ≡ true
  find_holds p [] a h = cc
  find_holds p (x ∷ xs) a h = ground (arith, find_holds p xs a)

  pub find-append_none :
      (p : A → Bool) (xs : List A) (a : A)
      → find p xs ≡ none
      → find p (xs ++ a ∷ []) ≡ (if p a then some a else none)
  find-append_none p [] a h = refl
  find-append_none p (x ∷ xs) a h = ground (arith, find-append_none p xs a)

  pub find-append_old :
      (p : A → Bool) (xs ys : List A) (a : A) → find p xs ≡ some a → find p (xs ++ ys) ≡ some a
  find-append_old p [] ys a h = cc
  find-append_old p (x ∷ xs) ys a h = ground (arith, find-append_old p xs ys a)

  pub find-All {κ} :
      (P : A → Type κ) (p : A → Bool) (xs : List A) (a : A) → All P xs → find p xs ≡ some a → P a
  find-All P p [] a all h = cc
  find-All P p (x ∷ xs) a all h = ground (arith, find-All P p xs a all.1)

-- Rows by their primary key.
module _ {ℓ} {A : Type ℓ} (id : A → ℕ) where
  -- `db.get(T, i)`.
  abbrev pub get : ℕ → List A → Option A
  get i xs = find (λ a. id a == i) xs

  -- Assignments to the attributes of the row that `db.get(T, i)` returned.
  abbrev pub modify : ℕ → (A → A) → List A → List A
  modify i f xs = update (λ a. id a == i) f xs

  -- The row that was found has the identifier that was asked for.
  pub get_id : (i : ℕ) (xs : List A) (a : A) → get i xs ≡ some a → id a ≡ i
  get_id i xs a h = ==→eq (id a) i (find_holds (λ a. id a == i) xs a h)

  pub get-modify :
      (i j : ℕ) (f : A → A) (xs : List A)
      → ((a : A) → id (f a) ≡ id a)
      → get j (modify i f xs) ≡ (if i == j then Option.map f (get j xs) else get j xs)
  get-modify i j f [] keep = ground arith
  get-modify i j f (x ∷ xs) keep = ground (arith, keep x, get-modify i j f xs keep)

  pub get-append_fresh :
      (i : ℕ) (xs : List A) (a : A)
      → get i xs ≡ none
      → get i (xs ++ a ∷ []) ≡ (if id a == i then some a else none)
  get-append_fresh i [] a h = refl
  get-append_fresh i (x ∷ xs) a h = ground (arith, get-append_fresh i xs a)

  pub get-append_old :
      (i : ℕ) (xs ys : List A) (a : A) → get i xs ≡ some a → get i (xs ++ ys) ≡ some a
  get-append_old i xs ys a h = find-append_old (λ a. id a == i) xs ys a h

  -- Two assignments to one row, one after the other.
  pub modify-modify :
      (i : ℕ) (f g : A → A) (xs : List A)
      → ((a : A) → id (g a) ≡ id a)
      → modify i f (modify i g xs) ≡ modify i (λ a. f (g a)) xs
  modify-modify i f g [] keep = refl
  modify-modify i f g (x ∷ xs) keep = ground (arith, keep x, modify-modify i f g xs keep)

-- `d.get(key)` of a dictionary of texts.
abbrev pub lookup_text : String → List (String × String) → Option String
lookup_text key [] = none
lookup_text key ((k, v) ∷ rest) = if str_eq k key then some v else lookup_text key rest

-- `d[key] = value`, and `{**d, **e}`.
abbrev pub put_text : String → String → List (String × String) → List (String × String)
put_text key value [] = (key, value) ∷ []
put_text key value ((k, v) ∷ rest) =
    if str_eq k key then (k, value) ∷ rest else (k, v) ∷ put_text key value rest

abbrev pub update_texts : List (String × String) → List (String × String) → List (String × String)
update_texts d [] = d
update_texts d ((k, v) ∷ rest) = update_texts (put_text k v d) rest
