-- ===== src/Prelude/Strings.antt =====
-- Texts as lists of characters: prefixes, parts and cuts.
use Prim.Native.Char.{code}
use Prim.Native.Nat.{ℕ, zero, suc}
use Prim.Native.String.{String, ◌++◌}
use Prim.Native.String.append
use mathlib.Core.Path.{◌≡◌}
use mathlib.Core.Logic.{inl, inr}
use mathlib.Core.Bool.{Bool, true, false, ◌&&◌, ◌||◌}
use native.Mathlib.Omega.{arith}
use auto_bot_lbc_pj.Prelude.Tests.{◌==◌, Bool-cases}

-- `s[:n]`.
abbrev pub first_chars : ℕ → String → String
first_chars zero s = String.[]
first_chars (suc n) String.[] = String.[]
first_chars (suc n) (String.◌∷◌ c s) = String.◌∷◌ c (first_chars n s)

-- `s.startswith(part)`.
abbrev pub starts_with : String → String → Bool
starts_with s String.[] = true
starts_with String.[] (String.◌∷◌ c part) = false
starts_with (String.◌∷◌ d s) (String.◌∷◌ c part) = code d == code c && starts_with s part

-- `part in s`.
abbrev pub contains : String → String → Bool
contains String.[] part = starts_with String.[] part
contains (String.◌∷◌ c s) part = starts_with (String.◌∷◌ c s) part || contains s part

starts_with-contains : (s part : String) → starts_with s part ≡ true → contains s part ≡ true
starts_with-contains String.[] part h = h
starts_with-contains (String.◌∷◌ c s) part h = ground (arith, h)

starts_with-append : (s a part : String) → starts_with s (a ++ part) ≡ true → contains s part ≡ true
starts_with-append s String.[] part h = starts_with-contains s part (rw (append.nil part) at h)
starts_with-append String.[] (String.◌∷◌ c a) part h = let no = rw (append.cons c a part) at h in cc
starts_with-append (String.◌∷◌ d s) (String.◌∷◌ c a) part h =
    let both = rw (append.cons c a part) at h in
    let later = starts_with-append s a part (ground (arith, both)) in ground (arith, later)

-- A part of a part is a part.
pub contains-append : (s a part : String) → contains s (a ++ part) ≡ true → contains s part ≡ true
contains-append String.[] a part h = starts_with-append String.[] a part h
contains-append (String.◌∷◌ c s) a part h =
    elim (Bool-cases (starts_with (String.◌∷◌ c s) (a ++ part))) [
      | inl here ↦ starts_with-append (String.◌∷◌ c s) a part here
      | inr later ↦
          let rest = contains-append s a part (ground (arith, h, later)) in ground (arith, rest)
    ]
