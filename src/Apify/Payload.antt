-- ===== src/Apify/Payload.antt =====
-- app/services/apify_normalizer.py: payloads as decoded JSON, and `flatten_payload`.
use text.Mathlib.Text.{◌==◌ as str_eq}
use Prim.Native.String.{◌++◌ as text_append}
use auto_bot_lbc_pj.Prelude.{
  ℕ, ℤ, zero, suc, ◌+◌, String, Bool, List, [], ◌∷◌, Option, none, some, ltb, if◌then◌else◌,
}

-- A leaf that is a number has its text and what `int` makes of it.
mutual
  pub data Json : Type 0 where
    null : Json
    truth : Bool → Json
    string : String → Json
    number : String → ℤ → Json
    array : Elements → Json
    object : Members → Json

  pub data Elements : Type 0 where
    nil : Elements
    element : Json → Elements → Elements

  pub data Members : Type 0 where
    end : Members
    member : String → Json → Members → Members

-- `flattened`, a dictionary from paths to values.
abbrev pub Flattened : Type 0
Flattened = List (String × Json)

-- `flattened[path] = value`: an old key keeps its place.
abbrev pub put_value : String → Json → Flattened → Flattened
put_value path value [] = (path, value) ∷ []
put_value path value ((p, v) ∷ rest) =
    if str_eq p path then (p, value) ∷ rest else (p, v) ∷ put_value path value rest

-- A value without a path, the payload itself, is not written.
abbrev pub put_if_path : String → Json → Flattened → Flattened
put_if_path path value done = if str_eq path "" then done else put_value path value done

abbrev pub member_path : String → String → String
member_path path key = if str_eq path "" then key else text_append path (text_append "." key)

abbrev pub index_path : (show : ℕ → String) → String → ℕ → String
index_path show path index = text_append path (text_append "[" (text_append (show index) "]"))

-- An entry of the stack: path, value and depth.
pub record Entry : Type 0 where
  pub path : String
  pub value : Json
  pub depth : ℕ

-- The children, pushed in reverse so that the first is on top.
abbrev pub push_members : String → ℕ → Members → List Entry → List Entry
push_members path depth end stack = stack
push_members path depth (member key child rest) stack =
    record { path = member_path path key; value = child; depth = depth }
    ∷ push_members path depth rest stack

abbrev pub push_elements :
    (show : ℕ → String) → String → ℕ → (index : ℕ) → Elements → List Entry → List Entry
push_elements show path depth index nil stack = stack
push_elements show path depth index (element child rest) stack =
    record { path = index_path show path index; value = child; depth = depth }
    ∷ push_elements show path depth (suc index) rest stack

-- The stack after an entry was taken off and handled.
abbrev pub expand : (show : ℕ → String) → String → ℕ → Json → List Entry → List Entry
expand show path depth (array es) stack = push_elements show path (suc depth) 0 es stack
expand show path depth (object ms) stack = push_members path (suc depth) ms stack
expand show path depth _ stack = stack

-- What it writes.
abbrev pub write_leaf : String → Json → Flattened → Flattened
write_leaf path (array es) done = done
write_leaf path (object ms) done = done
write_leaf path leaf done = put_if_path path leaf done

-- The `while` loop, on fuel; `none` when that is used up. The values of a decoded payload are all different
-- objects, so `seen` never holds one that comes.
unfoldable pub flatten_loop :
    (show : ℕ → String) → (fuel : ℕ) → List Entry → Flattened → Option Flattened
flatten_loop show fuel [] done = some done
flatten_loop show zero (e ∷ stack) done = none
flatten_loop show (suc fuel) (e ∷ stack) done =
    let deep = flatten_loop show fuel stack (put_if_path e.path e.value done) in
    let next =
      flatten_loop show fuel (expand show e.path e.depth e.value stack)
        (write_leaf e.path e.value done) in
    if ltb 100 e.depth then deep else next

unfoldable mutual
  -- How many entries a value makes.
  pub size : Json → ℕ
  size (array es) = suc (size_elements es)
  size (object ms) = suc (size_members ms)
  size _ = 1

  pub size_elements : Elements → ℕ
  size_elements nil = 0
  size_elements (element x xs) = size x + size_elements xs

  pub size_members : Members → ℕ
  size_members end = 0
  size_members (member k x xs) = size x + size_members xs

abbrev pub top : Json → Entry
top payload = record { path = ""; value = payload; depth = 0 }

unfoldable pub flatten_payload : (show : ℕ → String) → (fuel : ℕ) → Json → Option Flattened
flatten_payload show fuel payload = flatten_loop show fuel (top payload ∷ []) []
