-- ===== src/Apify/Flatten.antt =====
-- The stack of `flatten_payload` against a plain recursion over the payload.
use auto_bot_lbc_pj.Prelude.{
  ℕ, zero, suc, ◌+◌, ◌≤◌, String, true, false, List, [], ◌∷◌, some, ltb, if◌then◌else◌, ◌≡◌, refl,
  sym, ap, ◌∙◌, arith, inl, inr, Bool-cases,
}
use auto_bot_lbc_pj.Apify.Payload.{
  Json, Elements, Members, null, truth, string, number, array, object, nil, element, end, member,
  Flattened, Entry, put_if_path, member_path, index_path, push_members, push_elements, expand,
  write_leaf, flatten_loop, size, size_elements, size_members, top, flatten_payload,
}

module _ (show : ℕ → String) where
  -- The reference: depth first, the children in their order, no deeper than a hundred levels.
  unfoldable mutual
    pub visit : String → ℕ → Json → Flattened → Flattened
    visit path depth (array es) done =
        if ltb 100 depth
        then put_if_path path (array es) done
        else visit_elements path (suc depth) 0 es done
    visit path depth (object ms) done =
        if ltb 100 depth
        then put_if_path path (object ms) done
        else visit_members path (suc depth) ms done
    visit path depth null done = put_if_path path null done
    visit path depth (truth b) done = put_if_path path (truth b) done
    visit path depth (string s) done = put_if_path path (string s) done
    visit path depth (number s n) done = put_if_path path (number s n) done

    visit_elements : String → ℕ → ℕ → Elements → Flattened → Flattened
    visit_elements path depth index nil done = done
    visit_elements path depth index (element x xs) done =
        visit_elements path depth (suc index) xs (visit (index_path show path index) depth x done)

    visit_members : String → ℕ → Members → Flattened → Flattened
    visit_members path depth end done = done
    visit_members path depth (member k x xs) done =
        visit_members path depth xs (visit (member_path path k) depth x done)

  visit_stack : List Entry → Flattened → Flattened
  unfolding visit
  visit_stack [] done = done
  visit_stack (e ∷ stack) done = visit_stack stack (visit e.path e.depth e.value done)

  stack_size : List Entry → ℕ
  unfolding size
  stack_size [] = 0
  stack_size (e ∷ stack) = size e.value + stack_size stack

  visit_stack-push_members :
      (path : String) (depth : ℕ) (ms : Members) (stack : List Entry) (done : Flattened)
      → visit_stack (push_members path depth ms stack) done
        ≡ visit_stack stack (visit_members path depth ms done)
  unfolding visit_stack
  visit_stack-push_members path depth end stack done = refl
  visit_stack-push_members path depth (member k x xs) stack done =
      visit_stack-push_members path depth xs stack (visit (member_path path k) depth x done)

  visit_stack-push_elements :
      (path : String) (depth index : ℕ) (es : Elements) (stack : List Entry) (done : Flattened)
      → visit_stack (push_elements show path depth index es stack) done
        ≡ visit_stack stack (visit_elements path depth index es done)
  unfolding visit_stack
  visit_stack-push_elements path depth index nil stack done = refl
  visit_stack-push_elements path depth index (element x xs) stack done =
      visit_stack-push_elements path depth (suc index) xs stack
        (visit (index_path show path index) depth x done)

  stack_size-push_members :
      (path : String) (depth : ℕ) (ms : Members) (stack : List Entry)
      → stack_size (push_members path depth ms stack) ≡ size_members ms + stack_size stack
  unfolding stack_size
  stack_size-push_members path depth end stack = omega arith
  stack_size-push_members path depth (member k x xs) stack =
      omega (arith, stack_size-push_members path depth xs stack)

  stack_size-push_elements :
      (path : String) (depth index : ℕ) (es : Elements) (stack : List Entry)
      → stack_size (push_elements show path depth index es stack)
        ≡ size_elements es + stack_size stack
  unfolding stack_size
  stack_size-push_elements path depth index nil stack = omega arith
  stack_size-push_elements path depth index (element x xs) stack =
      omega (arith, stack_size-push_elements path depth (suc index) xs stack)

  size_positive : (j : Json) → 1 ≤ size j
  unfolding size
  size_positive null = omega arith
  size_positive (truth b) = omega arith
  size_positive (string s) = omega arith
  size_positive (number s n) = omega arith
  size_positive (array es) = omega arith
  size_positive (object ms) = omega arith

  -- One round of the loop does not change what the stack stands for.
  visit_stack-expand :
      (path : String) (depth : ℕ) (value : Json) (stack : List Entry) (done : Flattened)
      → ltb 100 depth ≡ false
      → visit_stack (expand show path depth value stack) (write_leaf path value done)
        ≡ visit_stack stack (visit path depth value done)
  unfolding visit visit_stack
  visit_stack-expand path depth null stack done shallow = refl
  visit_stack-expand path depth (truth b) stack done shallow = refl
  visit_stack-expand path depth (string s) stack done shallow = refl
  visit_stack-expand path depth (number s n) stack done shallow = refl
  visit_stack-expand path depth (array es) stack done shallow =
      rw (shallow, if◌then◌else◌) (visit_stack-push_elements path (suc depth) 0 es stack done)
  visit_stack-expand path depth (object ms) stack done shallow =
      rw (shallow, if◌then◌else◌) (visit_stack-push_members path (suc depth) ms stack done)

  visit-deep :
      (path : String) (depth : ℕ) (value : Json) (done : Flattened)
      → ltb 100 depth ≡ true
      → visit path depth value done ≡ put_if_path path value done
  unfolding visit
  visit-deep path depth null done deep = refl
  visit-deep path depth (truth b) done deep = refl
  visit-deep path depth (string s) done deep = refl
  visit-deep path depth (number s n) done deep = refl
  visit-deep path depth (array es) done deep = rw (deep, if◌then◌else◌)
  visit-deep path depth (object ms) done deep = rw (deep, if◌then◌else◌)

  stack_size-expand :
      (path : String) (depth : ℕ) (value : Json) (stack : List Entry)
      → stack_size (expand show path depth value stack) + 1 ≡ size value + stack_size stack
  unfolding stack_size
  stack_size-expand path depth null stack = omega arith
  stack_size-expand path depth (truth b) stack = omega arith
  stack_size-expand path depth (string s) stack = omega arith
  stack_size-expand path depth (number s n) stack = omega arith
  stack_size-expand path depth (array es) stack =
      omega (arith, stack_size-push_elements path (suc depth) 0 es stack)
  stack_size-expand path depth (object ms) stack =
      omega (arith, stack_size-push_members path (suc depth) ms stack)

  flatten_loop-visit_stack :
      (fuel : ℕ) (stack : List Entry) (done : Flattened)
      → stack_size stack ≤ fuel
      → flatten_loop show fuel stack done ≡ some (visit_stack stack done)
  unfolding flatten_loop visit_stack stack_size
  flatten_loop-visit_stack fuel [] done enough = refl
  flatten_loop-visit_stack zero (e ∷ stack) done enough =
      let no : ⊥ = omega (arith, size_positive e.value) in elim no [ ]
  flatten_loop-visit_stack (suc fuel) (e ∷ stack) done enough =
      elim (Bool-cases (ltb 100 e.depth)) [
        | inl deep ↦
            rw (deep, if◌then◌else◌)
              (flatten_loop-visit_stack fuel stack (put_if_path e.path e.value done)
                  (omega (arith, size_positive e.value))
                ∙ ap (λ (d : Flattened). some (visit_stack stack d))
                    (sym (visit-deep e.path e.depth e.value done deep)))
        | inr shallow ↦
            rw (shallow, if◌then◌else◌)
              (flatten_loop-visit_stack fuel (expand show e.path e.depth e.value stack)
                  (write_leaf e.path e.value done)
                  (omega (arith, stack_size-expand e.path e.depth e.value stack))
                ∙ ap some (visit_stack-expand e.path e.depth e.value stack done shallow))
      ]

  -- With a round for each value of the payload, the loop of `flatten_payload` ends and returns what a
  -- depth-first recursion over the payload writes, in the same order.
  pub flatten_payload-visit :
      (payload : Json) (fuel : ℕ)
      → size payload ≤ fuel
      → flatten_payload show fuel payload ≡ some (visit "" 0 payload [])
  unfolding flatten_payload visit_stack stack_size
  flatten_payload-visit payload fuel enough =
      flatten_loop-visit_stack fuel (top payload ∷ []) [] (omega arith)
