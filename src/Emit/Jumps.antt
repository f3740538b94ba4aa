-- ===== src/Emit/Jumps.antt =====
-- wren_compiler.c, lines 1751 to 1760 and 2988 to 2997: where jumps lead.
use rust_wren.Base.{
  ℕ, zero, suc, ◌+◌, ◌-◌, ◌/◌, ◌%◌, ◌^◌, ◌≤◌, ◌<◌, ◌≡◌, refl, ap, ap₂, ◌∙◌, sym, List, [], ◌∷◌,
  ◌++◌, false, ltb, arith, length, length-append, get_elem?, get_elem?-append_length, set,
  append_assoc, append-nil, some,
}
use rust_wren.Base.Int.{ℤ, sub_ℕ, pos_part, neg_part}
use rust_wren.Emit.{
  Emitter, emit_byte, emit_op, emit_short, emit_short_arg, emit_jump, patch_jump, emit_loop,
  loop_start, code_loop, read_short, jump_target, loop_target, max_jump,
}

-- Any bytes that are emitted one after the other.
unfoldable pub emit_all : Emitter → List ℕ → Emitter
emit_all e [] = e
emit_all e (b ∷ bytes) = emit_all (emit_byte e b) bytes

bytes_of : List ℕ → List ℕ
bytes_of [] = []
bytes_of (b ∷ bytes) = b % 2 ^ 8 ∷ bytes_of bytes

length-bytes_of : (bytes : List ℕ) → length (bytes_of bytes) ≡ length bytes
unfolding bytes_of
length-bytes_of [] = refl
length-bytes_of (b ∷ bytes) = ap suc (length-bytes_of bytes)

emit_all-code : (e : Emitter) (bytes : List ℕ) → (emit_all e bytes).code ≡ e.code ++ bytes_of bytes
unfolding emit_all emit_byte bytes_of
emit_all-code e [] = sym (append-nil e.code)
emit_all-code e (b ∷ bytes) =
    emit_all-code (emit_byte e b) bytes ∙ append_assoc e.code (b % 2 ^ 8 ∷ []) (bytes_of bytes)

emit_all-too_far : (e : Emitter) (bytes : List ℕ) → (emit_all e bytes).too_far ≡ e.too_far
unfolding emit_all emit_byte
emit_all-too_far e [] = refl
emit_all-too_far e (b ∷ bytes) = emit_all-too_far (emit_byte e b) bytes

set_second :
    (xs ys : List ℕ) (a b h l : ℕ) (at : ℕ)
    → at ≡ length xs
    → set (set (xs ++ a ∷ b ∷ ys) at h) (at + 1) l ≡ xs ++ h ∷ l ∷ ys
set_second [] ys a b h l zero e = refl
set_second [] ys a b h l (suc at) e = absurd (omega (arith, e))
set_second (x ∷ xs) ys a b h l zero e = absurd (omega (arith, e))
set_second (x ∷ xs) ys a b h l (suc at) e =
    ap (λ (k : ℕ). set (x ∷ set (xs ++ a ∷ b ∷ ys) at h) k l) (next at)
    ∙ ap (λ (t : List ℕ). x ∷ t) (set_second xs ys a b h l at (omega (arith, e)))
  where
    next : (at : ℕ) → suc at + 1 ≡ suc (at + 1)
    next at = omega arith

-- A number of two bytes.
read_short-pair :
    (xs ys : List ℕ) (n : ℕ) (code : List ℕ) (at : ℕ)
    → code ≡ xs ++ n / 2 ^ 8 % 2 ^ 8 ∷ n % 2 ^ 8 ∷ ys
    → at ≡ length xs
    → read_short code at ≡ some (n % 2 ^ 16, at + 2)
unfolding read_short
read_short-pair xs ys n code at e here =
    let high = n / 2 ^ 8 % 2 ^ 8 in
    let low = n % 2 ^ 8 in
    let first : get_elem? code at ≡ some high =
      ap₂ (λ (t : List ℕ) (k : ℕ). get_elem? t k) e here
      ∙ get_elem?-append_length xs (low ∷ ys) high in
    let second : get_elem? code (at + 1) ≡ some low =
      ap₂ (λ (t : List ℕ) (k : ℕ). get_elem? t k) (e ∙ sym (append_assoc xs (high ∷ []) (low ∷ ys)))
        (omega (arith, here, length-append xs (high ∷ [])))
      ∙ get_elem?-append_length (xs ++ high ∷ []) ys low in
    rw (first, second, read_short) (ap (λ (m : ℕ). some (m, at + 2)) (omega arith))

-- A forward jump over bytes: its placeholder, and the code behind it when it is patched.
abbrev pub jump_over : Emitter → ℕ → List ℕ → Emitter
jump_over e instruction bytes = emit_all (emit_jump e instruction).1 bytes

module _ (e : Emitter) (instruction : ℕ) (bytes : List ℕ) where
  jump_at : (emit_jump e instruction).0 ≡ length e.code + 1
  unfolding emit_jump emit_op emit_byte
  jump_at = omega (
    arith,
    length-append (e.code ++ instruction % 2 ^ 8 ∷ [] ++ 255 ∷ []) (255 ∷ []),
    length-append (e.code ++ instruction % 2 ^ 8 ∷ []) (255 ∷ []),
    length-append e.code (instruction % 2 ^ 8 ∷ []),
  )

  placeholder :
      (emit_jump e instruction).1.code ≡ e.code ++ instruction % 2 ^ 8 ∷ [] ++ 255 ∷ 255 ∷ []
  unfolding emit_jump emit_op emit_byte
  placeholder = append_assoc (e.code ++ instruction % 2 ^ 8 ∷ []) (255 ∷ []) (255 ∷ [])

  jump_over-code :
      (jump_over e instruction bytes).code
      ≡ e.code ++ instruction % 2 ^ 8 ∷ [] ++ 255 ∷ 255 ∷ bytes_of bytes
  jump_over-code =
      emit_all-code (emit_jump e instruction).1 bytes
      ∙ ap (λ (t : List ℕ). t ++ bytes_of bytes) placeholder
      ∙ append_assoc (e.code ++ instruction % 2 ^ 8 ∷ []) (255 ∷ 255 ∷ []) (bytes_of bytes)

  jump_over-too_far : (jump_over e instruction bytes).too_far ≡ e.too_far
  unfolding emit_jump emit_op emit_byte
  jump_over-too_far = emit_all-too_far (emit_jump e instruction).1 bytes

  -- The code once the jump is patched.
  patched-code :
      (patch_jump (jump_over e instruction bytes) (emit_jump e instruction).0).code
      ≡ e.code
        ++ instruction % 2 ^ 8 ∷ []
        ++ length bytes / 2 ^ 8 % 2 ^ 8 ∷ length bytes % 2 ^ 8 ∷ bytes_of bytes
  unfolding patch_jump
  patched-code =
      let e' = jump_over e instruction bytes in
      let at = (emit_jump e instruction).0 in
      let xs = e.code ++ instruction % 2 ^ 8 ∷ [] in
      let size : length xs ≡ length e.code + 1 =
        omega (arith, length-append e.code (instruction % 2 ^ 8 ∷ [])) in
      let jump : length e'.code - at - 2 ≡ length bytes = omega (
        arith,
        jump_at,
        ap length jump_over-code,
        size,
        length-append xs (255 ∷ 255 ∷ bytes_of bytes),
        length-bytes_of bytes,
      ) in
      ap (λ (n : ℕ). set (set e'.code at (n / 2 ^ 8 % 2 ^ 8)) (at + 1) (n % 2 ^ 8)) jump
      ∙ ap
          (λ (t : List ℕ).
            set (set t at (length bytes / 2 ^ 8 % 2 ^ 8)) (at + 1) (length bytes % 2 ^ 8))
          jump_over-code
      ∙ set_second xs (bytes_of bytes) 255 255 (length bytes / 2 ^ 8 % 2 ^ 8) (length bytes % 2 ^ 8)
          at (omega (arith, jump_at, size))

  -- An instruction that emitJump emits, any bytes behind its placeholder, and patchJump on the
  -- placeholder: behind the operand the interpreter goes on at the end of the code if there are fewer
  -- than 2 ^ 16 bytes, and in general that many bytes further, modulo 2 ^ 16; the bytes of the code
  -- before are kept.
  pub patch_jump-jump_target :
      (jump_target
          (patch_jump (jump_over e instruction bytes) (emit_jump e instruction).0).code
          (emit_jump e instruction).0
        ≡ some ((emit_jump e instruction).0 + 2 + length bytes % 2 ^ 16))
      × (length (patch_jump (jump_over e instruction bytes) (emit_jump e instruction).0).code
          ≡ (emit_jump e instruction).0 + 2 + length bytes)
      × ((rest : List ℕ) × ((patch_jump
              (jump_over e instruction bytes)
              (emit_jump e instruction).0).code
            ≡ e.code ++ rest))
  unfolding jump_target
  patch_jump-jump_target =
      let xs = e.code ++ instruction % 2 ^ 8 ∷ [] in
      let operand = length bytes / 2 ^ 8 % 2 ^ 8 ∷ length bytes % 2 ^ 8 ∷ bytes_of bytes in
      let at = (emit_jump e instruction).0 in
      let code = (patch_jump (jump_over e instruction bytes) at).code in
      let size : length xs ≡ length e.code + 1 =
        omega (arith, length-append e.code (instruction % 2 ^ 8 ∷ [])) in
      let short =
        read_short-pair xs (bytes_of bytes) (length bytes) code at patched-code
          (omega (arith, jump_at, size)) in
      (
        rw (short, jump_target) refl,
        omega (
          arith,
          ap length patched-code,
          length-append xs operand,
          size,
          jump_at,
          length-bytes_of bytes,
        ),
        (
          instruction % 2 ^ 8 ∷ operand,
          patched-code ∙ append_assoc e.code (instruction % 2 ^ 8 ∷ []) operand,
        ),
      )

  jump_size :
      length (jump_over e instruction bytes).code - (emit_jump e instruction).0 - 2 ≡ length bytes
  jump_size = omega (
    arith,
    jump_at,
    ap length jump_over-code,
    length-append e.code (instruction % 2 ^ 8 ∷ []),
    length-append (e.code ++ instruction % 2 ^ 8 ∷ []) (255 ∷ 255 ∷ bytes_of bytes),
    length-bytes_of bytes,
  )

  patch_jump-too_far :
      length bytes ≤ 2 ^ 16
      → (patch_jump (jump_over e instruction bytes) (emit_jump e instruction).0).too_far ≡ e.too_far
  unfolding patch_jump
  patch_jump-too_far h =
      let fits : ltb max_jump
            (length (jump_over e instruction bytes).code - (emit_jump e instruction).0 - 2)
          ≡ false =
        rw jump_size (ground arith) in
      rw (fits, patch_jump) jump_over-too_far

  -- Over exactly 2 ^ 16 bytes patchJump reports no error, but the jump leads to the byte behind its
  -- operand.
  pub patch_jump-longest :
      length bytes ≡ 2 ^ 16
      → ((patch_jump (jump_over e instruction bytes) (emit_jump e instruction).0).too_far
          ≡ e.too_far)
        × (jump_target
              (patch_jump (jump_over e instruction bytes) (emit_jump e instruction).0).code
              (emit_jump e instruction).0
            ≡ some ((emit_jump e instruction).0 + 2))
  patch_jump-longest h =
      let none_left : (emit_jump e instruction).0 + 2 + length bytes % 2 ^ 16
          ≡ (emit_jump e instruction).0 + 2 =
        omega (arith, h) in
      (
        patch_jump-too_far (omega (arith, h)),
        patch_jump-jump_target.0 ∙ ap (λ (n : ℕ). some n) none_left,
      )

-- The jump back to where a loop starts.
emit_loop-code :
    (e : Emitter) (start : ℤ)
    → (emit_loop e start).code
      ≡ e.code
        ++ code_loop % 2 ^ 8 ∷ []
        ++ (length e.code + neg_part start - pos_part start + 2) / 2 ^ 8 % 2 ^ 8 % 2 ^ 8
          ∷ (length e.code + neg_part start - pos_part start + 2) % 2 ^ 8 % 2 ^ 8
          ∷ []
unfolding emit_loop emit_short_arg emit_short emit_op emit_byte
emit_loop-code e start =
    let n = length e.code + neg_part start - pos_part start + 2 in
    append_assoc (e.code ++ code_loop % 2 ^ 8 ∷ []) (n / 2 ^ 8 % 2 ^ 8 % 2 ^ 8 ∷ [])
      (n % 2 ^ 8 % 2 ^ 8 ∷ [])

-- A loop that starts in front of bytes, fewer than 2 ^ 16 - 3, and ends behind them: behind the
-- operand of the instruction that endLoop emits, the interpreter goes on at the first of the bytes.
pub emit_loop-loop_target :
    (e : Emitter) (bytes : List ℕ)
    → length bytes + 3 < 2 ^ 16
    → loop_target
        (emit_loop (emit_all e bytes) (loop_start e)).code
        (length (emit_all e bytes).code + 1)
      ≡ some (length e.code)
unfolding loop_target
emit_loop-loop_target e bytes h =
    let e' = emit_all e bytes in
    let start = loop_start e in
    let n = length e'.code + neg_part start - pos_part start + 2 in
    let size : length e'.code ≡ length e.code + length bytes = omega (
      arith,
      ap length (emit_all-code e bytes),
      length-append e.code (bytes_of bytes),
      length-bytes_of bytes,
    ) in
    let back : n ≡ length bytes + 3 =
      start_back (length e.code) (length e'.code) (length bytes) size in
    let code : (emit_loop e' start).code
        ≡ e'.code ++ code_loop % 2 ^ 8 ∷ [] ++ n / 2 ^ 8 % 2 ^ 8 ∷ n % 2 ^ 8 ∷ [] =
      emit_loop-code e' start
      ∙ ap₂ (λ (h l : ℕ). e'.code ++ code_loop % 2 ^ 8 ∷ [] ++ h ∷ l ∷ []) (omega arith)
          (omega arith) in
    let short =
      read_short-pair (e'.code ++ code_loop % 2 ^ 8 ∷ []) [] n (emit_loop e' start).code
        (length e'.code + 1) code (omega (arith, length-append e'.code (code_loop % 2 ^ 8 ∷ []))) in
    rw (short, loop_target) (ap (λ (m : ℕ). some m) (omega (arith, back, size, h)))
  where
    start_back :
        (c d n : ℕ) → d ≡ c + n → d + neg_part (sub_ℕ c 1) - pos_part (sub_ℕ c 1) + 2 ≡ n + 3
    start_back c d n e = ground arith
