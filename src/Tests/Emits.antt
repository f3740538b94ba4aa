-- ===== src/Tests/Emits.antt =====
-- Runs of the emission of code.
use rust_wren.Base.{
  ℕ, ◌+◌, ◌%◌, ◌^◌, ◌≡◌, List, [], ◌∷◌, ◌++◌, some, arith, length, replicate, length-replicate,
}
use rust_wren.Base.Int.{pos}
use rust_wren.Emit.{
  Emitter, emit_jump, patch_jump, emit_loop, loop_start, jump_target, loop_target, code_jump,
}
use rust_wren.Emit.Jumps.{
  jump_over, emit_all, patch_jump-jump_target, patch_jump-longest, emit_loop-loop_target,
}

-- Code of one instruction.
abbrev one_byte : Emitter
one_byte = record {
  code = 1 ∷ [];
  source_lines = 1 ∷ [];
  previous_line = 1;
  num_slots = pos 1;
  max_slots = pos 1;
  too_far = 0;
}

-- A jump over an instruction.
abbrev patched : Emitter
patched = patch_jump (jump_over one_byte code_jump (23 ∷ [])) (emit_jump one_byte code_jump).0

patch_jump-jump_target_example :
    (jump_target patched.code (emit_jump one_byte code_jump).0
      ≡ some ((emit_jump one_byte code_jump).0 + 2 + 1 % 2 ^ 16))
    × (length patched.code ≡ (emit_jump one_byte code_jump).0 + 2 + 1)
    × ((rest : List ℕ) × (patched.code ≡ 1 ∷ [] ++ rest))
patch_jump-jump_target_example = patch_jump-jump_target one_byte code_jump (23 ∷ [])

abbrev longest : List ℕ
longest = replicate (2 ^ 16) 23

abbrev too_long : Emitter
too_long = patch_jump (jump_over one_byte code_jump longest) (emit_jump one_byte code_jump).0

patch_jump-longest_example :
    (too_long.too_far ≡ one_byte.too_far)
    × (jump_target too_long.code (emit_jump one_byte code_jump).0
        ≡ some ((emit_jump one_byte code_jump).0 + 2))
patch_jump-longest_example =
    patch_jump-longest one_byte code_jump longest (length-replicate {A = ℕ} (2 ^ 16) 23)

emit_loop-loop_target_example :
    loop_target
      (emit_loop (emit_all one_byte (23 ∷ [])) (loop_start one_byte)).code
      (length (emit_all one_byte (23 ∷ [])).code + 1)
    ≡ some (length one_byte.code)
emit_loop-loop_target_example = emit_loop-loop_target one_byte (23 ∷ []) (omega arith)
