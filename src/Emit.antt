-- ===== src/Emit.antt =====
-- wren_compiler.c, lines 380 to 388, 1307 to 1363, 1751 to 1760 and 2962 to 2995, wren_opcodes.h, and
-- wren_vm.c, lines 865 to 866 and 1134 to 1147: the bytecode that is emitted, and the jumps in it. An
-- instruction is its number in wren_opcodes.h. `too_far` counts the errors of patchJump.
pub mod Jumps
use rust_wren.Base.{
  ℕ, zero, suc, ◌+◌, ◌-◌, ◌*◌, ◌/◌, ◌%◌, ◌^◌, List, [], ◌∷◌, ◌++◌, Bool, true, false, ltb, leb,
  if◌then◌else◌, length, get_elem?, get_or, set, Option, none, some,
}
use rust_wren.Base.Int.{ℤ, pos, negsuc, ◌+ℤ◌, ltb_ℤ, sub_ℕ, pos_part, neg_part}

-- `stackEffects`.
unfoldable pub stack_effects : List ℤ
stack_effects =
    pos 1
    ∷ pos 1
    ∷ pos 1
    ∷ pos 1
    ∷ pos 1
    ∷ pos 1
    ∷ pos 1
    ∷ pos 1
    ∷ pos 1
    ∷ pos 1
    ∷ pos 1
    ∷ pos 1
    ∷ pos 1
    ∷ pos 1
    ∷ pos 0
    ∷ pos 1
    ∷ pos 0
    ∷ pos 1
    ∷ pos 0
    ∷ pos 1
    ∷ pos 0
    ∷ pos 0
    ∷ negsuc 0
    ∷ negsuc 0
    ∷ pos 0
    ∷ negsuc 0
    ∷ negsuc 1
    ∷ negsuc 2
    ∷ negsuc 3
    ∷ negsuc 4
    ∷ negsuc 5
    ∷ negsuc 6
    ∷ negsuc 7
    ∷ negsuc 8
    ∷ negsuc 9
    ∷ negsuc 10
    ∷ negsuc 11
    ∷ negsuc 12
    ∷ negsuc 13
    ∷ negsuc 14
    ∷ negsuc 15
    ∷ pos 0
    ∷ negsuc 0
    ∷ negsuc 1
    ∷ negsuc 2
    ∷ negsuc 3
    ∷ negsuc 4
    ∷ negsuc 5
    ∷ negsuc 6
    ∷ negsuc 7
    ∷ negsuc 8
    ∷ negsuc 9
    ∷ negsuc 10
    ∷ negsuc 11
    ∷ negsuc 12
    ∷ negsuc 13
    ∷ negsuc 14
    ∷ negsuc 15
    ∷ pos 0
    ∷ pos 0
    ∷ negsuc 0
    ∷ negsuc 0
    ∷ negsuc 0
    ∷ negsuc 0
    ∷ pos 0
    ∷ pos 1
    ∷ pos 0
    ∷ pos 0
    ∷ negsuc 0
    ∷ negsuc 1
    ∷ negsuc 0
    ∷ negsuc 1
    ∷ negsuc 1
    ∷ pos 1
    ∷ pos 1
    ∷ pos 1
    ∷ pos 0
    ∷ []

abbrev pub code_jump : ℕ
code_jump = 58

abbrev pub code_loop : ℕ
code_loop = 59

abbrev pub max_jump : ℕ
max_jump = 2 ^ 16

pub record Emitter : Type 0 where
  pub code : List ℕ
  pub source_lines : List ℕ
  pub previous_line : ℕ
  pub num_slots : ℤ
  pub max_slots : ℤ
  pub too_far : ℕ

-- `emitByte`; the index that it returns is that of the last byte.
unfoldable pub emit_byte : Emitter → ℕ → Emitter
emit_byte e b = record e {
  code = e.code ++ (b % 2 ^ 8) ∷ [];
  source_lines = e.source_lines ++ e.previous_line ∷ [];
}

-- What `emitOp` makes of the stack's high water mark.
abbrev pub count_slots : Emitter → ℕ → Emitter
count_slots e instruction =
    let slots = e.num_slots +ℤ get_or stack_effects instruction (pos 0) in
    record e {
      num_slots = slots;
      max_slots = if ltb_ℤ e.max_slots slots then slots else e.max_slots;
    }

-- `emitOp`.
unfoldable pub emit_op : Emitter → ℕ → Emitter
emit_op e instruction = count_slots (emit_byte e instruction) instruction

-- `emitShort`.
unfoldable pub emit_short : Emitter → ℕ → Emitter
emit_short e arg = emit_byte (emit_byte e (arg / 2 ^ 8 % 2 ^ 8)) (arg % 2 ^ 8)

-- `emitByteArg`.
abbrev pub emit_byte_arg : Emitter → ℕ → ℕ → Emitter
emit_byte_arg e instruction arg = emit_byte (emit_op e instruction) arg

-- `emitShortArg`.
unfoldable pub emit_short_arg : Emitter → ℕ → ℕ → Emitter
emit_short_arg e instruction arg = emit_short (emit_op e instruction) arg

-- `emitJump`: the index of the placeholder too.
unfoldable pub emit_jump : Emitter → ℕ → ℕ × Emitter
emit_jump e instruction =
    let e' = emit_byte (emit_byte (emit_op e instruction) 0xff) 0xff in (length e'.code - 2, e')

-- `patchJump`.
unfoldable pub patch_jump : Emitter → ℕ → Emitter
patch_jump e offset =
    let jump = length e.code - offset - 2 in
    record e {
      too_far = if ltb max_jump jump then e.too_far + 1 else e.too_far;
      code = set (set e.code offset (jump / 2 ^ 8 % 2 ^ 8)) (offset + 1) (jump % 2 ^ 8);
    }

-- `loop->start` in `startLoop`, one less than the count of the code.
abbrev pub loop_start : Emitter → ℤ
loop_start e = sub_ℕ (length e.code) 1

-- The jump back of `endLoop`.
unfoldable pub emit_loop : Emitter → ℤ → Emitter
emit_loop e start = emit_short_arg e code_loop (length e.code + neg_part start - pos_part start + 2)

-- `READ_SHORT`: the number, and the instruction pointer behind it.
unfoldable pub read_short : List ℕ → ℕ → Option (ℕ × ℕ)
read_short code ip = elim (get_elem? code ip) [
  | none ↦ none
  | some high ↦ elim (get_elem? code (ip + 1)) [
    | none ↦ none
    | some low ↦ some ((high * 2 ^ 8 + low) % 2 ^ 16, ip + 2)
  ]
]

-- Where the interpreter goes on after `JUMP` and after `LOOP`, behind the instruction.
unfoldable pub jump_target : List ℕ → ℕ → Option ℕ
jump_target code ip = elim (read_short code ip) [ none ↦ none | some r ↦ some (r.1 + r.0) ]

unfoldable pub loop_target : List ℕ → ℕ → Option ℕ
loop_target code ip = elim (read_short code ip) [ none ↦ none | some r ↦ some (r.1 - r.0) ]
