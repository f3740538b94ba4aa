-- ===== src/Utils/SymbolTable.antt =====
-- wren_utils.c, lines 10 to 54: symbol tables, which are buffers of strings.
pub mod Refine
use rust_wren.Base.{ℕ, zero, suc, ◌+◌, ◌-◌, List, [], ◌∷◌, Option, none, some, if◌then◌else◌}
use rust_wren.Base.Int.{ℤ, pos, negsuc, sub_ℕ, eqb_ℤ}
use rust_wren.Bytes.{string_equals_cstring}
use rust_wren.Utils.Buffer
use rust_wren.Utils.Buffer.{Buffer}

abbrev pub SymbolTable : Type 0
SymbolTable = Buffer (List ℕ)

-- `wrenSymbolTableInit` and `wrenSymbolTableClear`.
unfoldable pub init : SymbolTable
unfolding Buffer.init
init = Buffer.init

unfoldable pub clear : SymbolTable → SymbolTable
unfolding Buffer.clear
clear symbols = Buffer.clear symbols

-- The loop of `wrenSymbolTableFind`, with `rounds` symbols left from index `i` on.
unfoldable pub find_from : SymbolTable → List ℕ → ℕ → ℕ → Option ℤ
unfolding Buffer.load string_equals_cstring
find_from symbols name zero i = some (negsuc 0)
find_from symbols name (suc rounds) i =
    let rest = find_from symbols name rounds (i + 1) in
    elim (Buffer.load symbols i) [
      | none ↦ none
      | some symbol ↦ if string_equals_cstring symbol name then some (pos i) else rest
    ]

-- `wrenSymbolTableFind`; -1 if the name is not there.
unfoldable pub find : SymbolTable → List ℕ → Option ℤ
unfolding find_from
find symbols name = find_from symbols name symbols.count 0

-- `wrenSymbolTableAdd`: the new index, and the table.
unfoldable pub add : SymbolTable → List ℕ → Option (ℤ × SymbolTable)
unfolding Buffer.write
add symbols name = elim (Buffer.write symbols name) [
  | none ↦ none
  | some symbols' ↦ some (sub_ℕ symbols'.count 1, symbols')
]

-- `wrenSymbolTableEnsure`.
unfoldable pub ensure : SymbolTable → List ℕ → Option (ℤ × SymbolTable)
unfolding find add
ensure symbols name = elim (find symbols name) [
  | none ↦ none
  | some existing ↦ if eqb_ℤ existing (negsuc 0) then add symbols name else some (existing, symbols)
]
