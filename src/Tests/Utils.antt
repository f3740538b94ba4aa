-- ===== src/Tests/Utils.antt =====
-- wren_utils.c at fixed inputs.
use rust_wren.Base.{
  ℕ, ◌≤◌, ◌<◌, ◌*◌, ◌^◌, ◌≡◌, refl, List, [], ◌∷◌, ◌++◌, map, none, some, arith, length, replicate,
  ◌≢◌, ◌⊎◌,
}
use rust_wren.Base.Int.{ℤ, pos, negsuc}
use rust_wren.Utils.Utf8.{encode, encode_num_bytes, decode, decode_num_bytes}
use rust_wren.Utils.Utf8.RoundTrip.{
  decode-encode, decode-ne-none, decode_num_bytes-encode, decode_overlong,
}
use rust_wren.Utils.PowerOf2.{power_of_2_ceil}
use rust_wren.Utils.PowerOf2.Bounds.{power_of_2_ceil_bounds}
use rust_wren.Utils.Buffer
use rust_wren.Utils.Buffer.{Buffer}
use rust_wren.Utils.Buffer.Refine.{Represents, fill-Represents}
use rust_wren.Utils.SymbolTable.{SymbolTable, ensure}
use rust_wren.Utils.SymbolTable.Refine.{Ensured, ensure-Ensured}
use rust_wren.Utils.Index.{validate_index, Denotes, uint32_max, validate_index_lem}

-- The euro sign.
encode_euro : encode 0x20ac ≡ some (3, 0xe2 ∷ 0x82 ∷ 0xac ∷ [])
unfolding encode
encode_euro = refl

decode_truncated : decode (0xe2 ∷ 0x82 ∷ []) 2 ≡ some (negsuc 0)
unfolding decode
decode_truncated = refl

decode-encode_example :
    (bytes : List ℕ) × (encode 0x20ac ≡ some (encode_num_bytes 0x20ac, bytes))
    × (length bytes ≡ encode_num_bytes 0x20ac)
    × (decode (bytes ++ 33 ∷ []) 4 ≡ some (pos 0x20ac))
unfolding encode_num_bytes
decode-encode_example = decode-encode 0x20ac (33 ∷ []) 4 (omega arith) (omega arith) (omega arith)

decode-ne-none_example : decode (0xe2 ∷ 0x82 ∷ []) 2 ≢ none
decode-ne-none_example = decode-ne-none (0xe2 ∷ 0x82 ∷ []) (omega arith) (λ e. cc) (omega arith)

decode_num_bytes-encode_example : map decode_num_bytes (0xe2 ∷ 0x82 ∷ 0xac ∷ []) ≡ 3 ∷ replicate 2 0
decode_num_bytes-encode_example =
    decode_num_bytes-encode 0x20ac 3 (0xe2 ∷ 0x82 ∷ 0xac ∷ []) encode_euro

-- The NUL byte in two bytes.
decode_overlong_example : decode (0xc0 ∷ 0x80 ∷ []) 2 ≡ some (pos 0)
decode_overlong_example = decode_overlong 0 [] 2 (omega arith) (omega arith) (omega arith)

power_of_2_ceil_runs : power_of_2_ceil 1000 ≡ 1024
unfolding power_of_2_ceil
power_of_2_ceil_runs = refl

power_of_2_ceil_bounds_example :
    (k : ℕ) × (power_of_2_ceil 1000 ≡ 2 ^ k)
    × (1000 ≤ power_of_2_ceil 1000)
    × (power_of_2_ceil 1000 < 2 * 1000)
power_of_2_ceil_bounds_example = power_of_2_ceil_bounds 1000 (omega arith) (omega arith)

abbrev two_items : Buffer ℕ
two_items = record { cells = some 7 ∷ some 8 ∷ []; count = 2; capacity = 2 }

two_items-Represents : Represents two_items (7 ∷ 8 ∷ [])
two_items-Represents = record { free = []; cells_eq = refl; count_eq = refl; capacity_eq = refl }

fill-Represents_example :
    (b' : Buffer ℕ) × (Buffer.fill two_items 9 3 ≡ some b')
    × Represents b' (7 ∷ 8 ∷ 9 ∷ 9 ∷ 9 ∷ [])
    × (2 ≤ b'.capacity)
    × ((b'.capacity ≡ 2) ⊎ (b'.capacity < 10))
fill-Represents_example =
    fill-Represents two_items (7 ∷ 8 ∷ []) 9 3 two_items-Represents (omega arith) (omega arith)

abbrev symbols : SymbolTable
symbols = record { cells = some (97 ∷ []) ∷ some (98 ∷ []) ∷ []; count = 2; capacity = 2 }

abbrev names : List (List ℕ)
names = (97 ∷ []) ∷ (98 ∷ []) ∷ []

symbols-Represents : Represents symbols names
symbols-Represents = record { free = []; cells_eq = refl; count_eq = refl; capacity_eq = refl }

ensure-Ensured_example :
    (k : ℤ) × (symbols' : SymbolTable) × (ensure symbols (99 ∷ []) ≡ some (k, symbols'))
    × Ensured names (99 ∷ []) k symbols'
ensure-Ensured_example = ensure-Ensured symbols names symbols-Represents (99 ∷ []) (omega arith)

ensure_present : ensure symbols (98 ∷ []) ≡ some (pos 1, symbols)
unfolding ensure
ensure_present = refl

validate_index_lem_example :
    ((validate_index 5 (negsuc 1) < 5) × Denotes 5 (negsuc 1) (validate_index 5 (negsuc 1)))
    ⊎ ((validate_index 5 (negsuc 1) ≡ uint32_max) × ((i : ℕ) → i < 5 → Denotes 5 (negsuc 1) i → ⊥))
validate_index_lem_example = validate_index_lem 5 (negsuc 1) (omega arith)

validate_index_last : validate_index 5 (negsuc 0) ≡ 4
unfolding validate_index
validate_index_last = refl
