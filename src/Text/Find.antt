-- ===== src/Text/Find.antt =====
-- wren_value.c, lines 897 to 961: `wrenStringFind`. A string is the list of its bytes.
pub mod Occurs
pub mod Shift
pub mod Slide
pub mod First
use rust_wren.Base.{
  ℕ, zero, suc, ◌+◌, ◌-◌, ◌%◌, ◌^◌, List, [], ◌∷◌, Bool, true, false, ◌&&◌, ◌==◌, ltb, leb,
  if◌then◌else◌, length, get_elem?, set, take, drop, replicate, Option, none, some,
}
use rust_wren.Bytes.{memcmp_eq}
use rust_wren.Result.{Fault, out_of_bounds, no_fuel, Result, ok, fault, ◌>>=◌}

-- `UINT32_MAX`.
abbrev pub not_found : ℕ
not_found = 2 ^ 32 - 1

-- An array at an index.
abbrev pub read : Option ℕ → Result ℕ
read none = fault out_of_bounds
read (some c) = ok c

-- The table before the loops fill it, of `UINT8_MAX` entries.
abbrev pub default_shift : ℕ → List ℕ
default_shift n = replicate 255 n

-- The loop that fills the table, on the characters of the needle from `index` on.
unfoldable pub fill_shift : List ℕ → ℕ → ℕ → List ℕ → Result (List ℕ)
fill_shift [] index needle_end shift = ok shift
fill_shift (c ∷ cs) index needle_end shift = elim (ltb c (length shift)) [
  | true ↦ fill_shift cs (index + 1) needle_end (set shift c (needle_end - index))
  | false ↦ fault out_of_bounds
]

-- The test for a match at an index, on the last character of the window and of the needle.
unfoldable pub matches : List ℕ → List ℕ → ℕ → ℕ → ℕ → ℕ → Bool
matches haystack needle needle_end last c index =
    last == c && memcmp_eq needle_end (drop index haystack) needle

-- The loop over the haystack, on fuel.
unfoldable pub slide : ℕ → List ℕ → List ℕ → List ℕ → ℕ → ℕ → ℕ → ℕ → Result ℕ
slide zero haystack needle shift needle_end last range index = fault no_fuel
slide (suc fuel) haystack needle shift needle_end last range index = elim (leb index range) [
  | false ↦ ok not_found
  | true ↦ do
    c ← read (get_elem? haystack (index + needle_end))
    elim (matches haystack needle needle_end last c index) [
      | true ↦ ok index
      | false ↦ do
        s ← read (get_elem? shift c)
        slide fuel haystack needle shift needle_end last range ((index + s) % 2 ^ 32)
    ]
]

-- The search for a needle that is not empty, from an index in the haystack on.
unfoldable pub search_from : List ℕ → List ℕ → ℕ → Result ℕ
search_from haystack needle start = do
  let needle_end = length needle - 1
  shift ← fill_shift (take needle_end needle) 0 needle_end (default_shift (length needle))
  last ← read (get_elem? needle needle_end)
  let range = (length haystack + 2 ^ 32 - length needle) % 2 ^ 32
  slide (suc (length haystack)) haystack needle shift needle_end last range start

-- `wrenStringFind`.
unfoldable pub string_find : List ℕ → List ℕ → ℕ → Result ℕ
string_find haystack needle start =
    if length needle == 0
    then ok start
    else if ltb (length haystack) ((start + length needle) % 2 ^ 32)
    then ok not_found
    else if leb (length haystack) start
    then ok not_found
    else search_from haystack needle start
