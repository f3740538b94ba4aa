-- ===== src/Value/Equal/Laws.antt =====
-- wren_value.c: the laws that wrenValuesEqual and the hash codes have together.
use rust_wren.Base.{ℕ, ◌^◌, ◌<◌, ◌≡◌, ◌≢◌, ap, true, arith, ◌⊎◌, inl, inr, Bool-cases}
use rust_wren.Bytes.{string_equals_cstring_iff}
use rust_wren.Value.{
  Object, range, string, Heap, Value, undefined, null_val, false_val, true_val, num, obj,
}
use rust_wren.Value.Double.{double_eq, negative_zero}
use rust_wren.Value.Hash.{hash_value, hash_object}
use rust_wren.Value.Equal.{values_same, values_equal, objects_equal, both_objects}

-- A key for which equal keys have equal hash codes: any value but a range from or to -0.
abbrev pub LawfulObject : Object → Type 0
LawfulObject (range from to inclusive) =
    (from < 2 ^ 64) × (from ≢ negative_zero) × (to < 2 ^ 64) × (to ≢ negative_zero)
LawfulObject (string s) = Unit
LawfulObject a = Unit

abbrev pub Lawful : Heap → Value → Type 0
Lawful heap (obj a) = LawfulObject (heap a)
Lawful heap v = Unit

same_of_values_same : (v w : Value) → values_same v w ≡ true → v ≡ w
unfolding values_same
same_of_values_same undefined w h = ground arith
same_of_values_same null_val w h = ground arith
same_of_values_same false_val w h = ground arith
same_of_values_same true_val w h = ground arith
same_of_values_same (num n) w h = ground arith
same_of_values_same (obj n) w h = ground arith

values_same_refl : (v : Value) → values_same v v ≡ true
unfolding values_same
values_same_refl v = ground arith

pub values_equal_refl : (heap : Heap) (v : Value) → values_equal heap v v ≡ true
unfolding values_equal
values_equal_refl heap v = ground arith

double_eq_symm : (a b : ℕ) → double_eq a b ≡ true → double_eq b a ≡ true
unfolding double_eq
double_eq_symm a b h = ground arith

double_eq_trans : (a b c : ℕ) → double_eq a b ≡ true → double_eq b c ≡ true → double_eq a c ≡ true
unfolding double_eq
double_eq_trans a b c h k = ground arith

objects_equal_symm : (a b : Object) → objects_equal a b ≡ true → objects_equal b a ≡ true
unfolding objects_equal
objects_equal_symm (range f t i) (range f' t' i') h =
    ground (arith, double_eq_symm f f', double_eq_symm t t')
objects_equal_symm (string s) (string s') h =
    ground (arith, string_equals_cstring_iff s s', string_equals_cstring_iff s' s)
objects_equal_symm a b h = cc

objects_equal_trans :
    (a b c : Object)
    → objects_equal a b ≡ true
    → objects_equal b c ≡ true
    → objects_equal a c ≡ true
unfolding objects_equal
objects_equal_trans (range f t i) (range f' t' i') (range f'' t'' i'') h k =
    ground (arith, double_eq_trans f f' f'', double_eq_trans t t' t'')
objects_equal_trans (string s) (string s') (string s'') h k = ground (
  arith,
  string_equals_cstring_iff s s',
  string_equals_cstring_iff s' s'',
  string_equals_cstring_iff s s'',
)
objects_equal_trans (range f t i) b c h k = ground arith
objects_equal_trans (string s) b c h k = ground arith
objects_equal_trans a b c h k = cc

both_objects_symm :
    (heap : Heap) (v w : Value) → both_objects heap v w ≡ true → both_objects heap w v ≡ true
both_objects_symm heap (obj a) (obj b) h = objects_equal_symm (heap a) (heap b) h
both_objects_symm heap v w h = cc

both_objects_trans :
    (heap : Heap) (u v w : Value)
    → both_objects heap u v ≡ true
    → both_objects heap v w ≡ true
    → both_objects heap u w ≡ true
both_objects_trans heap (obj a) (obj b) (obj c) h k =
    objects_equal_trans (heap a) (heap b) (heap c) h k
both_objects_trans heap u v w h k = cc

-- Two values are equal if they are the same, or both objects with equal contents.
values_equal_cases :
    (heap : Heap) (v w : Value)
    → values_equal heap v w ≡ true
    → (v ≡ w) ⊎ (both_objects heap v w ≡ true)
unfolding values_equal
values_equal_cases heap v w h = elim (Bool-cases (values_same v w)) [
  | inl e ↦ inl (same_of_values_same v w e)
  | inr e ↦ inr (ground arith)
]

values_equal_of_both :
    (heap : Heap) (v w : Value) → both_objects heap v w ≡ true → values_equal heap v w ≡ true
unfolding values_equal
values_equal_of_both heap v w h = rw h (ground arith)

pub values_equal_symm :
    (heap : Heap) (v w : Value) → values_equal heap v w ≡ true → values_equal heap w v ≡ true
values_equal_symm heap v w h = elim (values_equal_cases heap v w h) [
  | inl e ↦ rw e (values_equal_refl heap w)
  | inr e ↦ values_equal_of_both heap w v (both_objects_symm heap v w e)
]

pub values_equal_trans :
    (heap : Heap) (u v w : Value)
    → values_equal heap u v ≡ true
    → values_equal heap v w ≡ true
    → values_equal heap u w ≡ true
values_equal_trans heap u v w h k = elim (values_equal_cases heap u v h) [
  | inl e ↦ rw e k
  | inr e ↦ elim (values_equal_cases heap v w k) [
    | inl e' ↦ rw (← e') h
    | inr e' ↦ values_equal_of_both heap u w (both_objects_trans heap u v w e e')
  ]
]

double_eq-eq :
    (a b : ℕ)
    → a < 2 ^ 64
    → a ≢ negative_zero
    → b < 2 ^ 64
    → b ≢ negative_zero
    → double_eq a b ≡ true
    → a ≡ b
unfolding double_eq
double_eq-eq a b h k h' k' e = ground arith

hash-objects_equal :
    (a b : Object)
    → LawfulObject a
    → LawfulObject b
    → objects_equal a b ≡ true
    → hash_object a ≡ hash_object b
unfolding objects_equal hash_object
hash-objects_equal (range f t i) (range f' t' i') (p₀, p₁, p₂, p₃) (q₀, q₁, q₂, q₃) e =
    let from_eq : f ≡ f' = double_eq-eq f f' p₀ p₁ q₀ q₁ (ground arith) in
    let to_eq : t ≡ t' = double_eq-eq t t' p₂ p₃ q₂ q₃ (ground arith) in rw (from_eq, to_eq)
hash-objects_equal (string s) (string s') p q e = ground (arith, string_equals_cstring_iff s s')
hash-objects_equal (range f t i) b p q e = ground arith
hash-objects_equal (string s) b p q e = ground arith
hash-objects_equal a b p q e = cc

hash-both_objects :
    (heap : Heap) (v w : Value)
    → Lawful heap v
    → Lawful heap w
    → both_objects heap v w ≡ true
    → hash_value heap v ≡ hash_value heap w
unfolding hash_value hash_object
hash-both_objects heap (obj a) (obj b) p q e = hash-objects_equal (heap a) (heap b) p q e
hash-both_objects heap v w p q e = cc

-- Values that are equal have equal hash codes, unless one of them is a range from or to the negative
-- zero.
pub hash-values_equal :
    (heap : Heap) (v w : Value)
    → Lawful heap v
    → Lawful heap w
    → values_equal heap v w ≡ true
    → hash_value heap v ≡ hash_value heap w
hash-values_equal heap v w p q h = elim (values_equal_cases heap v w h) [
  | inl e ↦ ap (hash_value heap) e
  | inr e ↦ hash-both_objects heap v w p q e
]
