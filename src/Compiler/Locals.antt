-- ===== src/Compiler/Locals.antt =====
-- wren_compiler.c, `resolveLocal`.
use rust_wren.Base.{
  ℕ, zero, suc, ◌≤◌, ◌<◌, ◌≡◌, ◌≢◌, ◌↔◌, refl, inl, inr, List, [], ◌∷◌, true, false, ◌&&◌, Option,
  none, some, arith, get_elem?, length, ◌==◌, Bool-cases, get_elem?-of_lt, ℕ_discrete,
}
use rust_wren.Bytes.{memcmp_eq}
use rust_wren.Compiler.{Local, Compiler, same_name, resolve_from, resolve_local}

same_bytes_iff :
    (a b : List ℕ) → ((length a == length b && memcmp_eq (length b) b a) ≡ true) ↔ (a ≡ b)
unfolding memcmp_eq
same_bytes_iff [] [] = (λ _. refl, λ _. refl)
same_bytes_iff [] (y ∷ b) = ground arith
same_bytes_iff (x ∷ a) [] = ground arith
same_bytes_iff (x ∷ a) (y ∷ b) = ground (arith, same_bytes_iff a b)

pub same_name_iff : (l : Local) (name : List ℕ) → (same_name l name ≡ true) ↔ (l.name ≡ name)
unfolding same_name
same_name_iff l name = same_bytes_iff l.name name

-- The last of the locals below an index that has a name.
unfoldable pub IsLastBelow : List Local → List ℕ → ℕ → Option ℕ → Type 0
IsLastBelow ls name n none = (j : ℕ) (l : Local) → j < n → get_elem? ls j ≡ some l → l.name ≢ name
IsLastBelow ls name n (some i) =
    (i < n)
    × ((l : Local) × (get_elem? ls i ≡ some l) × (l.name ≡ name))
    × ((j : ℕ) (l : Local) → i < j → j < n → get_elem? ls j ≡ some l → l.name ≢ name)

resolve_at-match :
    (ls : List Local) (name : List ℕ) (n : ℕ) (l : Local) (rest : Option ℕ)
    → get_elem? ls n ≡ some l
    → same_name l name ≡ true
    → IsLastBelow ls name (suc n) (some n)
unfolding IsLastBelow
resolve_at-match ls name n l rest e t =
    (omega arith, (l, e, (same_name_iff l name).0 t), λ j l' less below. absurd (omega arith))

other_name :
    (ls : List Local) (name : List ℕ) (n : ℕ) (l : Local)
    → get_elem? ls n ≡ some l
    → same_name l name ≡ false
    → (l' : Local) → get_elem? ls n ≡ some l'
    → l'.name ≢ name
other_name ls name n l e t l' e' same =
    let eq : l ≡ l' = cc in
    let yes : same_name l name ≡ true = (same_name_iff l name).1 (rw eq same) in cc

resolve_at-next :
    (ls : List Local) (name : List ℕ) (n : ℕ) (l : Local) (rest : Option ℕ)
    → get_elem? ls n ≡ some l
    → same_name l name ≡ false
    → IsLastBelow ls name n rest
    → IsLastBelow ls name (suc n) rest
unfolding IsLastBelow
resolve_at-next ls name n l none e t h = λ j l' below e'. elim (ℕ_discrete j n) [
  | yes same ↦ other_name ls name n l e t l' (rw same at e')
  | no ne ↦ h j l' (omega arith) e'
]
resolve_at-next ls name n l (some i) e t (less, found, later) = (
  omega arith,
  found,
  λ j l' above below e'. elim (ℕ_discrete j n) [
    | yes same ↦ other_name ls name n l e t l' (rw same at e')
    | no ne ↦ later j l' above (omega arith) e'
  ],
)

resolve_from-IsLastBelow :
    (ls : List Local) (name : List ℕ) (n : ℕ)
    → n ≤ length ls
    → IsLastBelow ls name n (resolve_from ls name n)
unfolding resolve_from IsLastBelow
resolve_from-IsLastBelow ls name zero h = λ j l less e. absurd (omega arith)
resolve_from-IsLastBelow ls name (suc n) h =
    let ih = resolve_from-IsLastBelow ls name n (omega arith) in
    let at = get_elem?-of_lt ls n (omega arith) in
    elim (Bool-cases (same_name at.0 name)) [
      | inl t ↦ rw (at.1, t) (resolve_at-match ls name n at.0 none at.1 t)
      | inr t ↦ rw (at.1, t) (resolve_at-next ls name n at.0 (resolve_from ls name n) at.1 t ih)
    ]

-- `resolveLocal` returns the slot of the last declared local of this name, and -1 exactly when no
-- local has it.
pub resolve_local-IsLastBelow :
    (c : Compiler) (name : List ℕ)
    → IsLastBelow c.locals name (length c.locals) (resolve_local c name)
unfolding resolve_local
resolve_local-IsLastBelow c name =
    resolve_from-IsLastBelow c.locals name (length c.locals) (omega arith)
