-- ===== src/Switch/Caught.antt =====
-- wren_vm.c, lines 408 to 441: an error unwinds the chain of callers, and the interpreter goes on with
-- the fiber that gets it.
use rust_wren.Base.{
  ℕ, zero, suc, ◌≤◌, ◌<◌, ◌≡◌, refl, ap, ◌∙◌, sym, List, [], ◌∷◌, ◌⊎◌, inl, inr, In, length,
  get_elem?, set, get_elem?-set_cases, Bool, true, false, arith, Bool-cases, Option, none, some,
}
use rust_wren.Result.{ok, >>=-ok}
use rust_wren.Switch.{
  Stored, FiberState, fiber_try, fiber_root, fiber_other, Task, is_try, is_root, load, put_top,
}
use rust_wren.Switch.Errors.{give_error, unwind}
use rust_wren.Switch.Chain.{
  Chain, IsStacked, IsClean, IsChained, Chain-head, Chain-set_other, Chain-set_head, set-IsStacked,
  set-IsClean, load-ok, put_top-ok, In-same,
}

-- How many fibers have a caller.
abbrev pub is_hooked : Option ℕ → Bool
is_hooked none = false
is_hooked (some c) = true

unfoldable pub hooked : List Task → ℕ
hooked [] = 0
hooked (t ∷ tasks) = elim (is_hooked t.caller) [ true ↦ suc (hooked tasks) | false ↦ hooked tasks ]

pub hooked-le : (tasks : List Task) → hooked tasks ≤ length tasks
unfolding hooked
hooked-le [] = omega arith
hooked-le (t ∷ tasks) = elim (Bool-cases (is_hooked t.caller)) [
  | inl h ↦ rw (h, hooked) (omega (arith, hooked-le tasks))
  | inr h ↦ rw (h, hooked) (omega (arith, hooked-le tasks))
]

pub hooked-set :
    (tasks : List Task) (a : ℕ) (t t' : Task)
    → get_elem? tasks a ≡ some t
    → is_hooked t.caller ≡ true
    → is_hooked t'.caller ≡ false
    → hooked tasks ≡ suc (hooked (set tasks a t'))
unfolding hooked
hooked-set [] a t t' e h h' = cc
hooked-set (u ∷ tasks) zero t t' e h h' =
    let w : u ≡ t = cc in
    let hu : is_hooked u.caller ≡ true = ap (λ (v : Task). is_hooked v.caller) w ∙ h in
    rw (hu, hooked) (rw (h', hooked) refl)
hooked-set (u ∷ tasks) (suc a) t t' e h h' = elim (Bool-cases (is_hooked u.caller)) [
  | inl k ↦ rw (k, hooked) (ap suc (hooked-set tasks a t t' e h h'))
  | inr k ↦ rw (k, hooked) (hooked-set tasks a t t' e h h')
]

-- The fibers of a chain but the last one have a caller.
pub Chain-le :
    (tasks : List Task) (a : ℕ) (path : List ℕ) → Chain tasks a path → length path ≤ hooked tasks
Chain-le tasks a [] h = omega arith
Chain-le tasks a (b ∷ rest) (t, e, f, c, n, h) =
    let t' = record t { caller = none } in
    let drop = hooked-set tasks a t t' e (ap is_hooked c) refl in
    let fewer = Chain-le (set tasks a t') b rest (Chain-set_other tasks b a rest t' n h) in
    omega (arith, drop, fewer)

pub IsClean-set_other :
    (tasks : List Task) (a : ℕ) (t : Task) (path : List ℕ)
    → ¬ In a path
    → IsClean tasks path
    → IsClean (set tasks a t) path
IsClean-set_other tasks a t path out h x u i e = elim (get_elem?-set_cases tasks a x t u e) [
  | inl same ↦ absurd (out (In-same path a x (sym same.0) i))
  | inr other ↦ h x u i other.1
]

-- The fiber that gets an error, if there is one, runs in a chain.
abbrev pub IsCaught : Option ℕ × List Task → Type 0
IsCaught (p, tasks) = (p ≡ none) ⊎ ((a : ℕ) × (p ≡ some a) × IsChained tasks a)

give_error-IsCaught :
    (tasks : List Task) (b : ℕ) (path : List ℕ) (error : Stored)
    → Chain tasks b path
    → IsStacked tasks
    → IsClean tasks (b ∷ path)
    → (r : Option ℕ × List Task) × (give_error tasks (some b) error ≡ ok r) × IsCaught r
unfolding give_error
give_error-IsCaught tasks b path error h stacked clean =
    let (t, e, f) = Chain-head tasks b path h in
    let (rest, put) = put_top-ok t error (stacked b t e f) in
    let t' = record t { stack = error ∷ rest } in
    (
      (some b, set tasks b t'),
      >>=-ok (load tasks (some b)) t _ (load-ok tasks b t e) ∙ >>=-ok (put_top t error) t' _ put,
      inr (
        b,
        refl,
        record {
          path = path;
          chain = Chain-set_head tasks b path t t' e refl refl f h;
          stacked = set-IsStacked tasks b t' stacked (λ k z. ground arith);
          clean = set-IsClean tasks b t' (b ∷ path) clean (clean b t (inl refl) e);
        },
      ),
    )

pub root-not_try : (s : FiberState) → is_root s ≡ true → is_try s ≡ false
root-not_try fiber_root e = refl
root-not_try fiber_try e = cc
root-not_try fiber_other e = cc

pub unwind-try :
    (fuel : ℕ) (tasks : List Task) (c : ℕ) (error : Stored) (t : Task)
    → get_elem? tasks c ≡ some t
    → is_try t.state ≡ true
    → unwind (suc fuel) tasks (some c) error
      ≡ give_error (set tasks c (record t { error = error })) t.caller error
unfolding unwind
unwind-try fuel tasks c error t e s =
    >>=-ok (load tasks (some c)) t _ (load-ok tasks c t e) ∙ rw s refl

pub unwind-on :
    (fuel : ℕ) (tasks : List Task) (c : ℕ) (error : Stored) (t : Task)
    → get_elem? tasks c ≡ some t
    → is_try t.state ≡ false
    → unwind (suc fuel) tasks (some c) error
      ≡ unwind fuel (set tasks c (record t { error = error; caller = none })) t.caller error
unfolding unwind
unwind-on fuel tasks c error t e s =
    >>=-ok (load tasks (some c)) t _ (load-ok tasks c t e) ∙ rw s refl

pub unwind-IsCaught :
    (fuel : ℕ) (tasks : List Task) (c : ℕ) (path : List ℕ) (error : Stored)
    → Chain tasks c path
    → IsStacked tasks
    → IsClean tasks path
    → length path < fuel
    → (r : Option ℕ × List Task) × (unwind fuel tasks (some c) error ≡ ok r) × IsCaught r
unfolding unwind
unwind-IsCaught zero tasks c path error h stacked clean enough = ground arith
unwind-IsCaught (suc fuel) tasks c [] error (t, e, f, k, root) stacked clean enough =
    let tasks' = set tasks c (record t { error = error; caller = none }) in
    (
      (none, tasks'),
      unwind-on fuel tasks c error t e (root-not_try t.state root)
          ∙ ap (λ (p : Option ℕ). unwind fuel tasks' p error) k,
      inl refl,
    )
unwind-IsCaught (suc fuel) tasks c (b ∷ rest) error (t, e, f, k, n, h) stacked clean enough =
    elim (Bool-cases (is_try t.state)) [
      | inl s ↦
          let t' = record t { error = error } in
          let tasks' = set tasks c t' in
          let (r, run, caught) =
            give_error-IsCaught tasks' b rest error (Chain-set_other tasks b c rest t' n h)
              (set-IsStacked tasks c t' stacked (stacked c t e))
              (IsClean-set_other tasks c t' (b ∷ rest) n clean) in
          (
            r,
            unwind-try fuel tasks c error t e s
                ∙ ap (λ (p : Option ℕ). give_error tasks' p error) k
                ∙ run,
            caught,
          )
      | inr s ↦
          let t' = record t { error = error; caller = none } in
          let tasks' = set tasks c t' in
          let (r, run, caught) =
            unwind-IsCaught fuel tasks' b rest error (Chain-set_other tasks b c rest t' n h)
              (set-IsStacked tasks c t' stacked (stacked c t e))
              (λ x u i. IsClean-set_other tasks c t' (b ∷ rest) n clean x u (inr i))
              (omega arith) in
          (
            r,
            unwind-on fuel tasks c error t e s
                ∙ ap (λ (p : Option ℕ). unwind fuel tasks' p error) k
                ∙ run,
            caught,
          )
    ]
