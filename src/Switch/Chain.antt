-- ===== src/Switch/Chain.antt =====
-- wren_core.c, lines 58 to 245: the fiber that is running, and the ones that wait for it.
use rust_wren.Base.{
  ℕ, ◌≡◌, ◌≢◌, refl, ap, ◌∙◌, sym, List, [], ◌∷◌, inl, inr, In, get_elem?, set, get_elem?-set_self,
  get_elem?-set_ne, get_elem?-set_cases, lt-of-get_elem?, List-cases, true, false, none, some,
}
use rust_wren.Result.{ok}
use rust_wren.Switch.{Stored, Task, has_error, is_root, load, put_top}

-- From a fiber on, each one was called by the next one, no fiber occurs twice, and the last one is
-- the root. `a ∷ path` are the fibers.
abbrev pub Chain : List Task → ℕ → List ℕ → Type 0
Chain tasks a [] =
    (t : Task) × (get_elem? tasks a ≡ some t)
    × (t.frames ≢ [])
    × (t.caller ≡ none)
    × (is_root t.state ≡ true)
Chain tasks a (b ∷ rest) =
    (t : Task) × (get_elem? tasks a ≡ some t)
    × (t.frames ≢ [])
    × (t.caller ≡ some b)
    × (¬ In a (b ∷ rest))
    × Chain tasks b rest

-- A fiber that has a frame has something on its stack.
abbrev pub IsStacked : List Task → Type 0
IsStacked tasks = (x : ℕ) (t : Task) → get_elem? tasks x ≡ some t → t.frames ≢ [] → t.stack ≢ []

abbrev pub IsClean : List Task → List ℕ → Type 0
IsClean tasks path =
    (x : ℕ) (t : Task) → In x path → get_elem? tasks x ≡ some t → has_error t ≡ false

-- The fiber runs, called by fibers that wait for it down to the root, and none of them has failed.
pub record IsChained (tasks : List Task) (a : ℕ) : Type 0 where
  pub path : List ℕ
  pub chain : Chain tasks a path
  pub stacked : IsStacked tasks
  pub clean : IsClean tasks (a ∷ path)

pub Chain-head :
    (tasks : List Task) (a : ℕ) (path : List ℕ)
    → Chain tasks a path
    → (t : Task) × (get_elem? tasks a ≡ some t) × (t.frames ≢ [])
Chain-head tasks a [] (t, e, f, c, r) = (t, e, f)
Chain-head tasks a (b ∷ rest) (t, e, f, c, n, h) = (t, e, f)

pub Chain-frames :
    (tasks : List Task) (a : ℕ) (path : List ℕ) (u : Task)
    → Chain tasks a path
    → get_elem? tasks a ≡ some u
    → u.frames ≢ []
Chain-frames tasks a path u h e =
    let (t, e', f) = Chain-head tasks a path h in
    let w : u ≡ t = cc in λ z. f (sym (ap (λ (v : Task). v.frames) w) ∙ z)

pub Chain-apart : (tasks : List Task) (a : ℕ) (path : List ℕ) → Chain tasks a path → ¬ In a path
Chain-apart tasks a [] h i = i
Chain-apart tasks a (b ∷ rest) (t, e, f, c, n, h) i = n i

-- A chain depends on its own fibers only.
pub Chain-agree :
    (tasks tasks' : List Task) (a : ℕ) (path : List ℕ)
    → ((x : ℕ) → In x (a ∷ path) → get_elem? tasks' x ≡ get_elem? tasks x)
    → Chain tasks a path
    → Chain tasks' a path
Chain-agree tasks tasks' a [] same (t, e, f, c, r) = (t, same a (inl refl) ∙ e, f, c, r)
Chain-agree tasks tasks' a (b ∷ rest) same (t, e, f, c, n, h) =
    (t, same a (inl refl) ∙ e, f, c, n, Chain-agree tasks tasks' b rest (λ x i. same x (inr i)) h)

pub In-same : (xs : List ℕ) (x y : ℕ) → x ≡ y → In y xs → In x xs
In-same xs x y e i = rw e i

pub Chain-set_other :
    (tasks : List Task) (a b : ℕ) (path : List ℕ) (t : Task)
    → ¬ In b (a ∷ path)
    → Chain tasks a path
    → Chain (set tasks b t) a path
Chain-set_other tasks a b path t out h =
    Chain-agree tasks (set tasks b t) a path
      (λ x i. get_elem?-set_ne tasks t (λ e. out (In-same (a ∷ path) b x e i))) h

pub get_elem?-set_there :
    (tasks : List Task) (a : ℕ) (t t' : Task)
    → get_elem? tasks a ≡ some t
    → get_elem? (set tasks a t') a ≡ some t'
get_elem?-set_there tasks a t t' e = get_elem?-set_self tasks a t' (lt-of-get_elem? tasks a t e)

-- The running fiber changes, but not who called it.
pub Chain-set_head :
    (tasks : List Task) (a : ℕ) (path : List ℕ) (t t' : Task)
    → get_elem? tasks a ≡ some t
    → t'.caller ≡ t.caller
    → is_root t'.state ≡ is_root t.state
    → t'.frames ≢ []
    → Chain tasks a path
    → Chain (set tasks a t') a path
Chain-set_head tasks a [] t t' e same root f (u, e', f', c, r) =
    let w : t ≡ u = cc in
    (
      t',
      get_elem?-set_there tasks a t t' e,
      f,
      same ∙ ap (λ (v : Task). v.caller) w ∙ c,
      root ∙ ap (λ (v : Task). is_root v.state) w ∙ r,
    )
Chain-set_head tasks a (b ∷ rest) t t' e same root f (u, e', f', c, n, h) =
    let w : t ≡ u = cc in
    (
      t',
      get_elem?-set_there tasks a t t' e,
      f,
      same ∙ ap (λ (v : Task). v.caller) w ∙ c,
      n,
      Chain-set_other tasks b a rest t' n h,
    )

-- A fiber that nobody has called, and is not the root, is not in the chain.
pub Chain-out :
    (tasks : List Task) (a b : ℕ) (path : List ℕ) (t : Task)
    → get_elem? tasks b ≡ some t
    → t.caller ≡ none
    → is_root t.state ≡ false
    → Chain tasks a path
    → ¬ In b (a ∷ path)
Chain-out tasks a b [] t e c r (u, e', f, c', r') (inl i) =
    let w : u ≡ t = cc in cc (ap (λ (v : Task). is_root v.state) w, r, r')
Chain-out tasks a b [] t e c r (u, e', f, c', r') (inr i) = i
Chain-out tasks a b (d ∷ rest) t e c r (u, e', f, c', n, h) (inl i) =
    let w : u ≡ t = cc in cc (ap (λ (v : Task). v.caller) w, c, c')
Chain-out tasks a b (d ∷ rest) t e c r (u, e', f, c', n, h) (inr i) =
    Chain-out tasks d b rest t e c r h i

pub set-IsStacked :
    (tasks : List Task) (a : ℕ) (t : Task)
    → IsStacked tasks
    → (t.frames ≢ [] → t.stack ≢ [])
    → IsStacked (set tasks a t)
set-IsStacked tasks a t h k x u e f = elim (get_elem?-set_cases tasks a x t u e) [
  | inl same ↦ rw same.1 (k (rw same.1 at f))
  | inr other ↦ h x u other.1 f
]

pub set-IsClean :
    (tasks : List Task) (a : ℕ) (t : Task) (path : List ℕ)
    → IsClean tasks path
    → has_error t ≡ false
    → IsClean (set tasks a t) path
set-IsClean tasks a t path h k x u i e = elim (get_elem?-set_cases tasks a x t u e) [
  | inl same ↦ rw same.1 k
  | inr other ↦ h x u i other.1
]

pub load-ok :
    (tasks : List Task) (a : ℕ) (t : Task) → get_elem? tasks a ≡ some t → load tasks (some a) ≡ ok t
unfolding load
load-ok tasks a t e = simp (e, load)

pub put_top-ok :
    (t : Task) (v : Stored)
    → t.stack ≢ []
    → (rest : List Stored) × (put_top t v ≡ ok (record t { stack = v ∷ rest }))
unfolding put_top
put_top-ok t v n = elim (List-cases t.stack) [
  | inl e ↦ absurd (n e)
  | inr (x, rest, e) ↦ (rest, simp (e, put_top))
]
