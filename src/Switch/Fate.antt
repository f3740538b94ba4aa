-- ===== src/Switch/Fate.antt =====
-- wren_vm.c, lines 408 to 441: what becomes of fibers where an error unwinds.
use rust_wren.Base.{
  ℕ, ◌≡◌, ◌≢◌, refl, ap, ◌∙◌, sym, List, [], ◌∷◌, inl, inr, In, get_elem?, set, get_elem?-set_ne,
  Bool, true, false, Bool-cases, Option, none, some,
}
use rust_wren.Switch.{Stored, Task, is_try}
use rust_wren.Switch.Chain.{get_elem?-set_there, In-same}

abbrev pub tries_at : List Task → ℕ → Bool
tries_at tasks a = elim (get_elem? tasks a) [ none ↦ false | some t ↦ is_try t.state ]

-- Along a chain `a ∷ path`: the caller of the first fiber that is being tried.
abbrev pub catcher : List Task → ℕ → List ℕ → Option ℕ
catcher tasks a [] = none
catcher tasks a (b ∷ rest) = elim (tries_at tasks a) [
  | true ↦ some b
  | false ↦ catcher tasks b rest
]

-- The fibers up to the first one that is being tried, or all of them.
abbrev pub fallen : List Task → ℕ → List ℕ → List ℕ
fallen tasks a [] = a ∷ []
fallen tasks a (b ∷ rest) = elim (tries_at tasks a) [
  | true ↦ a ∷ []
  | false ↦ a ∷ fallen tasks b rest
]

-- What becomes of a fiber.
pub record Fate (tasks tasks' : List Task) (error : Stored) (down : List ℕ) (next : Option ℕ)
    : Type 0 where
  pub fails :
      (x : ℕ) (t : Task)
      → In x down
      → get_elem? tasks x ≡ some t
      → (t' : Task) × (get_elem? tasks' x ≡ some t')
        × (t'.error ≡ error)
        × (t'.stack ≡ t.stack)
        × (t'.frames ≡ t.frames)
  pub gets :
      (x : ℕ) (t : Task)
      → next ≡ some x
      → get_elem? tasks x ≡ some t
      → (v : Stored) × (rest : List Stored) × (t.stack ≡ v ∷ rest)
        × (get_elem? tasks' x ≡ some (record t { stack = error ∷ rest }))
  pub stays : (x : ℕ) → ¬ In x down → next ≢ some x → get_elem? tasks' x ≡ get_elem? tasks x

pub catcher-In :
    (tasks : List Task) (a : ℕ) (path : List ℕ) (x : ℕ) → catcher tasks a path ≡ some x → In x path
catcher-In tasks a [] x e = cc
catcher-In tasks a (b ∷ rest) x e = elim (Bool-cases (tries_at tasks a)) [
  | inl t ↦ let w : some b ≡ some x = rw (t, catcher) at e in inl cc
  | inr t ↦ inr (catcher-In tasks b rest x (rw (t, catcher) at e))
]

pub fallen-In :
    (tasks : List Task) (a : ℕ) (path : List ℕ) (x : ℕ)
    → In x (fallen tasks a path)
    → In x (a ∷ path)
fallen-In tasks a [] x i = i
fallen-In tasks a (b ∷ rest) x i = elim (Bool-cases (tries_at tasks a)) [
  | inl t ↦
      let k : In x (a ∷ []) = rw (t, fallen) at i in elim k [ inl e ↦ inl e | inr k' ↦ elim k' [ ] ]
  | inr t ↦
      let k : In x (a ∷ fallen tasks b rest) = rw (t, fallen) at i in
      elim k [ inl e ↦ inl e | inr k' ↦ inr (fallen-In tasks b rest x k') ]
]

pub catcher-set :
    (tasks : List Task) (c : ℕ) (t : Task) (a : ℕ) (path : List ℕ)
    → ¬ In c (a ∷ path)
    → (catcher (set tasks c t) a path ≡ catcher tasks a path)
      × (fallen (set tasks c t) a path ≡ fallen tasks a path)
catcher-set tasks c t a [] out = (refl, refl)
catcher-set tasks c t a (b ∷ rest) out =
    let tasks' = set tasks c t in
    let (e, f) = catcher-set tasks c t b rest (λ i. out (inr i)) in
    let tried : tries_at tasks' a ≡ tries_at tasks a =
      ap (λ (o : Option Task). elim o as (λ y. Bool) [ none ↦ false | some u ↦ is_try u.state ])
        (get_elem?-set_ne tasks t (λ z. out (inl z))) in
    elim (Bool-cases (tries_at tasks a)) [
      | inl z ↦
          let now : tries_at tasks' a ≡ true = tried ∙ z in
          let l : catcher tasks' a (b ∷ rest) ≡ some b = rw (now, catcher) refl in
          let r : catcher tasks a (b ∷ rest) ≡ some b = rw (z, catcher) refl in
          let m : fallen tasks' a (b ∷ rest) ≡ a ∷ [] = rw (now, fallen) refl in
          let n : fallen tasks a (b ∷ rest) ≡ a ∷ [] = rw (z, fallen) refl in (l ∙ sym r, m ∙ sym n)
      | inr z ↦
          let now : tries_at tasks' a ≡ false = tried ∙ z in
          let l : catcher tasks' a (b ∷ rest) ≡ catcher tasks' b rest = rw (now, catcher) refl in
          let r : catcher tasks a (b ∷ rest) ≡ catcher tasks b rest = rw (z, catcher) refl in
          let m : fallen tasks' a (b ∷ rest) ≡ a ∷ fallen tasks' b rest = rw (now, fallen) refl in
          let n : fallen tasks a (b ∷ rest) ≡ a ∷ fallen tasks b rest = rw (z, fallen) refl in
          (l ∙ e ∙ sym r, m ∙ ap (λ (y : List ℕ). a ∷ y) f ∙ sym n)
    ]

pub Fate-caught :
    (tasks : List Task) (c b : ℕ) (t n : Task) (error v : Stored) (rest : List Stored)
    → c ≢ b
    → get_elem? tasks c ≡ some t
    → get_elem? tasks b ≡ some n
    → n.stack ≡ v ∷ rest
    → Fate tasks
        (set (set tasks c (record t { error = error })) b (record n { stack = error ∷ rest }))
        error
        (c ∷ [])
        (some b)
Fate-caught tasks c b t n error v rest ne et en sn =
    let t' = record t { error = error } in
    let n' = record n { stack = error ∷ rest } in
    let tasks₁ = set tasks c t' in
    let there : get_elem? tasks₁ b ≡ some n = get_elem?-set_ne tasks t' ne ∙ en in
    record {
      fails = λ x u i e. elim i [
        | inl same ↦
            let at_c : get_elem? tasks x ≡ some t = ap (get_elem? tasks) same ∙ et in
            let w : t ≡ u = cc in
            (
              t',
              ap (get_elem? (set tasks₁ b n')) same
                  ∙ get_elem?-set_ne tasks₁ n' (λ z. ne (sym z))
                  ∙ get_elem?-set_there tasks c t t' et,
              refl,
              ap (λ (y : Task). y.stack) w,
              ap (λ (y : Task). y.frames) w,
            )
        | inr k ↦ elim k [ ]
      ];
      gets = λ x u e eu.
          let same : b ≡ x = cc in
          let at_b : get_elem? tasks x ≡ some n = ap (get_elem? tasks) (sym same) ∙ en in
          let w : n ≡ u = cc in
          (
            v,
            rest,
            ap (λ (y : Task). y.stack) (sym w) ∙ sn,
            ap (get_elem? (set tasks₁ b n')) (sym same)
                ∙ get_elem?-set_there tasks₁ b n n' there
                ∙ ap (λ (y : Task). some (record y { stack = error ∷ rest })) w,
          );
      stays = λ x out other.
          get_elem?-set_ne tasks₁ n' (λ z. other (ap some z))
          ∙ get_elem?-set_ne tasks t' (λ z. out (inl (sym z)));
    }

-- One more fiber falls.
pub Fate-on :
    (tasks tasks' : List Task) (c : ℕ) (t t' : Task) (error : Stored) (down : List ℕ)
    (next : Option ℕ)
    → get_elem? tasks c ≡ some t
    → t'.error ≡ error
    → t'.stack ≡ t.stack
    → t'.frames ≡ t.frames
    → ¬ In c down
    → next ≢ some c
    → Fate (set tasks c t') tasks' error down next
    → Fate tasks tasks' error (c ∷ down) next
Fate-on tasks tasks' c t t' error down next et ee es ef out other f = record {
  fails = λ x u i e. elim i [
    | inl same ↦
        let at_c : get_elem? tasks x ≡ some t = ap (get_elem? tasks) same ∙ et in
        let w : t ≡ u = cc in
        (
          t',
          ap (get_elem? tasks') same ∙ f.stays c out other ∙ get_elem?-set_there tasks c t t' et,
          ee,
          es ∙ ap (λ (y : Task). y.stack) w,
          ef ∙ ap (λ (y : Task). y.frames) w,
        )
    | inr k ↦ f.fails x u k (get_elem?-set_ne tasks t' (λ z. out (In-same down c x z k)) ∙ e)
  ];
  gets =
      λ x u e eu. f.gets x u e (get_elem?-set_ne tasks t' (λ z. other (e ∙ ap some (sym z))) ∙ eu);
  stays = λ x o n. f.stays x (λ k. o (inr k)) n ∙ get_elem?-set_ne tasks t' (λ z. o (inl (sym z)));
}

pub Fate-same : (tasks : List Task) (error : Stored) → Fate tasks tasks error [] none
Fate-same tasks error = record {
  fails = λ x t i e. elim i [ ];
  gets = λ x t e et. cc;
  stays = λ x o n. refl;
}

pub Fate-eq :
    (tasks tasks' : List Task) (error : Stored) (down down' : List ℕ) (next next' : Option ℕ)
    → down ≡ down'
    → next ≡ next'
    → Fate tasks tasks' error down' next'
    → Fate tasks tasks' error down next
Fate-eq tasks tasks' error down down' next next' e e' f = rw (e, e') f
