-- ===== src/Result.antt =====
-- The results of code that can read out of bounds or overflow, which C leaves undefined, and of loops
-- that recur on fuel.
use rust_wren.Base.{◌≡◌, refl, ap}

pub data Fault : Type 0 where
  out_of_bounds overflow unreachable no_fuel : Fault

pub data Result (A : Type 0) : Type 0 where
  ok : A → Result A
  fault : Fault → Result A

infixl 5 ◌>>=◌
abbrev pub ◌>>=◌ : {A B : Type 0} → Result A → (A → Result B) → Result B
ok a >>= f = f a
fault e >>= f = fault e

-- The code does not run out of fuel, and where it returns a value, the value has a property.
abbrev pub Ends : {A : Type 0} → (A → Type 0) → Result A → Type 0
Ends P (ok a) = P a
Ends P (fault no_fuel) = ⊥
Ends P (fault e) = Unit

module _ {Got : Type 0} {Good : Got → Type 0} where
  pub >>=-Ends :
      {Next : Type 0} (Fine : Next → Type 0) (first : Result Got) (then_ : Got → Result Next)
      → Ends Good first
      → ((got : Got) → Good got → Ends Fine (then_ got))
      → Ends Fine (first >>= then_)
  >>=-Ends Fine (ok got) then_ h k = k got h
  >>=-Ends Fine (fault no_fuel) then_ h k = h
  >>=-Ends Fine (fault out_of_bounds) then_ h k = tt
  >>=-Ends Fine (fault overflow) then_ h k = tt
  >>=-Ends Fine (fault unreachable) then_ h k = tt

  pub Ends-map :
      (Fine : Got → Type 0) (first : Result Got)
      → Ends Good first
      → ((got : Got) → Good got → Fine got)
      → Ends Fine first
  Ends-map Fine (ok got) h k = k got h
  Ends-map Fine (fault no_fuel) h k = h
  Ends-map Fine (fault out_of_bounds) h k = tt
  Ends-map Fine (fault overflow) h k = tt
  Ends-map Fine (fault unreachable) h k = tt

-- The code returns a value with a property, unless the loops that recur on fuel run out of it.
abbrev pub Safely : {A : Type 0} → (A → Type 0) → Result A → Type 0
Safely P (ok a) = P a
Safely P (fault no_fuel) = Unit
Safely P (fault e) = ⊥

module _ {Got : Type 0} {Good : Got → Type 0} where
  pub >>=-Safely :
      {Next : Type 0} (Fine : Next → Type 0) (first : Result Got) (then_ : Got → Result Next)
      → Safely Good first
      → ((got : Got) → Good got → Safely Fine (then_ got))
      → Safely Fine (first >>= then_)
  >>=-Safely Fine (ok got) then_ h k = k got h
  >>=-Safely Fine (fault no_fuel) then_ h k = tt
  >>=-Safely Fine (fault out_of_bounds) then_ h k = h
  >>=-Safely Fine (fault overflow) then_ h k = h
  >>=-Safely Fine (fault unreachable) then_ h k = h

  pub Safely-map :
      (Fine : Got → Type 0) (first : Result Got)
      → Safely Good first
      → ((got : Got) → Good got → Fine got)
      → Safely Fine first
  Safely-map Fine (ok got) h k = k got h
  Safely-map Fine (fault no_fuel) h k = tt
  Safely-map Fine (fault out_of_bounds) h k = h
  Safely-map Fine (fault overflow) h k = h
  Safely-map Fine (fault unreachable) h k = h

-- Code that ends, and safely, returns.
pub Ends-Safely :
    {A : Type 0} (P Q : A → Type 0) (r : Result A)
    → Ends P r
    → Safely Q r
    → (a : A) × (r ≡ ok a) × P a × Q a
Ends-Safely P Q (ok a) p q = (a, refl, p, q)
Ends-Safely P Q (fault no_fuel) p q = absurd p
Ends-Safely P Q (fault out_of_bounds) p q = absurd q
Ends-Safely P Q (fault overflow) p q = absurd q
Ends-Safely P Q (fault unreachable) p q = absurd q

-- What follows a step that returns.
pub >>=-ok : {A B : Type 0} (r : Result A) (a : A) (f : A → Result B) → r ≡ ok a → (r >>= f) ≡ f a
>>=-ok r a f e = ap (λ (s : Result _). s >>= f) e

-- A chain that only returns what the last step did.
pub >>=-return : {A : Type 0} (r : Result A) → (r >>= λ a. ok a) ≡ r
>>=-return (ok a) = refl
>>=-return (fault e) = refl
