-- ===== src/Prelude/Results.antt =====
-- Rust's `Result`, with its `?` as bind.
use mathlib.Core.Path.{◌≡◌, refl}
use mathlib.Core.Logic.{◌⊎◌, inl, inr}

pub data Result {ℓ} (E A : Type ℓ) : Type ℓ where
  ok : A → Result E A
  err : E → Result E A

module _ {ℓ} {E A B : Type ℓ} where
  infixl 5 ◌>>=◌ ◌>>◌
  -- `?`: an error ends the function.
  abbrev pub ◌>>=◌ : Result E A → (A → Result E B) → Result E B
  err e >>= next = err e
  ok a >>= next = next a

  abbrev pub ◌>>◌ : Result E A → Result E B → Result E B
  r >> s = r >>= λ _. s

-- `map_err`
abbrev pub map_err {ℓ} : {E F A : Type ℓ} → (E → F) → Result E A → Result F A
map_err f (ok a) = ok a
map_err f (err e) = err (f e)

-- `map_err` and `?` on a result beside the state that came with it.
module _ {D E F A B : Type 0} where
  abbrev continue_as : (E → F) → Result E A → (A → D → Result F B × D) → D → Result F B × D
  continue_as f (ok a) k d = k a d
  continue_as f (err e) k d = (err (f e), d)

  abbrev pub and_then : (E → F) → Result E A × D → (A → D → Result F B × D) → Result F B × D
  and_then f m k = continue_as f m.0 k m.1

-- To split on a computed result and keep the equation.
pub Result-cases {ℓ} :
    {E A : Type ℓ} (r : Result E A) → ((a : A) × (r ≡ ok a)) ⊎ ((e : E) × (r ≡ err e))
Result-cases (ok a) = inl (a, refl)
Result-cases (err e) = inr (e, refl)
