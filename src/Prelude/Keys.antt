-- ===== src/Prelude/Keys.antt =====
-- The key types of the maps: an order that decides equality (Rust's `Ord`).
use Prim.Native.Nat.{ℕ, compare, Ordering}
use Prim.Native.String.{String, compare as compare_string}
use mathlib.Core.Path.{◌≡◌}
use mathlib.Core.Logic.{◌↔◌}
use native.Mathlib.Omega.{arith}
use text.Mathlib.TextEquality.{path_by_compare}
use text.Mathlib.TextPositions.{compare_refl}
use mathlib.Core.Path.{subst}

pub record Ord {ℓ} (K : Type ℓ) : Type ℓ where
  pub cmp : K → K → Ordering
  pub cmp_iff : (a b : K) → (cmp a b ≡ Ordering.eq) ↔ (a ≡ b)

pub compare_iff : (a b : ℕ) → (compare a b ≡ Ordering.eq) ↔ (a ≡ b)
compare_iff a b = ground arith

pub compare_string_iff : (s t : String) → (compare_string s t ≡ Ordering.eq) ↔ (s ≡ t)
compare_string_iff s t =
    (path_by_compare s t, λ e. subst (λ u. compare_string s u ≡ Ordering.eq) e (compare_refl s))

instance abbrev pub nat_ord : Ord ℕ
nat_ord = record { cmp = compare; cmp_iff = compare_iff }

instance abbrev pub string_ord : Ord String
string_ord = record { cmp = compare_string; cmp_iff = compare_string_iff }
