-- ===== src/Prelude/BTreeMap.antt =====
-- `std::collections::BTreeMap` as the list of its entries, which is how its iterator gives them; its
-- `insert` puts a new key before the first larger one. `HashMap` is the same with an order that no
-- caller reads.
use Prim.Native.Nat.{Ordering}
use mathlib.Core.Path.{◌≡◌, refl}
use mathlib.Core.Bool.{Bool, true, false}
use mathlib.Core.Option.{Option, none, some}
use mathlib.Core.List.{List, [], ◌∷◌}
use native.Mathlib.Omega.{arith}
use gd_client.Prelude.Keys.{Ord, nat_ord, string_ord}
use gd_client.Prelude.Tests.{if◌then◌else◌}

abbrev pub BTreeMap {ℓ} : Type ℓ → Type ℓ → Type ℓ
BTreeMap K V = List (K × V)

abbrev pub same {ℓ} : {K : Type ℓ} ⦃o : Ord K⦄ → K → K → Bool
same ⦃o⦄ a b = elim (o.cmp a b) [ Ordering.eq ↦ true | _ ↦ false ]

abbrev pub map_value {ℓ} : {V : Type ℓ} → (V → V) → Option V → Option V
map_value f none = none
map_value f (some v) = some (f v)

module _ {ℓ} {K V : Type ℓ} ⦃o : Ord K⦄ where
  unfoldable pub get : K → BTreeMap K V → Option V
  get k [] = none
  get k ((j, v) ∷ m) = if same j k then some v else get k m

  unfoldable pub insert : K → V → BTreeMap K V → BTreeMap K V
  insert k v [] = (k, v) ∷ []
  insert k v ((j, w) ∷ m) = elim (o.cmp k j) [
    | Ordering.lt ↦ (k, v) ∷ (j, w) ∷ m
    | Ordering.eq ↦ (k, v) ∷ m
    | Ordering.gt ↦ (j, w) ∷ insert k v m
  ]

  unfoldable pub remove : K → BTreeMap K V → BTreeMap K V
  remove k [] = []
  remove k ((j, v) ∷ m) = let rest = remove k m in if same j k then rest else (j, v) ∷ rest

  -- A write through `get_mut`.
  unfoldable pub modify : K → (V → V) → BTreeMap K V → BTreeMap K V
  modify k f [] = []
  modify k f ((j, v) ∷ m) =
      let rest = modify k f m in if same j k then (j, f v) ∷ m else (j, v) ∷ rest

  pub get-insert :
      (j k : K) (v : V) (m : BTreeMap K V)
      → get j (insert k v m) ≡ (if same k j then some v else get j m)
  unfolding get insert
  get-insert j k v [] = refl
  get-insert j k v ((i, w) ∷ m) =
      ground (arith, o.cmp_iff k j, o.cmp_iff k i, o.cmp_iff i j, get-insert j k v m)

  pub get-remove :
      (j k : K) (m : BTreeMap K V) → get j (remove k m) ≡ (if same k j then none else get j m)
  unfolding get remove
  get-remove j k [] = ground arith
  get-remove j k ((i, w) ∷ m) =
      ground (arith, o.cmp_iff k j, o.cmp_iff i k, o.cmp_iff i j, get-remove j k m)

  pub get-modify :
      (j k : K) (f : V → V) (m : BTreeMap K V)
      → get j (modify k f m) ≡ (if same k j then map_value f (get j m) else get j m)
  unfolding get modify
  get-modify j k f [] = ground arith
  get-modify j k f ((i, w) ∷ m) =
      ground (arith, o.cmp_iff k j, o.cmp_iff i k, o.cmp_iff i j, get-modify j k f m)

  -- A write that changes nothing leaves the map as it was.
  pub modify_same :
      (k : K) (f : V → V) (v : V) (m : BTreeMap K V) → get k m ≡ some v → f v ≡ v → modify k f m ≡ m
  unfolding get modify
  modify_same k f v [] h e = refl
  modify_same k f v ((i, w) ∷ m) h e = ground (arith, modify_same k f v m)

  pub remove_absent : (k : K) (m : BTreeMap K V) → get k m ≡ none → remove k m ≡ m
  unfolding get remove
  remove_absent k [] h = refl
  remove_absent k ((i, w) ∷ m) h = ground (arith, remove_absent k m)
