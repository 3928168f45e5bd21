-- ===== src/Effects/Keeps.antt =====
-- What an action leaves behind, whether it succeeds or fails.
use gd_client.Prelude.{Result, ok, err, refl, ◌≡◌, Bool, true, false, if◌then◌else◌}
use gd_client.Common.Errors.{SyncError}
use gd_client.Effects.{Exec, ◌>>=◌, bind-after, continue}

module _ {S : Type 0} where
  -- From a state with `P` the action leaves a state with `P`.
  abbrev pub Keeps : {A : Type 0} → (S → Type 0) → Exec S A → Type 0
  Keeps P m = (s : S) → P s → P (m s).1

  -- From a state with `P` the action gives a result and a state with `Q`.
  abbrev pub Ends :
      {A : Type 0} → (S → Type 0) → (Result SyncError A → S → Type 0) → Exec S A → Type 0
  Ends P Q m = (s : S) → P s → Q (m s).0 (m s).1

  pub Keeps-bind :
      {A B : Type 0} (P : S → Type 0) (m : Exec S A) (f : A → Exec S B)
      → Keeps P m
      → ((a : A) → Keeps P (f a))
      → Keeps P (m >>= f)
  Keeps-bind P m f first next s p =
      bind-after P m f s (λ e _. first s p) (λ a _. next a (m s).1 (first s p))

  pub continue-ends :
      {A B : Type 0} (Q : Result SyncError B → S → Type 0) (r : Result SyncError A)
      (f : A → Exec S B) (s : S)
      → ((e : SyncError) → Q (err e) s)
      → ((a : A) → r ≡ ok a → Q (f a s).0 (f a s).1)
      → Q (continue r f s).0 (continue r f s).1
  continue-ends Q (ok a) f s broken done = done a refl
  continue-ends Q (err e) f s broken done = broken e

  pub Ends-bind :
      {A B : Type 0} (P : S → Type 0) (Q : Result SyncError B → S → Type 0) (m : Exec S A)
      (f : A → Exec S B)
      → ((s : S) (e : SyncError) → P s → Q (err e) s)
      → Keeps P m
      → ((a : A) → Ends P Q (f a))
      → Ends P Q (m >>= f)
  Ends-bind P Q m f broken first next s p =
      continue-ends Q (m s).0 f (m s).1 (λ e. broken (m s).1 e (first s p))
        (λ a _. next a (m s).1 (first s p))

  pub Ends-if :
      {A : Type 0} (P : S → Type 0) (Q : Result SyncError A → S → Type 0) (b : Bool)
      (m n : Exec S A)
      → Ends P Q m
      → Ends P Q n
      → Ends P Q (if b then m else n)
  Ends-if P Q true m n hm hn = hm
  Ends-if P Q false m n hm hn = hn
