-- ===== src/Effects.antt =====
-- Asynchronous code that may fail, run to its end: an action of a state. What was changed before an
-- error stays changed, so the state comes back beside the error too.
pub mod Keeps
use gd_client.Prelude.{Result, err, ok, arith, refl, ◌≡◌}
use gd_client.Common.Errors.{SyncError}

abbrev pub Exec : Type 0 → Type 0 → Type 0
Exec S A = S → Result SyncError A × S

module _ {S A : Type 0} where
  abbrev pub pure : A → Exec S A
  pure a s = (ok a, s)

  abbrev pub fail : SyncError → Exec S A
  fail e s = (err e, s)

  -- A result that is there already, with `?`.
  abbrev pub lift : Result SyncError A → Exec S A
  lift r s = (r, s)

  abbrev pub gets : (S → A) → Exec S A
  gets f s = (ok (f s), s)

abbrev pub modify_state : {S : Type 0} → (S → S) → Exec S Unit
modify_state f s = (ok tt, f s)

module _ {S A B : Type 0} where
  abbrev pub continue : Result SyncError A → (A → Exec S B) → Exec S B
  continue (ok a) f s = f a s
  continue (err e) f s = (err e, s)

  infixl 5 ◌>>=◌ ◌>>◌
  abbrev pub ◌>>=◌ : Exec S A → (A → Exec S B) → Exec S B
  ◌>>=◌ m f s = let (result, after) = m s in continue result f after

  abbrev pub ◌>>◌ : Exec S A → Exec S B → Exec S B
  m >> n = m >>= λ _. n

  continue-after {κ} :
      (P : S → Type κ) (r : Result SyncError A) (f : A → Exec S B) (s : S)
      → ((e : SyncError) → r ≡ err e → P s)
      → ((a : A) → r ≡ ok a → P (f a s).1)
      → P (continue r f s).1
  continue-after P (ok a) f s failed done = done a refl
  continue-after P (err e) f s failed done = failed e refl

  -- What holds after a block: either its first action failed, or the rest was run.
  pub bind-after {κ} :
      (P : S → Type κ) (m : Exec S A) (f : A → Exec S B) (s : S)
      → ((e : SyncError) → (m s).0 ≡ err e → P (m s).1)
      → ((a : A) → (m s).0 ≡ ok a → P (f a (m s).1).1)
      → P ((m >>= f) s).1
  bind-after P m f s failed done = continue-after P (m s).0 f (m s).1 failed done

  continue-eq-ok :
      (r : Result SyncError A) (f : A → Exec S B) (s : S) (b : B) (t : S)
      → continue r f s ≡ (ok b, t)
      → (a : A) × (r ≡ ok a) × (f a s ≡ (ok b, t))
  continue-eq-ok (ok a) f s b t h = (a, refl, h)
  continue-eq-ok (err e) f s b t h = ground arith

  -- A block that succeeds has run its first action to a result, and the rest on that.
  pub bind-eq-ok :
      (m : Exec S A) (f : A → Exec S B) (s : S) (b : B) (t : S)
      → (m >>= f) s ≡ (ok b, t)
      → (a : A) × ((m s).0 ≡ ok a) × (f a (m s).1 ≡ (ok b, t))
  bind-eq-ok m f s b t h = continue-eq-ok (m s).0 f (m s).1 b t h
