-- ===== src/Service/SignIns/Steps.antt =====
-- Every step of the sign-ins of dbus_service.rs keeps their gate.
use gd_client.Prelude.{
  ℕ, Bool, true, false, Option, none, some, ◌≡◌, ◌<◌, ◌+◌, arith, u64_mod, next_u64, inl, inr,
  Bool-cases, Option-cases, Result-cases, Result, String, err, if-cases, if◌then◌else◌, ok, refl,
  subst, ◌==◌, sym,
}
use gd_client.Prelude.BTreeMap.{get}
use gd_client.Prelude.Keys.{nat_ord, string_ord}
use gd_client.Common.Config.{ConfigStore}
use gd_client.Common.Errors.{SyncError}
use gd_client.Drive.Auth.{TokenDisk, StoredToken, OAuthConfig}
use gd_client.Drive.Tokens.{save_session}
use gd_client.Service.{ServiceState, SignIn, FdoError, cancelled, panicked, returned, Ending}
use gd_client.Service.SignIns.{
  sign_in, complete_sign_in, sign_in_ends, task_ends, cancel_sign_in, sign_out_begins,
  finish_sign_in_cancellation, accept, end_in, sign_in_busy, signalled, slot_running, wait_for,
  after_wait, ending_of,
}
use gd_client.Service.SignIns.Gate.{
  Gate, sign_in-Gate, cancel_none-Gate, cancel_some-Gate, end-Gate, waited-Gate, late-Gate,
}

module _ (S : ConfigStore) (D : TokenDisk) where
  abbrev pub GateOf : ServiceState S D → Type 0
  GateOf s = Gate s.sign_in_generation s.sign_in s.cancelling_sign_in s.tasks s.awaited s.spawned

  pub not_busy :
      (s : ServiceState S D)
      → sign_in_busy S D s ≡ false
      → (s.cancelling_sign_in ≡ false) × (slot_running s.sign_in s.tasks ≡ false)
  unfolding sign_in_busy
  not_busy s h = ground arith

  pub sign_in-keeps :
      (config : Option OAuthConfig) (s : ServiceState S D)
      → s.sign_in_generation + 1 < u64_mod
      → GateOf s
      → GateOf (sign_in S D config s).1
  unfolding sign_in
  sign_in-keeps none s few gate = gate
  sign_in-keeps (some c) s few gate = elim (Bool-cases (sign_in_busy S D s)) [
    | inl busy ↦ rw (busy, sign_in) gate
    | inr idle ↦
        let (unlocked, empty) = not_busy s idle in
        rw (idle, sign_in) (sign_in-Gate gate unlocked empty few)
  ]

  pub complete_sign_in-keeps :
      (name : String) (g : ℕ) (token : StoredToken) (s : ServiceState S D)
      → s.sign_in ≡ none
      → GateOf s
      → GateOf (complete_sign_in S D name g token s).1
  unfolding complete_sign_in
  complete_sign_in-keeps name g token s empty gate = elim (Bool-cases (s.sign_in_generation == g)) [
    | inr other ↦ rw (other, complete_sign_in) gate
    | inl this ↦ elim (Result-cases (save_session D name token s.token_path s.client).0) [
      | inl (u, saved) ↦ rw (this, complete_sign_in, saved, complete_sign_in) (emptied gate)
      | inr (e, broken) ↦ rw (this, complete_sign_in, broken, complete_sign_in) (emptied gate)
    ]
  ]
    where
      emptied : GateOf s → GateOf (record s { sign_in = none })
      emptied h =
          subst
            (λ slot.
              Gate s.sign_in_generation slot s.cancelling_sign_in s.tasks s.awaited s.spawned)
            empty h

  pub accept-keeps :
      (name : String) (g : ℕ) (result : Result SyncError StoredToken) (s : ServiceState S D)
      → s.sign_in ≡ none
      → GateOf s
      → GateOf (accept S D name g result s)
  accept-keeps name g (err e) s empty gate = gate
  accept-keeps name g (ok token) s empty gate =
      signalled-keeps (complete_sign_in S D name g token s)
        (complete_sign_in-keeps name g token s empty gate)
    where
      signalled-keeps :
          (r : Result FdoError Bool × ServiceState S D) → GateOf r.1 → GateOf (signalled S D r)
      signalled-keeps (ok true, u) h = h
      signalled-keeps (ok false, u) h = h
      signalled-keeps (err e, u) h = h

  pub sign_in_ends-keeps :
      (name : String) (handle : ℕ) (result : Result SyncError StoredToken) (s : ServiceState S D)
      → GateOf s
      → GateOf (sign_in_ends S D name handle result s)
  unfolding sign_in_ends
  sign_in_ends-keeps name handle result s gate = elim (Option-cases (get handle s.tasks)) [
    | inl absent ↦ rw (absent, sign_in_ends) gate
    | inr (t, there) ↦ elim (Option-cases t.ending) [
      | inr (e, ended) ↦ rw (there, sign_in_ends, ended, sign_in_ends) gate
      | inl live ↦ elim (Bool-cases (s.sign_in_generation == t.generation)) [
        | inr other ↦
            rw (there, sign_in_ends, live, sign_in_ends, other, sign_in_ends)
              (end-Gate gate handle t returned s.sign_in there live (inl refl))
        | inl this ↦
            rw (there, sign_in_ends, live, sign_in_ends, this, sign_in_ends)
              (accept-keeps name t.generation result
                (record (end_in S D handle returned s) { sign_in = none }) refl
                (end-Gate gate handle t returned none there live (inr (ground arith, refl))))
      ]
    ]
  ]

  pub task_ends-keeps :
      (handle : ℕ) (panicking : Bool) (s : ServiceState S D)
      → GateOf s
      → GateOf (task_ends S D handle panicking s)
  unfolding task_ends
  task_ends-keeps handle panicking s gate = elim (Option-cases (get handle s.tasks)) [
    | inl absent ↦ rw (absent, task_ends) gate
    | inr (t, there) ↦ elim (Option-cases t.ending) [
      | inr (e, ended) ↦ rw (there, task_ends, ended, task_ends) gate
      | inl live ↦
          rw (there, task_ends, live, task_ends)
            (if-cases GateOf panicking (end_in S D handle panicked s)
              (if t.aborted then end_in S D handle cancelled s else s)
              (end-Gate gate handle t panicked s.sign_in there live (inl refl))
              (if-cases GateOf t.aborted (end_in S D handle cancelled s) s
                (end-Gate gate handle t cancelled s.sign_in there live (inl refl)) gate))
    ]
  ]

  pub cancel_sign_in-keeps :
      (s : ServiceState S D)
      → s.sign_in_generation + 1 < u64_mod
      → GateOf s
      → GateOf (record (cancel_sign_in S D s).1 {
        awaited = wait_for S D (cancel_sign_in S D s).0 (cancel_sign_in S D s).1.awaited;
      })
  unfolding cancel_sign_in
  cancel_sign_in-keeps s few gate = elim (Bool-cases s.cancelling_sign_in) [
    | inl locked ↦ rw (locked, cancel_sign_in) (rw (← locked) gate)
    | inr unlocked ↦ elim (Option-cases s.sign_in) [
      | inl empty ↦
          rw (unlocked, cancel_sign_in, empty, cancel_sign_in)
            (subst
              (λ slot.
                Gate (next_u64 s.sign_in_generation) slot s.cancelling_sign_in s.tasks s.awaited
                  s.spawned)
              (sym empty) (cancel_none-Gate gate empty few))
      | inr (k, full) ↦
          rw (unlocked, cancel_sign_in, full, cancel_sign_in)
            (cancel_some-Gate gate k unlocked full few)
    ]
  ]

  pub sign_out_begins-keeps :
      (s : ServiceState S D)
      → s.sign_in_generation + 1 < u64_mod
      → GateOf s
      → GateOf (sign_out_begins S D s).1
  unfolding sign_out_begins
  sign_out_begins-keeps s few gate = cancel_sign_in-keeps s few gate

  pub after_wait-keeps :
      (k : ℕ) (o : Option Ending) (s : ServiceState S D)
      → s.awaited ≡ some k
      → ((t : SignIn) → get k s.tasks ≡ some t → t.ending ≡ o)
      → GateOf s
      → GateOf (after_wait S D k o s).1
  after_wait-keeps k none s waiting ended gate = late-Gate gate k waiting
  after_wait-keeps k (some panicked) s waiting ended gate =
      waited-Gate gate k waiting λ t e n. ground (arith, ended t e)
  after_wait-keeps k (some returned) s waiting ended gate =
      waited-Gate gate k waiting λ t e n. ground (arith, ended t e)
  after_wait-keeps k (some cancelled) s waiting ended gate =
      waited-Gate gate k waiting λ t e n. ground (arith, ended t e)

  finish_task-keeps :
      (task : Option ℕ) (s : ServiceState S D)
      → s.awaited ≡ task
      → GateOf s
      → GateOf (finish_sign_in_cancellation S D task s).1
  unfolding finish_sign_in_cancellation
  finish_task-keeps none s quiet gate = gate
  finish_task-keeps (some k) s waiting gate =
      after_wait-keeps k (ending_of S D (get k s.tasks)) s waiting (λ t e. rw e) gate

  pub finish-keeps :
      (s : ServiceState S D) → GateOf s → GateOf (finish_sign_in_cancellation S D s.awaited s).1
  finish-keeps s gate = finish_task-keeps s.awaited s refl gate
