-- ===== src/Service/SignIns/SignOut.antt =====
-- A sign-out against a sign-in that is under way (dbus_service.rs).
use gd_client.Prelude.{
  ℕ, String, none, ◌≡◌, ◌<◌, ◌+◌, arith, u64_mod, refl, inl, inr, Bool-cases, Option-cases, Result,
  ◌==◌,
}
use gd_client.Prelude.BTreeMap.{get}
use gd_client.Prelude.Keys.{nat_ord, string_ord}
use gd_client.Common.Config.{Uuid, ConfigStore}
use gd_client.Common.Errors.{SyncError}
use gd_client.Drive.Auth.{TokenDisk, StoredToken}
use gd_client.Service.{ServiceState}
use gd_client.Service.SignIns.{sign_in_ends, sign_out_begins, cancel_sign_in}
use gd_client.Service.SignIns.Steps.{GateOf, sign_out_begins-keeps}
use gd_client.Service.SignIns.Histories.{Reachable, Reachable-GateOf}

module _ (S : ConfigStore) (D : TokenDisk) where
  cancel_sign_in-empty :
      (s : ServiceState S D) → GateOf S D s → (cancel_sign_in S D s).1.sign_in ≡ none
  unfolding cancel_sign_in
  cancel_sign_in-empty s gate = elim (Bool-cases s.cancelling_sign_in) [
    | inl locked ↦ rw (locked, cancel_sign_in) (gate.closed locked)
    | inr unlocked ↦ elim (Option-cases s.sign_in) [
      | inl empty ↦ rw (unlocked, cancel_sign_in, empty, cancel_sign_in) empty
      | inr (k, full) ↦ rw (unlocked, cancel_sign_in, full, cancel_sign_in) refl
    ]
  ]

  sign_out_begins-empty :
      (s : ServiceState S D) → GateOf S D s → (sign_out_begins S D s).1.sign_in ≡ none
  unfolding sign_out_begins
  sign_out_begins-empty s gate = cancel_sign_in-empty s gate

  -- The Drive session with its cached token, the engine, the configuration and the signals are the same.
  pub record Untouched (s u : ServiceState S D) : Type 0 where
    pub client : u.client ≡ s.client
    pub engine : u.engine ≡ s.engine
    pub config : u.config ≡ s.config
    pub signals : u.signals ≡ s.signals

  untouched : (s : ServiceState S D) → Untouched s s
  untouched s = record { client = refl; engine = refl; config = refl; signals = refl }

  sign_in_ends-stale :
      (name : String) (h : ℕ) (result : Result SyncError StoredToken) (s : ServiceState S D)
      → GateOf S D s
      → s.sign_in ≡ none
      → Untouched s (sign_in_ends S D name h result s)
  unfolding sign_in_ends
  sign_in_ends-stale name h result s gate empty = elim (Option-cases (get h s.tasks)) [
    | inl absent ↦ rw (absent, sign_in_ends) (untouched s)
    | inr (t, there) ↦ elim (Option-cases t.ending) [
      | inr (e, ended) ↦ rw (there, sign_in_ends, ended, sign_in_ends) (untouched s)
      | inl live ↦ elim (Bool-cases (s.sign_in_generation == t.generation)) [
        | inr other ↦
            rw (there, sign_in_ends, live, sign_in_ends, other, sign_in_ends)
              (record { client = refl; engine = refl; config = refl; signals = refl })
        | inl this ↦ absurd (ground (arith, gate.current h t there live))
      ]
    ]
  ]

module _ (S : ConfigStore) (D : TokenDisk) (uuid_to_string : Uuid → String)
    (parse_str : String → Result String Uuid) (debug : String → String) where
  -- Once a sign-out has begun in a state that the service reaches, which does not make the generation
  -- wrap, no sign-in that was under way can
  -- undo it: whatever `authorize` returned to its task, the end of the task leaves the session, the
  -- cached token, the engine, the configuration and the signals as the sign-out left them.
  pub sign_out_wins :
      {s : ServiceState S D} (name : String) (h : ℕ) (result : Result SyncError StoredToken)
      → s.sign_in_generation + 1 < u64_mod
      → Reachable S D uuid_to_string parse_str debug s
      → Untouched S D
          (sign_out_begins S D s).1
          (sign_in_ends S D name h result (sign_out_begins S D s).1)
  sign_out_wins {s = s} name h result few r =
      let gate = Reachable-GateOf S D uuid_to_string parse_str debug r in
      sign_in_ends-stale S D name h result (sign_out_begins S D s).1
        (sign_out_begins-keeps S D s few gate) (sign_out_begins-empty S D s gate)
