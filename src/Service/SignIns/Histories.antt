-- ===== src/Service/SignIns/Histories.antt =====
-- The states that the service of dbus_service.rs reaches, and what holds of sign-ins in all of them.
use gd_client.Prelude.{
  ℕ, Bool, false, Option, none, some, ◌≡◌, ◌<◌, ◌+◌, arith, u64_mod, inl, inr, Bool-cases,
  Option-cases, Result-cases, Result, String, [], ok, refl, ◌≢◌,
}
use gd_client.Prelude.BTreeMap.{get}
use gd_client.Prelude.Keys.{nat_ord, string_ord}
use gd_client.Common.Paths.{PathBuf}
use gd_client.Common.Config.{Uuid, ConfigStore, AppConfig, save_to}
use gd_client.Common.Errors.{SyncError}
use gd_client.Drive.Auth.{TokenDisk, StoredToken, OAuthConfig}
use gd_client.Drive.Tokens.{Client}
use gd_client.Engine.Workers.{SyncEngine}
use gd_client.Service.{
  ServiceState, SignIn, NewFolder, commit, persist, add_sync_folder, remove_sync_folder,
  set_folder_enabled, enable_first,
}
use gd_client.Service.SignIns.{
  sign_in, sign_in_ends, task_ends, sign_out_begins, finish_sign_in_cancellation, sign_in_busy,
}
use gd_client.Service.SignIns.Gate.{one_live}
use gd_client.Service.SignIns.Steps.{
  GateOf, not_busy, sign_in-keeps, sign_in_ends-keeps, task_ends-keeps, sign_out_begins-keeps,
  finish-keeps,
}

-- What happens to the service, in any order.
pub data ServiceOp : Type 0 where
  add_op : Uuid → NewFolder → ServiceOp
  remove_op : String → ServiceOp
  enable_op : String → Bool → ServiceOp
  sign_in_op : Option OAuthConfig → ServiceOp
  sign_in_ends_op : String → ℕ → Result SyncError StoredToken → ServiceOp
  task_ends_op : ℕ → Bool → ServiceOp
  sign_out_op cancellation_op : ServiceOp

module _ (S : ConfigStore) (D : TokenDisk) where
  -- `GDriveService::new`
  abbrev pub new_service :
      AppConfig → PathBuf → PathBuf → SyncEngine → S.Disk → Client D → ServiceState S D
  new_service config config_path token_path engine config_disk client = record {
    config = config;
    sign_in_generation = 0;
    sign_in = none;
    cancelling_sign_in = false;
    config_path = config_path;
    token_path = token_path;
    engine = engine;
    config_disk = config_disk;
    client = client;
    spawned = 0;
    tasks = [];
    awaited = none;
    signals = [];
  }

module _ (S : ConfigStore) (D : TokenDisk) (uuid_to_string : Uuid → String)
    (parse_str : String → Result String Uuid) (debug : String → String) where
  unfoldable pub service_op : ServiceOp → ServiceState S D → ServiceState S D
  service_op (add_op id args) s = (add_sync_folder S D uuid_to_string parse_str debug id args s).1
  service_op (remove_op id) s = (remove_sync_folder S D uuid_to_string parse_str debug id s).1
  service_op (enable_op id enabled) s =
      (set_folder_enabled S D uuid_to_string parse_str debug id enabled s).1
  service_op (sign_in_op config) s = (sign_in S D config s).1
  service_op (sign_in_ends_op name handle result) s = sign_in_ends S D name handle result s
  service_op (task_ends_op handle panicking) s = task_ends S D handle panicking s
  service_op sign_out_op s = (sign_out_begins S D s).1
  service_op cancellation_op s = (finish_sign_in_cancellation S D s.awaited s).1

  -- The states that a new service gets to before its generation wraps.
  pub data Reachable : ServiceState S D → Type 0 where
    created :
        (config : AppConfig) (config_path token_path : PathBuf) (engine : SyncEngine)
        (config_disk : S.Disk) (client : Client D)
        → Reachable (new_service S D config config_path token_path engine config_disk client)
    step :
        {s : ServiceState S D} (op : ServiceOp)
        → s.sign_in_generation + 1 < u64_mod
        → Reachable s
        → Reachable (service_op op s)

  persist-keeps :
      (config : AppConfig) (s : ServiceState S D)
      → GateOf S D s
      → GateOf S D (persist S D uuid_to_string parse_str debug config s).1
  unfolding persist
  persist-keeps config s gate =
      elim (Result-cases (save_to S config s.config_disk s.config_path).0) [
        | inl (u, saved) ↦ rw (saved, persist) gate
        | inr (e, broken) ↦ rw (broken, persist) gate
      ]

  commit-keeps :
      {A : Type 0} (config : AppConfig) (told : SyncEngine → SyncEngine) (a : A)
      (s : ServiceState S D)
      → GateOf S D s
      → GateOf S D (commit S D uuid_to_string parse_str debug config told a s).1
  unfolding commit
  commit-keeps config told a s gate =
      elim (Result-cases (persist S D uuid_to_string parse_str debug config s).0) [
        | inl (u, saved) ↦ rw (saved, commit) (persist-keeps config s gate)
        | inr (e, broken) ↦ rw (broken, commit) (persist-keeps config s gate)
      ]

  service_op-keeps :
      (op : ServiceOp) (s : ServiceState S D)
      → s.sign_in_generation + 1 < u64_mod
      → GateOf S D s
      → GateOf S D (service_op op s)
  unfolding service_op add_sync_folder remove_sync_folder set_folder_enabled
  service_op-keeps (add_op id args) s few gate = commit-keeps _ _ (uuid_to_string id) s gate
  service_op-keeps (remove_op id) s few gate = elim (Result-cases (parse_str id)) [
    | inl (folder_id, e) ↦ rw (e, service_op) (commit-keeps _ _ tt s gate)
    | inr (x, e) ↦ rw (e, service_op) gate
  ]
  service_op-keeps (enable_op id enabled) s few gate = elim (Result-cases (parse_str id)) [
    | inr (x, e) ↦ rw (e, service_op) gate
    | inl (folder_id, e) ↦
        elim (Option-cases (enable_first folder_id enabled s.config.sync_folders)) [
          | inl absent ↦ rw (e, service_op, absent, service_op) gate
          | inr (found, f) ↦ rw (e, service_op, f, service_op) (commit-keeps _ _ tt s gate)
        ]
  ]
  service_op-keeps (sign_in_op config) s few gate = sign_in-keeps S D config s few gate
  service_op-keeps (sign_in_ends_op name handle result) s few gate =
      sign_in_ends-keeps S D name handle result s gate
  service_op-keeps (task_ends_op handle panicking) s few gate =
      task_ends-keeps S D handle panicking s gate
  service_op-keeps sign_out_op s few gate = sign_out_begins-keeps S D s few gate
  service_op-keeps cancellation_op s few gate = finish-keeps S D s gate

  pub Reachable-GateOf : {s : ServiceState S D} → Reachable s → GateOf S D s
  unfolding get
  Reachable-GateOf (created config config_path token_path engine config_disk client) = record {
    live = λ h t e. ground arith;
    current = λ h t e. ground arith;
    older = λ h t e. ground arith;
    numbered = λ h t e. ground arith;
    closed = λ c. refl;
    waits = λ h e. ground arith;
  }
  Reachable-GateOf (step {s = s} op few r) = service_op-keeps op s few (Reachable-GateOf r)

  -- In every state that the service reaches, at most one sign-in task has not ended, also while a
  -- sign-out waits for one and after that wait timed out.
  pub one_sign_in :
      {s : ServiceState S D} (i j : ℕ) (t u : SignIn)
      → Reachable s
      → get i s.tasks ≡ some t
      → get j s.tasks ≡ some u
      → t.ending ≡ none
      → u.ending ≡ none
      → i ≡ j
  one_sign_in i j t u r at_i at_j live_t live_u =
      one_live (Reachable-GateOf r) i j t u at_i at_j live_t live_u

  -- In every state that the service reaches, a sign-in is accepted only if each earlier sign-in task
  -- has ended.
  pub sign_in_waits :
      {s : ServiceState S D} (config : Option OAuthConfig) (h : ℕ) (t : SignIn)
      → Reachable s
      → (sign_in S D config s).0 ≡ ok tt
      → get h s.tasks ≡ some t
      → t.ending ≢ none
  unfolding sign_in
  sign_in_waits none h t r accepted at_h live = ground arith
  sign_in_waits {s = s} (some config) h t r accepted at_h live =
      elim (Bool-cases (sign_in_busy S D s)) [
        | inl busy ↦ ground arith
        | inr idle ↦
            let (unlocked, empty) = not_busy S D s idle in
            let gate = Reachable-GateOf r in ground (arith, gate.live h t at_h live, gate.waits h)
      ]
