-- ===== src/Service/SignIns.antt =====
-- Sign-in and sign-out of crates/gdrived/src/dbus_service.rs.
pub mod Gate
pub mod Steps
pub mod Histories
pub mod SignOut
pub mod Answers
use gd_client.Prelude.{
  ℕ, String, Bool, true, false, List, [], ◌∷◌, Option, none, some, Result, ok, err, ◌<>◌, ◌==◌, ◌+◌,
  next_u64, is_some, if◌then◌else◌, map_err, not, ◌||◌,
}
use gd_client.Prelude.BTreeMap.{BTreeMap, get, insert, modify}
use gd_client.Prelude.Keys.{nat_ord, string_ord}
use gd_client.Common.Config.{ConfigStore}
use gd_client.Common.Errors.{SyncError, error_to_string, IoError}
use gd_client.Drive.Auth.{TokenDisk, StoredToken, OAuthConfig, load_token}
use gd_client.Drive.Tokens.{Client, save_session, set_access_token}
use gd_client.Engine.Workers.{SyncEngine, start_all}
use gd_client.Service.{
  FdoError, Ending, SignIn, ServiceState, failed, fdo_timeout, stop_all, cancelled, panicked,
  returned, PathBuf,
}

-- `JoinHandle::is_finished`
abbrev pub task_finished : ℕ → BTreeMap ℕ SignIn → Bool
task_finished handle tasks = elim (get handle tasks) [ none ↦ true | some t ↦ is_some t.ending ]

abbrev pub slot_running : Option ℕ → BTreeMap ℕ SignIn → Bool
slot_running none tasks = false
slot_running (some handle) tasks = not (task_finished handle tasks)

abbrev pub abort_task : SignIn → SignIn
abort_task t = record t { aborted = true }

abbrev pub end_task : Ending → SignIn → SignIn
end_task ending t = record t { ending = some ending }

module _ (S : ConfigStore) (D : TokenDisk) where
  abbrev pub Service : Type 0
  Service = ServiceState S D

  abbrev pub Call : Type 0 → Type 0
  Call A = Service → Result FdoError A × Service

  unfoldable pub sign_in_busy : Service → Bool
  sign_in_busy s = s.cancelling_sign_in || slot_running s.sign_in s.tasks

  -- `sign_in`, with the credentials of the environment. The task goes on in `sign_in_ends`.
  unfoldable pub sign_in : Option OAuthConfig → Call Unit
  sign_in none s = (
    err (failed "GDRIVE_CLIENT_ID/GDRIVE_CLIENT_SECRET are not set - cannot start the OAuth flow"),
    s,
  )
  sign_in (some credentials) s =
      if sign_in_busy s then (err (failed "sign-in is already in progress"), s) else (
        ok tt,
        record s {
          sign_in_generation = next_u64 s.sign_in_generation;
          sign_in = some s.spawned;
          spawned = s.spawned + 1;
          tasks =
              insert s.spawned
                (record {
                  generation = next_u64 s.sign_in_generation;
                  aborted = false;
                  ending = none;
                })
                s.tasks;
        },
      )

  unfoldable pub complete_sign_in : String → ℕ → StoredToken → Call Bool
  complete_sign_in name generation token s =
      if s.sign_in_generation == generation
      then (let (r, client) = save_session D name token s.token_path s.client in
          elim r [
            | err e ↦ (
              err (failed ("failed to save token: " <> error_to_string e)),
              record s { sign_in = none; client = client },
            )
            | ok _ ↦ (
              ok true,
              record s { sign_in = none; client = client; engine = start_all s.config s.engine },
            )
          ])
      else (ok false, s)

  abbrev signalled : Result FdoError Bool × Service → Service
  signalled (ok true, s) = record s { signals = true ∷ s.signals }
  signalled (ok false, s) = s
  signalled (err e, s) = s

  abbrev accept : String → ℕ → Result SyncError StoredToken → Service → Service
  accept name generation (ok token) s = signalled (complete_sign_in name generation token s)
  accept name generation (err e) s = s

  abbrev end_in : ℕ → Ending → Service → Service
  end_in handle ending s = record s { tasks = modify handle (end_task ending) s.tasks }

  -- The end of the task that `sign_in` spawns, once `authorize` has returned and it has the lock.
  unfoldable pub sign_in_ends : String → ℕ → Result SyncError StoredToken → Service → Service
  sign_in_ends name handle result s = elim (get handle s.tasks) [
    | none ↦ s
    | some t ↦
        if is_some t.ending
        then s
        else if s.sign_in_generation == t.generation
        then accept name t.generation result (record (end_in handle returned s) { sign_in = none })
        else end_in handle returned s
  ]

  -- A task that ends before that: it panicked, or its abort took effect.
  unfoldable pub task_ends : ℕ → Bool → Service → Service
  task_ends handle panicking s = elim (get handle s.tasks) [
    | none ↦ s
    | some t ↦
        if is_some t.ending
        then s
        else if panicking
        then end_in handle panicked s
        else if t.aborted
        then end_in handle cancelled s
        else s
  ]

  -- `cancel_sign_in`
  unfoldable pub cancel_sign_in : Service → Option ℕ × Service
  cancel_sign_in s = if s.cancelling_sign_in then (none, s) else elim s.sign_in [
    | none ↦ (none, record s { sign_in_generation = next_u64 s.sign_in_generation })
    | some handle ↦ (
      some handle,
      record s {
        sign_in_generation = next_u64 s.sign_in_generation;
        sign_in = none;
        tasks = modify handle abort_task s.tasks;
        cancelling_sign_in = true;
      },
    )
  ]

  abbrev remove_token : PathBuf → Client D → Result FdoError Unit × Client D
  remove_token path c =
      if is_some (D.contents c.disk path)
      then (let (r, d) = D.remove_file path c.disk in
          (
            map_err (λ (e : IoError). failed ("failed to remove cached token: " <> e.message)) r,
            record c { disk = d },
          ))
      else (ok tt, c)

  abbrev removed_signal : Result FdoError Unit → List Bool → List Bool
  removed_signal (ok _) signals = false ∷ signals
  removed_signal (err _) signals = signals

  abbrev wait_for : Option ℕ → Option ℕ → Option ℕ
  wait_for none awaited = awaited
  wait_for (some handle) awaited = some handle

  -- What `sign_out` does with the lock once the sign-in is cancelled.
  abbrev pub end_session : Option ℕ → Call Unit
  end_session task s =
      let (removal, client) = remove_token s.token_path (set_access_token D "" s.client) in
      (
        removal,
        record s {
          client = client;
          engine = stop_all s.config.sync_folders s.engine;
          signals = removed_signal removal s.signals;
          awaited = wait_for task s.awaited;
        },
      )

  -- `sign_out` until it gives the lock back: the result of the removal.
  unfoldable pub sign_out_begins : Call Unit
  sign_out_begins s = let (task, s') = cancel_sign_in s in end_session task s'

  abbrev after_wait : ℕ → Option Ending → Call Unit
  after_wait handle none s = (
    err (fdo_timeout "sign-in cancellation is still in progress; retry shortly"),
    record s { cancelling_sign_in = false; awaited = none; sign_in = some handle },
  )
  after_wait handle (some panicked) s = (
    err (failed "sign-in task failed during cancellation"),
    record s { cancelling_sign_in = false; awaited = none },
  )
  after_wait handle (some returned) s =
      (ok tt, record s { cancelling_sign_in = false; awaited = none })
  after_wait handle (some cancelled) s =
      (ok tt, record s { cancelling_sign_in = false; awaited = none })

  abbrev ending_of : Option SignIn → Option Ending
  ending_of none = some returned
  ending_of (some t) = t.ending

  -- `finish_sign_in_cancellation`, when the wait for its task is over: the deadline passes if the task has
  -- not ended by then. Without a task there is no wait, and nothing is changed.
  unfoldable pub finish_sign_in_cancellation : Option ℕ → Call Unit
  finish_sign_in_cancellation none s = (ok tt, s)
  finish_sign_in_cancellation (some handle) s = after_wait handle (ending_of (get handle s.tasks)) s

  -- The answer of `sign_out`, from those of its two halves.
  abbrev pub sign_out_answer : Result FdoError Unit → Result FdoError Unit → Result FdoError Unit
  sign_out_answer (err e) cancellation = err e
  sign_out_answer (ok _) cancellation = cancellation

  -- `sign_out`: its two halves, and what happens between them. It waits for the task that it cancelled
  -- itself, if any.
  unfoldable pub sign_out : (Service → Service) → Call Unit
  unfolding cancel_sign_in sign_out_begins finish_sign_in_cancellation
  sign_out meanwhile s =
      let (task, _) = cancel_sign_in s in
      let (removal, t) = sign_out_begins s in
      let (cancellation, u) = finish_sign_in_cancellation task (meanwhile t) in
      (sign_out_answer removal cancellation, u)

  abbrev load_failed : SyncError → FdoError
  load_failed e = failed ("failed to load cached token: " <> error_to_string e)

  unfoldable pub is_authenticated : Service → Result FdoError Bool
  is_authenticated s = elim (load_token D s.token_path s.client.disk) [
    | err e ↦ err (load_failed e)
    | ok token ↦ ok (is_some token)
  ]
