-- ===== src/Engine/Workers/Running.antt =====
-- Which folders `running_folders` of engine.rs names after a start.
use gd_client.Prelude.Keys.{nat_ord}
use gd_client.Prelude.{
  contains, ℕ, List, [], ◌∷◌, Option, none, some, Bool, false, ◌≡◌, ◌∙◌, ◌==◌, ◌||◌, ◌&&◌, not, ◌<◌,
  ◌+◌, refl, arith, All, All-mono, ap, Bool-cases, inl, inr,
}
use gd_client.Prelude.BTreeMap.{BTreeMap, get, insert, remove, get-remove}
use gd_client.Common.Config.{Uuid, SyncFolder, AppConfig}
use gd_client.Engine.Workers.{
  Worker, SyncEngine, new_engine, start_folder, start_folders, start_all, running_folders,
  running_of, is_finished, abort,
}

-- Whether a folder with the id is enabled.
abbrev pub is_enabled : Uuid → List SyncFolder → Bool
is_enabled id [] = false
is_enabled id (f ∷ fs) = (f.enabled && f.id == id) || is_enabled id fs

-- The tasks of the map were spawned.
abbrev Spawned : ℕ → BTreeMap Uuid ℕ → Type 0
Spawned n tasks = All (λ (t : Uuid × ℕ). t.1 < n) tasks

remove-Spawned :
    (n : ℕ) (id : Uuid) (tasks : BTreeMap Uuid ℕ) → Spawned n tasks → Spawned n (remove id tasks)
unfolding remove
remove-Spawned n id [] h = tt
remove-Spawned n id ((j, handle) ∷ tasks) h = ground (arith, remove-Spawned n id tasks, h)

insert-Spawned :
    (n : ℕ) (id handle : ℕ) (tasks : BTreeMap Uuid ℕ)
    → handle < n
    → Spawned n tasks
    → Spawned n (insert id handle tasks)
unfolding insert
insert-Spawned n id handle [] less h = (less, tt)
insert-Spawned n id handle ((j, other) ∷ tasks) less h =
    ground (arith, insert-Spawned n id handle tasks, h)

-- The task of a worker that is new, and the others', which an abort does not end.
is_finished-abort :
    (handle : ℕ) (o : Option ℕ) (ws : List Worker)
    → is_finished handle (abort o ws) ≡ is_finished handle ws
unfolding is_finished
is_finished-abort handle none ws = refl
is_finished-abort handle (some other) [] = refl
is_finished-abort handle (some other) (w ∷ ws) =
    ground (arith, is_finished-abort handle (some other) ws)

contains-workers :
    (id : Uuid) (ws ws' : List Worker) (n : ℕ) (tasks : BTreeMap Uuid ℕ)
    → ((handle : ℕ) → handle < n → is_finished handle ws ≡ is_finished handle ws')
    → Spawned n tasks
    → contains (running_of ws tasks) id ≡ contains (running_of ws' tasks) id
contains-workers id ws ws' n [] agree h = refl
contains-workers id ws ws' n ((j, handle) ∷ tasks) agree h =
    ground (arith, contains-workers id ws ws' n tasks agree, agree handle, h)

contains-remove :
    (id j : Uuid) (ws : List Worker) (tasks : BTreeMap Uuid ℕ)
    → contains (running_of ws (remove id tasks)) j
      ≡ (not (id == j) && contains (running_of ws tasks) j)
unfolding remove
contains-remove id j ws [] = ground arith
contains-remove id j ws ((k, handle) ∷ tasks) = ground (arith, contains-remove id j ws tasks)

contains-insert :
    (id handle j : ℕ) (ws : List Worker) (tasks : BTreeMap Uuid ℕ)
    → get id tasks ≡ none
    → contains (running_of ws (insert id handle tasks)) j
      ≡ ((not (is_finished handle ws) && id == j) || contains (running_of ws tasks) j)
unfolding insert get
contains-insert id handle j ws [] h = ground arith
contains-insert id handle j ws ((k, other) ∷ tasks) h =
    ground (arith, contains-insert id handle j ws tasks)

-- Every task of the map was spawned by the engine.
abbrev IsSpawned : SyncEngine → Type 0
IsSpawned e = Spawned e.spawned e.tasks

start_folder-IsSpawned :
    (folder : SyncFolder) (e : SyncEngine) → IsSpawned e → IsSpawned (start_folder folder e)
unfolding start_folder
start_folder-IsSpawned folder e h =
    insert-Spawned (e.spawned + 1) folder.id e.spawned (remove folder.id e.tasks) (omega arith) (
      All-mono (λ (t : Uuid × ℕ). t.1 < e.spawned) (λ (t : Uuid × ℕ). t.1 < e.spawned + 1)
        (remove folder.id e.tasks) (λ t l. omega (arith, l))
        (remove-Spawned e.spawned folder.id e.tasks h))

-- After a start the folder runs, and of the others those that did.
running-start_folder :
    (folder : SyncFolder) (e : SyncEngine) (id : Uuid)
    → IsSpawned e
    → contains (running_folders (start_folder folder e)) id
      ≡ (folder.id == id || contains (running_folders e) id)
unfolding start_folder running_folders is_finished
running-start_folder folder e id h =
    contains-insert folder.id e.spawned id started.workers (remove folder.id e.tasks)
      (ground (arith, get-remove folder.id folder.id e.tasks))
    ∙ ap (λ b. (not (is_finished e.spawned started.workers) && folder.id == id) || b)
        (contains-workers id started.workers e.workers e.spawned (remove folder.id e.tasks) others
            (remove-Spawned e.spawned folder.id e.tasks h)
          ∙ contains-remove folder.id id e.workers e.tasks)
    ∙ ground arith
  where
    started : SyncEngine
    started = start_folder folder e

    others :
        (handle : ℕ)
        → handle < e.spawned
        → is_finished handle started.workers ≡ is_finished handle e.workers
    others handle less = ground (arith, is_finished-abort handle (get folder.id e.tasks) e.workers)

running-start_folders :
    (folders : List SyncFolder) (e : SyncEngine) (id : Uuid)
    → IsSpawned e
    → contains (running_folders (start_folders folders e)) id
      ≡ (is_enabled id folders || contains (running_folders e) id)
unfolding start_folders
running-start_folders [] e id h = refl
running-start_folders (f ∷ fs) e id h = elim (Bool-cases f.enabled) [
  | inl on ↦
      rw (on, start_folders)
        (running-start_folders fs (start_folder f e) id (start_folder-IsSpawned f e h)
          ∙ ground (arith, running-start_folder f e id h))
  | inr off ↦ rw (off, start_folders) (running-start_folders fs e id h)
]

pub running-start_all :
    (config config' : AppConfig) (id : Uuid)
    → contains (running_folders (start_all config (new_engine config'))) id
      ≡ is_enabled id config.sync_folders
unfolding start_all running_folders
running-start_all config config' id =
    running-start_folders config.sync_folders (new_engine config') id tt ∙ ground arith
