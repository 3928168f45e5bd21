-- ===== src/Engine/Workers/Invariant.antt =====
-- What holds of the workers, the map of their tasks and the tracker, of engine.rs, at all times.
use gd_client.Prelude.Keys.{nat_ord, string_ord}
use gd_client.Prelude.{
  ℕ, refl, some, none, arith, ◌≡◌, All, Bool, Option, false, if◌then◌else◌, u64_mod, ◌+◌, ◌<◌, ◌==◌,
  ◌||◌,
}
use gd_client.Prelude.BTreeMap.{get, get-insert, get-remove, BTreeMap, insert, remove, same}
use gd_client.SyncStatus.{Uuid}
use gd_client.SyncStatus.Generations.{generation_at, generation_at-start, generation_at-stop}
use gd_client.Engine.Workers.{Worker, SyncEngine, start_folder, stop_folder, abort_worker}
use gd_client.Common.Config.{SyncFolder}

-- A worker against the engine: its number and its generation were given out; its run is the folder's
-- current one only if its task is in the map and was not aborted; as long as it is not aborted its
-- task is in the map; and its task is in the map under its own folder only.
pub record Sound (e : SyncEngine) (w : Worker) : Type 0 where
  pub numbered : w.handle < e.spawned
  pub older : w.run.generation < e.generation
  pub current :
      generation_at w.run.id e.status ≡ some w.run.generation
      → (get w.run.id e.tasks ≡ some w.handle) × (w.aborted ≡ false)
  pub listed : w.aborted ≡ false → get w.run.id e.tasks ≡ some w.handle
  pub owner : (id : Uuid) → get id e.tasks ≡ some w.handle → id ≡ w.run.id

pub record Invariant (e : SyncEngine) : Type 0 where
  pub workers : All (Sound e) e.workers
  pub tasks : (id : Uuid) (handle : ℕ) → get id e.tasks ≡ some handle → handle < e.spawned
  pub generations : (id : Uuid) (g : ℕ) → generation_at id e.status ≡ some g → g < e.generation

abbrev pub abort_by : Option ℕ → Worker → Worker
abort_by none w = w
abort_by (some handle) w = abort_worker handle w

abbrev pub is_aborted_by : Option ℕ → Worker → Bool
is_aborted_by none w = w.aborted
is_aborted_by (some handle) w = (w.handle == handle) || w.aborted

-- An abort changes nothing but the flag.
pub abort_by-fields :
    (o : Option ℕ) (w : Worker) → abort_by o w ≡ record w { aborted = is_aborted_by o w }
abort_by-fields none w = refl
abort_by-fields (some handle) w = ground arith

-- The map after a start.
pub get-started :
    (j id n : ℕ) (tasks : BTreeMap Uuid ℕ)
    → get j (insert id n (remove id tasks)) ≡ (if same id j then some n else get j tasks)
get-started j id n tasks =
    ground (arith, get-insert j id n (remove id tasks), get-remove j id tasks)

pub start_old-Sound :
    (folder : SyncFolder) (e : SyncEngine) (w : Worker)
    → e.generation + 1 < u64_mod
    → Sound e w
    → Sound (start_folder folder e) (record w { aborted = is_aborted_by (get folder.id e.tasks) w })
unfolding start_folder
start_old-Sound folder e w h s = record {
  numbered = omega (arith, s.numbered);
  older = omega (arith, s.older);
  current = λ g. ground (
    arith,
    s.current,
    s.older,
    s.owner folder.id,
    generation_at-start folder.id e.generation e.status w.run.id,
    get-started w.run.id folder.id e.spawned e.tasks,
  );
  listed = λ a. ground (arith, s.listed, get-started w.run.id folder.id e.spawned e.tasks);
  owner =
      λ id g. ground (arith, s.owner id, s.numbered, get-started id folder.id e.spawned e.tasks);
}

pub start_new-Sound :
    (folder : SyncFolder) (e : SyncEngine)
    → e.generation + 1 < u64_mod
    → ((id handle : ℕ) → get id e.tasks ≡ some handle → handle < e.spawned)
    → Sound (start_folder folder e) (record {
      handle = e.spawned;
      run = record { id = folder.id; generation = e.generation };
      aborted = false;
      finished = false;
    })
unfolding start_folder
start_new-Sound folder e h numbered = record {
  numbered = omega arith;
  older = omega arith;
  current = λ g. (ground (arith, get-started folder.id folder.id e.spawned e.tasks), refl);
  listed = λ a. ground (arith, get-started folder.id folder.id e.spawned e.tasks);
  owner = λ id g. ground (arith, numbered id e.spawned, get-started id folder.id e.spawned e.tasks);
}

pub stop-Sound :
    (id : Uuid) (e : SyncEngine) (w : Worker)
    → Sound e w
    → Sound (stop_folder id e) (record w { aborted = is_aborted_by (get id e.tasks) w })
unfolding stop_folder
stop-Sound id e w s = record {
  numbered = s.numbered;
  older = s.older;
  current = λ g. ground (
    arith,
    s.current,
    s.owner id,
    generation_at-stop id e.status w.run.id,
    get-remove w.run.id id e.tasks,
  );
  listed = λ a. ground (arith, s.listed, get-remove w.run.id id e.tasks);
  owner = λ j g. ground (arith, s.owner j, get-remove j id e.tasks);
}
