-- ===== src/Engine/Workers/History.antt =====
-- The invariant of the workers of engine.rs over every history.
use gd_client.Prelude.Keys.{nat_ord, string_ord}
use gd_client.Prelude.{
  ℕ, List, [], ◌∷◌, refl, some, none, arith, ◌≡◌, All, All-mono, Bool-cases, Option, inl, inr, map,
  subst, sym, u64_mod, ◌+◌, ◌<◌, ◌==◌, ◌∙◌, length, ◌≤◌,
}
use gd_client.Prelude.BTreeMap.{get, get-remove, same}
use gd_client.SyncStatus.{
  Uuid, StatusTracker, RunOp, run_op, drop_op, SyncStatus, start, start_op, stop_op,
}
use gd_client.SyncStatus.Generations.{
  generation_at, generation_at-start, generation_at-stop, generation_at-run_op,
}
use gd_client.Engine.Workers.{
  Worker, SyncEngine, abort, start_folder, stop_folder, EngineOp, engine_op, engine_ops,
  find_worker, act, finish_worker, exit_op, new_engine, work_op,
}
use gd_client.Engine.Workers.Invariant.{
  Sound, Invariant, is_aborted_by, start_old-Sound, start_new-Sound, stop-Sound, abort_by-fields,
  get-started,
}
use gd_client.Common.Config.{SyncFolder, AppConfig}

All-abort :
    (P Q : Worker → Type 0) (o : Option ℕ) (ws : List Worker)
    → ((w : Worker) → P w → Q (record w { aborted = is_aborted_by o w }))
    → All P ws
    → All Q (abort o ws)
All-abort P Q none [] h all = tt
All-abort P Q none (w ∷ ws) h all = (h w all.0, All-abort P Q none ws h all.1)
All-abort P Q (some handle) [] h all = tt
All-abort P Q (some handle) (w ∷ ws) h all = (
  subst Q (sym (abort_by-fields (some handle) w)) (h w all.0),
  All-abort P Q (some handle) ws h all.1,
)

-- A start keeps the invariant unless the generation wraps.
start_folder-Invariant :
    (folder : SyncFolder) (e : SyncEngine)
    → e.generation + 1 < u64_mod
    → Invariant e
    → Invariant (start_folder folder e)
unfolding start_folder gd_client.SyncStatus.start
start_folder-Invariant folder e h inv = record {
  workers = started_workers;
  tasks = started_tasks;
  generations = started_generations;
}
  where
    started_workers : All (Sound (start_folder folder e)) (start_folder folder e).workers
    started_workers = (
      start_new-Sound folder e h inv.tasks,
      All-abort (Sound e) (Sound (start_folder folder e)) (get folder.id e.tasks) e.workers
          (λ w s. start_old-Sound folder e w h s) inv.workers,
    )

    started_tasks :
        (id : Uuid) (handle : ℕ)
        → get id (start_folder folder e).tasks ≡ some handle
        → handle < (start_folder folder e).spawned
    started_tasks id handle g =
        ground (arith, inv.tasks id handle, get-started id folder.id e.spawned e.tasks)

    started_generations :
        (id : Uuid) (g : ℕ)
        → generation_at id (start_folder folder e).status ≡ some g
        → g < (start_folder folder e).generation
    started_generations id g k =
        ground (arith, inv.generations id g, generation_at-start folder.id e.generation e.status id)

stop_folder-Invariant : (id : Uuid) (e : SyncEngine) → Invariant e → Invariant (stop_folder id e)
unfolding stop_folder
stop_folder-Invariant id e inv = record {
  workers = stopped_workers;
  tasks = stopped_tasks;
  generations = stopped_generations;
}
  where
    stopped_workers : All (Sound (stop_folder id e)) (stop_folder id e).workers
    stopped_workers =
        All-abort (Sound e) (Sound (stop_folder id e)) (get id e.tasks) e.workers
          (λ w s. stop-Sound id e w s) inv.workers

    stopped_tasks :
        (j : Uuid) (handle : ℕ)
        → get j (stop_folder id e).tasks ≡ some handle
        → handle < (stop_folder id e).spawned
    stopped_tasks j handle g = ground (arith, inv.tasks j handle, get-remove j id e.tasks)

    stopped_generations :
        (j : Uuid) (g : ℕ)
        → generation_at j (stop_folder id e).status ≡ some g
        → g < (stop_folder id e).generation
    stopped_generations j g k =
        ground (arith, inv.generations j g, generation_at-stop id e.status j)

generation_at-act :
    (op : RunOp) (o : Option Worker) (t : StatusTracker) (id : Uuid)
    → generation_at id (act op o t) ≡ generation_at id t
generation_at-act op none t id = refl
generation_at-act op (some w) t id = ground (arith, generation_at-run_op w.run op t id)

-- A worker's own step moves no generation.
status-Invariant :
    (e : SyncEngine) (t : StatusTracker)
    → ((id : Uuid) → generation_at id t ≡ generation_at id e.status)
    → Invariant e
    → Invariant (record e { status = t })
status-Invariant e t same_at inv = record {
  workers =
      All-mono (Sound e) (Sound (record e { status = t })) e.workers
        (λ w s. record {
          numbered = s.numbered;
          older = s.older;
          current = λ g. s.current (sym (same_at w.run.id) ∙ g);
          listed = s.listed;
          owner = s.owner;
        })
        inv.workers;
  tasks = inv.tasks;
  generations = λ id g k. inv.generations id g (sym (same_at id) ∙ k);
}

finish-Sound :
    (e : SyncEngine) (ws : List Worker) (handle : ℕ) (w : Worker)
    → Sound e w
    → Sound (record e { workers = ws }) (finish_worker handle w)
finish-Sound e ws handle w s = elim (Bool-cases (w.handle == handle)) [
  | inl same ↦
      rw (same, finish_worker)
        (record {
          numbered = s.numbered;
          older = s.older;
          current = s.current;
          listed = s.listed;
          owner = s.owner;
        })
  | inr other ↦
      rw (other, finish_worker)
        (record {
          numbered = s.numbered;
          older = s.older;
          current = s.current;
          listed = s.listed;
          owner = s.owner;
        })
]

All-finish :
    (e : SyncEngine) (all_ws : List Worker) (handle : ℕ) (ws : List Worker)
    → All (Sound e) ws
    → All (Sound (record e { workers = all_ws })) (map (finish_worker handle) ws)
All-finish e all_ws handle [] all = tt
All-finish e all_ws handle (w ∷ ws) all =
    (finish-Sound e all_ws handle w all.0, All-finish e all_ws handle ws all.1)

exit-Invariant :
    (e : SyncEngine) (handle : ℕ)
    → Invariant e
    → Invariant (record e { workers = map (finish_worker handle) e.workers })
exit-Invariant e handle inv = record {
  workers = All-finish e (map (finish_worker handle) e.workers) handle e.workers inv.workers;
  tasks = inv.tasks;
  generations = inv.generations;
}

engine_op-Invariant :
    (op : EngineOp) (e : SyncEngine)
    → e.generation + 1 < u64_mod
    → Invariant e
    → Invariant (engine_op op e)
unfolding engine_op
engine_op-Invariant (EngineOp.start_op folder) e h inv = start_folder-Invariant folder e h inv
engine_op-Invariant (EngineOp.stop_op id) e h inv = stop_folder-Invariant id e inv
engine_op-Invariant (work_op handle op) e h inv =
    status-Invariant e _ (generation_at-act op (find_worker handle e.workers) e.status) inv
engine_op-Invariant (exit_op handle panicking) e h inv =
    exit-Invariant
      (record e { status = act (drop_op panicking) (find_worker handle e.workers) e.status }) handle
      (status-Invariant e _
        (generation_at-act (drop_op panicking) (find_worker handle e.workers) e.status) inv)

generation-engine_op :
    (op : EngineOp) (e : SyncEngine)
    → e.generation + 1 < u64_mod
    → (engine_op op e).generation ≤ e.generation + 1
unfolding engine_op start_folder stop_folder
generation-engine_op (EngineOp.start_op folder) e h = omega arith
generation-engine_op (EngineOp.stop_op id) e h = omega arith
generation-engine_op (work_op handle op) e h = omega arith
generation-engine_op (exit_op handle panicking) e h = omega arith

engine_ops-Invariant :
    (ops : List EngineOp) (e : SyncEngine)
    → e.generation + length ops < u64_mod
    → Invariant e
    → Invariant (engine_ops ops e)
engine_ops-Invariant [] e h inv = inv
engine_ops-Invariant (op ∷ ops) e h inv =
    let few : e.generation + 1 < u64_mod = omega arith in
    engine_ops-Invariant ops (engine_op op e) (omega (arith, generation-engine_op op e few))
      (engine_op-Invariant op e few inv)

new_engine-Invariant : (config : AppConfig) → Invariant (new_engine config)
unfolding get
new_engine-Invariant config = record {
  workers = tt;
  tasks = λ id handle h. ground arith;
  generations = λ id g h. ground arith;
}

-- The engine after a history from its creation.
abbrev pub engine_after : AppConfig → List EngineOp → SyncEngine
engine_after config ops = engine_ops ops (new_engine config)

-- After any history shorter than 2^64 steps from a new engine, its workers, the map of their tasks and
-- the tracker agree as `Invariant` says.
pub engine_after-Invariant :
    (config : AppConfig) (ops : List EngineOp)
    → length ops < u64_mod
    → Invariant (engine_after config ops)
engine_after-Invariant config ops h =
    engine_ops-Invariant ops (new_engine config) (omega arith) (new_engine-Invariant config)
