-- ===== src/Engine/Workers/Safety.antt =====
-- What the invariant of the workers of engine.rs means for two workers, and for an aborted one.
use gd_client.Prelude.Keys.{nat_ord, string_ord}
use gd_client.Prelude.{
  ℕ, List, [], ◌∷◌, some, arith, ◌≡◌, All, Bool-cases, inl, inr, subst, u64_mod, ◌<◌, ◌==◌, ◌∙◌, ap,
  false, length, true,
}
use gd_client.Prelude.BTreeMap.{get}
use gd_client.SyncStatus.{RunOp, run_op}
use gd_client.SyncStatus.Generations.{generation_of}
use gd_client.SyncStatus.Obsolete.{run_op-not_current}
use gd_client.Engine.Workers.{Worker, EngineOp, find_worker}
use gd_client.Engine.Workers.Invariant.{Sound}
use gd_client.Common.Config.{AppConfig}
use gd_client.Engine.Workers.History.{engine_after, engine_after-Invariant}

All-found :
    (P : Worker → Type 0) (handle : ℕ) (ws : List Worker) (w : Worker)
    → find_worker handle ws ≡ some w
    → All P ws
    → P w × (w.handle ≡ handle)
unfolding find_worker
All-found P handle (v ∷ ws) w h all = elim (Bool-cases (v.handle == handle)) [
  | inl e ↦ (subst P (ground arith) all.0, ground arith)
  | inr e ↦ All-found P handle ws w (ground arith) all.1
]
All-found P handle [] w h all = ground arith

-- After any history shorter than 2^64 steps from a new engine, two workers of one folder that were not
-- aborted are one.
pub one_worker_per_folder :
    (config : AppConfig) (ops : List EngineOp) (i j : ℕ) (v w : Worker)
    → length ops < u64_mod
    → find_worker i (engine_after config ops).workers ≡ some v
    → find_worker j (engine_after config ops).workers ≡ some w
    → v.aborted ≡ false
    → w.aborted ≡ false
    → v.run.id ≡ w.run.id
    → i ≡ j
one_worker_per_folder config ops i j v w short found_v found_w live_v live_w same_folder =
    let inv = engine_after-Invariant config ops short in
    let (sound_v, at_i) = All-found (Sound (engine_after config ops)) i _ v found_v inv.workers in
    let (sound_w, at_j) = All-found (Sound (engine_after config ops)) j _ w found_w inv.workers in
    ground (
      arith,
      sound_v.listed live_v,
      sound_w.listed live_w,
      ap (λ id. get id (engine_after config ops).tasks) same_folder,
    )

-- After any history shorter than 2^64 steps from a new engine, an aborted worker changes nothing of the
-- tracker, whatever it still does.
pub aborted_worker_is_silent :
    (config : AppConfig) (ops : List EngineOp) (handle : ℕ) (w : Worker) (op : RunOp)
    → length ops < u64_mod
    → find_worker handle (engine_after config ops).workers ≡ some w
    → w.aborted ≡ true
    → run_op w.run op (engine_after config ops).status ≡ (engine_after config ops).status
aborted_worker_is_silent config ops handle w op short found gone =
    let inv = engine_after-Invariant config ops short in
    let (sound, _) = All-found (Sound (engine_after config ops)) handle _ w found inv.workers in
    run_op-not_current w.run op (engine_after config ops).status
      λ (f, e, g). ground (arith, sound.current (ap generation_of e ∙ ap some g))
