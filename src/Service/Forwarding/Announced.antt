-- ===== src/Service/Forwarding/Announced.antt =====
-- What the signals of `forward_status` of crates/gdrived/src/dbus_service.rs say of the tracker.
use gd_client.Prelude.{ℕ, true, List, [], ◌∷◌, ◌≡◌, ◌⊎◌, inl, inr, refl, arith, sym, subst}
use gd_client.SyncStatus.{StatusTracker, TrackerOp}
use gd_client.SyncStatus.Revision.{tracker_op-Published, next_u64-ne}
use gd_client.Service.Forwarding.{
  Forwarder, new_forwarder, ForwardOp, tracked_op, take_up_op, emission_op, emitted, forward_op,
  forward_ops, take_up, emission_ends,
}

-- No emission fails or takes too long.
abbrev pub AllEmitted : List ForwardOp → Type 0
AllEmitted [] = Unit
AllEmitted (tracked_op op ∷ ops) = AllEmitted ops
AllEmitted (take_up_op ∷ ops) = AllEmitted ops
AllEmitted (emission_op e ∷ ops) = (e ≡ emitted) × AllEmitted ops

-- The newest signal, if there was one; otherwise the revision at the subscription.
abbrev pub last_told : ℕ → List ℕ → ℕ
last_told start [] = start
last_told start (revision ∷ signals) = revision

-- The channel holds the revision of the tracker. Once it is seen, it is in `revision`; once the task
-- waits for the next, that has been told.
abbrev Keeps : ℕ → StatusTracker × Forwarder → Type 0
Keeps start (t, f) =
    (t.changes ≡ t.state.revision)
    × ((f.unseen ≡ true) ⊎ (f.revision ≡ t.changes))
    × ((f.emitting ≡ true) ⊎ (last_told start f.signals ≡ f.revision))

tracked-Keeps :
    (start : ℕ) (op : TrackerOp) (t : StatusTracker) (f : Forwarder)
    → Keeps start (t, f)
    → Keeps start (forward_op (tracked_op op) (t, f))
unfolding forward_op
tracked-Keeps start op t f (synced, seen, told) = elim (tracker_op-Published op t) [
  | inl same ↦ ground arith
  | inr (moved, shown) ↦ ground (arith, next_u64-ne t.state.revision)
]

take_up-Keeps :
    (start : ℕ) (t : StatusTracker) (f : Forwarder)
    → Keeps start (t, f)
    → Keeps start (t, take_up t f)
unfolding take_up
take_up-Keeps start t f (synced, seen, told) = ground arith

emission-Keeps :
    (start : ℕ) (t : StatusTracker) (f : Forwarder)
    → Keeps start (t, f)
    → Keeps start (t, emission_ends emitted f)
unfolding emission_ends
emission-Keeps start t f (synced, seen, told) = ground arith

forward_ops-Keeps :
    (start : ℕ) (ops : List ForwardOp) (w : StatusTracker × Forwarder)
    → AllEmitted ops
    → Keeps start w
    → Keeps start (forward_ops ops w)
unfolding forward_op
forward_ops-Keeps start [] w good keeps = keeps
forward_ops-Keeps start (tracked_op op ∷ ops) (t, f) good keeps =
    forward_ops-Keeps start ops (forward_op (tracked_op op) (t, f)) good
      (tracked-Keeps start op t f keeps)
forward_ops-Keeps start (take_up_op ∷ ops) (t, f) good keeps =
    forward_ops-Keeps start ops (t, take_up t f) good (take_up-Keeps start t f keeps)
forward_ops-Keeps start (emission_op e ∷ ops) (t, f) (worked, good) keeps =
    forward_ops-Keeps start ops (t, emission_ends e f) good
      (subst (λ x. Keeps start (t, emission_ends x f)) (sym worked)
        (emission-Keeps start t f keeps))

-- The task goes on until it waits: a pending emission ends, what is unseen is taken up and told.
abbrev pub settle : StatusTracker × Forwarder → StatusTracker × Forwarder
settle = forward_ops (emission_op emitted ∷ take_up_op ∷ emission_op emitted ∷ [])

settle-told :
    (start : ℕ) (t : StatusTracker) (f : Forwarder)
    → Keeps start (t, f)
    → last_told start (settle (t, f)).1.signals ≡ t.state.revision
unfolding forward_op take_up emission_ends
settle-told start t f (synced, seen, told) = ground arith

-- Whatever happens to the tracker after the subscription, and however its changes fall between the
-- emissions: if every emission succeeds, then once the task is left to go on until it waits, the newest
-- signal has the revision that the tracker has then, or there is no signal and the revision is that of
-- the subscription.
pub forward_ops-told :
    (t : StatusTracker) (ops : List ForwardOp)
    → t.changes ≡ t.state.revision
    → AllEmitted ops
    → let w = forward_ops ops (t, new_forwarder t) in
      last_told t.state.revision (settle w).1.signals ≡ w.0.state.revision
forward_ops-told t ops synced good =
    let w = forward_ops ops (t, new_forwarder t) in
    settle-told t.state.revision w.0 w.1 (
      forward_ops-Keeps t.state.revision ops (t, new_forwarder t) good
        (synced, inr refl, inr (sym synced)))
