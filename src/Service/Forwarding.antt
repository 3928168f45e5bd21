-- ===== src/Service/Forwarding.antt =====
-- `forward_status` of crates/gdrived/src/dbus_service.rs: the task that turns the values of the watch
-- channel of sync_status.rs into signals, beside the tracker that fills the channel.
pub mod Announced
mod Tests
use gd_client.Prelude.{ℕ, Bool, true, false, not, ◌&&◌, ◌||◌, ◌==◌, List, [], ◌∷◌, if◌then◌else◌}
use gd_client.SyncStatus.{StatusTracker, TrackerOp, tracker_op}

-- How `timeout(SIGNAL_TIMEOUT, emit_signal)` ends.
pub data Emission : Type 0 where
  emitted emission_failed emission_timed_out : Emission

-- `unseen` is whether the receiver has not seen the value in the channel; `emitting`, whether the task
-- waits for an emission; `signals`, what the bus took, the newest first. `revision` is the local
-- variable of that name, at first the value at the subscription.
pub record Forwarder : Type 0 where
  pub unseen : Bool
  pub revision : ℕ
  pub emitting : Bool
  pub signals : List ℕ

-- A receiver has seen the value that is there when it subscribes.
abbrev pub new_forwarder : StatusTracker → Forwarder
new_forwarder t = record { unseen = false; revision = t.changes; emitting = false; signals = [] }

-- `changed().await` and `borrow_and_update()`, if there is something to see and the task waits for it.
unfoldable pub take_up : StatusTracker → Forwarder → Forwarder
take_up t f =
    if f.unseen && not f.emitting
    then record f { unseen = false; revision = t.changes; emitting = true }
    else f

abbrev pub signals_after : Emission → ℕ → List ℕ → List ℕ
signals_after emitted revision signals = revision ∷ signals
signals_after emission_failed revision signals = signals
signals_after emission_timed_out revision signals = signals

unfoldable pub emission_ends : Emission → Forwarder → Forwarder
emission_ends e f =
    if f.emitting
    then record f { emitting = false; signals = signals_after e f.revision f.signals }
    else f

-- What may happen: to the tracker, and to the task.
pub data ForwardOp : Type 0 where
  tracked_op : TrackerOp → ForwardOp
  take_up_op : ForwardOp
  emission_op : Emission → ForwardOp

-- A value that is put in the channel is one more than the value before, so it is another.
unfoldable pub forward_op : ForwardOp → StatusTracker × Forwarder → StatusTracker × Forwarder
unfolding take_up emission_ends
forward_op (tracked_op op) (t, f) =
    let u = tracker_op op t in (u, record f { unseen = f.unseen || not (u.changes == t.changes) })
forward_op take_up_op (t, f) = (t, take_up t f)
forward_op (emission_op e) (t, f) = (t, emission_ends e f)

abbrev pub forward_ops : List ForwardOp → StatusTracker × Forwarder → StatusTracker × Forwarder
forward_ops [] w = w
forward_ops (op ∷ ops) w = forward_ops ops (forward_op op w)
