-- ===== src/Service/Forwarding/Tests.antt =====
-- A worker starts and is stopped while the first change is being announced.
use gd_client.Prelude.{List, [], ◌∷◌, ◌≡◌, refl}
use gd_client.Prelude.BTreeMap.{get, insert}
use gd_client.SyncStatus.{new_tracker, start_op, stop_op, tracker_op, start, stop, update}
use gd_client.Service.Forwarding.{
  ForwardOp, tracked_op, take_up_op, emission_op, emitted, forward_op, forward_ops, new_forwarder,
}
use gd_client.Service.Forwarding.Announced.{last_told, settle, forward_ops-told}

abbrev coalescing : List ForwardOp
coalescing =
    tracked_op (start_op 7 1)
    ∷ take_up_op
    ∷ tracked_op (stop_op 7)
    ∷ tracked_op (start_op 8 2)
    ∷ emission_op emitted
    ∷ []

two_signals :
    (settle (forward_ops coalescing (new_tracker, new_forwarder new_tracker))).1.signals
    ≡ 3 ∷ 1 ∷ []
unfolding forward_op tracker_op start stop update get insert
two_signals = refl

forward_ops-told_example :
    let w = forward_ops coalescing (new_tracker, new_forwarder new_tracker) in
    last_told 0 (settle w).1.signals ≡ w.0.state.revision
forward_ops-told_example = forward_ops-told new_tracker coalescing refl (refl, tt)
