-- ===== src/Ui/StatusSession.antt =====
-- `sync_status_session` of crates/gdrive-ui/src/dbus_client.rs against the tracker of one daemon: it
-- asks for a snapshot at every signal and every tick, and passes on those with a new revision.
use gd_client.Prelude.{
  ℕ, Bool, true, List, [], ◌∷◌, Option, none, some, ◌≡◌, ◌<◌, ◌+◌, arith, refl, ltb, length,
  u64_mod, if◌then◌else◌, inl, inr, Bool-cases, String, ap, sym, ◌∙◌,
}
use gd_client.SyncStatus.{Uuid, StatusTracker, SyncStatus, snapshot, TrackerOp, tracker_ops}
use gd_client.SyncStatus.Revision.{Follows, tracker_ops-Follows, tracker_ops-bounded}

-- The local variable `revision`, and the last snapshot that was passed on.
pub record Session : Type 0 where
  pub revision : Option ℕ
  pub shown : Option SyncStatus

abbrev pub new_session : Session
new_session = record { revision = none; shown = none }

-- `revision.is_none_or(|last| snapshot.revision > last)`
abbrev pub is_new : Option ℕ → ℕ → Bool
is_new none revision = true
is_new (some last) revision = ltb last revision

-- One turn of the loop, with the snapshot that the daemon answered.
unfoldable pub turn : SyncStatus → Session → Session
turn answer s =
    if is_new s.revision answer.revision
    then record { revision = some answer.revision; shown = some answer }
    else s

module _ (uuid_to_string : Uuid → String) where
  -- The daemon's tracker and the session: between two turns the tracker goes through any operations.
  abbrev pub turns : List (List TrackerOp) → StatusTracker × Session → StatusTracker × Session
  turns [] world = world
  turns (ops ∷ rest) (t, s) =
      let u = tracker_ops ops t in turns rest (u, turn (snapshot uuid_to_string u) s)

  abbrev pub count_ops : List (List TrackerOp) → ℕ
  count_ops [] = 0
  count_ops (ops ∷ rest) = length ops + count_ops rest

  -- The session shows the tracker as it is.
  abbrev pub Shows : StatusTracker → Session → Type 0
  Shows t s = (s.revision ≡ some t.state.revision) × (s.shown ≡ some (snapshot uuid_to_string t))

  turn-Shows :
      (t u : StatusTracker) (s : Session)
      → Follows t u
      → Shows t s
      → Shows u (turn (snapshot uuid_to_string u) s)
  unfolding turn snapshot
  turn-Shows t u s (later, same_tracker) (at_revision, showing) =
      elim (Bool-cases (ltb t.state.revision u.state.revision)) [
        | inl newer ↦ rw (at_revision, turn, newer, turn) (refl, refl)
        | inr old ↦
            let e : u ≡ t = same_tracker (ground arith) in
            rw (at_revision, turn, old, turn)
              (
                ap (λ (v : StatusTracker). some v.state.revision) (sym e),
                showing ∙ ap (λ (v : StatusTracker). some (snapshot uuid_to_string v)) (sym e),
              )
      ]

  turns-Shows :
      (batches : List (List TrackerOp)) (t : StatusTracker) (s : Session)
      → t.state.revision + count_ops batches < u64_mod
      → Shows t s
      → Shows (turns batches (t, s)).0 (turns batches (t, s)).1
  turns-Shows [] t s few shows = shows
  turns-Shows (ops ∷ rest) t s few shows =
      turns-Shows rest (tracker_ops ops t) (turn (snapshot uuid_to_string (tracker_ops ops t)) s)
        (omega (arith, tracker_ops-bounded ops t (omega arith)))
        (turn-Shows t (tracker_ops ops t) s (tracker_ops-Follows ops t (omega arith)) shows)

  first-Shows : (t : StatusTracker) → Shows t (turn (snapshot uuid_to_string t) new_session)
  unfolding turn snapshot
  first-Shows t = (refl, refl)

  -- After each turn of its loop, the session has passed on the tracker as it is, though it skips every
  -- snapshot whose revision is not new, whatever happens to the tracker between the turns, as long as
  -- the revision cannot have wrapped.
  pub session-Shows :
      (first : List TrackerOp) (rest : List (List TrackerOp)) (t : StatusTracker)
      → t.state.revision + count_ops (first ∷ rest) < u64_mod
      → Shows (turns (first ∷ rest) (t, new_session)).0 (turns (first ∷ rest) (t, new_session)).1
  session-Shows first rest t few =
      turns-Shows rest (tracker_ops first t) _
        (omega (arith, tracker_ops-bounded first t (omega arith)))
        (first-Shows (tracker_ops first t))
