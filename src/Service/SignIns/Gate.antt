-- ===== src/Service/SignIns/Gate.antt =====
-- The gate of the sign-ins of dbus_service.rs: what holds of the generation, the slot `sign_in`, the
-- flag `cancelling_sign_in`, the tasks, and the task that a `sign_out` waits for.
use gd_client.Prelude.{
  ℕ, Bool, true, false, Option, none, some, ◌≡◌, ◌≤◌, ◌<◌, ◌+◌, ◌⊎◌, arith, u64_mod, next_u64,
  Option-cases, inl, inr, refl, ◌≢◌,
}
use gd_client.Prelude.BTreeMap.{BTreeMap, get, insert, modify, get-insert, get-modify}
use gd_client.Prelude.Keys.{nat_ord, string_ord}
use gd_client.Service.{Ending, SignIn}
use gd_client.Service.SignIns.{slot_running, abort_task, end_task}

-- A task that has not ended is the one in the slot or the one that a `sign_out` waits for, and in the
-- slot if its generation is the current one; no task is newer than that. While a `sign_out` waits, the
-- flag is set, and then the slot is empty.
pub record Gate (generation : ℕ) (slot : Option ℕ) (cancelling : Bool) (tasks : BTreeMap ℕ SignIn)
    (awaited : Option ℕ) (spawned : ℕ) : Type 0 where
  pub live :
      (h : ℕ) (t : SignIn)
      → get h tasks ≡ some t
      → t.ending ≡ none
      → (slot ≡ some h) ⊎ (awaited ≡ some h)
  pub current :
      (h : ℕ) (t : SignIn)
      → get h tasks ≡ some t
      → t.ending ≡ none
      → t.generation ≡ generation
      → slot ≡ some h
  pub older : (h : ℕ) (t : SignIn) → get h tasks ≡ some t → t.generation ≤ generation
  pub numbered : (h : ℕ) (t : SignIn) → get h tasks ≡ some t → h < spawned
  pub closed : cancelling ≡ true → slot ≡ none
  pub waits : (h : ℕ) → awaited ≡ some h → cancelling ≡ true

module _ {g : ℕ} {slot : Option ℕ} {cancelling : Bool} {tasks : BTreeMap ℕ SignIn}
    {awaited : Option ℕ} {spawned : ℕ} (gate : Gate g slot cancelling tasks awaited spawned) where
  -- Two tasks that have not ended are one.
  pub one_live :
      (i j : ℕ) (t u : SignIn)
      → get i tasks ≡ some t
      → get j tasks ≡ some u
      → t.ending ≡ none
      → u.ending ≡ none
      → i ≡ j
  one_live i j t u at_i at_j live_t live_u = ground (
    arith,
    gate.live i t at_i live_t,
    gate.live j u at_j live_u,
    gate.closed,
    gate.waits i,
    gate.waits j,
  )

  pub sign_in-Gate :
      cancelling ≡ false
      → slot_running slot tasks ≡ false
      → g + 1 < u64_mod
      → Gate
          (next_u64 g)
          (some spawned)
          cancelling
          (insert spawned
            (record { generation = next_u64 g; aborted = false; ending = none })
            tasks)
          awaited
          (spawned + 1)
  sign_in-Gate unlocked idle few = record {
    live = λ h t at_h live_t. ground (
      arith,
      gate.live h t,
      gate.waits h,
      get-insert h spawned (record { generation = next_u64 g; aborted = false; ending = none })
          tasks,
    );
    current = λ h t at_h live_t same_g. ground (
      arith,
      gate.live h t,
      gate.waits h,
      get-insert h spawned (record { generation = next_u64 g; aborted = false; ending = none })
          tasks,
    );
    older = λ h t at_h. ground (
      arith,
      gate.older h t,
      get-insert h spawned (record { generation = next_u64 g; aborted = false; ending = none })
          tasks,
    );
    numbered = λ h t at_h. ground (
      arith,
      gate.numbered h t,
      get-insert h spawned (record { generation = next_u64 g; aborted = false; ending = none })
          tasks,
    );
    closed = λ c. ground arith;
    waits = gate.waits;
  }

  -- A cancellation that finds no task in the slot.
  pub cancel_none-Gate :
      slot ≡ none → g + 1 < u64_mod → Gate (next_u64 g) none cancelling tasks awaited spawned
  cancel_none-Gate empty few = record {
    live = λ h t at_h live_t. ground (arith, gate.live h t at_h live_t);
    current = λ h t at_h live_t same_g. ground (arith, gate.older h t at_h);
    older = λ h t at_h. ground (arith, gate.older h t at_h);
    numbered = gate.numbered;
    closed = λ c. refl;
    waits = gate.waits;
  }

  pub cancel_some-Gate :
      (k : ℕ)
      → cancelling ≡ false
      → slot ≡ some k
      → g + 1 < u64_mod
      → Gate (next_u64 g) none true (modify k abort_task tasks) (some k) spawned
  cancel_some-Gate k unlocked full few = record {
    live = λ h t at_h live_t. elim (Option-cases (get h tasks)) [
      | inl absent ↦ ground (arith, get-modify h k abort_task tasks)
      | inr (u, there) ↦
          ground (arith, gate.live h u there, gate.waits h, get-modify h k abort_task tasks)
    ];
    current = λ h t at_h live_t same_g. elim (Option-cases (get h tasks)) [
      | inl absent ↦ ground (arith, get-modify h k abort_task tasks)
      | inr (u, there) ↦ ground (arith, gate.older h u there, get-modify h k abort_task tasks)
    ];
    older = λ h t at_h. elim (Option-cases (get h tasks)) [
      | inl absent ↦ ground (arith, get-modify h k abort_task tasks)
      | inr (u, there) ↦ ground (arith, gate.older h u there, get-modify h k abort_task tasks)
    ];
    numbered = λ h t at_h. elim (Option-cases (get h tasks)) [
      | inl absent ↦ ground (arith, get-modify h k abort_task tasks)
      | inr (u, there) ↦ gate.numbered h u there
    ];
    closed = λ c. refl;
    waits = λ h w. refl;
  }

  -- The end of a task; the slot may be emptied if the task was the current one.
  pub end-Gate :
      (k : ℕ) (t : SignIn) (ending : Ending) (slot' : Option ℕ)
      → get k tasks ≡ some t
      → t.ending ≡ none
      → (slot' ≡ slot) ⊎ ((t.generation ≡ g) × (slot' ≡ none))
      → Gate g slot' cancelling (modify k (end_task ending) tasks) awaited spawned
  end-Gate k t ending slot' at_k live_k chosen = record {
    live = λ h v at_h live_h. elim (Option-cases (get h tasks)) [
      | inl absent ↦ ground (arith, get-modify h k (end_task ending) tasks)
      | inr (u, there) ↦ ground (
        arith,
        gate.live h u there,
        gate.current k t at_k live_k,
        gate.closed,
        gate.waits h,
        get-modify h k (end_task ending) tasks,
      )
    ];
    current = λ h v at_h live_h same_g. elim (Option-cases (get h tasks)) [
      | inl absent ↦ ground (arith, get-modify h k (end_task ending) tasks)
      | inr (u, there) ↦ ground (
        arith,
        gate.current h u there,
        gate.current k t at_k live_k,
        get-modify h k (end_task ending) tasks,
      )
    ];
    older = λ h v at_h. elim (Option-cases (get h tasks)) [
      | inl absent ↦ ground (arith, get-modify h k (end_task ending) tasks)
      | inr (u, there) ↦
          ground (arith, gate.older h u there, get-modify h k (end_task ending) tasks)
    ];
    numbered = λ h v at_h. elim (Option-cases (get h tasks)) [
      | inl absent ↦ ground (arith, get-modify h k (end_task ending) tasks)
      | inr (u, there) ↦ gate.numbered h u there
    ];
    closed = λ c. ground (arith, gate.closed c);
    waits = gate.waits;
  }

  -- The end of a wait for a task that has ended.
  pub waited-Gate :
      (k : ℕ)
      → awaited ≡ some k
      → ((t : SignIn) → get k tasks ≡ some t → t.ending ≢ none)
      → Gate g slot false tasks none spawned
  waited-Gate k waiting ended = record {
    live = λ h t at_h live_t. ground (arith, gate.live h t at_h live_t, ended t);
    current = gate.current;
    older = gate.older;
    numbered = gate.numbered;
    closed = λ c. ground arith;
    waits = λ h w. ground arith;
  }

  -- The end of a wait whose deadline passed.
  pub late-Gate : (k : ℕ) → awaited ≡ some k → Gate g (some k) false tasks none spawned
  late-Gate k waiting = record {
    live = λ h t at_h live_t. ground (arith, gate.live h t at_h live_t, gate.closed, gate.waits k);
    current = λ h t at_h live_t same_g.
        ground (arith, gate.current h t at_h live_t same_g, gate.closed, gate.waits k);
    older = gate.older;
    numbered = gate.numbered;
    closed = λ c. ground arith;
    waits = λ h w. ground arith;
  }
