-- ===== src/Ui/Deadlines.antt =====
-- When the requests of crates/gdrive-ui/src/dbus_client.rs end.
use gd_client.Prelude.{
  refl, subst, ◌≡◌, if-split, ℕ, String, Option-cases, Result, ok, err, ◌+◌, ◌-◌, ◌≤◌, arith, inl,
  inr, and_then, ◌≡◌, subst,
}
use gd_client.Ui.Window.{
  Request, refresh_request, add_folder_request, remove_folder_request, set_folder_enabled_request,
  sign_in_request, sign_out_request, list_drive_folders_request, dark_mode_request, Response,
}
use gd_client.Ui.Futures.{
  Future, Call, Polled, ready, dropped, Timed, timed, within, await, done_with, then_await,
  after_first, later, bounded, bounded_until,
}
use gd_client.Ui.Bus.{
  is_dark_mode, is_refresh, Bus, deadline_of, call_method, on_proxy, read_dark_mode, call_connected,
  call, refresh_snapshot, execute_with_timeout, execute,
}

abbrev Fits : {W A : Type 0} → ℕ → Polled W A → Type 0
Fits budget (ready t r w) = t ≤ budget
Fits budget (dropped w) = Unit

-- What is ready is so within the budget.
abbrev InBudget : {W A : Type 0} → Future W A → Type 0
InBudget {W} f = (budget : ℕ) (w : W) → Fits budget (f budget w)

await-InBudget : {W A : Type 0} (c : Call W A) → InBudget (await c)
unfolding await
await-InBudget c budget w = elim (Option-cases (c.takes w)) [
  | inl never ↦ rw (never, within) tt
  | inr (t, e) ↦ rw (e, within) (ground arith)
]

done_with-InBudget : {W A : Type 0} (r : Result String A) → InBudget {W = W} (done_with r)
unfolding done_with
done_with-InBudget r budget w = omega arith

later-Fits :
    {W A : Type 0} (t budget : ℕ) (p : Polled W A)
    → t ≤ budget
    → Fits (budget - t) p
    → Fits budget (later t p)
later-Fits t budget (ready u r w) h fits = omega arith
later-Fits t budget (dropped w) h fits = tt

then_await-InBudget :
    {W A B : Type 0} (f : Future W A) (g : A → Future W B)
    → InBudget f
    → ((a : A) → InBudget (g a))
    → InBudget (then_await f g)
unfolding then_await
then_await-InBudget {W} {A} f g first second budget w = next (f budget w) (first budget w)
  where
    next : (p : Polled W A) → Fits budget p → Fits budget (after_first g budget p)
    next (dropped v) fits = tt
    next (ready t (err e) v) fits = fits
    next (ready t (ok a) v) fits =
        later-Fits t budget (g a (budget - t) v) fits (second a (budget - t) v)

bounded_until-ends :
    {W A : Type 0} (end deadline : ℕ) (f : Future W A) (s : Timed W)
    → InBudget f
    → s.now ≤ end
    → (bounded_until end deadline f s).1.now ≤ end
unfolding bounded_until
bounded_until-ends {W} {A} end deadline f s fits h =
    ends (f (end - s.now) s.world) (fits (end - s.now) s.world)
  where
    ends :
        (p : Polled W A) → Fits (end - s.now) p → (timed s.now (end - s.now) deadline p).1.now ≤ end
    ends (dropped v) k = omega arith
    ends (ready t r v) k = omega arith

-- What a request may take, in milliseconds.
abbrev pub time_limit : Request → ℕ
time_limit (list_drive_folders_request parent) = 30000
time_limit refresh_request = 5000
time_limit (add_folder_request form) = 5000
time_limit (remove_folder_request id) = 5000
time_limit (set_folder_enabled_request id enabled) = 5000
time_limit sign_in_request = 5000
time_limit sign_out_request = 5000
time_limit dark_mode_request = 5000

module _ (B : Bus) where
  reply-InBudget :
      {A : Type 0} (c : Call B.World A) (r : A → Result String Response)
      → InBudget (then_await (await c) λ a. done_with (r a))
  reply-InBudget c r =
      then_await-InBudget (await c) _ (await-InBudget c) (λ a. done_with-InBudget (r a))

  call_method-InBudget : (request : Request) → InBudget (call_method B request)
  unfolding call_method
  call_method-InBudget (add_folder_request form) = reply-InBudget _ _
  call_method-InBudget (remove_folder_request id) = reply-InBudget _ _
  call_method-InBudget (set_folder_enabled_request id enabled) = reply-InBudget _ _
  call_method-InBudget sign_in_request = reply-InBudget _ _
  call_method-InBudget sign_out_request = reply-InBudget _ _
  call_method-InBudget (list_drive_folders_request parent) = reply-InBudget _ _
  call_method-InBudget refresh_request = done_with-InBudget {A = Response} (err "unreachable")
  call_method-InBudget dark_mode_request = done_with-InBudget {A = Response} (err "unreachable")

  on_proxy-InBudget : (request : Request) → InBudget (on_proxy B request)
  on_proxy-InBudget request =
      then_await-InBudget (await B.new_proxy) _ (await-InBudget B.new_proxy)
        (λ u. call_method-InBudget request)

  call_connected-InBudget : (request : Request) → InBudget (call_connected B request)
  unfolding call_connected
  call_connected-InBudget request =
      if-split (λ (f : Future B.World Response). InBudget f) (is_dark_mode request)
        (read_dark_mode B) (on_proxy B request) (λ is. reply-InBudget B.read_color_scheme _)
        (λ is. on_proxy-InBudget request)

  call-InBudget : (request : Request) (deadline : ℕ) → InBudget (call B request deadline)
  unfolding call
  call-InBudget request deadline =
      then_await-InBudget (await (B.connect deadline)) _ (await-InBudget (B.connect deadline))
        (λ u. call_connected-InBudget request)

  abbrev Ends : {A : Type 0} → ℕ → Result String A × Timed B.World → Type 0
  Ends end r = r.1.now ≤ end

  and_then-Ends :
      {A C : Type 0} (end : ℕ) (m : Result String A × Timed B.World)
      (k : A → Timed B.World → Result String C × Timed B.World)
      → Ends end m
      → ((a : A) (s : Timed B.World) → s.now ≤ end → Ends end (k a s))
      → Ends end (and_then (λ (e : String). e) m k)
  and_then-Ends end (ok a, s) k h next = next a s h
  and_then-Ends end (err e, s) k h next = h

  -- A call that is waited for, and what follows it.
  call-Ends :
      {A : Type 0} (end deadline : ℕ) (c : Call B.World A)
      (k : A → Timed B.World → Result String Response × Timed B.World) (s : Timed B.World)
      → s.now ≤ end
      → ((a : A) (t : Timed B.World) → t.now ≤ end → Ends end (k a t))
      → Ends end (and_then (λ (e : String). e) (bounded_until end deadline (await c) s) k)
  call-Ends end deadline c k s h next =
      and_then-Ends end (bounded_until end deadline (await c) s) k
        (bounded_until-ends end deadline (await c) s (await-InBudget c) h) next

  refresh-Ends :
      (deadline : ℕ) (s : Timed B.World) → Ends (s.now + deadline) (refresh_snapshot B deadline s)
  unfolding refresh_snapshot
  refresh-Ends deadline s =
      call-Ends (s.now + deadline) deadline (B.connect deadline) _ s (omega arith) λ u t h.
        call-Ends (s.now + deadline) deadline B.new_proxy _ t h λ u t h.
          call-Ends (s.now + deadline) deadline B.list_sync_folders _ t h λ rows t h.
            bounded_until-ends (s.now + deadline) deadline (await B.is_authenticated) t
              (await-InBudget B.is_authenticated) h

  execute_with_timeout-Ends :
      (request : Request) (deadline : ℕ) (s : Timed B.World)
      → Ends (s.now + deadline) (execute_with_timeout B request deadline s)
  unfolding execute_with_timeout bounded
  execute_with_timeout-Ends request deadline s =
      if-split (λ (r : Result String Response × Timed B.World). Ends (s.now + deadline) r)
        (is_refresh request) (refresh_snapshot B deadline s)
        (bounded deadline (call B request deadline) s) (λ is. refresh-Ends deadline s)
        (λ is.
          bounded_until-ends (s.now + deadline) deadline (call B request deadline) s
            (call-InBudget request deadline) (omega arith))

  deadline-time_limit : (request : Request) → deadline_of request ≡ time_limit request
  unfolding deadline_of
  deadline-time_limit refresh_request = refl
  deadline-time_limit (add_folder_request form) = refl
  deadline-time_limit (remove_folder_request id) = refl
  deadline-time_limit (set_folder_enabled_request id enabled) = refl
  deadline-time_limit sign_in_request = refl
  deadline-time_limit sign_out_request = refl
  deadline-time_limit (list_drive_folders_request parent) = refl
  deadline-time_limit dark_mode_request = refl

  -- Whatever the bus and the daemon do, also where a call never answers, a request ends by its deadline:
  -- with all its calls within 30 seconds if it lists Drive folders, and within 5 seconds otherwise.
  pub execute-ends :
      (request : Request) (s : Timed B.World)
      → (execute B request s).1.now ≤ s.now + time_limit request
  unfolding execute
  execute-ends request s =
      subst (λ n. (execute B request s).1.now ≤ s.now + n) (deadline-time_limit request)
        (execute_with_timeout-Ends request (deadline_of request) s)
