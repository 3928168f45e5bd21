-- ===== src/Ui/Performed.antt =====
-- What has happened on the bus when a request of crates/gdrive-ui/src/dbus_client.rs is answered with `Done`.
use gd_client.Prelude.{
  ℕ, String, Option, none, some, Result, ok, err, if-split, ◌-◌, ◌+◌, ◌≡◌, leb, and_then, refl,
}
use gd_client.Ui.Window.{
  Request, refresh_request, add_folder_request, remove_folder_request, set_folder_enabled_request,
  sign_in_request, sign_out_request, list_drive_folders_request, dark_mode_request, Response,
  done_response, drive_folders_response,
}
use gd_client.Ui.Futures.{
  Future, Call, Polled, ready, dropped, Timed, timed, within, await, done_with, then_await,
  after_first, later, bounded, bounded_until,
}
use gd_client.Ui.Bus.{
  Bus, is_dark_mode, is_refresh, of_color_scheme, read_dark_mode, on_proxy, deadline_of,
  call_method, call_connected, call, refresh_snapshot, execute_with_timeout, execute,
}

-- A call was answered with a result, in a world that is the one after it.
abbrev pub Did : {W A : Type 0} → Call W A → W → Type 0
Did {W} {A} c w = (v : W) × (a : A) × (c.result v ≡ ok a) × (w ≡ c.done v)

-- If it is ready with `Done`, then `P` holds.
abbrev IfDone : {W : Type 0} → (W → Type 0) → Polled W Response → Type 0
IfDone P (dropped w) = Unit
IfDone P (ready t (err e) w) = Unit
IfDone P (ready t (ok r) w) = r ≡ done_response → P w

later-IfDone :
    {W : Type 0} (P : W → Type 0) (t : ℕ) (p : Polled W Response)
    → IfDone P p
    → IfDone P (later t p)
later-IfDone P t (dropped w) h = tt
later-IfDone P t (ready u (err e) w) h = tt
later-IfDone P t (ready u (ok r) w) h = h

-- What is known of a part that is ready with a result, `Q`, carries over.
then_await-IfDone :
    {W A : Type 0} (P : W → Type 0) (f : Future W A) (g : A → Future W Response)
    → ((a : A) (budget : ℕ) (w : W) → IfDone P (g a budget w))
    → (budget : ℕ) (w : W) → IfDone P (then_await f g budget w)
unfolding then_await
then_await-IfDone {W} {A} P f g second budget w = next (f budget w)
  where
    next : (p : Polled W A) → IfDone P (after_first g budget p)
    next (dropped v) = tt
    next (ready t (err e) v) = tt
    next (ready t (ok a) v) = later-IfDone P t (g a (budget - t) v) (second a (budget - t) v)

await-IfDone :
    {W A : Type 0} (c : Call W A) (budget : ℕ) (w : W)
    → IfDone (Did c) (then_await (await c) (λ a. done_with (ok done_response)) budget w)
unfolding then_await await done_with
await-IfDone {W} {A} c budget w = answered (c.takes w)
  where
    ended :
        (t : ℕ) (r : Result String A)
        → c.result w ≡ r
        → IfDone
            (Did c)
            (after_first (λ a. done_with (ok done_response)) budget (ready t r (c.done w)))
    ended t (err e) h = tt
    ended t (ok a) h = λ d. (w, a, h, refl)

    answered :
        (o : Option ℕ)
        → IfDone
            (Did c)
            (after_first (λ a. done_with (ok done_response)) budget (within c budget w o))
    answered none = tt
    answered (some t) =
        if-split
          (λ (p : Polled W A).
            IfDone (Did c) (after_first (λ a. done_with (ok done_response)) budget p))
          (leb t budget) _ _ (λ in_time. ended t (c.result w) refl) (λ late. tt)

module _ (B : Bus) where
  -- The method of the request was answered; no other request is answered with `Done`.
  abbrev pub Performed : Request → B.World → Type 0
  Performed (add_folder_request form) = Did (B.add_sync_folder form)
  Performed (remove_folder_request id) = Did (B.remove_sync_folder id)
  Performed (set_folder_enabled_request id enabled) = Did (B.set_folder_enabled id enabled)
  Performed sign_in_request = Did B.sign_in
  Performed sign_out_request = Did B.sign_out
  Performed (list_drive_folders_request parent) = λ w. ⊥
  Performed refresh_request = λ w. ⊥
  Performed dark_mode_request = λ w. ⊥

  call_method-IfDone :
      (request : Request) (budget : ℕ) (w : B.World)
      → IfDone (Performed request) (call_method B request budget w)
  unfolding call_method done_with
  call_method-IfDone (add_folder_request form) budget w =
      await-IfDone (B.add_sync_folder form) budget w
  call_method-IfDone (remove_folder_request id) budget w =
      await-IfDone (B.remove_sync_folder id) budget w
  call_method-IfDone (set_folder_enabled_request id enabled) budget w =
      await-IfDone (B.set_folder_enabled id enabled) budget w
  call_method-IfDone sign_in_request budget w = await-IfDone B.sign_in budget w
  call_method-IfDone sign_out_request budget w = await-IfDone B.sign_out budget w
  call_method-IfDone (list_drive_folders_request parent) budget w =
      then_await-IfDone (λ w. ⊥) (await (B.list_drive_folders parent))
        (λ rows. done_with (ok (drive_folders_response rows))) (λ rows budget w d. absurd (cc))
        budget w
  call_method-IfDone refresh_request budget w = tt
  call_method-IfDone dark_mode_request budget w = tt

  read_dark_mode-IfDone :
      (P : B.World → Type 0) (budget : ℕ) (w : B.World) → IfDone P (read_dark_mode B budget w)
  unfolding done_with
  read_dark_mode-IfDone P budget w =
      then_await-IfDone P (await B.read_color_scheme) _ (λ reply b v. read (B.color_scheme reply) v)
        budget w
    where
      read : (r : Result String ℕ) (v : B.World) → IfDone P (ready 0 (of_color_scheme r) v)
      read (ok n) v = λ d. absurd (cc)
      read (err e) v = tt

  call-IfDone :
      (request : Request) (deadline budget : ℕ) (w : B.World)
      → IfDone (Performed request) (call B request deadline budget w)
  unfolding call call_connected
  call-IfDone request deadline budget w =
      then_await-IfDone (Performed request) (await (B.connect deadline)) _ (λ u. connected) budget w
    where
      connected : (b : ℕ) (v : B.World) → IfDone (Performed request) (call_connected B request b v)
      connected =
          if-split
            (λ (f : Future B.World Response).
              (b : ℕ) (v : B.World) → IfDone (Performed request) (f b v))
            (is_dark_mode request) (read_dark_mode B) (on_proxy B request)
            (λ is. read_dark_mode-IfDone (Performed request))
            (λ is.
              then_await-IfDone (Performed request) (await B.new_proxy) _
                (λ u. call_method-IfDone request))

  -- The same of what was waited for until a deadline.
  abbrev WhenDone : (B.World → Type 0) → Result String Response × Timed B.World → Type 0
  WhenDone P (err e, s) = Unit
  WhenDone P (ok r, s) = r ≡ done_response → P s.world

  timed-WhenDone :
      (P : B.World → Type 0) (now budget deadline : ℕ) (p : Polled B.World Response)
      → IfDone P p
      → WhenDone P (timed now budget deadline p)
  timed-WhenDone P now budget deadline (dropped w) h = tt
  timed-WhenDone P now budget deadline (ready t (err e) w) h = tt
  timed-WhenDone P now budget deadline (ready t (ok r) w) h = h

  and_then-WhenDone :
      {A : Type 0} (P : B.World → Type 0) (m : Result String A × Timed B.World)
      (k : A → Timed B.World → Result String Response × Timed B.World)
      → ((a : A) (s : Timed B.World) → WhenDone P (k a s))
      → WhenDone P (and_then (λ (e : String). e) m k)
  and_then-WhenDone P (ok a, s) k next = next a s
  and_then-WhenDone P (err e, s) k next = tt

  refresh-WhenDone :
      (P : B.World → Type 0) (deadline : ℕ) (s : Timed B.World)
      → WhenDone P (refresh_snapshot B deadline s)
  unfolding refresh_snapshot
  refresh-WhenDone P deadline s =
      and_then-WhenDone P (bounded_until (s.now + deadline) deadline (await (B.connect deadline)) s)
        _
        λ u t.
          and_then-WhenDone P (bounded_until (s.now + deadline) deadline (await B.new_proxy) t) _
            λ u t.
              and_then-WhenDone P
                (bounded_until (s.now + deadline) deadline (await B.list_sync_folders) t) _
                λ rows t d. absurd (cc)

  execute-WhenDone :
      (request : Request) (s : Timed B.World) → WhenDone (Performed request) (execute B request s)
  unfolding execute execute_with_timeout bounded bounded_until
  execute-WhenDone request s =
      if-split (λ (r : Result String Response × Timed B.World). WhenDone (Performed request) r)
        (is_refresh request) (refresh_snapshot B (deadline_of request) s)
        (bounded (deadline_of request) (call B request (deadline_of request)) s)
        (λ is. refresh-WhenDone (Performed request) (deadline_of request) s)
        (λ is.
          timed-WhenDone (Performed request) s.now _ (deadline_of request) _
            (call-IfDone request (deadline_of request) _ s.world))

  -- A request is answered with `Done` only if it is one that changes something, and then the call of its
  -- method was answered with a result, and nothing came after it.
  pub execute-Performed :
      (request : Request) (s : Timed B.World)
      → (execute B request s).0 ≡ ok done_response
      → Performed request (execute B request s).1.world
  execute-Performed request s h = done (execute B request s) h (execute-WhenDone request s)
    where
      done :
          (r : Result String Response × Timed B.World)
          → r.0 ≡ ok done_response
          → WhenDone (Performed request) r
          → Performed request r.1.world
      done (ok answer, t) e when = when (cc)
      done (err x, t) e when = absurd (cc)
