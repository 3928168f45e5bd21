-- ===== src/Ui/Futures.antt =====
-- `bounded_until` and `bounded` of crates/gdrive-ui/src/dbus_client.rs, and the futures that they wait for.
-- Times are milliseconds. A future runs on a world, for at most a budget of time: it is ready within it,
-- or it is dropped then, in the world that it leaves.
use gd_client.Prelude.{
  ℕ, zero, suc, String, ◌<>◌, Option, none, some, List, [], ◌∷◌, Result, ok, err, map_err, leb, ltb,
  ◌+◌, ◌-◌, ◌/◌, ◌%◌, if◌then◌else◌,
}

pub data Polled (W A : Type 0) : Type 0 where
  ready : ℕ → Result String A → W → Polled W A
  dropped : W → Polled W A

abbrev pub Future : Type 0 → Type 0 → Type 0
Future W A = ℕ → W → Polled W A

-- What a call of a library does: how long it takes, `none` for ever; its result and what it has done by
-- then; and what it has done when it is dropped after some time.
pub record Call (W A : Type 0) : Type 0 where
  pub takes : W → Option ℕ
  pub result : W → Result String A
  pub done : W → W
  pub left : ℕ → W → W

module _ {W A : Type 0} where
  abbrev pub within : Call W A → ℕ → W → Option ℕ → Polled W A
  within c budget w none = dropped (c.left budget w)
  within c budget w (some t) =
      if leb t budget then ready t (c.result w) (c.done w) else dropped (c.left budget w)

  unfoldable pub await : Call W A → Future W A
  await c budget w = within c budget w (c.takes w)

  unfoldable pub done_with : Result String A → Future W A
  done_with r budget w = ready 0 r w

  abbrev pub later : ℕ → Polled W A → Polled W A
  later t (ready u r w) = ready (t + u) r w
  later t (dropped w) = dropped w

module _ {W A B : Type 0} where
  abbrev pub after_first : (A → Future W B) → ℕ → Polled W A → Polled W B
  after_first g budget (dropped w) = dropped w
  after_first g budget (ready t (err e) w) = ready t (err e) w
  after_first g budget (ready t (ok a) w) = later t (g a (budget - t) w)

  -- `.await?` in a future: the second part has the time that is left.
  unfoldable pub then_await : Future W A → (A → Future W B) → Future W B
  then_await f g budget w = after_first g budget (f budget w)

-- The clock, and the rest.
pub record Timed (W : Type 0) : Type 0 where
  pub now : ℕ
  pub world : W

abbrev digits : List String
digits = "0" ∷ "1" ∷ "2" ∷ "3" ∷ "4" ∷ "5" ∷ "6" ∷ "7" ∷ "8" ∷ "9" ∷ []

abbrev at : ℕ → List String → String
at n [] = ""
at zero (s ∷ ss) = s
at (suc n) (s ∷ ss) = at n ss

-- `Display` of a `u64`, which has at most 20 digits.
unfoldable pub decimal : ℕ → ℕ → String
decimal zero n = ""
decimal (suc fuel) n =
    let front = decimal fuel (n / 10) in
    if ltb n 10 then at n digits else front <> at (n % 10) digits

unfoldable pub timeout_message : ℕ → String
unfolding decimal
timeout_message deadline =
    "gdrived request timed out after "
    <> (decimal 20 (deadline / 1000) <> " seconds. Check the daemon and connection, then retry.")

module _ {W A : Type 0} where
  abbrev pub timed : ℕ → ℕ → ℕ → Polled W A → Result String A × Timed W
  timed now budget deadline (ready t r w) =
      (map_err (λ e. "D-Bus request failed: " <> e) r, record { now = now + t; world = w })
  timed now budget deadline (dropped w) =
      (err (timeout_message deadline), record { now = now + budget; world = w })

  -- `bounded_until`: `timeout_at` polls the future first, so that one that is ready at once is no timeout
  -- even after the end.
  unfoldable pub bounded_until : ℕ → ℕ → Future W A → Timed W → Result String A × Timed W
  unfolding timeout_message
  bounded_until end deadline future s =
      timed s.now (end - s.now) deadline (future (end - s.now) s.world)

  unfoldable pub bounded : ℕ → Future W A → Timed W → Result String A × Timed W
  unfolding bounded_until
  bounded deadline future s = bounded_until (s.now + deadline) deadline future s
