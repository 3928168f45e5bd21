-- ===== src/Service/SignIns/Answers.antt =====
-- What `sign_in` and `sign_out` of crates/gdrived/src/dbus_service.rs have done when they answer that
-- they succeeded.
use gd_client.Prelude.Keys.{nat_ord, string_ord}
use gd_client.Prelude.BTreeMap.{BTreeMap, get, get-insert, get-remove}
use gd_client.Prelude.{
  ℕ, Option, List, Result, All, none, some, [], ◌∷◌, ok, err, false, ◌≡◌, ◌≢◌, ◌+◌, next_u64, refl,
  arith, inl, inr, ◌⊎◌, Option-cases, Result-cases, Bool-cases, sym, ap, ◌∙◌, subst,
}
use gd_client.Common.Config.{ConfigStore, SyncFolder, Uuid}
use gd_client.Common.Paths.{PathBuf}
use gd_client.Drive.Tokens.{Client, TokenState, set_access_token}
use gd_client.Drive.Auth.{TokenDisk, OAuthConfig}
use gd_client.Engine.Workers.{SyncEngine, stop_folder}
use gd_client.Service.{
  ServiceState, SignIn, FdoError, Ending, stop_all, panicked, returned, cancelled,
}
use gd_client.Service.SignIns.{
  sign_in, sign_in_busy, slot_running, sign_out, sign_out_begins, end_session, removed_signal,
  cancel_sign_in, sign_out_answer, finish_sign_in_cancellation, remove_token, after_wait, ending_of,
}

abbrev pub NotRunning : SyncEngine → SyncFolder → Type 0
NotRunning e f = get f.id e.tasks ≡ none

some-injective : {k j : ℕ} → some k ≡ some j → k ≡ j
some-injective h = cc

stop_all-none :
    (id : Uuid) (fs : List SyncFolder) (e : SyncEngine)
    → get id e.tasks ≡ none
    → get id (stop_all fs e).tasks ≡ none
unfolding stop_folder
stop_all-none id [] e h = h
stop_all-none id (f ∷ fs) e h =
    stop_all-none id fs (stop_folder f.id e) (ground (arith, get-remove id f.id e.tasks))

stop_all-NotRunning : (fs : List SyncFolder) (e : SyncEngine) → All (NotRunning (stop_all fs e)) fs
unfolding stop_folder
stop_all-NotRunning [] e = tt
stop_all-NotRunning (f ∷ fs) e = (
  stop_all-none f.id fs (stop_folder f.id e)
      (ground (arith, nat_ord.cmp_iff f.id f.id, get-remove f.id f.id e.tasks)),
  stop_all-NotRunning fs (stop_folder f.id e),
)

module _ (S : ConfigStore) (D : TokenDisk) where
  -- A sign-in task is under way that did not exist before, for a new generation; there was none that had
  -- not ended, and no sign-out was waiting for one. Nothing else has changed.
  abbrev pub SignInBegun : ServiceState S D → ServiceState S D → Type 0
  SignInBegun s t =
      (s.cancelling_sign_in ≡ false)
      × ((h : ℕ) (task : SignIn)
          → s.sign_in ≡ some h
          → get h s.tasks ≡ some task
          → task.ending ≢ none)
      × (get s.spawned t.tasks
          ≡ some (record { generation = t.sign_in_generation; aborted = false; ending = none }))
      × (t ≡ record s {
        sign_in_generation = next_u64 s.sign_in_generation;
        sign_in = some s.spawned;
        spawned = s.spawned + 1;
        tasks = t.tasks;
      })

  -- What a slot that does not run is.
  ended_slot :
      (tasks : BTreeMap ℕ SignIn) {h : ℕ} {task : SignIn} (slot : Option ℕ)
      → slot ≡ some h
      → get h tasks ≡ some task
      → task.ending ≡ none
      → slot_running slot tasks ≡ false
      → ⊥
  ended_slot tasks none full there live free = cc
  ended_slot tasks (some k) full there live free = ground arith

  pub sign_in-SignInBegun :
      (credentials : Option OAuthConfig) (s : ServiceState S D) (a : Unit)
      → (sign_in S D credentials s).0 ≡ ok a
      → SignInBegun s (sign_in S D credentials s).1
  unfolding sign_in sign_in_busy
  sign_in-SignInBegun none s a h = absurd (cc)
  sign_in-SignInBegun (some c) s a h = elim (Bool-cases s.cancelling_sign_in) [
    | inl waiting ↦ absurd (ground arith)
    | inr quiet ↦ elim (Bool-cases (slot_running s.sign_in s.tasks)) [
      | inl busy ↦ absurd (ground arith)
      | inr free ↦
          rw (quiet, free, sign_in)
            (
              refl,
              λ h task full there live. ended_slot s.tasks s.sign_in full there live free,
              ground (
                arith,
                nat_ord.cmp_iff s.spawned s.spawned,
                get-insert s.spawned s.spawned
                    (record {
                      generation = next_u64 s.sign_in_generation;
                      aborted = false;
                      ending = none;
                    })
                    s.tasks,
              ),
              refl,
            )
    ]
  ]

  -- When the lock is given back: the session and the cached token are gone, which is signalled, and no
  -- folder of the configuration has a worker.
  abbrev pub SessionEnded : ServiceState S D → ServiceState S D → Type 0
  SessionEnded s t =
      (t.client.tokens.token.access_token ≡ "")
      × (t.client.tokens.token.refresh_token ≡ none)
      × ((D.contents s.client.disk s.token_path ≡ none)
          ⊎ (D.remove_file s.token_path s.client.disk ≡ (ok tt, t.client.disk)))
      × All (NotRunning t.engine) s.config.sync_folders
      × (t.signals ≡ false ∷ s.signals)

  cancel_sign_in-frame :
      (s : ServiceState S D)
      → (cancel_sign_in S D s).1 ≡ record s {
        sign_in_generation = (cancel_sign_in S D s).1.sign_in_generation;
        sign_in = (cancel_sign_in S D s).1.sign_in;
        cancelling_sign_in = (cancel_sign_in S D s).1.cancelling_sign_in;
        tasks = (cancel_sign_in S D s).1.tasks;
      }
  unfolding cancel_sign_in
  cancel_sign_in-frame s = elim (Bool-cases s.cancelling_sign_in) [
    | inl locked ↦ rw (locked, cancel_sign_in) refl
    | inr free ↦ elim (Option-cases s.sign_in) [
      | inl none_there ↦ rw (free, cancel_sign_in, none_there, cancel_sign_in) refl
      | inr (k, full) ↦ rw (free, cancel_sign_in, full, cancel_sign_in) refl
    ]
  ]

  remove_token-removed :
      (path : PathBuf) (c : Client D) (a : Unit)
      → (remove_token S D path c).0 ≡ ok a
      → ((D.contents c.disk path ≡ none)
          ⊎ (D.remove_file path c.disk ≡ (ok tt, (remove_token S D path c).1.disk)))
        × ((remove_token S D path c).1.tokens ≡ c.tokens)
  remove_token-removed path c a h = elim (Option-cases (D.contents c.disk path)) [
    | inl gone ↦ rw (gone) (inl refl, refl)
    | inr (text, there) ↦ elim (Result-cases (D.remove_file path c.disk).0) [
      | inl (u, done) ↦ rw (there) (inr (ap (λ r. (r, (D.remove_file path c.disk).1)) done), refl)
      | inr (e, broken) ↦ absurd (ground arith)
    ]
  ]

  end_session-SessionEnded :
      (task : Option ℕ) (s : ServiceState S D) (a : Unit)
      → (end_session S D task s).0 ≡ ok a
      → SessionEnded s (end_session S D task s).1
  unfolding set_access_token
  end_session-SessionEnded task s a h =
      let (gone, tokens) = remove_token-removed s.token_path (set_access_token D "" s.client) a h in
      (
        ap (λ (t : TokenState). t.token.access_token) tokens,
        ap (λ (t : TokenState). t.token.refresh_token) tokens,
        gone,
        stop_all-NotRunning s.config.sync_folders s.engine,
        ap (λ r. removed_signal S D r s.signals) h,
      )

  sign_out_begins-SessionEnded :
      (s : ServiceState S D) (a : Unit)
      → (sign_out_begins S D s).0 ≡ ok a
      → SessionEnded s (sign_out_begins S D s).1
  unfolding sign_out_begins
  sign_out_begins-SessionEnded s a h =
      let task = (cancel_sign_in S D s).0 in
      subst (λ v. (end_session S D task v).0 ≡ ok a → SessionEnded s (end_session S D task v).1)
        (sym (cancel_sign_in-frame s))
        (λ k.
          end_session-SessionEnded task
            (record s {
              sign_in_generation = (cancel_sign_in S D s).1.sign_in_generation;
              sign_in = (cancel_sign_in S D s).1.sign_in;
              cancelling_sign_in = (cancel_sign_in S D s).1.cancelling_sign_in;
              tasks = (cancel_sign_in S D s).1.tasks;
            })
            a k)
        h

  -- The session ended, and then only the wait of this `sign_out` was over: the task that it had aborted,
  -- if any, had ended, and not by a panic.
  abbrev pub SignedOut :
      (ServiceState S D → ServiceState S D) → ServiceState S D → ServiceState S D → Type 0
  SignedOut meanwhile s u =
      (t : ServiceState S D) × SessionEnded s t
      × ((h : ℕ) (task : SignIn)
          → (cancel_sign_in S D s).0 ≡ some h
          → get h (meanwhile t).tasks ≡ some task
          → (task.ending ≢ none) × (task.ending ≢ some panicked))
      × (u
          ≡ record (meanwhile t) { cancelling_sign_in = u.cancelling_sign_in; awaited = u.awaited })

  after_wait-ended :
      (k : ℕ) (o : Option Ending) (s : ServiceState S D) (a : Unit)
      → (after_wait S D k o s).0 ≡ ok a
      → ((o ≢ none) × (o ≢ some panicked))
        × ((after_wait S D k o s).1 ≡ record s {
          cancelling_sign_in = (after_wait S D k o s).1.cancelling_sign_in;
          awaited = (after_wait S D k o s).1.awaited;
        })
  after_wait-ended k none s a h = absurd (cc)
  after_wait-ended k (some panicked) s a h = absurd (cc)
  after_wait-ended k (some returned) s a h = ((λ e. cc, λ e. cc), refl)
  after_wait-ended k (some cancelled) s a h = ((λ e. cc, λ e. cc), refl)

  sign_out_answer-ok :
      (r c : Result FdoError Unit) (a : Unit)
      → sign_out_answer S D r c ≡ ok a
      → (r ≡ ok tt) × (c ≡ ok a)
  sign_out_answer-ok (ok u) c a h = (refl, h)
  sign_out_answer-ok (err e) c a h = absurd (cc)

  finish-ended :
      (own : Option ℕ) (s : ServiceState S D) (a : Unit)
      → (finish_sign_in_cancellation S D own s).0 ≡ ok a
      → ((h : ℕ) (task : SignIn)
          → own ≡ some h
          → get h s.tasks ≡ some task
          → (task.ending ≢ none) × (task.ending ≢ some panicked))
        × ((finish_sign_in_cancellation S D own s).1 ≡ record s {
          cancelling_sign_in = (finish_sign_in_cancellation S D own s).1.cancelling_sign_in;
          awaited = (finish_sign_in_cancellation S D own s).1.awaited;
        })
  unfolding finish_sign_in_cancellation
  finish-ended none s a h = (λ k task e. absurd (cc), refl)
  finish-ended (some k) s a h =
      let (ended, kept) = after_wait-ended k (ending_of S D (get k s.tasks)) s a h in
      (
        λ j task own there.
            let same : get k s.tasks ≡ some task =
              ap (λ i. get i s.tasks) (some-injective own) ∙ there in
            subst (λ o. (o ≢ none) × (o ≢ some panicked)) (ap (ending_of S D) same) ended,
        kept,
      )

  pub sign_out-SignedOut :
      (meanwhile : ServiceState S D → ServiceState S D) (s : ServiceState S D) (a : Unit)
      → (sign_out S D meanwhile s).0 ≡ ok a
      → SignedOut meanwhile s (sign_out S D meanwhile s).1
  unfolding sign_out
  sign_out-SignedOut meanwhile s a h =
      let t = (sign_out_begins S D s).1 in
      let (began, over) = sign_out_answer-ok (sign_out_begins S D s).0 _ a h in
      let (ended, kept) = finish-ended (cancel_sign_in S D s).0 (meanwhile t) a over in
      (t, sign_out_begins-SessionEnded s tt began, ended, kept)
