-- ===== src/Thread/Settled.antt =====
-- What `ensure_thread_started_or_resumed` (crates/sdk/src/api.rs) leaves of a thread.
use codex_sdk_rs.Prelude.{◌≡◌, refl, ap, ◌∙◌, String, Option, none, some}
use codex_sdk_rs.Protocol.{ClientError, Result, ok, err}
use codex_sdk_rs.SerdeJson.{SerdeJson}
use codex_sdk_rs.Thread.Lifecycle.{
  Thread, ResumeThread, Answers, Ensured, resumed, started, proceed, when_ready,
  ensure_thread_started_or_resumed,
}

module _ ⦃json : SerdeJson⦄ (answers : Answers json.Value json.Object) where
  open json use {Value}
  open answers use {ready, thread_start}

  -- What ensuring leaves: a thread with the id that is returned and nothing to resume, or the thread
  -- as it was.
  abbrev pub Settles : Thread → Thread × Ensured answers → Type 0
  Settles t (after, ok (id, emit)) = (after.id ≡ some id) × (after.pending_resume ≡ none)
  Settles t (after, err e) = after ≡ t

  resumed-Settles :
      (t : Thread) (r : Result String (ClientError Value)) → Settles t (resumed answers t r)
  resumed-Settles t (ok id) = (refl, refl)
  resumed-Settles t (err e) = refl

  proceed-Settles :
      (p : Option ResumeThread) (i : Option String) (t : Thread)
      → t.pending_resume ≡ p
      → t.id ≡ i
      → Settles t (proceed answers p i t)
  proceed-Settles (some (ResumeThread.by_id thread_id)) i t e f = resumed-Settles t _
  proceed-Settles (some ResumeThread.latest) i t e f = resumed-Settles t _
  proceed-Settles none none t e f = started-Settles t thread_start e
    where
      started-Settles :
          (u : Thread) (r : Result String (ClientError Value))
          → u.pending_resume ≡ none
          → Settles u (started answers u r)
      started-Settles u (ok id) e = (refl, e)
      started-Settles u (err x) e = refl
  proceed-Settles none (some id) t e f = (f, e)

  when_ready-Settles :
      (r : Result (Unit {0}) (ClientError Value)) (t : Thread) → Settles t (when_ready answers r t)
  when_ready-Settles (ok done) t = proceed-Settles t.pending_resume t.id t refl refl
  when_ready-Settles (err e) t = refl

  -- Ensuring a thread either returns its id, with nothing left to resume, or an error, with the
  -- thread as it was.
  pub ensure-Settles : (t : Thread) → Settles t (ensure_thread_started_or_resumed answers t)
  unfolding ensure_thread_started_or_resumed
  ensure-Settles t = when_ready-Settles ready t

  pub ensure-settled :
      (t : Thread) (id : String)
      → t.id ≡ some id
      → t.pending_resume ≡ none
      → ready ≡ ok tt
      → ensure_thread_started_or_resumed answers t ≡ (t, ok (id, none))
  unfolding ensure_thread_started_or_resumed
  ensure-settled t id e f r =
      ap (λ x. when_ready answers x t) r
      ∙ ap (λ p. proceed answers p t.id t) f
      ∙ ap (λ i. proceed answers none i t) e
