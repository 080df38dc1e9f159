-- ===== src/Thread/Lifecycle.antt =====
-- The life of a `Thread` in crates/sdk/src/api.rs: starting or resuming it, its turns, and steering.
-- What the server answers is a parameter; a list of threads may depend on the number of pages that
-- were read.
use codex_sdk_rs.Prelude.{ℕ, zero, suc, String, Option, none, some, List, [], ◌∷◌, ◌++◌, or_else}
use codex_sdk_rs.Prelude.Text.{concat}
use codex_sdk_rs.Protocol.{ClientError, Result, ok, err, ◌>>=◌}
use codex_sdk_rs.SerdeJson.{SerdeJson}
use codex_sdk_rs.Events.Payloads.{ThreadSummary}
use codex_sdk_rs.ThreadItem.{ThreadEvent}
use codex_sdk_rs.Thread.{Input, TurnInputItem, normalize_input, select_latest_thread_id}

pub data ResumeThread : Type 0 where
  latest : ResumeThread
  by_id : String → ResumeThread

pub record Thread : Type 0 where
  pub id : Option String
  pub pending_resume : Option ResumeThread
  pub last_turn_id : Option String
  pub working_directory : Option String

-- `MAX_THREAD_LIST_PAGES`.
abbrev pub max_thread_list_pages : ℕ
max_thread_list_pages = 100

-- The answers of the server to the requests of a thread.
pub record Answers (Value Object : Type 0) : Type 0 where
  pub ready : Result (Unit {0}) (ClientError Value)
  pub thread_list :
      (page : ℕ) (cursor : Option String)
      → Result (List (ThreadSummary Value Object) × Option String) (ClientError Value)
  pub thread_resume : (thread_id : String) → Result String (ClientError Value)
  pub thread_start : Result String (ClientError Value)
  pub turn_start :
      (thread_id : String) (input : List TurnInputItem) → Result String (ClientError Value)
  pub turn_steer :
      (thread_id : String) (input : List TurnInputItem) (turn_id : String)
      → Result String (ClientError Value)

module _ ⦃json : SerdeJson⦄ (answers : Answers json.Value json.Object) where
  open json use {Value, Object}
  open answers use {ready, thread_list, thread_resume, thread_start, turn_start, turn_steer}

  -- `Ok((thread_id, emit_thread_started))`.
  abbrev pub Ensured : Type 0
  Ensured = Result (String × Option String) (ClientError Value)

  abbrev pub chosen : Option String → Option String → Result String (ClientError Value)
  chosen working_directory (some id) = ok id
  chosen (some working_directory) none = err (
      ClientError.transport_send (
        concat ("no recorded thread found for working directory `" ∷ working_directory ∷ "`" ∷ [])))
  chosen none none = err (ClientError.transport_send "no recorded thread found")

  -- The loop of `resolve_latest_thread_id`, with the pages that may still be read.
  unfoldable pub resolve_from :
      Option String
      → ℕ
      → ℕ
      → Option String
      → List (ThreadSummary Value Object)
      → Result String (ClientError Value)
  resolve_from working_directory zero page cursor threads =
      err (ClientError.transport_send "could not resolve latest thread after scanning 100 pages")
  resolve_from working_directory (suc left) page cursor threads = elim (thread_list page cursor) [
    | err e ↦ err e
    | ok (found, none) ↦
        chosen working_directory (select_latest_thread_id (threads ++ found) working_directory)
    | ok (found, some next) ↦
        resolve_from working_directory left (suc page) (some next) (threads ++ found)
  ]

  unfoldable pub resolve_latest_thread_id : Thread → Result String (ClientError Value)
  resolve_latest_thread_id t = resolve_from t.working_directory max_thread_list_pages 0 none []

  abbrev pub resumed : Thread → Result String (ClientError Value) → Thread × Ensured
  resumed t (ok id) =
      (record t { id = some id; pending_resume = none; last_turn_id = none }, ok (id, none))
  resumed t (err e) = (t, err e)

  abbrev pub started : Thread → Result String (ClientError Value) → Thread × Ensured
  started t (ok id) = (record t { id = some id; last_turn_id = none }, ok (id, some id))
  started t (err e) = (t, err e)

  abbrev pub proceed : Option ResumeThread → Option String → Thread → Thread × Ensured
  proceed (some (ResumeThread.by_id thread_id)) id t = resumed t (thread_resume thread_id)
  proceed (some ResumeThread.latest) id t = resumed t (resolve_latest_thread_id t >>= thread_resume)
  proceed none none t = started t thread_start
  proceed none (some id) t = (t, ok (id, none))

  abbrev pub when_ready : Result (Unit {0}) (ClientError Value) → Thread → Thread × Ensured
  when_ready (ok done) t = proceed t.pending_resume t.id t
  when_ready (err e) t = (t, err e)

  unfoldable pub ensure_thread_started_or_resumed : Thread → Thread × Ensured
  ensure_thread_started_or_resumed t = when_ready ready t

  -- A turn that was started: its id, and the events that its stream begins with.
  pub record StartedTurn : Type 0 where
    pub turn_id : String
    pub first_events : List (ThreadEvent Value)

  abbrev pub first_events : Option String → List (ThreadEvent Value)
  first_events none = ThreadEvent.turn_started ∷ []
  first_events (some thread_id) =
      ThreadEvent.thread_started thread_id ∷ ThreadEvent.turn_started ∷ []

  abbrev pub turn_started :
      Thread
      → Option String
      → Result String (ClientError Value)
      → Thread × Result StartedTurn (ClientError Value)
  turn_started t emit (ok turn_id) = (
    record t { last_turn_id = some turn_id },
    ok (record { turn_id = turn_id; first_events = first_events emit }),
  )
  turn_started t emit (err e) = (t, err e)

  abbrev pub run_in : Input → Thread × Ensured → Thread × Result StartedTurn (ClientError Value)
  run_in input (t, ok (thread_id, emit)) =
      turn_started t emit (turn_start thread_id (normalize_input input))
  run_in input (t, err e) = (t, err e)

  -- `run_streamed` up to the pump.
  unfoldable pub run_streamed : Input → Thread → Thread × Result StartedTurn (ClientError Value)
  run_streamed input t = run_in input (ensure_thread_started_or_resumed t)

  abbrev pub steer_turn : Input → String → Option String → Result String (ClientError Value)
  steer_turn input thread_id (some turn_id) = turn_steer thread_id (normalize_input input) turn_id
  steer_turn input thread_id none = err (
      ClientError.transport_send
        "turn/steer requires expected_turn_id or a previously started turn")

  abbrev pub steer_in :
      Input → Option String → Thread × Ensured → Thread × Result String (ClientError Value)
  steer_in input expected (t, ok (thread_id, emit)) =
      (t, steer_turn input thread_id (or_else expected t.last_turn_id))
  steer_in input expected (t, err e) = (t, err e)

  unfoldable pub steer : Input → Option String → Thread → Thread × Result String (ClientError Value)
  steer input expected t = steer_in input expected (ensure_thread_started_or_resumed t)
