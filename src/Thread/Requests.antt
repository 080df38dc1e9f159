-- ===== src/Thread/Requests.antt =====
-- The requests of a `Thread` in crates/sdk/src/api.rs that only ensure the thread and pass on, and
-- everything that is done with a thread as one sequence of operations. The answer of the server to a
-- request for a thread is a parameter.
pub mod Same
use codex_sdk_rs.Prelude.{ℕ, String, Bool, Option, none, some, List, [], ◌∷◌, map_some}
use codex_sdk_rs.Protocol.{ClientError, Result, ok, err}
use codex_sdk_rs.SerdeJson.{SerdeJson}
use codex_sdk_rs.Thread.{Input}
use codex_sdk_rs.Thread.Lifecycle.{
  Thread, ResumeThread, Answers, Ensured, StartedTurn, ensure_thread_started_or_resumed,
  run_streamed, steer,
}

-- `Codex::start_thread` and `Codex::resume_thread`, with the working directory of the options.
unfoldable pub start_thread : Option String → Thread
start_thread working_directory = record {
  id = none;
  pending_resume = none;
  last_turn_id = none;
  working_directory = working_directory;
}

abbrev target_id : ResumeThread → Option String
target_id ResumeThread.latest = none
target_id (ResumeThread.by_id thread_id) = some thread_id

unfoldable pub resume_thread : ResumeThread → Option String → Thread
resume_thread target working_directory = record {
  id = target_id target;
  pending_resume = some target;
  last_turn_id = none;
  working_directory = working_directory;
}

pub data ThreadRequest : Type 0 where
  set_name : String → ThreadRequest
  read : (include_turns : Option Bool) → ThreadRequest
  archive unarchive compact_start : ThreadRequest
  rollback : (count : ℕ) → ThreadRequest
  interrupt : (turn_id : String) → ThreadRequest

pub data ThreadOperation : Type 0 where
  run : Input → ThreadOperation
  steer_turn : Input → (expected_turn_id : Option String) → ThreadOperation
  request : ThreadRequest → ThreadOperation

module _ ⦃json : SerdeJson⦄ (answers : Answers json.Value json.Object)
    (call : String → ThreadRequest → Result json.Value (ClientError json.Value)) where
  open json use {Value}

  -- `interrupt` drops the result.
  abbrev pub kept_result :
      ThreadRequest → Result Value (ClientError Value) → Result (Option Value) (ClientError Value)
  kept_result (ThreadRequest.interrupt turn_id) (ok result) = ok none
  kept_result other (ok result) = ok (some result)
  kept_result other (err e) = err e

  pub data Outcome : Type 0 where
    ran : Result (StartedTurn answers) (ClientError Value) → Outcome
    steered : Result String (ClientError Value) → Outcome
    answered : Result (Option Value) (ClientError Value) → Outcome

  abbrev pub request_in : ThreadRequest → Thread × Ensured answers → Thread × Outcome
  request_in asked (t, ok (thread_id, emit)) =
      (t, Outcome.answered (kept_result asked (call thread_id asked)))
  request_in asked (t, err e) = (t, Outcome.answered (err e))

  -- `set_name`, `read`, `archive`, `unarchive`, `rollback`, `compact_start` and `interrupt`.
  unfoldable pub send_request : ThreadRequest → Thread → Thread × Outcome
  send_request asked t = request_in asked (ensure_thread_started_or_resumed answers t)

  unfoldable pub operate : ThreadOperation → Thread → Thread × Outcome
  operate (ThreadOperation.run input) t =
      let (after, result) = run_streamed answers input t in (after, Outcome.ran result)
  operate (ThreadOperation.steer_turn input expected) t =
      let (after, result) = steer answers input expected t in (after, Outcome.steered result)
  operate (ThreadOperation.request asked) t = send_request asked t

  unfoldable pub operate_all : List ThreadOperation → Thread → Thread × List Outcome
  operate_all [] t = (t, [])
  operate_all (operation ∷ operations) t =
      let (after, outcome) = operate operation t in
      let (last, outcomes) = operate_all operations after in (last, outcome ∷ outcomes)
