-- ===== src/Tests/Threads.antt =====
-- Examples on threads and on the loops of a transport.
use codex_sdk_rs.Prelude.{
  ℕ, ◌≡◌, refl, String, none, some, List, [], ◌∷◌, ◌++◌, take, is_empty, if◌then◌else◌, eqb,
}
use codex_sdk_rs.Prelude.Int.{pos}
use codex_sdk_rs.Prelude.Text.{join}
use codex_sdk_rs.Protocol.{Result, ok, err, ClientError}
use codex_sdk_rs.Events.Payloads.{ThreadSummary}
use codex_sdk_rs.Thread.{UserInput, Input, TurnInputItem, normalize_input, select_latest_thread_id}
use codex_sdk_rs.Thread.Normalize.{texts, images, normalize_input-items}
use codex_sdk_rs.Thread.Latest.{Verdict, select_latest_thread_id-Verdict}
use codex_sdk_rs.Thread.Lifecycle.{
  chosen, resolve_latest_thread_id, Thread, Answers, ensure_thread_started_or_resumed,
}
use codex_sdk_rs.Thread.Settled.{Settles, ensure-Settles}
use codex_sdk_rs.Thread.Requests.{ThreadRequest, ThreadOperation, operate_all}
use codex_sdk_rs.Thread.Requests.Same.{operate_all_on, operate_all-same}
use codex_sdk_rs.Thread.Pages.{last_page, more_pages, resolve_latest_thread_id-Lists}
use codex_sdk_rs.Transport.{RawFrame, read_json_frames, write_json_frames}
use codex_sdk_rs.Transport.Order.{contents, read_json_frames-contents, write_json_frames-failure}
use codex_sdk_rs.Tests.Json.{Json, Fields, json}

abbrev given : List UserInput
given = UserInput.local_image "a.png" ∷ UserInput.text "look" ∷ UserInput.text "again" ∷ []

normalize_input-items_example : normalize_input (Input.items given) ≡ (
    if is_empty (texts given)
    then images given
    else TurnInputItem.text (join "\n\n" (texts given)) ∷ images given)
normalize_input-items_example = normalize_input-items given

abbrev listed : String → ℕ → ThreadSummary Json Fields
listed id time = record {
  id = id;
  model = none;
  title = none;
  source_kind = none;
  archived = none;
  extra =
      Fields.entry "updatedAt" (Json.number (pos time))
        (Fields.entry "cwd" (Json.text "/work") Fields.none_left);
}

select_latest_thread_id-Verdict_example :
    Verdict
      (some "/work")
      (listed "a" 3 ∷ listed "b" 5 ∷ [])
      (select_latest_thread_id (listed "a" 3 ∷ listed "b" 5 ∷ []) (some "/work"))
select_latest_thread_id-Verdict_example =
    select_latest_thread_id-Verdict (some "/work") (listed "a" 3 ∷ listed "b" 5 ∷ [])

abbrev answers : Answers Json Fields
answers = record {
  ready = ok tt;
  thread_list = λ page cursor. ok (listed "a" 3 ∷ [], none);
  thread_resume = λ thread_id. ok thread_id;
  thread_start = ok "t1";
  turn_start = λ thread_id input. ok "u1";
  turn_steer = λ thread_id input turn_id. ok turn_id;
}

abbrev new_thread : Thread
new_thread = record {
  id = none;
  pending_resume = none;
  last_turn_id = none;
  working_directory = none;
}

abbrev started_thread : Thread
started_thread = record new_thread { id = some "t1" }

ensure-Settles_example :
    Settles answers new_thread (ensure_thread_started_or_resumed answers new_thread)
ensure-Settles_example = ensure-Settles answers new_thread

abbrev call : String → ThreadRequest → Result Json (ClientError Json)
call thread_id asked = ok (Json.text thread_id)

abbrev operations : List ThreadOperation
operations =
    ThreadOperation.run (Input.items given)
    ∷ ThreadOperation.request (ThreadRequest.rollback 2)
    ∷ ThreadOperation.steer_turn (Input.items given) none
    ∷ ThreadOperation.request (ThreadRequest.interrupt "u1")
    ∷ []

operate_all-same_example : operate_all answers call operations started_thread ≡ (
  record started_thread { last_turn_id = (operate_all_on answers call "t1" operations none).0 },
  (operate_all_on answers call "t1" operations none).1,
)
unfolding ensure_thread_started_or_resumed
operate_all-same_example =
    operate_all-same answers call new_thread started_thread "t1" (some "t1") operations refl

abbrev from_slice : List ℕ → Result Json String
from_slice [] = err "EOF"
from_slice (b ∷ bytes) = ok (Json.number (pos b))

abbrev frames : List (RawFrame Json)
frames =
    RawFrame.payload (7 ∷ [])
    ∷ RawFrame.skip
    ∷ RawFrame.payload []
    ∷ RawFrame.closed ClientError.transport_closed
    ∷ []

read_json_frames-contents_example :
    (read_json_frames from_slice "frame" frames 8).sent
    ≡ take 8 (contents from_slice "frame" frames)
read_json_frames-contents_example = read_json_frames-contents from_slice "frame" frames 8

-- A socket that takes one frame.
abbrev send_frame : ℕ → String → Result (Unit {0}) (ClientError Json)
send_frame n text = if eqb n 0 then ok tt else err (ClientError.transport_send "sink failed")

write_json_frames-failure_example :
    write_json_frames
      (λ (s : Json). ok "{}")
      send_frame
      0
      ((Json.null ∷ []) ++ Json.null ∷ Json.null ∷ [])
    ≡ record { payloads = "{}" ∷ []; reported = some (ClientError.transport_send "sink failed") }
write_json_frames-failure_example =
    write_json_frames-failure (λ (s : Json). ok "{}") send_frame 0 (Json.null ∷ []) (Json.null ∷ [])
      Json.null ("{}" ∷ []) (ClientError.transport_send "sink failed") (refl, tt) refl

-- Two pages.
abbrev paged : Answers Json Fields
paged = record answers {
  thread_list = λ page cursor.
      if eqb page 0 then ok (listed "a" 3 ∷ [], some "c1") else ok (listed "b" 5 ∷ [], none);
}

resolve_latest_thread_id-Lists_example :
    resolve_latest_thread_id paged new_thread
    ≡ chosen paged none (select_latest_thread_id (listed "a" 3 ∷ listed "b" 5 ∷ []) none)
resolve_latest_thread_id-Lists_example =
    resolve_latest_thread_id-Lists paged new_thread (listed "a" 3 ∷ listed "b" 5 ∷ []) 2
      (more_pages {found = listed "a" 3 ∷ []} {rest = listed "b" 5 ∷ []} refl (last_page refl))
