-- ===== src/Thread/Requests/Same.antt =====
-- That everything is done with the thread that was ensured (crates/sdk/src/api.rs).
use codex_sdk_rs.Prelude.{
  String, Option, none, some, List, [], ◌∷◌, ◌≡◌, refl, ap, subst, ◌∙◌, or_else,
}
use codex_sdk_rs.Protocol.{ClientError, Result, ok, err}
use codex_sdk_rs.SerdeJson.{SerdeJson}
use codex_sdk_rs.Thread.{normalize_input}
use codex_sdk_rs.Thread.Lifecycle.{
  Thread, Answers, StartedTurn, first_events, steer_turn, when_ready, turn_started, run_in,
  steer_in, ensure_thread_started_or_resumed, run_streamed, steer,
}
use codex_sdk_rs.Thread.Settled.{Settles, ensure-Settles, ensure-settled}
use codex_sdk_rs.Thread.Requests.{
  ThreadRequest, ThreadOperation, kept_result, Outcome, request_in, send_request, operate,
  operate_all,
}

module _ ⦃json : SerdeJson⦄ (answers : Answers json.Value json.Object)
    (call : String → ThreadRequest → Result json.Value (ClientError json.Value)) where
  open json use {Value}
  open answers use {ready, turn_start}

  -- A turn of a thread whose id is known, given the last turn.
  abbrev turn_on :
      Option String → Result String (ClientError Value) → Option String × Outcome answers call
  turn_on last (ok turn_id) = (
    some turn_id,
    Outcome.ran (ok (record { turn_id = turn_id; first_events = first_events answers none })),
  )
  turn_on last (err e) = (last, Outcome.ran (err e))

  -- What an operation does on a thread whose id is known: the thread is never started or resumed, and
  -- all that is kept is the last turn.
  abbrev pub operate_on :
      String → ThreadOperation → Option String → Option String × Outcome answers call
  operate_on id (ThreadOperation.run input) last =
      turn_on last (turn_start id (normalize_input input))
  operate_on id (ThreadOperation.steer_turn input expected) last =
      (last, Outcome.steered (steer_turn answers input id (or_else expected last)))
  operate_on id (ThreadOperation.request asked) last =
      (last, Outcome.answered (kept_result answers call asked (call id asked)))

  abbrev pub operate_all_on :
      String → List ThreadOperation → Option String → Option String × List (Outcome answers call)
  operate_all_on id [] last = (last, [])
  operate_all_on id (operation ∷ operations) last =
      let (next, outcome) = operate_on id operation last in
      let (end, outcomes) = operate_all_on id operations next in (end, outcome ∷ outcomes)

  record IsSettled (id : String) (t : Thread) : Type 0 where
    same : t.id ≡ some id
    nothing_pending : t.pending_resume ≡ none
    is_ready : ready ≡ ok tt

  abbrev with_turn : Thread → Option String → Thread
  with_turn t last = record t { last_turn_id = last }

  -- An operation's effect, as one on a thread whose id is known.
  abbrev as_thread : Thread → Option String × Outcome answers call → Thread × Outcome answers call
  as_thread t (last, outcome) = (with_turn t last, outcome)

  abbrev as_ran :
      Thread × Result (StartedTurn answers) (ClientError Value) → Thread × Outcome answers call
  as_ran (after, result) = (after, Outcome.ran result)

  turn_started-on :
      (t : Thread) (r : Result String (ClientError Value))
      → as_ran (turn_started answers t none r) ≡ as_thread t (turn_on t.last_turn_id r)
  turn_started-on t (ok turn_id) = refl
  turn_started-on t (err e) = refl

  operate-settled :
      (id : String) (t : Thread) (operation : ThreadOperation)
      → IsSettled id t
      → operate answers call operation t ≡ as_thread t (operate_on id operation t.last_turn_id)
  unfolding operate run_streamed steer send_request
  operate-settled id t (ThreadOperation.run input) h =
      ap (λ ensured. as_ran (run_in answers input ensured))
        (ensure-settled answers t id h.same h.nothing_pending h.is_ready)
      ∙ turn_started-on t (turn_start id (normalize_input input))
  operate-settled id t (ThreadOperation.steer_turn input expected) h =
      ap
        (λ ensured.
          let (after, result) = steer_in answers input expected ensured in
          (after, Outcome.steered result))
        (ensure-settled answers t id h.same h.nothing_pending h.is_ready)
  operate-settled id t (ThreadOperation.request asked) h =
      ap (request_in answers call asked)
        (ensure-settled answers t id h.same h.nothing_pending h.is_ready)

  -- A sequence of operations after one that led to a thread.
  abbrev go_on :
      List ThreadOperation → Thread × Outcome answers call → Thread × List (Outcome answers call)
  go_on operations (after, outcome) =
      let (last, outcomes) = operate_all answers call operations after in (last, outcome ∷ outcomes)

  abbrev all_as_thread :
      Thread → Option String × List (Outcome answers call) → Thread × List (Outcome answers call)
  all_as_thread t (last, outcomes) = (with_turn t last, outcomes)

  operate_all-settled :
      (id : String) (t : Thread) (operations : List ThreadOperation)
      → IsSettled id t
      → operate_all answers call operations t
        ≡ all_as_thread t (operate_all_on id operations t.last_turn_id)
  unfolding operate_all
  operate_all-settled id t [] h = refl
  operate_all-settled id t (operation ∷ operations) h =
      let (next, outcome) = operate_on id operation t.last_turn_id in
      ap (go_on operations) (operate-settled id t operation h)
      ∙ ap (λ done. (done.0, outcome ∷ done.1))
          (operate_all-settled id (with_turn t next) operations
            (record { same = h.same; nothing_pending = h.nothing_pending; is_ready = h.is_ready }))

  ready-ensured :
      (r : Result (Unit {0}) (ClientError Value)) (t after : Thread)
      (ensured : String × Option String)
      → when_ready answers r t ≡ (after, ok ensured)
      → r ≡ ok tt
  ready-ensured (ok done) t after ensured e = refl
  ready-ensured (err x) t after ensured e = cc (ap (λ p. p.1) e)

  -- Once a thread was started or resumed, everything that is done with it, in any order (turns,
  -- steering, renaming, reading, archiving, rollbacks, compactions, interrupts), is sent for the id
  -- that it got then, whether it succeeds or fails: no other thread is started or resumed, its id
  -- and all else stay, and only the last turn that was started is kept, for steering.
  pub operate_all-same :
      (t after : Thread) (id : String) (emit : Option String) (operations : List ThreadOperation)
      → ensure_thread_started_or_resumed answers t ≡ (after, ok (id, emit))
      → operate_all answers call operations after ≡ (
          let (last, outcomes) = operate_all_on id operations after.last_turn_id in
          (record after { last_turn_id = last }, outcomes))
  unfolding ensure_thread_started_or_resumed
  operate_all-same t after id emit operations e =
      let settled : Settles answers t (after, ok (id, emit)) =
        subst (Settles answers t) e (ensure-Settles answers t) in
      operate_all-settled id after operations (record {
        same = settled.0;
        nothing_pending = settled.1;
        is_ready = ready-ensured ready t after (id, emit) e;
      })
