-- ===== src/Turn/Run.antt =====
-- `Thread::run` in crates/sdk/src/api.rs from the stream on: the loop over the stream's items. A
-- finite list stands for a stream that has ended.
use codex_sdk_rs.Prelude.{
  String, Option, none, some, List, [], ◌∷◌, ◌++◌, unwrap_or, or_else, if◌then◌else◌,
}
use codex_sdk_rs.Protocol.{Result, ok, err, ClientError}
use codex_sdk_rs.ThreadItem.{ThreadItem, ThreadEvent, Usage, is_final_answer}
use codex_sdk_rs.Turn.Pump.{Item}

pub record FinishedTurn (Value : Type 0) : Type 0 where
  pub items : List (ThreadItem Value)
  pub final_response : String
  pub usage : Option Usage

pub data ThreadRunError (Value : Type 0) : Type 0 where
  client : ClientError Value → ThreadRunError Value
  turn_failed : (message : String) → ThreadRunError Value

-- The variables of the loop.
pub record Progress (Value : Type 0) : Type 0 where
  pub items : List (ThreadItem Value)
  pub final_answer : Option String
  pub fallback_response : Option String

abbrev pub no_progress : {Value : Type 0} → Progress Value
no_progress = record { items = []; final_answer = none; fallback_response = none }

-- `update_final_response_candidates`.
unfoldable pub update_final_response_candidates :
    {Value : Type 0} → ThreadItem Value → Progress Value → Progress Value
update_final_response_candidates (ThreadItem.agent_message item) p =
    if is_final_answer item
    then record p { final_answer = some item.text }
    else record p { fallback_response = some item.text }
update_final_response_candidates _ p = p

unfoldable pub complete_item : {Value : Type 0} → ThreadItem Value → Progress Value → Progress Value
unfolding update_final_response_candidates
complete_item item p =
    let q = update_final_response_candidates item p in record q { items = q.items ++ item ∷ [] }

abbrev pub finish : {Value : Type 0} → Progress Value → Option Usage → FinishedTurn Value
finish p usage = record {
  items = p.items;
  final_response = unwrap_or "" (or_else p.final_answer p.fallback_response);
  usage = usage;
}

unfoldable pub run_from :
    {Value : Type 0}
    → Progress Value
    → List (Item Value)
    → Result (FinishedTurn Value) (ThreadRunError Value)
run_from p [] = err (ThreadRunError.client ClientError.transport_closed)
run_from p (err e ∷ rest) = err (ThreadRunError.client e)
run_from p (ok (ThreadEvent.item_completed item) ∷ rest) = run_from (complete_item item p) rest
run_from p (ok (ThreadEvent.turn_completed usage) ∷ rest) = ok (finish p usage)
run_from p (ok (ThreadEvent.turn_failed e) ∷ rest) = err (ThreadRunError.turn_failed e.message)
run_from p (ok (ThreadEvent.error message) ∷ rest) = err (ThreadRunError.turn_failed message)
run_from p (ok _ ∷ rest) = run_from p rest

unfoldable pub run :
    {Value : Type 0} → List (Item Value) → Result (FinishedTurn Value) (ThreadRunError Value)
unfolding run_from
run items = run_from no_progress items

-- `Thread::ask`.
unfoldable pub ask : {Value : Type 0} → List (Item Value) → Result String (ThreadRunError Value)
ask items = elim (run items) [ ok turn ↦ ok turn.final_response | err e ↦ err e ]
