-- ===== src/Turn/Response.antt =====
-- What `Thread::run` (crates/sdk/src/api.rs) returns, described by the stream as a whole.
use codex_sdk_rs.Prelude.{
  ◌≡◌, refl, sym, ◌∙◌, ap, String, Bool, true, false, Option, none, some, List, [], ◌∷◌, ◌++◌,
  unwrap_or, or_else, if◌then◌else◌, arith, All,
}
use mathlib.Core.List.{append_assoc, append-nil}
use codex_sdk_rs.Protocol.{Result, ok, err, ClientError}
use codex_sdk_rs.ThreadItem.{ThreadItem, ThreadEvent, is_final_answer}
use codex_sdk_rs.Turn.Pump.{Item}
use codex_sdk_rs.Turn.Run.{
  FinishedTurn, ThreadRunError, Progress, no_progress, complete_item, run_from, run,
}

-- The completed items of a stream, in order.
abbrev pub completed_items : {Value : Type 0} → List (Item Value) → List (ThreadItem Value)
completed_items [] = []
completed_items (ok (ThreadEvent.item_completed item) ∷ rest) = item ∷ completed_items rest
completed_items (_ ∷ rest) = completed_items rest

-- The last agent message that is (or is not) a final answer, starting from an earlier one.
abbrev pub last_message :
    {Value : Type 0} → Bool → Option String → List (ThreadItem Value) → Option String
last_message wanted found [] = found
last_message wanted found (ThreadItem.agent_message item ∷ items) =
    last_message wanted
      (if is_final_answer item
        then (if wanted then some item.text else found)
        else (if wanted then found else some item.text))
      items
last_message wanted found (_ ∷ items) = last_message wanted found items

-- The last final answer, else the last other agent message, else nothing.
abbrev pub response_of : {Value : Type 0} → List (ThreadItem Value) → String
response_of items =
    unwrap_or "" (or_else (last_message true none items) (last_message false none items))

-- An event that does not end the run.
abbrev pub GoesOn : {Value : Type 0} → Item Value → Type 0
GoesOn (err e) = ⊥
GoesOn (ok (ThreadEvent.turn_completed usage)) = ⊥
GoesOn (ok (ThreadEvent.turn_failed e)) = ⊥
GoesOn (ok (ThreadEvent.error message)) = ⊥
GoesOn _ = Unit

-- How an item that ends the run decides its result, from the items completed before it.
abbrev pub verdict :
    {Value : Type 0}
    → List (ThreadItem Value)
    → Item Value
    → Result (FinishedTurn Value) (ThreadRunError Value)
verdict items (err e) = err (ThreadRunError.client e)
verdict items (ok (ThreadEvent.turn_completed usage)) =
    ok (record { items = items; final_response = response_of items; usage = usage })
verdict items (ok (ThreadEvent.turn_failed e)) = err (ThreadRunError.turn_failed e.message)
verdict items (ok (ThreadEvent.error message)) = err (ThreadRunError.turn_failed message)
verdict items (ok _) = err (ThreadRunError.client ClientError.transport_closed)

module _ {Value : Type 0} where
  -- The progress after completing a list of items.
  abbrev pub advance : Progress Value → List (ThreadItem Value) → Progress Value
  advance p items = record {
    items = p.items ++ items;
    final_answer = last_message true p.final_answer items;
    fallback_response = last_message false p.fallback_response items;
  }

  pub advance-nil : (p : Progress Value) → advance p [] ≡ p
  advance-nil p = λ i. record p { items = append-nil p.items i }

  pub advance-cons :
      (p : Progress Value) (item : ThreadItem Value) (items : List (ThreadItem Value))
      → advance (complete_item item p) items ≡ advance p (item ∷ items)
  unfolding complete_item
  advance-cons p (ThreadItem.agent_message item) items =
      ground (arith, append_assoc p.items (ThreadItem.agent_message item ∷ []) items)
  advance-cons p item items =
      λ i. record (advance p (item ∷ items)) { items = append_assoc p.items (item ∷ []) items i }

  last_message-append :
      (wanted : Bool) (found : Option String) (xs ys : List (ThreadItem Value))
      → last_message wanted found (xs ++ ys) ≡ last_message wanted (last_message wanted found xs) ys
  last_message-append wanted found [] ys = refl
  last_message-append wanted found (ThreadItem.agent_message item ∷ xs) ys =
      last_message-append wanted _ xs ys
  last_message-append wanted found (_ ∷ xs) ys = last_message-append wanted found xs ys

  pub advance-append :
      (p : Progress Value) (xs ys : List (ThreadItem Value))
      → advance (advance p xs) ys ≡ advance p (xs ++ ys)
  advance-append p xs ys = λ i. record {
    items = append_assoc p.items xs ys i;
    final_answer = sym (last_message-append true p.final_answer xs ys) i;
    fallback_response = sym (last_message-append false p.fallback_response xs ys) i;
  }

  run_from-GoesOn :
      (p : Progress Value) (before rest : List (Item Value))
      → All GoesOn before
      → run_from p (before ++ rest) ≡ run_from (advance p (completed_items before)) rest
  unfolding run_from
  run_from-GoesOn p [] rest h = rw (advance-nil p) refl
  run_from-GoesOn p (ok (ThreadEvent.item_completed item) ∷ before) rest (h, hs) =
      run_from-GoesOn (complete_item item p) before rest hs
      ∙ ap (λ q. run_from q rest) (advance-cons p item (completed_items before))
  run_from-GoesOn p (ok (ThreadEvent.thread_started thread_id) ∷ before) rest (h, hs) =
      run_from-GoesOn p before rest hs
  run_from-GoesOn p (ok ThreadEvent.turn_started ∷ before) rest (h, hs) =
      run_from-GoesOn p before rest hs
  run_from-GoesOn p (ok (ThreadEvent.item_started item) ∷ before) rest (h, hs) =
      run_from-GoesOn p before rest hs
  run_from-GoesOn p (ok (ThreadEvent.item_updated item) ∷ before) rest (h, hs) =
      run_from-GoesOn p before rest hs
  run_from-GoesOn p (err e ∷ before) rest (h, hs) = absurd h
  run_from-GoesOn p (ok (ThreadEvent.turn_completed usage) ∷ before) rest (h, hs) = absurd h
  run_from-GoesOn p (ok (ThreadEvent.turn_failed e) ∷ before) rest (h, hs) = absurd h
  run_from-GoesOn p (ok (ThreadEvent.error message) ∷ before) rest (h, hs) = absurd h

  -- The first item of the stream that ends the run decides the result: a completed turn gives the
  -- items completed before it in order and, as the response, the last final answer among them, else
  -- the last other agent message, else the empty text; a failed turn, an error event and a client
  -- error are returned as errors. What follows that item is not read.
  pub run-verdict :
      (before rest : List (Item Value)) (item : Item Value)
      → All GoesOn before
      → ¬ GoesOn item
      → run (before ++ item ∷ rest) ≡ verdict (completed_items before) item
  unfolding run
  run-verdict before rest item h stops =
      run_from-GoesOn no_progress before (item ∷ rest) h ∙ decided item stops
    where
      decided :
          (x : Item Value)
          → ¬ GoesOn x
          → run_from (advance no_progress (completed_items before)) (x ∷ rest)
            ≡ verdict (completed_items before) x
      decided (err e) stops = refl
      decided (ok (ThreadEvent.turn_completed usage)) stops = refl
      decided (ok (ThreadEvent.turn_failed e)) stops = refl
      decided (ok (ThreadEvent.error message)) stops = refl
      decided (ok (ThreadEvent.thread_started thread_id)) stops = absurd (stops tt)
      decided (ok ThreadEvent.turn_started) stops = absurd (stops tt)
      decided (ok (ThreadEvent.item_started item)) stops = absurd (stops tt)
      decided (ok (ThreadEvent.item_updated item)) stops = absurd (stops tt)
      decided (ok (ThreadEvent.item_completed item)) stops = absurd (stops tt)
