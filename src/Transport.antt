-- ===== src/Transport.antt =====
-- The reader and writer loops that all transports share: crates/sdk/src/transport/mod.rs.
--
-- The reader is given the frames that `next_frame` yields and how many results the inbound channel
-- takes before its receiver is dropped. The writer is given the messages of the outbound channel and
-- what `send_frame` answers to a payload, which may depend on how many it got before.
pub mod Order
use codex_sdk_rs.Prelude.{
  ℕ, zero, suc, String, Bool, true, false, Option, none, some, List, [], ◌∷◌,
}
use codex_sdk_rs.Prelude.Text.{concat}
use codex_sdk_rs.Protocol.{ClientError, Result, ok, err}

pub data RawFrame (Value : Type 0) : Type 0 where
  payload : List ℕ → RawFrame Value
  skip : RawFrame Value
  closed : ClientError Value → RawFrame Value
  eof : RawFrame Value

-- What a loop handed over, and whether it has stopped; it waits for more if not.
pub record Looped (A : Type 0) : Type 0 where
  pub sent : List A
  pub stopped : Bool

abbrev pub stopped_with : {A : Type 0} → List A → Looped A
stopped_with items = record { sent = items; stopped = true }

abbrev pub then_more : {A : Type 0} → A → Looped A → Looped A
then_more item l = record l { sent = item ∷ l.sent }

-- One payload, parsed by `serde_json::from_slice`.
abbrev pub parsed :
    {Value : Type 0} → String → Result Value String → Result Value (ClientError Value)
parsed context (ok value) = ok value
parsed context (err text) =
    err (ClientError.invalid_message (concat ("failed to parse " ∷ context ∷ ": " ∷ text ∷ [])))

module _ {Value : Type 0} (from_slice : List ℕ → Result Value String) (context : String) where
  -- With no room left the receiver is gone: the send fails, and the loop stops.
  unfoldable pub read_json_frames :
      List (RawFrame Value) → ℕ → Looped (Result Value (ClientError Value))
  read_json_frames [] room = record { sent = []; stopped = false }
  read_json_frames (RawFrame.payload bytes ∷ frames) zero = stopped_with []
  read_json_frames (RawFrame.payload bytes ∷ frames) (suc room) =
      then_more (parsed context (from_slice bytes)) (read_json_frames frames room)
  read_json_frames (RawFrame.skip ∷ frames) room = read_json_frames frames room
  read_json_frames (RawFrame.closed e ∷ frames) zero = stopped_with []
  read_json_frames (RawFrame.closed e ∷ frames) (suc room) = stopped_with (err e ∷ [])
  read_json_frames (RawFrame.eof ∷ frames) room = stopped_with []

-- The payloads that were handed to `send_frame` and accepted, and the error that ended the loop.
pub record Written (Value : Type 0) : Type 0 where
  pub payloads : List String
  pub reported : Option (ClientError Value)

abbrev pub wrote : {Value : Type 0} → String → Written Value → Written Value
wrote text w = record w { payloads = text ∷ w.payloads }

module _ {Value : Type 0} (to_string : Value → Result String String)
    (send_frame : ℕ → String → Result (Unit {0}) (ClientError Value)) where
  -- A message that is serialised and sent.
  abbrev pub write_frame : ℕ → Value → Result String (ClientError Value)
  write_frame n message = elim (to_string message) [
    | err text ↦ err (ClientError.serialization text)
    | ok text ↦ elim (send_frame n text) [ ok done ↦ ok text | err e ↦ err e ]
  ]

  abbrev pub after_frame : Result String (ClientError Value) → Written Value → Written Value
  after_frame (ok text) rest = wrote text rest
  after_frame (err e) rest = record { payloads = []; reported = some e }

  -- The loop after `n` frames.
  unfoldable pub write_json_frames : ℕ → List Value → Written Value
  write_json_frames n [] = record { payloads = []; reported = none }
  write_json_frames n (message ∷ messages) =
      after_frame (write_frame n message) (write_json_frames (suc n) messages)
