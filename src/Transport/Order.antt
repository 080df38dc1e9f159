-- ===== src/Transport/Order.antt =====
-- In what order the loops of crates/sdk/src/transport/mod.rs hand on what they get.
use codex_sdk_rs.Prelude.{
  ℕ, zero, suc, ◌≡◌, refl, ap, subst, ◌∙◌, arith, ◌+◌, length, String, some, List, [], ◌∷◌, ◌++◌,
  take,
}
use codex_sdk_rs.Protocol.{ClientError, Result, ok, err}
use codex_sdk_rs.Transport.{
  RawFrame, parsed, read_json_frames, wrote, after_frame, write_frame, write_json_frames,
}

module _ {Value : Type 0} (from_slice : List ℕ → Result Value String) (context : String) where
  -- What a stream of frames holds for the client: its payloads up to its end, parsed, and the error
  -- that closes it.
  abbrev pub contents : List (RawFrame Value) → List (Result Value (ClientError Value))
  contents [] = []
  contents (RawFrame.payload bytes ∷ frames) = parsed context (from_slice bytes) ∷ contents frames
  contents (RawFrame.skip ∷ frames) = contents frames
  contents (RawFrame.closed e ∷ frames) = err e ∷ []
  contents (RawFrame.eof ∷ frames) = []

  -- The reader hands on exactly the contents of the stream, each once and in order, as many of them
  -- as the client takes: a payload that is not JSON is an error in its place, frames without a
  -- payload leave no trace, and after a closing error or the end nothing is handed on.
  pub read_json_frames-contents :
      (frames : List (RawFrame Value)) (room : ℕ)
      → (read_json_frames from_slice context frames room).sent ≡ take room (contents frames)
  unfolding read_json_frames
  read_json_frames-contents [] zero = refl
  read_json_frames-contents [] (suc room) = refl
  read_json_frames-contents (RawFrame.payload bytes ∷ frames) zero = refl
  read_json_frames-contents (RawFrame.payload bytes ∷ frames) (suc room) =
      ap (λ l. parsed context (from_slice bytes) ∷ l) (read_json_frames-contents frames room)
  read_json_frames-contents (RawFrame.skip ∷ frames) room = read_json_frames-contents frames room
  read_json_frames-contents (RawFrame.closed e ∷ frames) zero = refl
  read_json_frames-contents (RawFrame.closed e ∷ frames) (suc zero) = refl
  read_json_frames-contents (RawFrame.closed e ∷ frames) (suc (suc room)) = refl
  read_json_frames-contents (RawFrame.eof ∷ frames) zero = refl
  read_json_frames-contents (RawFrame.eof ∷ frames) (suc room) = refl

module _ {Value : Type 0} (to_string : Value → Result String String)
    (send_frame : ℕ → String → Result (Unit {0}) (ClientError Value)) where
  -- After `n` frames, the messages are written as these payloads.
  abbrev pub AreWritten : ℕ → List Value → List String → Type 0
  AreWritten n [] [] = Unit
  AreWritten n (message ∷ messages) (text ∷ texts) =
      (write_frame to_string send_frame n message ≡ ok text) × AreWritten (suc n) messages texts
  AreWritten n [] (text ∷ texts) = ⊥
  AreWritten n (message ∷ messages) [] = ⊥

  -- The writer sends its messages in order, and the first that is not serialised or not sent ends
  -- it: its error is reported, and nothing after it is sent.
  pub write_json_frames-failure :
      (n : ℕ) (before after : List Value) (message : Value) (texts : List String)
      (e : ClientError Value)
      → AreWritten n before texts
      → write_frame to_string send_frame (n + length before) message ≡ err e
      → write_json_frames to_string send_frame n (before ++ message ∷ after)
        ≡ record { payloads = texts; reported = some e }
  unfolding write_json_frames
  write_json_frames-failure n [] after message [] e h f =
      ap
        (λ r.
          after_frame to_string send_frame r (write_json_frames to_string send_frame (suc n) after))
        (subst (λ k. write_frame to_string send_frame k message ≡ err e) (omega arith) f)
  write_json_frames-failure n [] after message (text ∷ texts) e h f = absurd h
  write_json_frames-failure n (first ∷ before) after message [] e h f = absurd h
  write_json_frames-failure n (first ∷ before) after message (text ∷ texts) e h f =
      ap
        (λ r.
          after_frame to_string send_frame r
            (write_json_frames to_string send_frame (suc n) (before ++ message ∷ after)))
        h.0
      ∙ ap (wrote text) (
          write_json_frames-failure (suc n) before after message texts e h.1
            (subst (λ k. write_frame to_string send_frame k message ≡ err e) (omega arith) f))
