-- ===== src/Luna/Composer.antt =====
-- The composer of luna's chat: `InputBuffer` of crates/luna/src/commands/chat.rs.
--
-- The cursor is a byte offset. An operation that slices the text inside a character panics, which is
-- `none` here.
pub mod Zipper
use codex_sdk_rs.Prelude.{
  ℕ, ◌+◌, String, Bool, Option, none, some, List, [], ◌∷◌, ltb, eqb, if◌then◌else◌, ◌and_then◌,
}
use Prim.Native.Char.{Char}
use Prim.Native.String
use codex_sdk_rs.Prelude.Bytes.{len_utf8, byte_len, split_at, unsnoc}

pub record InputBuffer : Type 0 where
  pub text : String
  pub cursor : ℕ

-- `InputBuffer::default`.
abbrev pub empty_buffer : InputBuffer
empty_buffer = record { text = ""; cursor = 0 }

unfoldable pub set : String → InputBuffer → InputBuffer
set text buffer = record { text = text; cursor = byte_len text }

unfoldable pub clear : InputBuffer → InputBuffer
clear buffer = empty_buffer

-- What is taken, and the buffer that is left.
unfoldable pub take_input : InputBuffer → String × InputBuffer
take_input buffer = (buffer.text, empty_buffer)

-- The text before and after the cursor.
abbrev pub at_cursor : InputBuffer → Option (String × String)
at_cursor buffer = split_at buffer.text buffer.cursor

unfoldable pub insert_str : String → InputBuffer → Option InputBuffer
insert_str inserted buffer = at_cursor buffer and_then λ (before, after). some (record {
  text = String.◌++◌ before (String.◌++◌ inserted after);
  cursor = buffer.cursor + byte_len inserted;
})

unfoldable pub insert_char : Char → InputBuffer → Option InputBuffer
insert_char character buffer = at_cursor buffer and_then λ (before, after). some (record {
  text = String.◌++◌ before (String.◌∷◌ character after);
  cursor = buffer.cursor + len_utf8 character;
})

-- The text without its last character: up to `char_indices().next_back().map_or(0, …)`.
abbrev pub start_of : Option (String × Char) → String
start_of none = ""
start_of (some (start, last)) = start

unfoldable pub backspace : InputBuffer → Option InputBuffer
backspace buffer =
    let edited = at_cursor buffer and_then λ (before, after). some (record {
      text = String.◌++◌ (start_of (unsnoc before)) after;
      cursor = byte_len (start_of (unsnoc before));
    }) in
    if eqb buffer.cursor 0 then some buffer else edited

abbrev pub rest_of : String → String
rest_of String.[] = ""
rest_of (String.◌∷◌ character rest) = rest

unfoldable pub delete : InputBuffer → Option InputBuffer
delete buffer =
    let edited = at_cursor buffer and_then λ (before, after).
    some (record { text = String.◌++◌ before (rest_of after); cursor = buffer.cursor }) in
    if eqb buffer.cursor (byte_len buffer.text) then some buffer else edited

unfoldable pub move_left : InputBuffer → Option InputBuffer
move_left buffer =
    let moved = at_cursor buffer and_then λ (before, after).
    some (record { text = buffer.text; cursor = byte_len (start_of (unsnoc before)) }) in
    if ltb 0 buffer.cursor then moved else some buffer

-- `chars().next().map_or(0, char::len_utf8)`.
abbrev pub first_len : String → ℕ
first_len String.[] = 0
first_len (String.◌∷◌ character rest) = len_utf8 character

unfoldable pub move_right : InputBuffer → Option InputBuffer
move_right buffer =
    let moved = at_cursor buffer and_then λ (before, after).
    some (record { text = buffer.text; cursor = buffer.cursor + first_len after }) in
    if ltb buffer.cursor (byte_len buffer.text) then moved else some buffer

-- The keys Home and End.
unfoldable pub move_home : InputBuffer → InputBuffer
move_home buffer = record { text = buffer.text; cursor = 0 }

unfoldable pub move_end : InputBuffer → InputBuffer
move_end buffer = record { text = buffer.text; cursor = byte_len buffer.text }

-- The operations, as one.
pub data Edit : Type 0 where
  set_text insert_text : String → Edit
  insert_character : Char → Edit
  cleared backspaced deleted left right home ended : Edit

abbrev pub edit : Edit → InputBuffer → Option InputBuffer
edit (Edit.set_text text) buffer = some (set text buffer)
edit (Edit.insert_text text) buffer = insert_str text buffer
edit (Edit.insert_character c) buffer = insert_char c buffer
edit Edit.cleared buffer = some (clear buffer)
edit Edit.backspaced buffer = backspace buffer
edit Edit.deleted buffer = delete buffer
edit Edit.left buffer = move_left buffer
edit Edit.right buffer = move_right buffer
edit Edit.home buffer = some (move_home buffer)
edit Edit.ended buffer = some (move_end buffer)

unfoldable pub edit_all : List Edit → InputBuffer → Option InputBuffer
edit_all [] buffer = some buffer
edit_all (e ∷ edits) buffer = edit e buffer and_then λ edited. edit_all edits edited
