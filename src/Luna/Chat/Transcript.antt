-- ===== src/Luna/Chat/Transcript.antt =====
-- The transcript of luna's chat: `push_fragment` and what it stands on, in
-- crates/luna/src/commands/chat.rs.
use codex_sdk_rs.Prelude.{
  ℕ, String, Bool, true, false, Option, none, some, List, [], ◌∷◌, ◌++◌, ◌&&◌, eqb, str_eq,
  if◌then◌else◌,
}
use Prim.Native.String
use codex_sdk_rs.Render.{RenderedItem, RenderedItemKind}
use codex_sdk_rs.Luna.Chat.{ChatApp, TranscriptBlock, TranscriptKind}

abbrev pub push : TranscriptBlock → ChatApp → ChatApp
push b app = record app { transcript = app.transcript ++ b ∷ [] }

-- `From<RenderedItemKind>`.
abbrev pub transcript_kind : RenderedItemKind → TranscriptKind
transcript_kind RenderedItemKind.user_message = TranscriptKind.user
transcript_kind RenderedItemKind.agent_message = TranscriptKind.agent
transcript_kind RenderedItemKind.reasoning = TranscriptKind.reasoning
transcript_kind RenderedItemKind.plan = TranscriptKind.reasoning
transcript_kind RenderedItemKind.tool_call = TranscriptKind.tool
transcript_kind RenderedItemKind.command_execution = TranscriptKind.tool
transcript_kind RenderedItemKind.file_change = TranscriptKind.tool
transcript_kind RenderedItemKind.error = TranscriptKind.error
transcript_kind RenderedItemKind.status = TranscriptKind.status
transcript_kind RenderedItemKind.unknown = TranscriptKind.status

-- A constructor's position; the derived equality compares these.
abbrev pub kind_rank : TranscriptKind → ℕ
kind_rank TranscriptKind.user = 0
kind_rank TranscriptKind.agent = 1
kind_rank TranscriptKind.reasoning = 2
kind_rank TranscriptKind.tool = 3
kind_rank TranscriptKind.status = 4
kind_rank TranscriptKind.error = 5
kind_rank TranscriptKind.raw = 6

-- Both have an id, and it is the same.
abbrev pub same_item : Option String → Option String → Bool
same_item (some a) (some b) = str_eq a b
same_item _ _ = false

abbrev pub continues : TranscriptKind → Option String → TranscriptBlock → Bool
continues kind item_id b = eqb (kind_rank b.kind) (kind_rank kind) && same_item b.item_id item_id

-- The transcript with a text added to the last block that it continues, found by `rposition`.
unfoldable pub add_to_last :
    TranscriptKind → Option String → String → List TranscriptBlock → Option (List TranscriptBlock)
add_to_last kind item_id text [] = none
add_to_last kind item_id text (b ∷ blocks) = elim (add_to_last kind item_id text blocks) [
  | some added ↦ some (b ∷ added)
  | none ↦
      if continues kind item_id b
      then some (record b { text = String.◌++◌ b.text text } ∷ blocks)
      else none
]

abbrev pub pushed : RenderedItem → List TranscriptBlock → List TranscriptBlock
pushed fragment transcript =
    transcript
    ++ record {
      kind = transcript_kind fragment.kind;
      item_id = fragment.item_id;
      text = fragment.markdown;
    }
      ∷ []

unfoldable pub push_fragment : RenderedItem → ChatApp → ChatApp
push_fragment fragment app =
    let added =
      if fragment.continuation
      then add_to_last (transcript_kind fragment.kind) fragment.item_id fragment.markdown
          app.transcript
      else none in
    record app {
      transcript = elim added [ some t ↦ t | none ↦ pushed fragment app.transcript ];
      follow_tail = true;
    }
