-- ===== src/Luna/Chat/Turns/Answers.antt =====
-- Which of the agent's messages luna's chat shows when only the final response is wanted
-- (crates/luna/src/commands/chat.rs).
use codex_sdk_rs.Prelude.{
  String, Bool, true, false, Option, none, some, List, [], ◌∷◌, ◌≡◌, refl, ap, ◌∙◌, is_empty,
  or_else, if◌then◌else◌, Bool-cases, inl, inr,
}
use codex_sdk_rs.ThreadItem.{AgentMessageItem, is_final_answer}

-- The text of the last message, and the texts of those that are final answers.
abbrev last_text : List AgentMessageItem → Option String
last_text [] = none
last_text (message ∷ messages) = or_else (last_text messages) (some message.text)

abbrev pub final_texts : List AgentMessageItem → List String
final_texts [] = []
final_texts (message ∷ messages) =
    if is_final_answer message then message.text ∷ final_texts messages else final_texts messages

abbrev shown_once : Option String → List String
shown_once none = []
shown_once (some text) = text ∷ []

-- The final answers, or the last message where there is none.
abbrev pub answers : List AgentMessageItem → List String
answers messages =
    if is_empty (final_texts messages)
    then shown_once (last_text messages)
    else final_texts messages

-- The same in the middle of a turn, given whether an answer was shown and the last message before.
abbrev pub answers_after : Bool → Option String → List AgentMessageItem → List String
answers_after emitted fallback [] = if emitted then [] else shown_once fallback
answers_after emitted fallback (message ∷ messages) =
    if is_final_answer message
    then message.text ∷ answers_after true fallback messages
    else answers_after emitted (some message.text) messages

after_answer :
    (fallback : Option String) (messages : List AgentMessageItem)
    → answers_after true fallback messages ≡ final_texts messages
after_answer fallback [] = refl
after_answer fallback (message ∷ messages) = elim (Bool-cases (is_final_answer message)) [
  | inl f ↦ rw (f) (ap (λ texts. message.text ∷ texts) (after_answer fallback messages))
  | inr f ↦ rw (f) (after_answer (some message.text) messages)
]

or_else-some :
    (found : Option String) (text : String) (fallback : Option String)
    → or_else (or_else found (some text)) fallback ≡ or_else found (some text)
or_else-some none text fallback = refl
or_else-some (some other) text fallback = refl

before_answer :
    (fallback : Option String) (messages : List AgentMessageItem)
    → answers_after false fallback messages ≡ (
        if is_empty (final_texts messages)
        then shown_once (or_else (last_text messages) fallback)
        else final_texts messages)
before_answer fallback [] = refl
before_answer fallback (message ∷ messages) = elim (Bool-cases (is_final_answer message)) [
  | inl f ↦ rw (f) (ap (λ texts. message.text ∷ texts) (after_answer fallback messages))
  | inr f ↦
      rw (f, or_else-some (last_text messages) message.text fallback)
        (before_answer (some message.text) messages)
]

or_else-none : (found : Option String) → or_else found none ≡ found
or_else-none none = refl
or_else-none (some text) = refl

pub answers_lem :
    (messages : List AgentMessageItem) → answers_after false none messages ≡ answers messages
answers_lem messages =
    before_answer none messages
    ∙ ap
        (λ (found : Option String).
          if is_empty (final_texts messages) then shown_once found else final_texts messages)
        (or_else-none (last_text messages))
