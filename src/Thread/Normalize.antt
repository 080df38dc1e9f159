-- ===== src/Thread/Normalize.antt =====
-- What `normalize_input` (crates/sdk/src/api.rs) makes of the items of a user's input.
use codex_sdk_rs.Prelude.{◌≡◌, sym, ap, ◌∙◌, String, List, [], ◌∷◌, ◌++◌, is_empty, if◌then◌else◌}
use mathlib.Core.List.{append_assoc, append-nil}
use codex_sdk_rs.Prelude.Text.{join}
use codex_sdk_rs.Thread.{
  UserInput, Input, TurnInputItem, with_text, normalize_from, normalize_input,
}

-- The texts and the images of an input, in order.
abbrev pub texts : List UserInput → List String
texts [] = []
texts (UserInput.text s ∷ rest) = s ∷ texts rest
texts (UserInput.local_image path ∷ rest) = texts rest

abbrev pub images : List UserInput → List TurnInputItem
images [] = []
images (UserInput.text s ∷ rest) = images rest
images (UserInput.local_image path ∷ rest) = TurnInputItem.local_image path ∷ images rest

normalize_from_lem :
    (text_parts : List String) (normalized : List TurnInputItem) (given : List UserInput)
    → normalize_from text_parts normalized given
      ≡ with_text (text_parts ++ texts given) (normalized ++ images given)
unfolding normalize_from
normalize_from_lem text_parts normalized [] = sym (
    ap (λ l. with_text l (normalized ++ [])) (append-nil text_parts)
    ∙ ap (λ l. with_text text_parts l) (append-nil normalized))
normalize_from_lem text_parts normalized (UserInput.text s ∷ rest) =
    normalize_from_lem (text_parts ++ s ∷ []) normalized rest
    ∙ ap (λ l. with_text l (normalized ++ images rest))
        (append_assoc text_parts (s ∷ []) (texts rest))
normalize_from_lem text_parts normalized (UserInput.local_image path ∷ rest) =
    normalize_from_lem text_parts (normalized ++ TurnInputItem.local_image path ∷ []) rest
    ∙ ap (λ l. with_text (text_parts ++ texts rest) l)
        (append_assoc normalized (TurnInputItem.local_image path ∷ []) (images rest))

-- The items of an input become at most one text, which comes first and has all its texts in order
-- with an empty line between them, and then all its images in order.
pub normalize_input-items :
    (given : List UserInput)
    → normalize_input (Input.items given) ≡ (
        if is_empty (texts given)
        then images given
        else TurnInputItem.text (join "\n\n" (texts given)) ∷ images given)
unfolding normalize_input
normalize_input-items given = normalize_from_lem [] [] given
