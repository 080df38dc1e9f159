-- ===== src/Thread.antt =====
-- Threads in crates/sdk/src/api.rs: the choice of the latest thread, the normalised input of a turn,
-- and the life of a `Thread` between its requests.
pub mod Latest
pub mod Normalize
pub mod Lifecycle
pub mod Settled
pub mod Pages
pub mod Requests
use codex_sdk_rs.Prelude.{
  ℕ, zero, suc, String, Bool, true, false, Option, none, some, List, [], ◌∷◌, ◌++◌, or_else, str_eq,
  is_empty, ◌and_then◌, if◌then◌else◌, not,
}
use codex_sdk_rs.Prelude.Int.{ℤ, ltb_ℤ, i64_try_from}
use codex_sdk_rs.Prelude.Text.{join, concat}
use codex_sdk_rs.Prelude.Decimal.{parse_i64}
use codex_sdk_rs.Protocol.{ClientError, Result, ok, err, ◌>>=◌}
use codex_sdk_rs.SerdeJson.{SerdeJson}
use codex_sdk_rs.Events.Payloads.{ThreadSummary}

pub data UserInput : Type 0 where
  text : String → UserInput
  local_image : (path : String) → UserInput

-- `Input`, by its two variants.
pub data Input : Type 0 where
  text : String → Input
  items : List UserInput → Input

-- The two variants of `TurnInputItem` that the normalisation makes.
pub data TurnInputItem : Type 0 where
  text : String → TurnInputItem
  local_image : (path : String) → TurnInputItem

-- The end of `normalize_input`: the texts, joined, come first.
abbrev pub with_text : List String → List TurnInputItem → List TurnInputItem
with_text text_parts normalized =
    if is_empty text_parts
    then normalized
    else TurnInputItem.text (join "\n\n" text_parts) ∷ normalized

-- Its loop.
unfoldable pub normalize_from :
    List String → List TurnInputItem → List UserInput → List TurnInputItem
normalize_from text_parts normalized [] = with_text text_parts normalized
normalize_from text_parts normalized (UserInput.text s ∷ rest) =
    normalize_from (text_parts ++ s ∷ []) normalized rest
normalize_from text_parts normalized (UserInput.local_image path ∷ rest) =
    normalize_from text_parts (normalized ++ TurnInputItem.local_image path ∷ []) rest

unfoldable pub normalize_input : Input → List TurnInputItem
normalize_input (Input.text s) = TurnInputItem.text s ∷ []
normalize_input (Input.items given) = normalize_from [] [] given

module _ ⦃json : SerdeJson⦄ where
  open json use {Value, Object, as_number, as_str, number_as_i64, number_as_u64, get}

  unfoldable pub parse_timestamp : Option Value → Option ℤ
  parse_timestamp none = none
  parse_timestamp (some value) = elim (as_number value) [
    | some number ↦ or_else (number_as_i64 number) (number_as_u64 number and_then i64_try_from)
    | none ↦ as_str value and_then parse_i64
  ]

  unfoldable pub thread_recency_score : ThreadSummary Value Object → Option ℤ
  thread_recency_score thread =
      or_else (parse_timestamp (get "updatedAt" thread.extra))
        (parse_timestamp (get "createdAt" thread.extra))

  -- `get("cwd").and_then(as_str) == Some(working_directory)`.
  abbrev is_directory : String → Option String → Bool
  is_directory working_directory none = false
  is_directory working_directory (some cwd) = str_eq cwd working_directory

  unfoldable pub thread_matches_working_directory :
      ThreadSummary Value Object → Option String → Bool
  thread_matches_working_directory thread none = true
  thread_matches_working_directory thread (some working_directory) =
      is_directory working_directory (get "cwd" thread.extra and_then as_str)

  -- The match on the selection so far.
  abbrev pub is_newer : Option ℤ → ℤ → Bool
  is_newer none best_score = false
  is_newer (some score) best_score = ltb_ℤ best_score score

  abbrev pub better : Option (Option ℤ × String) → Option ℤ × String → Option (Option ℤ × String)
  better none candidate = some candidate
  better (some (none, id)) candidate = some (none, id)
  better (some (some best_score, id)) candidate =
      if is_newer candidate.0 best_score then some candidate else some (some best_score, id)

  -- The loop of `select_latest_thread_id`.
  unfoldable pub select_from :
      Option String
      → Option (Option ℤ × String)
      → List (ThreadSummary Value Object)
      → Option (Option ℤ × String)
  select_from working_directory selected [] = selected
  select_from working_directory selected (thread ∷ threads) =
      select_from working_directory
        (if thread_matches_working_directory thread working_directory
          then better selected (thread_recency_score thread, thread.id)
          else selected)
        threads

  abbrev id_of : Option (Option ℤ × String) → Option String
  id_of none = none
  id_of (some (score, id)) = some id

  unfoldable pub select_latest_thread_id :
      List (ThreadSummary Value Object) → Option String → Option String
  select_latest_thread_id threads working_directory =
      id_of (select_from working_directory none threads)
