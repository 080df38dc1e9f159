-- ===== src/Thread/Pages.antt =====
-- Reading the list of threads page by page: `resolve_latest_thread_id` in crates/sdk/src/api.rs.
use codex_sdk_rs.Prelude.{
  ℕ, zero, suc, ◌≡◌, refl, ◌∙◌, String, Option, none, some, List, [], ◌++◌, leb, true, false, arith,
  if◌then◌else◌,
}
use mathlib.Core.List.{append_assoc}
use codex_sdk_rs.Protocol.{ClientError, Result, ok, err}
use codex_sdk_rs.SerdeJson.{SerdeJson}
use codex_sdk_rs.Events.Payloads.{ThreadSummary}
use codex_sdk_rs.Thread.{select_latest_thread_id}
use codex_sdk_rs.Thread.Lifecycle.{
  Thread, Answers, max_thread_list_pages, chosen, resolve_from, resolve_latest_thread_id,
}

leb-zero : (k : ℕ) → leb (suc k) 0 ≡ false
leb-zero k = ground arith

leb-one : (n : ℕ) → leb 1 (suc n) ≡ true
leb-one n = ground arith

leb-suc : (k n : ℕ) → leb (suc k) (suc n) ≡ leb k n
leb-suc k n = ground arith

module _ ⦃json : SerdeJson⦄ (answers : Answers json.Value json.Object) where
  open json use {Value, Object}
  open answers use {thread_list}

  -- From a page and its cursor on, the server lists these threads on this many pages.
  pub data Lists : ℕ → Option String → List (ThreadSummary Value Object) → ℕ → Type 0 where
    last_page :
        {page : ℕ} {cursor : Option String} {found : List (ThreadSummary Value Object)}
        → thread_list page cursor ≡ ok (found, none)
        → Lists page cursor found 1
    more_pages :
        {page count : ℕ} {cursor : Option String} {next : String}
        {found rest : List (ThreadSummary Value Object)}
        → thread_list page cursor ≡ ok (found, some next)
        → Lists (suc page) (some next) rest count
        → Lists page cursor (found ++ rest) (suc count)

  abbrev pub too_many_pages : Result String (ClientError Value)
  too_many_pages =
      err (ClientError.transport_send "could not resolve latest thread after scanning 100 pages")

  resolve_from-Lists :
      (working_directory : Option String) (left page count : ℕ) (cursor : Option String)
      (threads listed : List (ThreadSummary Value Object))
      → Lists page cursor listed count
      → resolve_from answers working_directory left page cursor threads ≡ (
          if leb count left
          then chosen answers working_directory
              (select_latest_thread_id (threads ++ listed) working_directory)
          else too_many_pages)
  unfolding resolve_from
  resolve_from-Lists working_directory zero page count cursor threads listed (last_page e) = refl
  resolve_from-Lists working_directory zero page count cursor threads listed
        (more_pages {count = k} {found = found} {rest = rest} e h) =
      rw (leb-zero k) refl
  resolve_from-Lists working_directory (suc left) page count cursor threads listed (last_page e) =
      rw (e, resolve_from) (rw (leb-one left) refl)
  resolve_from-Lists working_directory (suc left) page count cursor threads listed
        (more_pages {count = k} {next = next} {found = found} {rest = rest} e h) =
      rw (e, resolve_from)
        (resolve_from-Lists working_directory left (suc page) k (some next) (threads ++ found) rest
            h
          ∙ rw (leb-suc k left, append_assoc threads found rest) refl)

  -- The latest thread is chosen among the threads of all pages, if there are at most 100, and is not
  -- resolved if there are more.
  pub resolve_latest_thread_id-Lists :
      (t : Thread) (listed : List (ThreadSummary Value Object)) (count : ℕ)
      → Lists 0 none listed count
      → resolve_latest_thread_id answers t ≡ (
          if leb count max_thread_list_pages
          then chosen answers t.working_directory
              (select_latest_thread_id listed t.working_directory)
          else too_many_pages)
  unfolding resolve_latest_thread_id
  resolve_latest_thread_id-Lists t listed count h =
      resolve_from-Lists t.working_directory max_thread_list_pages 0 count none [] listed h
