-- ===== src/Tests/Analytics/Journal.antt =====
-- The paging of a journal at concrete inputs.
use okk_analytics_codex_plug.Common.{ℕ, zero, suc, ◌≡◌, refl, List, [], ◌∷◌, true, contains, arith}
use okk_analytics_codex_plug.Errors.{ok}
use okk_analytics_codex_plug.Effect.{Host, World}
use okk_analytics_codex_plug.Effect.Outcomes.{same_outcome}
use okk_analytics_codex_plug.Json.{
  Json, number, Row, no_fields, field, get, lookup, truthy, as_dict, as_rows, as_dicts, items,
  row_items,
}
use okk_analytics_codex_plug.Json.Spelling.{spell}
use okk_analytics_codex_plug.Platform.Account.{responded}
use okk_analytics_codex_plug.Platform.Reads.{
  get_with_context, validate_read_path, read_once_renewed, read_body, is_unauthorized, send_read,
  send_attempts, is_transient, transient_status,
}
use okk_analytics_codex_plug.Analytics.Adapter.{AdapterState, Call, context, get_json}
use okk_analytics_codex_plug.Analytics.Journal.{
  Page, text_at, to_int, page_of, fresh, read_page, journal_loop, journal_pages,
}
use okk_analytics_codex_plug.Analytics.Journal.Distinct.{IsDistinct}
use okk_analytics_codex_plug.Analytics.Journal.Run.{JournalRun, ListsOnce, journal_pages-JournalRun}
use okk_analytics_codex_plug.Analytics.Journal.Total.{Answers, Returns, journal_pages-Returns}
use okk_analytics_codex_plug.Tests.Setup.{host}
use okk_analytics_codex_plug.Tests.Analytics.{row_of, paged, ready}

abbrev first_rows : List Row
first_rows = row_of "c1" ∷ (row_of "c2" ∷ [])

-- a call came in between, so that the second page begins with the last call of the first one
abbrev later_rows : List Row
later_rows = row_of "c2" ∷ (row_of "c3" ∷ [])

abbrev rows_at : ℕ → List Row
rows_at zero = []
rows_at (suc zero) = first_rows
rows_at (suc (suc n)) = later_rows

abbrev fetch : ℕ → Call Json
fetch n s = (ok (paged 3 2 (rows_at n)), s)

abbrev page : ℕ → Page
page n = record { total = 3; pages = 2; rows = rows_at n }

read : (n : ℕ) (s : AdapterState) → read_page host fetch n s ≡ (ok (page n), s)
unfolding read_page page_of as_dict as_rows as_dicts items row_items get lookup truthy to_int
read zero s = refl
read (suc zero) s = refl
read (suc (suc n)) s = refl

distinct : (n : ℕ) → IsDistinct host (rows_at n)
unfolding contains text_at get lookup spell
distinct zero = tt
distinct (suc zero) = (refl, (refl, tt))
distinct (suc (suc n)) = (refl, (refl, tt))

once : ListsOnce host fetch
once n s t p h = let (same, u) = same_outcome (rw (read n s) at h) in rw⁻¹ same (distinct n)

journal_read :
    journal_pages host fetch 100 3 ready
    ≡ (ok (row_of "c1" ∷ (row_of "c2" ∷ (row_of "c3" ∷ [])), 3, true), ready)
unfolding journal_pages journal_loop read_page page_of as_dict as_rows as_dicts items row_items get
    lookup truthy to_int fresh contains text_at spell
journal_read = refl

journal_pages-JournalRun_example :
    JournalRun host fetch 100 1 [] ready
      (row_of "c1" ∷ (row_of "c2" ∷ (row_of "c3" ∷ [])), 3, true)
      ready
journal_pages-JournalRun_example =
    journal_pages-JournalRun host fetch 100 once 3 ready ready
      (row_of "c1" ∷ (row_of "c2" ∷ (row_of "c3" ∷ [])), 3, true) journal_read

-- OKK answers every page of `/calls` with the same two calls of two pages.
abbrev paging_host : Host
paging_host = record host { loads = λ s. paged 4 2 first_rows }

-- the read of `calls`
abbrev calls_page : ℕ → Call Json
calls_page n =
    get_json paging_host 7 "/calls"
      (field "page" (number n) (field "page_size" (number 100) no_fields))

-- the account's context is known
abbrev Known : AdapterState → Type 0
Known s = (w : World) × (s ≡ record ready { world = w })

calls_page-Answers : Answers paging_host calls_page Known 2
unfolding read_page page_of as_dict as_rows as_dicts items row_items get lookup truthy to_int
    get_json context get_with_context validate_read_path read_once_renewed read_body responded
    is_unauthorized send_read send_attempts is_transient transient_status
calls_page-Answers n s (w, e) = rw e (_, _, refl, omega arith, (_, refl))

journal_pages-Returns_example : Returns (journal_pages paging_host calls_page 100 3) ready
journal_pages-Returns_example =
    journal_pages-Returns paging_host calls_page 100 2 Known calls_page-Answers 3 ready
      (omega arith) (ready.world, refl)
