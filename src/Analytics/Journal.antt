-- ===== src/Analytics/Journal.antt =====
-- `_journal_pages` of server/okk_mcp/backend_client.py: every page of one journal, up to a cap.
pub mod Distinct
pub mod Run
pub mod Total
use okk_analytics_codex_plug.Common.{
  ℕ, zero, suc, String, Bool, true, false, not, ◌&&◌, ◌||◌, List, [], ◌++◌, map, ltb, leb, length,
  take, keep, contains, if◌then◌else◌,
}
use okk_analytics_codex_plug.Errors.{Result, ok, ◌>>=◌, timeout_error}
use okk_analytics_codex_plug.Json.{
  Json, number, boolean, array, no_items, Row, get, or_else, truthy, as_dict, as_rows,
}
use okk_analytics_codex_plug.Json.Spelling.{spell}
use okk_analytics_codex_plug.Effect
use okk_analytics_codex_plug.Effect.{Host, pure, raise, lift}
use okk_analytics_codex_plug.Analytics.Adapter.{Call}

-- one page of a paged answer of OKK
pub record Page : Type 0 where
  pub total : ℕ
  pub pages : ℕ
  pub rows : List Row

-- the calls, OKK's total, and whether all of them were read
abbrev pub Journal : Type 0
Journal = List Row × ℕ × Bool

module _ (host : Host) where
  -- `str(row.get(k))`
  unfoldable pub text_at : String → Row → String
  unfolding get
  text_at k row = spell host.repr (get k row)

  abbrev pub id_of : Row → String
  unfolding text_at
  id_of row = text_at "id" row

  -- `int(value)`; a negative number counts as 0
  unfoldable pub to_int : Json → Result ℕ
  to_int (number n) = ok n
  to_int (boolean true) = ok 1
  to_int (boolean false) = ok 0
  to_int v = host.int v

  -- what a paged answer says
  unfoldable pub page_of : Json → Result Page
  unfolding to_int truthy get as_dict as_rows
  page_of payload = as_dict payload >>= λ row.
      to_int (or_else (get "total" row) (number 0)) >>= λ total.
      to_int (or_else (get "pages" row) (number 1)) >>= λ pages.
      as_rows (or_else (get "items" row) (array no_items)) >>= λ rows.
      ok (record { total = total; pages = pages; rows = rows })

  -- the rows of the page that are not seen yet
  unfoldable pub fresh : List String → List Row → List Row
  unfolding contains
  fresh seen rows = keep (λ row. not (contains (id_of row) seen)) rows

  unfoldable pub read_page : (ℕ → Call Json) → ℕ → Call Page
  unfolding page_of
  read_page fetch page = Effect.◌>>=◌ (fetch page) (λ payload. lift (page_of payload))

  module _ (fetch : ℕ → Call Json) (cap : ℕ) where
    -- One round of the loop for each unit of fuel. Without fuel the time budget of the tool call is
    -- spent.
    unfoldable pub journal_loop : ℕ → ℕ → List Row → List String → Call Journal
    unfolding fresh read_page
    journal_loop zero page rows seen = raise (timeout_error "time budget")
    journal_loop (suc fuel) page rows seen = Effect.◌>>=◌ (read_page fetch page) λ p.
        let more = fresh seen p.rows in
        let loaded = rows ++ more in
        let next = journal_loop fuel (suc page) loaded (seen ++ map id_of more) in
        if leb cap (length loaded) && (ltb page p.pages || ltb cap (length loaded))
        then pure (take cap loaded, p.total, false)
        else if leb p.pages page
        then pure (loaded, p.total, true)
        else next

    -- `_journal_pages`
    unfoldable pub journal_pages : ℕ → Call Journal
    unfolding journal_loop
    journal_pages fuel = journal_loop fuel 1 [] []
