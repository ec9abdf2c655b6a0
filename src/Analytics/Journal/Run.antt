-- ===== src/Analytics/Journal/Run.antt =====
-- What `_journal_pages` of server/okk_mcp/backend_client.py returns, page by page.
use okk_analytics_codex_plug.Common.{
  ℕ, zero, suc, ◌+◌, ◌≤◌, ◌≡◌, refl, sym, ap, ◌∙◌, Bool, true, false, ◌&&◌, ◌||◌, List, [], ◌∷◌,
  ◌++◌, length, take, ltb, leb, if◌then◌else◌, Bool-cases, inl, inr, arith,
}
use mathlib.Core.List.{append-nil, append_assoc, map-append}
use okk_analytics_codex_plug.Json.{Json, Row}
use okk_analytics_codex_plug.Errors.{ok}
use okk_analytics_codex_plug.Effect.{Host, pure}
use okk_analytics_codex_plug.Effect.Outcomes.{bind-run, same_outcome}
use okk_analytics_codex_plug.Analytics.Adapter.{AdapterState, Call}
use okk_analytics_codex_plug.Analytics.Journal.{
  Page, Journal, id_of, fresh, read_page, journal_loop, journal_pages,
}
use okk_analytics_codex_plug.Analytics.Journal.Distinct.{
  ids, IsDistinct, firsts, firsts-page, firsts-IsDistinct, take-IsDistinct,
}

-- the pages that were read one after the other, the first one under the number `n`
pub data Fetched (host : Host) (fetch : ℕ → Call Json)
    : ℕ → AdapterState → List Page → AdapterState → Type 0 where
  finished : {n : ℕ} {s : AdapterState} → Fetched host fetch n s [] s
  fetched :
      {n : ℕ} {s t u : AdapterState} {p : Page} {ps : List Page}
      → read_page host fetch n s ≡ (ok p, t)
      → Fetched host fetch (suc n) t ps u
      → Fetched host fetch n s (p ∷ ps) u

-- all rows of some pages
abbrev pub listed : List Page → List Row
listed [] = []
listed (p ∷ ps) = p.rows ++ listed ps

-- Every page lists a row once.
abbrev pub ListsOnce : Host → (ℕ → Call Json) → Type 0
ListsOnce host fetch =
    (n : ℕ) (s t : AdapterState) (p : Page)
    → read_page host fetch n s ≡ (ok p, t)
    → IsDistinct host p.rows

-- A run from the page `n` on, behind the rows that the pages before it listed.
pub record JournalRun (host : Host) (fetch : ℕ → Call Json) (cap n : ℕ) (before : List Row)
    (s : AdapterState) (out : Journal) (t : AdapterState) : Type 0 where
  pub earlier : List Page
  pub last : Page
  pub pages_read : Fetched host fetch n s (earlier ++ (last ∷ [])) t
  -- the rows of the pages, each id once, up to the cap
  pub rows : out.0 ≡ take cap (firsts host (before ++ listed (earlier ++ (last ∷ []))))
  pub no_id_twice : IsDistinct host out.0
  pub total : out.1 ≡ last.total
  -- whether the last page was read and the cap cut nothing
  pub complete : out.2 ≡ (
      leb last.pages (n + length earlier)
      && leb (length (firsts host (before ++ listed (earlier ++ (last ∷ []))))) cap)

take_all : (n : ℕ) (rows : List Row) → length rows ≤ n → take n rows ≡ rows
take_all zero [] h = refl
take_all (suc n) [] h = refl
take_all zero (row ∷ rows) h = absurd (omega (arith, h))
take_all (suc n) (row ∷ rows) h = rw (take_all n rows (omega (arith, h)))

-- the verdict where the loop stops
cut_short :
    (page pages count cap : ℕ)
    → (leb cap count && (ltb page pages || ltb cap count)) ≡ true
    → (leb pages page && leb count cap) ≡ false
cut_short page pages count cap h = ground arith

le_leb : (a b : ℕ) → a ≤ b → leb a b ≡ true
le_leb a b h = ground arith

pub all_read :
    (page pages count cap : ℕ)
    → (leb cap count && (ltb page pages || ltb cap count)) ≡ false
    → leb pages page ≡ true
    → count ≤ cap
all_read page pages count cap h k = ground arith

module _ (host : Host) (fetch : ℕ → Call Json) (cap : ℕ) (once : ListsOnce host fetch) where
  stopped :
      (n : ℕ) (before : List Row) (s t : AdapterState) (p : Page) (verdict : Bool) (rows : List Row)
      → read_page host fetch n s ≡ (ok p, t)
      → rows ≡ take cap (firsts host (before ++ p.rows))
      → verdict ≡ (leb p.pages n && leb (length (firsts host (before ++ p.rows))) cap)
      → JournalRun host fetch cap n before s (rows, p.total, verdict) t
  stopped n before s t p verdict rows read e v = record {
    earlier = [];
    last = p;
    pages_read = fetched read finished;
    rows = rw (append-nil p.rows) e;
    no_id_twice = rw e (
        take-IsDistinct host cap (firsts host (before ++ p.rows))
          (firsts-IsDistinct host (before ++ p.rows)));
    total = refl;
    complete = rw (append-nil p.rows) (
        v
        ∙ ap (λ m. leb p.pages m && leb (length (firsts host (before ++ p.rows))) cap)
            (omega arith));
  }

  went_on :
      (n : ℕ) (before : List Row) (s t u : AdapterState) (p : Page) (out : Journal)
      → read_page host fetch n s ≡ (ok p, t)
      → JournalRun host fetch cap (suc n) (before ++ p.rows) t out u
      → JournalRun host fetch cap n before s out u
  went_on n before s t u p out read later =
      let behind = listed (later.earlier ++ (later.last ∷ [])) in
      let all = append_assoc before p.rows behind in
      record {
        earlier = p ∷ later.earlier;
        last = later.last;
        pages_read = fetched read later.pages_read;
        rows = later.rows ∙ ap (λ rs. take cap (firsts host rs)) all;
        no_id_twice = later.no_id_twice;
        total = later.total;
        complete =
            later.complete
            ∙ ap
                (λ rs.
                  leb later.last.pages (suc n + length later.earlier)
                  && leb (length (firsts host rs)) cap)
                all
            ∙ ap
                (λ m.
                  leb later.last.pages m
                  && leb (length (firsts host (before ++ (p.rows ++ behind)))) cap)
                (omega arith);
      }

  decided :
      (n : ℕ) (before : List Row) (s t u : AdapterState) (p : Page) (out : Journal)
      (loaded : List Row) (next : Call Journal)
      → read_page host fetch n s ≡ (ok p, t)
      → loaded ≡ firsts host (before ++ p.rows)
      → (next t ≡ (ok out, u) → JournalRun host fetch cap (suc n) (before ++ p.rows) t out u)
      → (if leb cap (length loaded) && (ltb n p.pages || ltb cap (length loaded))
            then pure (take cap loaded, p.total, false)
            else if leb p.pages n
            then pure (loaded, p.total, true)
            else next)
          t
        ≡ (ok out, u)
      → JournalRun host fetch cap n before s out u
  decided n before s t u p out loaded next read e go h =
      elim (Bool-cases (leb cap (length loaded) && (ltb n p.pages || ltb cap (length loaded)))) [
        | inl cut ↦
            let (a, b) = same_outcome (rw cut at h) in
            rw⁻¹ (a, b)
              (stopped n before s t p false (take cap loaded) read (ap (λ rs. take cap rs) e)
                (rw⁻¹ e (sym (cut_short n p.pages (length loaded) cap cut))))
        | inr fits ↦ elim (Bool-cases (leb p.pages n)) [
          | inl end ↦
              let (a, b) = same_outcome (rw (fits, end) at h) in
              let small = all_read n p.pages (length loaded) cap fits end in
              rw⁻¹ (a, b)
                (stopped n before s t p true loaded read
                  (sym (take_all cap loaded small) ∙ ap (λ rs. take cap rs) e)
                  (rw⁻¹ e (rw end (sym (le_leb (length loaded) cap small)))))
          | inr more ↦ went_on n before s t u p out read (go (rw (fits, more) at h))
        ]
      ]

  loop-run :
      (fuel n : ℕ) (before : List Row) (s u : AdapterState) (out : Journal)
      → journal_loop host fetch cap fuel n (firsts host before) (ids host (firsts host before)) s
        ≡ (ok out, u)
      → JournalRun host fetch cap n before s out u
  unfolding journal_loop
  loop-run zero n before s u out h = cc
  loop-run (suc fuel) n before s u out h =
      let (p, t, read, rest) = bind-run (read_page host fetch n) _ s u out h in
      let loaded = firsts host before ++ fresh host (ids host (firsts host before)) p.rows in
      let page_of_run = firsts-page host before p.rows (once n s t p read) in
      decided n before s t u p out loaded
        (journal_loop host fetch cap fuel (suc n) loaded (
          ids host (firsts host before)
          ++ ids host (fresh host (ids host (firsts host before)) p.rows)))
        read (sym page_of_run)
        (λ run. loop-run fuel (suc n) (before ++ p.rows) t u out (
          rw
            (
              page_of_run,
              map-append (id_of host) (firsts host before)
                  (fresh host (ids host (firsts host before)) p.rows),
            )
            run))
        rest

  -- A journal that is returned was read page by page from the first one on. Where every page lists a
  -- call once, its calls are the first ones of each id on the pages that were read, in OKK's order, cut
  -- to the cap, with no id twice. The total is the last page's, and the journal is called complete
  -- exactly where the last page read is the last one of OKK and the cap cut nothing.
  pub journal_pages-JournalRun :
      (fuel : ℕ) (s u : AdapterState) (out : Journal)
      → journal_pages host fetch cap fuel s ≡ (ok out, u)
      → JournalRun host fetch cap 1 [] s out u
  unfolding journal_pages firsts
  journal_pages-JournalRun fuel s u out h = loop-run fuel 1 [] s u out h
