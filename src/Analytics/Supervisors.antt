-- ===== src/Analytics/Supervisors.antt =====
-- The private catalog of supervisors: `restricted_supervisors` and `restricted_supervisor` of
-- server/okk_mcp/backend_client.py.
use okk_analytics_codex_plug.Common.{
  ℕ, String, Bool, true, Option, none, some, List, [], map, keep, find_first, all, nonempty, str_eq,
  strip, find?, is_some, if◌then◌else◌,
}
use Prim.Native.String
use okk_analytics_codex_plug.Errors.{Exc, Result, ok, is_not_available}
use okk_analytics_codex_plug.Json.{
  Json, text, boolean, array, no_items, object, Row, no_fields, field, get, get_or, truthy, items,
  dicts_of, as_rows,
}
use okk_analytics_codex_plug.Json.Spelling.{spell, spell_or_empty}
use okk_analytics_codex_plug.Effect.{Host, pure, lift, gets, modify, ◌>>=◌, ◌>>◌, try, raise}
use okk_analytics_codex_plug.Analytics.Adapter.{Call, get_json}
use okk_analytics_codex_plug.Analytics.Journal.{id_of}
use okk_analytics_codex_plug.Analytics.Texts.{search_terms, normalized_search_text}

unfoldable pub no_access : Exc → Call Json
unfolding is_not_available
no_access e = if is_not_available e then pure (array no_items) else raise e

module _ (host : Host) where
  -- `_safe_restricted_supervisor`
  unfoldable pub safe_restricted_supervisor : Row → Row
  unfolding get truthy spell
  safe_restricted_supervisor row = field "id" (text (id_of host row)) (
      field "full_name" (get "full_name" row) (
        field "position" (get "position" row) (
          field "is_active" (boolean (truthy (get_or "is_active" (boolean true) row)))
            (field "section" (text "supervisors") no_fields))))

  -- the full name and the position of a supervisor contain each search term
  unfoldable pub matches_terms : List String → Row → Bool
  unfolding get spell_or_empty
  matches_terms terms row =
      let shown =
        String.◌++◌ (spell_or_empty host.repr (get "full_name" row))
          (String.◌++◌ " " (spell_or_empty host.repr (get "position" row))) in
      all (λ term. is_some (find? (normalized_search_text host shown) term)) terms

  -- `isinstance(row, dict)` for the rows of a list; a value that cannot be gone through raises
  unfoldable pub dict_rows : Json → Result (List Row)
  unfolding dicts_of items as_rows
  dict_rows (array vs) = ok (dicts_of (items vs))
  dict_rows (object row) = ok []
  dict_rows (text s) = ok []
  dict_rows v = as_rows v

  -- the rows that a search shows; all of them without one
  unfoldable pub searched : Option String → List Row → List Row
  unfolding search_terms matches_terms strip
  searched none rows = rows
  searched (some search) rows =
      if nonempty (strip search) then keep (matches_terms (search_terms host search)) rows else rows

  module _ (session_id : ℕ) where
    abbrev pub known_or_loaded : Option (List Row) → Call (List Row)
    unfolding dict_rows
    known_or_loaded (some rows) = pure rows
    known_or_loaded none = do
      payload ← try (get_json host session_id "/employees/restricted" no_fields) no_access
      found ← lift (dict_rows payload)
      let rows = map safe_restricted_supervisor found
      modify (λ s. record s { restricted_supervisors = some rows })
      pure rows

    -- the catalog, which an account without access to it sees as empty
    unfoldable pub supervisor_catalog : Call (List Row)
    unfolding dict_rows
    supervisor_catalog = do known ← gets (λ s. s.restricted_supervisors); known_or_loaded known

    -- `restricted_supervisors`
    unfoldable pub restricted_supervisors : Option String → Call (List Row)
    unfolding supervisor_catalog searched
    restricted_supervisors search = do rows ← supervisor_catalog; pure (searched search rows)

    -- `restricted_supervisor`
    unfoldable pub restricted_supervisor : String → Call (Option Row)
    unfolding restricted_supervisors
    restricted_supervisor supervisor_id = do
      rows ← restricted_supervisors none
      pure (find_first (λ row. str_eq (id_of host row) supervisor_id) rows)
