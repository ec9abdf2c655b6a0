-- ===== src/Analytics/Envelope.antt =====
-- The answers of the tools: `envelope`, `unavailable_department` and `employee_roster_grounding` of
-- server/okk_mcp/backend_client.py.
use okk_analytics_codex_plug.Common.{
  ℕ, String, Bool, true, Option, none, List, map, keep, length, ◌&&◌,
}
use okk_analytics_codex_plug.Json.{
  Json, boolean, number, text, array, object, Row, no_fields, field, get, truthy, text_items, merge,
}
use okk_analytics_codex_plug.Effect.{Host}
use okk_analytics_codex_plug.Analytics.Journal.{text_at, id_of}
use okk_analytics_codex_plug.Analytics.Departments.{department_scope}

-- the answer of a tool; a period is given by the ISO texts of its bounds
pub record Envelope : Type 0 where
  pub status : String
  pub effective_scope : Row
  pub period : Option (String × String)
  pub omitted_filters_count : ℕ
  pub employee_roster_grounding : Option Row
  -- `data`
  pub content : Json
  -- set by the client, once the tool has answered
  pub request_id : Option String

-- `envelope(data, status=..., scope=..., ...)`
unfoldable pub envelope : Json → String → Row → Option (String × String) → ℕ → Option Row → Envelope
envelope content status scope period omitted grounding = record {
  status = status;
  effective_scope = scope;
  period = period;
  omitted_filters_count = omitted;
  employee_roster_grounding = grounding;
  content = content;
  request_id = none;
}

-- `unavailable_department`
unfoldable pub unavailable_department : Envelope
unfolding envelope
unavailable_department =
    envelope (object (field "reason" (text "department_not_in_access_scope") no_fields))
      "not_available" (field "department_resolution" (text "not_available") no_fields) none 0 none

abbrev usage_rule : String
usage_rule =
    "Use only these employee IDs and names in this response; never invent, autocorrect, transliterate, substitute or infer another person."

module _ (host : Host) where
  -- the employees with an id and a full name
  unfoldable pub roster_of : List Row → List Row
  unfolding get truthy
  roster_of rows = keep (λ row. truthy (get "id" row) && truthy (get "full_name" row)) rows

  -- `employee_roster_grounding`
  unfoldable pub roster_grounding : Option Row → List Row → Bool → ℕ → ℕ → Row
  unfolding roster_of department_scope merge
  roster_grounding department employees source_complete excluded normalized =
      let roster = roster_of employees in
      let scope = department_scope host.repr department in
      field "source" (text "live_okk_employee_directory") (
        field "authoritative" (boolean true) (
          merge scope (
            field "employee_count" (number (length roster)) (
              field "employee_ids" (array (text_items (map (id_of host) roster))) (
                field "employee_names" (array (text_items (map (text_at host "full_name") roster)))
                  (field "source_complete" (boolean source_complete) (
                    field "excluded_source_records" (number excluded) (
                      field "normalized_source_records" (number normalized)
                        (field "usage_rule" (text usage_rule) no_fields)))))))))
