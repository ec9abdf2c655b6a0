-- ===== src/Tests/Analytics.antt =====
-- The theorems on the analytics adapter at concrete inputs.
pub mod Journal
pub mod Directory
pub mod Access
pub mod Transcripts
pub mod Grounding
pub mod Supervised
use okk_analytics_codex_plug.Common.{ℕ, String, Option, none, some, List, [], ◌∷◌, true}
use okk_analytics_codex_plug.Json.{
  Json, null, number, text, array, object, Row, no_fields, field, row_items,
}
use okk_analytics_codex_plug.Platform.Context.{AccountContext}
use okk_analytics_codex_plug.Analytics.Adapter.{AdapterState}
use okk_analytics_codex_plug.Tests.Setup.{world_with}

abbrev pub row_of : String → Row
row_of id = field "id" (text id) no_fields

abbrev pub paged : ℕ → ℕ → List Row → Json
paged total pages rows = object (
    field "total" (number total)
      (field "pages" (number pages) (field "items" (array (row_items rows)) no_fields)))

-- a member of one department
abbrev pub member : AccountContext
member = record {
  session_id = 7;
  user_id = "u1";
  email = "anna@example.com";
  role = "viewer";
  department_ids = "d1" ∷ [];
  access_token = "okk-access-1";
}

abbrev pub department : Row
department =
    field "id" (text "d1") (field "name" (text "sales one") (field "code" (text "s1") no_fields))

-- an adapter that has loaded the catalogs
abbrev pub ready : AdapterState
ready = record {
  context = some member;
  departments = some (department ∷ []);
  restricted_supervisors = some [];
  call_employees = [];
  world = world_with [] [];
}

-- a call of an employee in the account's department
abbrev pub call : Row
call = field "id" (text "c1") (
    field "employee_id" (text "e1") (
      field "employee"
        (object (
          field "id" (text "e1")
            (field "full_name" (text "Anna") (field "department" (object department) no_fields))))
        no_fields))
