-- ===== src/Tools/Routes.antt =====
-- The reads of the tools of server/okk_mcp/server.py. `iso` is `date.isoformat`.
use okk_analytics_codex_plug.Common.{ℕ, String, ltb, if◌then◌else◌}
use Prim.Native.String
use okk_analytics_codex_plug.Errors.{Result, ok, raised, ◌>>=◌, value_error}
use okk_analytics_codex_plug.Json.{
  boolean, number, text, array, Row, no_fields, field, text_items, opt_text,
}
use okk_analytics_codex_plug.Tools.{
  Tool, access_context, overview_statistics, department_statistics, compare_departments,
  list_employees, list_supervisors, supervisor_call_statistics, employee_card, compare_employees,
  call_statistics, call_phone_records, call_transcripts, call_filter_options, call_transcript,
  search_call_transcripts, supervisor_call_transcripts, supervisor_call_transcript,
  search_supervisor_call_transcripts, plan_fact_statistics, client_statistics, crm_statistics,
  growth_insights, list_scenarios, scenario_criteria, scenario_performance, criterion_performance,
  opt_texts, chosen_filters, opt_date,
}
use okk_analytics_codex_plug.Tools.Periods.{PeriodArg, period_params}

-- a read of a path with parameters, before those of the period
abbrev pub Read : Type 0
Read = String × Row

abbrev pub under : String → String
under path = String.◌++◌ "/mcp-read/" path

module _ (iso : ℕ → String) where
  -- `**_period_params(...)` behind the parameters
  unfoldable pub with_period : PeriodArg → String → String → (Row → Row) → Result Read
  unfolding period_params
  with_period p default path params =
      period_params iso p default >>= λ period. ok (under path, params period)

  unfoldable pub route : Tool → Result Read
  unfolding with_period chosen_filters
  route access_context = ok (under "access-context", no_fields)
  route (overview_statistics p department top_limit) =
      with_period p "month" "overview-statistics" λ rest.
        field "department_ref" (opt_text department) (field "top_limit" (number top_limit) (rest))
  route (department_statistics department p detail) =
      with_period p "month" "department-statistics"
        λ rest. field "department_ref" (text department) (field "detail" (text detail) (rest))
  route (compare_departments departments p) =
      with_period p "month" "compare-departments"
        λ rest. field "department_refs" (opt_texts departments) (rest)
  route (list_employees department sought include_inactive page page_size) = ok (
    under "employees",
    field "department_ref" (opt_text department) (
        field "search" (opt_text sought) (
          field "include_inactive" (boolean include_inactive)
            (field "page" (number page) (field "page_size" (number page_size) (no_fields))))),
  )
  route (list_supervisors sought) =
      ok (under "supervisors", field "search" (opt_text sought) (no_fields))
  route (supervisor_call_statistics supervisor_id p) =
      with_period p "month" "supervisor-call-statistics"
        λ rest. field "supervisor_id" (text supervisor_id) (rest)
  route (employee_card employee_id department p) =
      with_period p "month" (String.◌++◌ "employee-card/" employee_id)
        λ rest. field "department_ref" (opt_text department) (rest)
  route (compare_employees employee_ids department p) =
      with_period p "month" "compare-employees" λ rest.
        field "employee_ids" (array (text_items employee_ids))
          (field "department_ref" (opt_text department) (rest))
  route (call_statistics p department employee_id) = with_period p "month" "call-statistics" λ rest.
      field "department_ref" (opt_text department)
        (field "employee_id" (opt_text employee_id) (rest))
  route
        (call_phone_records phone_number p department employee_id supervisor_id filters page
          page_size) =
      with_period p "all" "call-phone-records" λ rest.
        field "phone_number" (opt_text phone_number) (
          field "department_ref" (opt_text department) (
            field "employee_id" (opt_text employee_id) (
              field "supervisor_id" (opt_text supervisor_id) (
                field "filters" (chosen_filters filters)
                  (field "page" (number page) (field "page_size" (number page_size) (rest)))))))
  route
        (call_transcripts p department employee_id scenario_id filters transcript_format
          preview_chars page page_size) =
      with_period p "month" "call-transcripts" λ rest.
        field "department_ref" (opt_text department) (
          field "employee_id" (opt_text employee_id) (
            field "scenario_id" (opt_text scenario_id) (
              field "filters" (chosen_filters filters) (
                field "transcript_format" (text transcript_format) (
                  field "preview_chars" (number preview_chars)
                    (field "page" (number page) (field "page_size" (number page_size) (rest))))))))
  route (call_filter_options department) =
      ok (under "call-filter-options", field "department_ref" (opt_text department) (no_fields))
  route
        (call_transcript call_id transcript_format max_chars max_segments start_char start_segment
          department employee_id) =
      ok (
        under (String.◌++◌ "call-transcript/" call_id),
        field "transcript_format" (text transcript_format) (
            field "max_chars" (number max_chars) (
              field "max_segments" (number max_segments) (
                field "start_char" (number start_char) (
                  field "start_segment" (number start_segment) (
                    field "department_ref" (opt_text department)
                      (field "employee_id" (opt_text employee_id) (no_fields))))))),
      )
  route
        (search_call_transcripts wanted p department employee_id scenario_id match_mode filters
          context_chars most page) =
      with_period p "month" "search-call-transcripts" λ rest. field "query" (text wanted) (
        field "department_ref" (opt_text department) (
          field "employee_id" (opt_text employee_id) (
            field "scenario_id" (opt_text scenario_id) (
              field "match_mode" (text match_mode) (
                field "filters" (chosen_filters filters) (
                  field "context_chars" (number context_chars)
                    (field "limit" (number most) (field "page" (number page) (rest)))))))))
  route
        (supervisor_call_transcripts supervisor_id p transcript_format preview_chars page
          page_size) =
      with_period p "month" "supervisor-call-transcripts" λ rest.
        field "supervisor_id" (text supervisor_id) (
          field "transcript_format" (text transcript_format) (
            field "preview_chars" (number preview_chars)
              (field "page" (number page) (field "page_size" (number page_size) (rest)))))
  route
        (supervisor_call_transcript supervisor_id call_id transcript_format max_chars max_segments
          start_char start_segment) =
      ok (
        under (String.◌++◌ "supervisor-call-transcript/" call_id),
        field "supervisor_id" (text supervisor_id) (
            field "transcript_format" (text transcript_format) (
              field "max_chars" (number max_chars) (
                field "max_segments" (number max_segments) (
                  field "start_char" (number start_char)
                    (field "start_segment" (number start_segment) (no_fields)))))),
      )
  route
        (search_supervisor_call_transcripts supervisor_id wanted p match_mode context_chars most
          page) =
      with_period p "month" "search-supervisor-call-transcripts" λ rest.
        field "supervisor_id" (text supervisor_id) (
          field "query" (text wanted) (
            field "match_mode" (text match_mode) (
              field "context_chars" (number context_chars)
                (field "limit" (number most) (field "page" (number page) (rest))))))
  route (plan_fact_statistics first_day last_day department employee_id) =
      if ltb last_day first_day
      then raised (value_error "end_date must be on or after start_date")
      else ok (
        under "plan-fact-statistics",
        field "start_date" (text (iso first_day)) (
            field "end_date" (text (iso last_day)) (
              field "department_ref" (opt_text department)
                (field "employee_id" (opt_text employee_id) (no_fields)))),
      )
  route (client_statistics p department employee_id) =
      with_period p "month" "client-statistics" λ rest.
        field "department_ref" (opt_text department)
          (field "employee_id" (opt_text employee_id) (rest))
  route (crm_statistics department employee_id snapshot_date) = ok (
    under "crm-statistics",
    field "department_ref" (opt_text department) (
        field "employee_id" (opt_text employee_id)
          (field "snapshot_date" (opt_date iso snapshot_date) (no_fields))),
  )
  route (growth_insights p department employee_id most) =
      with_period p "month" "growth-insights" λ rest.
        field "department_ref" (opt_text department)
          (field "employee_id" (opt_text employee_id) (field "limit" (number most) (rest)))
  route (list_scenarios department sought include_historical page page_size) = ok (
    under "scenarios",
    field "department_ref" (opt_text department) (
        field "search" (opt_text sought) (
          field "include_historical" (boolean include_historical)
            (field "page" (number page) (field "page_size" (number page_size) (no_fields))))),
  )
  route (scenario_criteria scenario_id department) = ok (
    under (String.◌++◌ "scenario-criteria/" scenario_id),
    field "department_ref" (opt_text department) (no_fields),
  )
  route (scenario_performance p scenario_ids department employee_id) =
      with_period p "month" "scenario-performance" λ rest.
        field "scenario_ids" (opt_texts scenario_ids) (
          field "department_ref" (opt_text department)
            (field "employee_id" (opt_text employee_id) (rest)))
  route (criterion_performance p scenario_id criterion_ids department employee_id most) =
      with_period p "month" "criterion-performance" λ rest.
        field "scenario_id" (opt_text scenario_id) (
          field "criterion_ids" (opt_texts criterion_ids) (
            field "department_ref" (opt_text department)
              (field "employee_id" (opt_text employee_id) (field "limit" (number most) (rest)))))
