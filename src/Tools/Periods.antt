-- ===== src/Tools/Periods.antt =====
-- `_period_params` of server/okk_mcp/server.py. A date is its ordinal; `iso` is `date.isoformat`.
use okk_analytics_codex_plug.Common.{ℕ, String, Option, none, some, ltb, str_eq, if◌then◌else◌}
use Prim.Native.String
use okk_analytics_codex_plug.Errors.{Result, ok, raised, value_error}
use okk_analytics_codex_plug.Json.{null, text, Row, no_fields, field}

-- a period by name or by dates
pub record PeriodArg : Type 0 where
  pub period : Option String
  pub start_date : Option ℕ
  pub end_date : Option ℕ

-- the parameters of a period that is named
abbrev pub named_period : String → Row
named_period name =
    field "period" (text name) (field "start_date" null (field "end_date" null no_fields))

module _ (iso : ℕ → String) where
  abbrev pub dated_period : ℕ → ℕ → Row
  dated_period first last =
      field "period" (text "custom")
        (field "start_date" (text (iso first)) (field "end_date" (text (iso last)) no_fields))

  unfoldable pub named_or_default : Option String → String → Result Row
  named_or_default none default = ok (named_period default)
  named_or_default (some name) default =
      if str_eq name "custom"
      then raised (
          value_error
            "period=custom needs start_date and end_date, e.g. 2026-09-01 and 2026-09-30.")
      else ok (named_period name)

  unfoldable pub ordered : ℕ → ℕ → Result Row
  ordered first last =
      if ltb last first
      then raised (value_error "end_date must be on or after start_date.")
      else ok (dated_period first last)

  unfoldable pub dated : Option String → ℕ → ℕ → Result Row
  unfolding ordered
  dated none first last = ordered first last
  dated (some name) first last =
      if str_eq name "custom"
      then ordered first last
      else raised (
          value_error (
            String.◌++◌ "Give either period="
              (String.◌++◌ name " or start_date/end_date, not both.")))

  abbrev pub both_dates : Option String → Option ℕ → Option ℕ → String → Result Row
  unfolding named_or_default dated
  both_dates period none none default = named_or_default period default
  both_dates period (some first) (some last) default = dated period first last
  both_dates period _ _ default = raised (
      value_error "Give both start_date and end_date (YYYY-MM-DD), e.g. 2026-09-01 and 2026-09-30.")

  -- `_period_params`
  unfoldable pub period_params : PeriodArg → String → Result Row
  unfolding named_or_default dated
  period_params p default = both_dates p.period p.start_date p.end_date default
