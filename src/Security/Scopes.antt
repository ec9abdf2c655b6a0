-- ===== src/Security/Scopes.antt =====
-- The scope functions of server/okk_mcp/security.py and `_granted_scope` of server/okk_mcp/oauth.py.
-- A set of texts is the sorted list of its members.
pub mod Canonical
use okk_analytics_codex_plug.Common.{
  String, Bool, not, ◌||◌, Option, none, some, List, [], ◌∷◌, nonempty, split, join, contains,
  subset, sorted_set, keep, if◌then◌else◌, str_eq,
}
use okk_analytics_codex_plug.Errors.{Result, ok, raised, value_error}

abbrev pub identity_scopes : List String
identity_scopes = "openid" ∷ "email" ∷ []

abbrev pub allowed_scopes : List String
allowed_scopes =
    "openid" ∷ "email" ∷ "okk.statistics.read" ∷ "okk.scenarios.read" ∷ "okk.transcripts.read"
    ∷ "okk.phones.read" ∷ []

abbrev pub default_scopes : String
default_scopes =
    "email okk.phones.read okk.scenarios.read okk.statistics.read okk.transcripts.read openid"

-- `scope or DEFAULT_SCOPES`
abbrev pub scope_or : Option String → String → String
scope_or none default = default
scope_or (some s) default = if nonempty s then s else default

abbrev is_empty : List String → Bool
is_empty [] = Bool.true
is_empty (x ∷ xs) = Bool.false

-- the check of `requested`, and the text that is returned
unfoldable pub check_scopes : List String → Result String
check_scopes requested =
    if is_empty requested || not (subset requested allowed_scopes)
    then raised (value_error "invalid_scope")
    else ok (join requested)

unfoldable pub validate_scopes : Option String → Result String
unfolding check_scopes
validate_scopes scope = check_scopes (sorted_set (split (scope_or scope default_scopes)))
