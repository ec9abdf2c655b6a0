-- ===== src/ClientMetadata/Parsing.antt =====
-- `_parse` of server/okk_mcp/client_metadata.py.
use okk_analytics_codex_plug.Common.{
  String, Bool, true, false, not, ◌&&◌, ◌||◌, Option, none, some, List, [], ◌∷◌, ltb, str_eq,
  nonempty, any, length, contains, subset, strip, if◌then◌else◌,
}
use okk_analytics_codex_plug.Errors.{Result, ok, raised, metadata_error}
use okk_analytics_codex_plug.ClientMetadata.Slices.{slice, unique}

-- A field that should be a list: not given, given as something else, or its items, those that are no
-- texts as `none`.
pub data Field : Type 0 where
  absent : Field
  no_list : Field
  items : List (Option String) → Field

-- the JSON value: `none` in place of a value that is no text, or is not given
pub record Document : Type 0 where
  pub is_object : Bool
  pub client_id : Option String
  pub has_client_secret : Bool
  pub redirect_uris : Field
  -- a value that is no text is its JSON spelling, or the empty text where Python takes it as false
  pub token_endpoint_auth_method : Option String
  pub token_endpoint_auth_methods_supported : Field
  pub grant_types : Field
  pub response_types : Field
  pub client_name : Option String
  pub client_uri : Option String

pub record ClientMetadata : Type 0 where
  pub client_id : String
  pub client_name : String
  pub redirect_uris : List String
  pub client_uri : Option String

-- the items of a list, if there are all texts
unfoldable pub texts : List (Option String) → Option (List String)
texts [] = some []
texts (none ∷ rest) = none
texts (some s ∷ rest) = elim (texts rest) [ none ↦ none | some ss ↦ some (s ∷ ss) ]

unfoldable pub redirect_texts : Field → Option (List String)
redirect_texts (items xs) = texts xs
redirect_texts _ = none

unfoldable pub grant_texts : Field → Option (List String)
grant_texts absent = some ("authorization_code" ∷ [])
grant_texts no_list = none
grant_texts (items xs) = texts xs

unfoldable pub is_code_only : Field → Bool
is_code_only absent = true
is_code_only no_list = false
is_code_only (items (some s ∷ [])) = str_eq s "code"
is_code_only (items _) = false

abbrev names_none : Option String → Bool
names_none none = false
names_none (some s) = str_eq s "none"

abbrev pub supports_none : Field → Bool
supports_none (items xs) = any names_none xs
supports_none _ = false

-- `document.get("token_endpoint_auth_method") or "none"`
abbrev pub method_is_none : Option String → Bool
method_is_none none = true
method_is_none (some s) = not (nonempty s) || str_eq s "none"

abbrev pub same_id : Option String → String → Bool
same_id none client_id = false
same_id (some s) client_id = str_eq s client_id

abbrev shown_name : Option String → String
shown_name none = ""
shown_name (some s) = slice 120 (strip s)

abbrev shown_uri : Option String → Option String
shown_uri none = none
shown_uri (some s) = if nonempty s then some (slice 500 s) else none

unfoldable pub is_redirect_list : Option (List String) → Bool
is_redirect_list none = false
is_redirect_list (some uris) = ltb 0 (length uris) && not (ltb 20 (length uris))

unfoldable pub is_grant_list : Option (List String) → Bool
is_grant_list none = false
is_grant_list (some grants) =
    contains "authorization_code" grants
    && subset grants ("authorization_code" ∷ "refresh_token" ∷ [])

abbrev pub or_nil : Option (List String) → List String
or_nil none = []
or_nil (some xs) = xs

unfoldable pub parse_document : Document → String → Result ClientMetadata
unfolding is_redirect_list is_grant_list
parse_document d client_id =
    if not d.is_object
    then raised (metadata_error "invalid_json")
    else if not (same_id d.client_id client_id)
    then raised (metadata_error "client_id_mismatch")
    else if d.has_client_secret
    then raised (metadata_error "client_secret_not_allowed")
    else if not (is_redirect_list (redirect_texts d.redirect_uris))
    then raised (metadata_error "invalid_redirect_uris")
    else if not (
        method_is_none d.token_endpoint_auth_method
        || supports_none d.token_endpoint_auth_methods_supported)
    then raised (metadata_error "unsupported_token_endpoint_auth_method")
    else if not (is_grant_list (grant_texts d.grant_types)) || not (is_code_only d.response_types)
    then raised (metadata_error "unsupported_oauth_flow")
    else ok (record {
      client_id = client_id;
      client_name = shown_name d.client_name;
      redirect_uris = unique (or_nil (redirect_texts d.redirect_uris));
      client_uri = shown_uri d.client_uri;
    })

-- `_parse`; nothing where the body is no JSON
unfoldable pub parse : Option Document → String → Result ClientMetadata
parse none client_id = raised (metadata_error "invalid_json")
parse (some d) client_id = parse_document d client_id
