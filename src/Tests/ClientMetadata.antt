-- ===== src/Tests/ClientMetadata.antt =====
-- Metadata documents at concrete inputs.
use okk_analytics_codex_plug.Common.{
  ◌≡◌, ◌≤◌, ◌⊎◌, refl, String, true, false, none, some, [], ◌∷◌, arith, length, chars, contains,
  strip, drop_front, drop_end, is_space,
}
use okk_analytics_codex_plug.Errors.{ok}
use okk_analytics_codex_plug.ClientMetadata.Slices.{slice, unique}
use okk_analytics_codex_plug.ClientMetadata.Parsing.{
  absent, items, Document, ClientMetadata, parse_document, is_redirect_list, is_grant_list,
  redirect_texts, grant_texts, texts, is_code_only,
}
use okk_analytics_codex_plug.ClientMetadata.Network.{Web, State, answered}
use okk_analytics_codex_plug.ClientMetadata.{
  cached, remember_metadata, load_client_metadata, body_of, read_chunks, max_document_bytes,
  cache_max_entries,
}
use okk_analytics_codex_plug.ClientMetadata.Accepted.{
  IsPublicClient, parse_document-IsPublicClient, body_of_bound,
}
use okk_analytics_codex_plug.ClientMetadata.Cache.{remember_metadata_lem}
use okk_analytics_codex_plug.ClientMetadata.Public.{FetchedOnce, load_client_metadata_sends}

abbrev url : String
url = "https://client.example/meta"

abbrev document : Document
document = record {
  is_object = true;
  client_id = some url;
  has_client_secret = false;
  redirect_uris = items (some "http://127.0.0.1/cb" ∷ []);
  token_endpoint_auth_method = none;
  token_endpoint_auth_methods_supported = absent;
  grant_types = absent;
  response_types = absent;
  client_name = some "Client";
  client_uri = none;
}

abbrev metadata : ClientMetadata
metadata = record {
  client_id = url;
  client_name = "Client";
  redirect_uris = "http://127.0.0.1/cb" ∷ [];
  client_uri = none;
}

parsed_document : parse_document document url ≡ ok metadata
unfolding parse_document is_redirect_list is_grant_list redirect_texts grant_texts texts
    is_code_only slice unique contains strip drop_front drop_end is_space
parsed_document = refl

parse_document-IsPublicClient_example : IsPublicClient document url metadata
parse_document-IsPublicClient_example =
    parse_document-IsPublicClient document url metadata parsed_document

abbrev pub web : Web
web = record {
  urlsplit = λ s. record {
    scheme = "https";
    hostname = some "client.example";
    username = none;
    password = none;
    query = "";
    port = ok none;
    path = "/meta";
    segments = "" ∷ "meta" ∷ [];
  };
  resolve = λ host port. some (
      record { text = "93.184.216.34"; is_global = true; is_multicast = false; ipv4_mapped = none }
      ∷ []);
  fetch = λ n. answered 200 ("{" ∷ "}" ∷ []);
  loads = λ s. some document;
  monotonic = λ n. n;
  digits = λ n. "404";
}

read_body : body_of web (answered 200 ("{" ∷ "}" ∷ [])) ≡ ok "{}"
unfolding body_of read_chunks
read_body = refl

body_of_bound_example : chars "{}" ≤ max_document_bytes
body_of_bound_example = body_of_bound web (answered 200 ("{" ∷ "}" ∷ [])) "{}" read_body

remember_metadata_lem_example :
    (cached url (remember_metadata url 300 metadata []) ≡ some (300, metadata))
    × (length (remember_metadata url 300 metadata []) ≤ cache_max_entries)
remember_metadata_lem_example = remember_metadata_lem url 300 metadata [] (omega arith)

abbrev empty : State
empty = record { cache = []; fetches = []; ticks = 0 }

load_client_metadata_sends_example :
    ((load_client_metadata web url empty).1.fetches ≡ [])
    ⊎ FetchedOnce web url [] (load_client_metadata web url empty).1.fetches
load_client_metadata_sends_example = load_client_metadata_sends web url empty
