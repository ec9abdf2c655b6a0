-- ===== src/Tests/Register.antt =====
-- A registration at a concrete input.
use okk_analytics_codex_plug.Common.{
  ◌≡◌, refl, none, some, [], ◌∷◌, split, contains, sorted_set, insert_sorted, join, is_space, strip,
  drop_front, drop_end, ◌+◌,
}
use okk_analytics_codex_plug.Errors.{ok}
use okk_analytics_codex_plug.Models.{Client}
use okk_analytics_codex_plug.Effect.{World}
use okk_analytics_codex_plug.ClientMetadata.Slices.{slice, unique}
use okk_analytics_codex_plug.Security.Redirects.{
  is_label, serialize_name, serialize_redirect_host, is_loopback_host, is_malformed, check_port,
  check_scheme, validate_redirect_uri, validate_registered_redirect_uri,
}
use okk_analytics_codex_plug.Security.Scopes.{validate_scopes, check_scopes}
use okk_analytics_codex_plug.Oauth.Store.{in_transaction, rolled_back}
use okk_analytics_codex_plug.Oauth.Register.{
  Limits, Payload, registered, registration_bucket, bucket_in, check_count, checked_redirects,
  check_registration_rate_limit, save_client, checked_flow, with_redirects, listed,
  submitted_payload, register_client,
}
use okk_analytics_codex_plug.Oauth.Register.Registered.{Outcome, register_client-Outcome}
use okk_analytics_codex_plug.Tests.Setup.{host, settings, world_with, start}
use okk_analytics_codex_plug.Tests.Redirects.{net}

abbrev limits : Limits
limits = record {
  registrations_per_hour = 20;
  trusted_networks = [];
  trusted_network_registrations_per_hour = 600;
  caller_address = λ s. none;
  count = λ key n. some 1;
}

abbrev payload : Payload
payload = record {
  redirect_uris = some ("https://chatgpt.com/connector" ∷ []);
  scope = some "email openid";
  grant_types = none;
  response_types = none;
  token_endpoint_auth_method = none;
  client_name = some "ChatGPT";
  client_uri = none;
}

abbrev fresh : World
fresh = record (world_with [] []) { draws = 3 }

abbrev new_client : Client
new_client = record {
  client_id = "xxx";
  client_name = "ChatGPT";
  redirect_uris = "https://chatgpt.com/connector" ∷ [];
  grant_types = "authorization_code" ∷ "refresh_token" ∷ [];
  response_types = "code" ∷ [];
  token_endpoint_auth_method = "none";
  scope = "email openid";
  client_uri = none;
  created_at = start + 1000000;
  expires_at = none;
  deleted_at = none;
  first_authorized_at = none;
}

registered_now :
    (register_client host settings net limits (some "1.2.3.4") (some payload) fresh).0
    ≡ ok (registered new_client)
unfolding register_client in_transaction rolled_back check_registration_rate_limit
    registration_bucket bucket_in check_count submitted_payload listed checked_redirects
    with_redirects checked_flow save_client validate_registered_redirect_uri validate_redirect_uri
    is_malformed is_space serialize_redirect_host serialize_name is_label check_port check_scheme
    is_loopback_host contains validate_scopes check_scopes sorted_set insert_sorted split join slice
    unique strip drop_front drop_end
registered_now = refl

register_client-Outcome_example :
    Outcome net settings fresh.clients
      (register_client host settings net limits (some "1.2.3.4") (some payload) fresh)
register_client-Outcome_example =
    register_client-Outcome host settings net limits (some "1.2.3.4") (some payload) fresh
