-- ===== src/Oauth/Authorize/Frame.antt =====
-- Finding the client of an authorization leaves the clients, codes and tokens alone.
use okk_analytics_codex_plug.Common.{String, Option, none, some, refl, arith}
use okk_analytics_codex_plug.Errors.{Result, ok, raised}
use okk_analytics_codex_plug.Models.{Client}
use okk_analytics_codex_plug.Effect.{Host, grants}
use okk_analytics_codex_plug.Effect.Preserves.{Preserves, preserve_rules}
use okk_analytics_codex_plug.ClientMetadata.Parsing.{ClientMetadata}
use okk_analytics_codex_plug.ClientMetadata.Network.{Web}
use okk_analytics_codex_plug.Platform.Account.Frame.{now-grants}
use okk_analytics_codex_plug.Security.Redirects.{Net}
use okk_analytics_codex_plug.Oauth.Types.{Settings}
use okk_analytics_codex_plug.Oauth.Authorize.{
  Service, loaded, saved_or_blocked, metadata_document_client, matching_client, usable_client,
  load_client,
}

module _ (host : Host) (settings : Settings) (net : Net) (web : Web) (service : Service) where
  loaded-grants : (id : String) → Preserves grants (loaded host settings net web service id)
  loaded-grants id = record { at = λ w. refl; grows = λ w. omega arith }

  saved-grants :
      (id : String) (r : Result ClientMetadata)
      → Preserves grants (saved_or_blocked host settings net web service id r)
  unfolding saved_or_blocked
  saved-grants id (ok m) = search preserve_rules depth 8
  saved-grants id (raised e) = search preserve_rules

  metadata-grants :
      (id : String) → Preserves grants (metadata_document_client host settings net web service id)
  unfolding metadata_document_client
  metadata-grants id = search (preserve_rules, loaded-grants, saved-grants) depth 8

  matching-grants :
      (uri : String) (c : Client)
      → Preserves grants (matching_client host settings net web service uri c)
  unfolding matching_client
  matching-grants uri c = search preserve_rules depth 6

  usable-grants :
      (uri : String) (o : Option Client)
      → Preserves grants (usable_client host settings net web service uri o)
  unfolding usable_client
  usable-grants uri none = search preserve_rules
  usable-grants uri (some c) = search (preserve_rules, now-grants, matching-grants) depth 10

  pub load_client-grants :
      (id uri : String) → Preserves grants (load_client host settings net web service id uri)
  unfolding load_client
  load_client-grants id uri = search (preserve_rules, metadata-grants, usable-grants) depth 8
