-- ===== src/Tests/Redirects.antt =====
-- A registered redirect URI at a concrete input.
use okk_analytics_codex_plug.Common.{
  String, ◌≡◌, ◌⊎◌, refl, true, none, some, List, [], ◌∷◌, contains, is_space,
}
use okk_analytics_codex_plug.Errors.{ok}
use okk_analytics_codex_plug.Security.Redirects.{
  Net, is_label, serialize_name, serialize_redirect_host, is_loopback_host, is_malformed,
  check_port, check_scheme, validate_redirect_uri, validate_registered_redirect_uri,
}
use okk_analytics_codex_plug.Security.Redirects.Registered.{IsRedirect, registered_redirect_lem}

-- the parts of one address
abbrev pub net : Net
net = record {
  urlparse = λ s. record {
    scheme = "https";
    hostname = some "chatgpt.com";
    username = none;
    password = none;
    port = ok none;
  };
  ip_address = λ s. none;
  idna = λ s. some s;
  lower = λ s. s;
  labels = λ s. "chatgpt" ∷ "com" ∷ [];
  digits = λ n. "443";
}

abbrev allowed : List String
allowed = "https://chatgpt.com/connector" ∷ []

registered :
    validate_registered_redirect_uri net "https://chatgpt.com/connector" allowed
    ≡ ok "https://chatgpt.com/connector"
unfolding validate_registered_redirect_uri validate_redirect_uri is_malformed is_space
    serialize_redirect_host serialize_name is_label check_port check_scheme is_loopback_host
    contains
registered = refl

registered_redirect_lem_example :
    IsRedirect net "https://chatgpt.com/connector" "https://chatgpt.com/connector"
    × ((is_loopback_host net "chatgpt.com" ≡ true)
        ⊎ (contains "https://chatgpt.com/connector" allowed ≡ true))
registered_redirect_lem_example =
    registered_redirect_lem net "https://chatgpt.com/connector" "https://chatgpt.com/connector"
      allowed registered
