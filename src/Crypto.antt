-- ===== src/Crypto.antt =====
-- server/okk_mcp/crypto.py: the session cipher over Fernet.
use okk_analytics_codex_plug.Common.{String, Option, none, some, suc}
use okk_analytics_codex_plug.Effect.{Host, Action, pure, raise}
use okk_analytics_codex_plug.Errors.{ok, permission_error}

module _ (host : Host) where
  -- `SessionCipher.seal`: every encryption draws its own nonce.
  abbrev pub seal : String → Action String
  seal value w = (ok (host.encrypt w.draws value), record w { draws = suc w.draws })

  abbrev pub opened : Option String → Action String
  opened none = raise (permission_error "Stored OKK session is no longer readable")
  opened (some value) = pure value

  -- `SessionCipher.open`
  abbrev pub open_sealed : String → Action String
  open_sealed value = opened (host.decrypt value)
