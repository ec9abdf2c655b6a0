-- ===== src/Oauth/Store.antt =====
-- What the handlers of server/okk_mcp/oauth.py do with the tables: queries, updates, and the pair of
-- tokens that a grant issues. A handler runs in one transaction (`get_db` of server/okk_mcp/db.py).
pub mod Invariance
pub mod Transaction
use okk_analytics_codex_plug.Common.{
  ℕ, ◌+◌, ◌*◌, String, Bool, not, ◌&&◌, Option, none, some, List, ◌∷◌, str_eq, is_some, find_first,
}
use okk_analytics_codex_plug.Errors.{Result, ok, raised}
use okk_analytics_codex_plug.Models.{
  Client, Code, Token, TokenType, access, refresh, is_refresh, update_where, minutes, days,
}
use okk_analytics_codex_plug.Effect.{Host, World, Action, pure, modify, ◌>>=◌, ◌>>◌, now, draw}
use okk_analytics_codex_plug.Oauth.Types.{Settings, Reply, oauth_error, token_response}

-- the rows of clients, codes and tokens that an exception rolls back
unfoldable pub rolled_back : World → {A : Type 0} → Result A × World → Result A × World
rolled_back w (ok a, w') = (ok a, w')
rolled_back w (raised e, w') = (
  raised e,
  record w' { db = record w'.db { clients = w.clients; codes = w.codes; tokens = w.tokens } },
)

-- `get_db`
unfoldable pub in_transaction : {A : Type 0} → Action A → Action A
unfolding rolled_back
in_transaction m w = rolled_back w (m w)

abbrev pub find_client : String → List Client → Option Client
find_client id = find_first (λ c. str_eq c.client_id id && not (is_some c.deleted_at))

abbrev pub find_code : String → List Code → Option Code
find_code hash = find_first (λ c. str_eq c.code_hash hash)

abbrev pub find_token : String → List Token → Option Token
find_token hash = find_first (λ t. str_eq t.token_hash hash)

abbrev pub find_refresh : String → List Token → Option Token
find_refresh hash = find_first (λ t. str_eq t.token_hash hash && is_refresh t.token_type)

abbrev pub set_tokens : (List Token → List Token) → Action (Unit {0})
set_tokens f = modify λ w. record w { db = record w.db { tokens = f w.tokens } }

-- `UPDATE oauth_tokens SET revoked_at = at WHERE ... AND revoked_at IS NULL`
abbrev pub revoke_where : (Token → Bool) → ℕ → List Token → List Token
revoke_where p at =
    update_where (λ t. p t && not (is_some t.revoked_at)) (λ t. record t { revoked_at = some at })

unfoldable pub invalid_grant : String → Reply
invalid_grant description = oauth_error "invalid_grant" description 400

unfoldable pub code_invalid : Reply
unfolding invalid_grant
code_invalid = invalid_grant "Authorization code is invalid or expired"

unfoldable pub refresh_invalid : Reply
unfolding invalid_grant
refresh_invalid = invalid_grant "Refresh token is invalid or expired"

-- a row of `OAuthToken` as it is issued: neither used nor revoked, with no successor
abbrev pub new_token : String → TokenType → String → ℕ → String → String → ℕ → ℕ → Token
new_token hash kind client_id session_id scope resource family_id expires_at = record {
  token_hash = hash;
  token_type = kind;
  client_id = client_id;
  session_id = session_id;
  scope = scope;
  resource = resource;
  family_id = family_id;
  expires_at = expires_at;
  consumed_at = none;
  revoked_at = none;
  replaced_by_hash = none;
  successor_sealed = none;
}

module _ (host : Host) (settings : Settings) where
  -- `_add_token_pair`: the raw tokens, and the hash of the refresh token
  unfoldable pub add_token_pair :
      String → ℕ → String → String → ℕ → Action (String × String × String)
  add_token_pair client_id session_id scope resource family_id = do
    raw_access ← draw host
    raw_refresh ← draw host
    let access_hash = host.sha256_hex raw_access
    let refresh_hash = host.sha256_hex raw_refresh
    at ← now host
    set_tokens λ rows.
        new_token access_hash access client_id session_id scope resource family_id
          (at + minutes settings.access_token_minutes)
        ∷ new_token refresh_hash refresh client_id session_id scope resource family_id
            (at + days settings.refresh_token_days)
        ∷ rows
    pure (raw_access, raw_refresh, refresh_hash)

  -- `_token_response`
  unfoldable pub token_pair_response : String → String → String → Reply
  token_pair_response raw_access raw_refresh scope =
      token_response raw_access raw_refresh scope (settings.access_token_minutes * 60)
