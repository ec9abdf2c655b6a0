-- ===== src/Models.antt =====
-- server/okk_mcp/models.py: the rows of the gateway's tables. Instants are microseconds, the
-- resolution of Python's `datetime`, and UUIDs are numbers. A table is the list of its rows.
pub mod Rows
use okk_analytics_codex_plug.Common.{
  ℕ, ◌*◌, String, Option, List, [], ◌∷◌, Bool, ◌==◌, str_eq, find_first, map, if◌then◌else◌,
}

-- `timedelta(seconds=n)`, `timedelta(minutes=n)` and `timedelta(days=n)`
abbrev pub seconds : ℕ → ℕ
seconds n = n * 1000000

abbrev pub minutes : ℕ → ℕ
minutes n = n * 60000000

abbrev pub days : ℕ → ℕ
days n = n * 86400000000

pub record Client : Type 0 where
  pub client_id : String
  pub client_name : String
  pub redirect_uris : List String
  pub grant_types : List String
  pub response_types : List String
  pub token_endpoint_auth_method : String
  pub scope : String
  pub client_uri : Option String
  pub created_at : ℕ
  pub expires_at : Option ℕ
  pub deleted_at : Option ℕ
  pub first_authorized_at : Option ℕ

pub record Session : Type 0 where
  pub id : ℕ
  pub okk_user_id : String
  pub encrypted_access_token : String
  pub encrypted_refresh_token : String
  pub role_snapshot : String
  pub department_ids_snapshot : List String
  pub revoked_at : Option ℕ
  pub last_verified_at : Option ℕ

pub record Code : Type 0 where
  pub code_hash : String
  pub client_id : String
  pub session_id : ℕ
  pub redirect_uri : String
  pub scope : String
  pub code_challenge : String
  pub resource : String
  pub expires_at : ℕ
  pub consumed_at : Option ℕ

-- the check constraint `token_type IN ('access', 'refresh')`
pub data TokenType : Type 0 where
  access refresh : TokenType

pub record Token : Type 0 where
  pub token_hash : String
  pub token_type : TokenType
  pub client_id : String
  pub session_id : ℕ
  pub scope : String
  pub resource : String
  pub family_id : ℕ
  pub expires_at : ℕ
  pub consumed_at : Option ℕ
  pub revoked_at : Option ℕ
  pub replaced_by_hash : Option String
  pub successor_sealed : Option String

pub record Db : Type 0 where
  pub clients : List Client
  pub sessions : List Session
  pub codes : List Code
  pub tokens : List Token

abbrev pub is_refresh : TokenType → Bool
is_refresh access = Bool.false
is_refresh refresh = Bool.true

-- `UPDATE table SET ... WHERE p`
abbrev pub update_where {ℓ} : {A : Type ℓ} → (A → Bool) → (A → A) → List A → List A
update_where p f [] = []
update_where p f (x ∷ xs) = (if p x then f x else x) ∷ update_where p f xs
