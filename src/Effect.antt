-- ===== src/Effect.antt =====
-- What the gateway's code runs on: the tables, the platform client's memory, the requests sent to
-- OKK, the readings of the clock and the random values drawn. `Host` is what the code takes from
-- elsewhere: the clock, the random source, SHA-256, Fernet, JSON and the answers of OKK.
pub mod Preserves
pub mod Keeps
pub mod Outcomes
use Prim.Native.Char.{Char}
use okk_analytics_codex_plug.Json.{Json, Row}
use okk_analytics_codex_plug.Common.{ℕ, suc, String, Option, List, ◌∷◌, Bool, length}
use okk_analytics_codex_plug.Errors.{Exc, Result, ok, raised}
use okk_analytics_codex_plug.ClientMetadata.Network.{State}
use okk_analytics_codex_plug.Models.{Db, Client, Code, Token}

-- the user object of an OKK answer, its fields as `str(payload.get(...) or "")`
pub record User : Type 0 where
  pub id : String
  pub email : String
  pub role : String
  pub department_ids : List String
  -- the truth of `payload.get("is_active", True)`
  pub is_active : Bool

pub record Response : Type 0 where
  pub status : ℕ
  -- the first cookie `refresh_token` with a value
  pub refresh_cookie : Option String
  -- `str(payload.get("access_token") or "")`
  pub access_token : String
  -- `payload.get("user") or {}` of a login or refresh, and the whole payload of `/auth/me`
  pub user : User
  -- the body of an analytics answer
  pub body : String

-- `httpx.TransportError`, another `httpx.HTTPError`, or a response
pub data Answer : Type 0 where
  dropped : Answer
  failed : Answer
  response : Response → Answer

-- the query of a `GET`, and the JSON body of a `POST`
pub data Params : Type 0 where
  query : List (String × String) → Params
  json_body : Row → Params

pub data Request : Type 0 where
  -- `POST /auth/login` with email and password
  login : String → String → Request
  -- `GET /auth/me` with an access token
  me : String → Request
  -- `POST /auth/refresh` and `POST /auth/logout` with a refresh token in the cookie
  refresh : String → Request
  logout : String → Request
  -- a read: method, path, parameters, access token
  read : String → String → Params → String → Request

pub record Host : Type 0 where
  -- the n-th reading of the clock, the n-th random text and UUID, the answer to the n-th request
  pub now : ℕ → ℕ
  pub random : ℕ → String
  pub uuid : ℕ → ℕ
  pub answer : ℕ → Answer
  pub sha256_hex : String → String
  -- `urlsafe_b64encode(sha256(s).digest()).rstrip("=")`
  pub sha256_b64 : String → String
  -- Fernet with the session key: encryption draws a nonce, decryption may raise `InvalidToken`
  pub encrypt : ℕ → String → String
  pub decrypt : String → Option String
  -- `json.dumps({"access": a, "refresh": r})` and reading it back
  pub dumps_pair : String → String → String
  pub loads_pair : String → String × String
  pub lower : String → String
  -- `response.json()`, and `str` of a list or a dict
  pub loads : String → Json
  pub repr : Json → String
  -- `int(value)` of what is no number below
  pub int : Json → Result ℕ
  -- `unicodedata.normalize("NFKC", s).casefold()`, and classes of characters
  pub fold_case : String → String
  pub is_alnum : Char → Bool
  pub is_digit : Char → Bool
  pub is_decimal : Char → Bool
  pub is_upper : String → Bool
  pub is_hidden : Char → Bool

pub record World : Type 0 where
  pub db : Db
  pub open db use *
  -- `_renewed_access`: session id, expired and renewed access token, oldest first
  pub renewed : List (ℕ × String × String)
  -- the cache and the requests of client_metadata.py
  pub metadata : State
  -- the requests sent to OKK, newest first
  pub sent : List Request
  pub readings : ℕ
  pub draws : ℕ

-- Code that mutates a state and may raise. What was written before the raise stays written.
abbrev pub Stateful {ℓ} : Type 0 → Type ℓ → Type ℓ
Stateful S A = S → Result A × S

-- Code that mutates the world.
abbrev pub Action {ℓ} : Type ℓ → Type ℓ
Action A = World → Result A × World

module _ {ℓ} {S : Type 0} {A : Type ℓ} where
  abbrev pub pure : A → Stateful S A
  pure a w = (ok a, w)

  abbrev pub raise : Exc → Stateful S A
  raise e w = (raised e, w)

  abbrev pub lift : Result A → Stateful S A
  lift r w = (r, w)

  abbrev pub gets : (S → A) → Stateful S A
  gets f w = (ok (f w), w)

  -- `try: m except: handler`
  abbrev pub handled : Result A → (Exc → Stateful S A) → Stateful S A
  handled (ok a) h w = (ok a, w)
  handled (raised e) h w = h e w

  abbrev pub try : Stateful S A → (Exc → Stateful S A) → Stateful S A
  try m h w = handled (m w).0 h (m w).1

abbrev pub modify : {S : Type 0} → (S → S) → Stateful S (Unit {0})
modify f w = (ok tt, f w)

module _ {ℓ κ} {S : Type 0} {A : Type ℓ} {B : Type κ} where
  abbrev pub continue : Result A → (A → Stateful S B) → Stateful S B
  continue (ok a) f w = f a w
  continue (raised e) f w = (raised e, w)

  infixl 5 ◌>>=◌ ◌>>◌
  abbrev pub ◌>>=◌ : Stateful S A → (A → Stateful S B) → Stateful S B
  ◌>>=◌ m f w = continue (m w).0 f (m w).1

  abbrev pub ◌>>◌ : Stateful S A → Stateful S B → Stateful S B
  m >> n = m >>= λ _. n

  -- `try: m except ...`, where the code goes on by the outcome
  abbrev pub settle : Stateful S A → (Result A → Stateful S B) → Stateful S B
  settle m k w = k (m w).0 (m w).1

-- What the grants stand in: the clients, codes and tokens, which OKK sessions are no part of.
abbrev pub Grants : Type 0
Grants = List Client × List Code × List Token

abbrev pub grants : World → Grants
grants w = (w.clients, w.codes, w.tokens)

module _ (host : Host) where
  -- `datetime.now(UTC)`
  abbrev pub now : Action ℕ
  now w = (ok (host.now w.readings), record w { readings = suc w.readings })

  abbrev pub draw : Action String
  draw w = (ok (host.random w.draws), record w { draws = suc w.draws })

  abbrev pub uuid4 : Action ℕ
  uuid4 w = (ok (host.uuid w.draws), record w { draws = suc w.draws })

  -- Sends a request to OKK.
  abbrev pub send : Request → Action Answer
  send r w = (ok (host.answer (length w.sent)), record w { sent = r ∷ w.sent })
