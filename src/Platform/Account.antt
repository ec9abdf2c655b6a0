-- ===== src/Platform/Account.antt =====
-- The login, refresh and `/auth/me` calls of server/okk_mcp/platform_client.py and what their
-- answers must hold.
pub mod Frame
pub mod Accepted
use okk_analytics_codex_plug.Common.{
  String, not, ◌||◌, none, some, List, ◌==◌, leb, str_eq, nonempty, strip, if◌then◌else◌,
}
use okk_analytics_codex_plug.Errors.{Result, ok, raised, authentication_error, unavailable}
use okk_analytics_codex_plug.Models.{Session}
use okk_analytics_codex_plug.Effect.{
  Host, Action, Answer, response, Response, User, login, me, refresh, pure, lift, ◌>>=◌, now, uuid4,
  send,
}
use okk_analytics_codex_plug.Crypto.{seal}

pub record UserFields : Type 0 where
  pub user_id : String
  pub email : String
  pub role : String
  pub department_ids : List String

-- `_refresh_cookie`
unfoldable pub refresh_cookie : Response → Result String
refresh_cookie r = elim r.refresh_cookie [
  | none ↦ raised (authentication_error "OKK did not issue a refresh session")
  | some value ↦ ok value
]

-- `_me_payload`
unfoldable pub me_payload : Response → Result User
me_payload r =
    if r.status == 200
    then ok r.user
    else if leb 500 r.status
    then raised (unavailable "OKK is temporarily unavailable")
    else raised (authentication_error "OKK rejected the account session")

-- a transport failure of httpx becomes `OKKUnavailable`
unfoldable pub responded : String → Answer → Result Response
responded message (response r) = ok r
responded message _ = raised (unavailable message)

-- the status checks that `authenticate` and `_refresh` share: 401, 5xx, anything but 200
unfoldable pub checked : String → String → String → Response → Result Response
checked denied down rejected r =
    if r.status == 401
    then raised (authentication_error denied)
    else if leb 500 r.status
    then raised (unavailable down)
    else if not (r.status == 200)
    then raised (authentication_error rejected)
    else ok r

unfoldable pub issued : String → String → Result String
issued message access_token =
    if nonempty access_token then ok access_token else raised (authentication_error message)

module _ (host : Host) where
  -- `_user_fields`
  unfoldable pub user_fields : User → Result UserFields
  user_fields u =
      let email = host.lower (strip u.email) in
      if not (nonempty u.id)
        || not (nonempty email)
        || not (str_eq u.role "admin" || str_eq u.role "viewer")
        || not u.is_active
      then raised (authentication_error "OKK account is inactive or has an unsupported role")
      else ok (record {
        user_id = u.id;
        email = email;
        role = u.role;
        department_ids = u.department_ids;
      })

  -- the session row of an answer to a login
  unfoldable pub opened_session : Answer → Action Session
  opened_session answer = do
    r ← lift (responded "OKK login is temporarily unavailable" answer)
    r ← lift (
        checked "Invalid OKK login or password" "OKK login is temporarily unavailable"
          "OKK rejected the login request" r)
    access_token ← lift (issued "OKK did not issue an access session" r.access_token)
    refresh_token ← lift (refresh_cookie r)
    fields ← lift (user_fields r.user)
    sealed_access ← seal host access_token
    sealed_refresh ← seal host refresh_token
    verified ← now host
    id ← uuid4 host
    pure (record {
      id = id;
      okk_user_id = fields.user_id;
      encrypted_access_token = sealed_access;
      encrypted_refresh_token = sealed_refresh;
      role_snapshot = fields.role;
      department_ids_snapshot = fields.department_ids;
      revoked_at = none;
      last_verified_at = some verified;
    })

  -- `authenticate`; the caller adds the returned session row
  unfoldable pub authenticate : String → String → Action Session
  unfolding opened_session
  authenticate email password = do
    answer ← send host (login (strip email) password)
    opened_session answer

  -- `_get_me`
  unfoldable pub get_me : String → Action Response
  get_me access_token = do
    answer ← send host (me access_token)
    lift (responded "OKK is temporarily unavailable" answer)

  -- `_refresh`: the new access token, the rotated refresh token and the user
  unfoldable pub refresh_session : String → Action (String × String × User)
  refresh_session refresh_token = do
    answer ← send host (refresh refresh_token)
    r ← lift (responded "OKK session refresh is temporarily unavailable" answer)
    r ← lift (
        checked "OKK session has expired; reconnect the plugin"
          "OKK session refresh is temporarily unavailable" "OKK rejected the session refresh" r)
    access_token ← lift (issued "OKK did not refresh the access session" r.access_token)
    rotated ← lift (refresh_cookie r)
    pure (access_token, rotated, r.user)
