-- ===== src/Security/Pkce.antt =====
-- The PKCE functions of server/okk_mcp/security.py (RFC 7636).
use Prim.Native.Char.{Char, code}
use okk_analytics_codex_plug.Common.{String, Bool, ◌&&◌, ◌||◌, ◌==◌, leb, str_eq, all_chars, chars}
use okk_analytics_codex_plug.Effect.{Host}

-- a member of `_PKCE_CHARACTERS`: a letter, a digit, or one of `-._~`
unfoldable pub is_pkce_char : Char → Bool
is_pkce_char ch =
    let c = code ch in
    (leb b'a' c && leb c b'z')
    || (leb b'A' c && leb c b'Z')
    || (leb b'0' c && leb c b'9')
    || c == b'-'
    || c == b'.'
    || c == b'_'
    || c == b'~'

-- `_valid_pkce_string`
unfoldable pub valid_pkce_string : String → Bool
unfolding is_pkce_char
valid_pkce_string value =
    leb 43 (chars value) && leb (chars value) 128 && all_chars is_pkce_char value

unfoldable pub verify_pkce : Host → String → String → Bool
verify_pkce host verifier challenge =
    valid_pkce_string verifier && str_eq (host.sha256_b64 verifier) challenge

unfoldable pub valid_pkce_challenge : String → String → Bool
valid_pkce_challenge challenge method = str_eq method "S256" && valid_pkce_string challenge
