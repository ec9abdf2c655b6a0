-- ===== src/Platform/Reads/Paths.antt =====
-- The paths that `get` of server/okk_mcp/platform_client.py reads.
use okk_analytics_codex_plug.Common.{
  ℕ, ◌≡◌, refl, String, Bool, true, false, Bool-cases, inl, inr, ◌⊎◌, is_some, find?, starts_with,
  not, ◌||◌, arith,
}
use okk_analytics_codex_plug.Errors.{Result, raised, value_error}
use okk_analytics_codex_plug.Effect.{Host, Params, World}
use okk_analytics_codex_plug.Platform.Context.{AccountContext}
use okk_analytics_codex_plug.Platform.Reads.{validate_read_path, get, get_with_context}

-- The path is absolute, climbs nowhere, and is no path of the login routes.
pub record IsReadPath (path : String) : Type 0 where
  pub absolute : starts_with path "/" ≡ true
  pub no_climb : is_some (find? path "..") ≡ false
  pub no_auth : starts_with path "/auth/" ≡ false

abbrev pub refusal : {A : Type 0} → Result A
refusal = raised (value_error "Only allowlisted OKK analytics GET paths are permitted")

clean : (a b c : Bool) → (not a || b || c) ≡ false → (a ≡ true) × (b ≡ false) × (c ≡ false)
clean a b c h = ground arith

validated : (path : String) → (validate_read_path path ≡ refusal) ⊎ IsReadPath path
unfolding validate_read_path
validated path =
    elim (Bool-cases
      (not (starts_with path "/") || is_some (find? path "..") || starts_with path "/auth/")) [
        | inl e ↦ inl (rw e)
        | inr e ↦
            let (a, b, c) =
              clean (starts_with path "/") (is_some (find? path "..")) (starts_with path "/auth/")
                e in
            inr (record { absolute = a; no_climb = b; no_auth = c })
      ]

-- A read is refused with nothing sent and nothing changed, unless its path starts with a slash, has
-- no two dots in a row, and does not start with `/auth/`: both for a context at hand and for one that
-- is looked up first.
pub reads_only_allowed :
    (host : Host) (path : String) (params : Params) (sid : ℕ) (context : AccountContext) (w : World)
    → ((get host sid path params w ≡ (refusal, w))
        × (get_with_context host context path params w ≡ (refusal, w)))
      ⊎ IsReadPath path
unfolding get get_with_context
reads_only_allowed host path params sid context w = elim (validated path) [
  | inl e ↦ inl (rw e refl, rw e refl)
  | inr e ↦ inr e
]
