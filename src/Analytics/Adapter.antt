-- ===== src/Analytics/Adapter.antt =====
-- The state of an `AnalyticsAdapter` of server/okk_mcp/backend_client.py, and its reads: `context`,
-- `_get`, `_phone_lookup`, `_transcript_search`, `_query` and `_json_body`.
use okk_analytics_codex_plug.Common.{
  ℕ, String, Bool, true, false, Option, none, some, List, [], ◌∷◌, ◌++◌, map, str_eq, if◌then◌else◌,
}
use okk_analytics_codex_plug.Errors.{Result}
use okk_analytics_codex_plug.Json.{
  Json, null, boolean, array, Row, no_fields, field, items, is_null,
}
use okk_analytics_codex_plug.Json.Spelling.{spell}
use okk_analytics_codex_plug.Effect.{Host, World, Action, query, pure, gets, modify, ◌>>=◌, ◌>>◌}
use okk_analytics_codex_plug.Platform.Context.{AccountContext, live_context}
use okk_analytics_codex_plug.Platform.Reads.{
  get_with_context, phone_lookup_with_context, transcript_search_with_context,
}

-- What an adapter remembers during one tool call, over the world that the platform client changes.
pub record AdapterState : Type 0 where
  pub context : Option AccountContext
  pub departments : Option (List Row)
  pub restricted_supervisors : Option (List Row)
  -- `_call_employees`, newest first
  pub call_employees : List (String × Option Row)
  pub world : World

-- a method of the adapter
abbrev pub Call {ℓ} : Type ℓ → Type ℓ
Call A = AdapterState → Result A × AdapterState

-- an action of the platform client, run by the adapter
abbrev pub act {ℓ} : {A : Type ℓ} → Action A → Call A
act m s = let out = m s.world in (out.0, record s { world = out.1 })

-- `is_admin` of the account context
unfoldable pub is_admin : AccountContext → Bool
is_admin c = str_eq c.role "admin"

-- `_json_body`; the dates of a body are given as their ISO texts
unfoldable pub without_null : Row → Row
unfolding is_null
without_null no_fields = no_fields
without_null (field k v rest) =
    let later = without_null rest in if is_null v then later else field k v later

module _ (host : Host) where
  -- one keyword argument of `_query`; a date is given as its ISO text
  unfoldable pub query_pairs : String → Json → List (String × String)
  unfolding items
  query_pairs k null = []
  query_pairs k (boolean true) = (k, "true") ∷ []
  query_pairs k (boolean false) = (k, "false") ∷ []
  query_pairs k (array vs) = map (λ v. (k, spell host.repr v)) (items vs)
  query_pairs k v = (k, spell host.repr v) ∷ []

  -- `_query`
  unfoldable pub query_of : Row → List (String × String)
  unfolding query_pairs
  query_of no_fields = []
  query_of (field k v rest) = query_pairs k v ++ query_of rest

  module _ (session_id : ℕ) where
    abbrev pub known_context : Option AccountContext → Call AccountContext
    known_context (some c) = pure c
    known_context none = do
      c ← act (live_context host session_id)
      modify (λ s. record s { context = some c })
      pure c

    -- `context`
    unfoldable pub context : Call AccountContext
    context = do known ← gets (λ s. s.context); known_context known

    -- `_get`
    unfoldable pub get_json : String → Row → Call Json
    unfolding context query_of
    get_json path params = do
      c ← context
      body ← act (get_with_context host c path (query (query_of params)))
      pure (host.loads body)

    -- `_phone_lookup` and `_transcript_search`
    unfoldable pub phone_lookup : Row → Call Json
    unfolding context without_null
    phone_lookup params = do
      c ← context
      body ← act (phone_lookup_with_context host c (without_null params))
      pure (host.loads body)

    unfoldable pub transcript_search : Row → Call Json
    unfolding context without_null
    transcript_search params = do
      c ← context
      body ← act (transcript_search_with_context host c (without_null params))
      pure (host.loads body)
