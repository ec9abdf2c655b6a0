-- ===== src/Oauth/CodeGrant/Invariance.antt =====
-- A property of the rows through the code grant.
use okk_analytics_codex_plug.Common.{
  ℕ, suc, ◌≤◌, ◌≡◌, false, is_some, String, str_eq, Option, none, some, arith,
}
use okk_analytics_codex_plug.Models.{Code, Token}
use okk_analytics_codex_plug.Models.Rows.{Found, find_first-Found, update_where-All}
use okk_analytics_codex_plug.Effect.{Host, World, now, uuid4}
use okk_analytics_codex_plug.Effect.Keeps.{Keeps, Keeps-frame, keeps_rules}
use okk_analytics_codex_plug.Platform.Account.Frame.{now-grants, uuid4-grants}
use okk_analytics_codex_plug.Platform.Context.Frame.{revoke_upstream-grants}
use okk_analytics_codex_plug.Oauth.Types.{Settings, TokenForm}
use okk_analytics_codex_plug.Oauth.Invariant.{Rows, IsClosed}
use okk_analytics_codex_plug.Oauth.Store.Invariance.{revoke_where-Rows, add_token_pair-Rows}
use okk_analytics_codex_plug.Oauth.CodeGrant.{
  consume_code, authorize_client, revoke_replayed_code_grant, issue_family, issue_for_code,
  fresh_code, replayed_code, presented_code, code_grant, look_up_code, code_hash,
}
use okk_analytics_codex_plug.Oauth.Store.{find_code}

-- one more draw before the others
step : {P : Type 0} {n : ℕ} (w : World) → P × (suc w.draws ≤ n) → P × (w.draws ≤ n)
step w (p, le) = (p, omega arith)

module _ (host : Host) (settings : Settings) {d : ℕ} {PC : Code → Type 0} {PT : Token → Type 0}
    (closed : IsClosed host d PC PT) where
  consume_code-Rows : (hash : String) (at : ℕ) → Keeps d (Rows PC PT) (consume_code hash at)
  consume_code-Rows hash at = record {
    at = λ w b h. (
      record {
        codes =
            update_where-All PC (λ c. str_eq c.code_hash hash)
              (λ c. record c { consumed_at = some at }) w.codes (λ c _ s. closed.consumed c at s)
              h.codes;
        tokens = h.tokens;
      },
      omega arith,
    );
  }

  authorize_client-Rows : (id : String) (at : ℕ) → Keeps d (Rows PC PT) (authorize_client id at)
  authorize_client-Rows id at = record {
    at = λ w b h. (record { codes = h.codes; tokens = h.tokens }, omega arith);
  }

  now-Rows : Keeps d (Rows PC PT) (now host)
  now-Rows = Keeps-frame _ (now-grants host)

  uuid4-Rows : Keeps d (Rows PC PT) (uuid4 host)
  uuid4-Rows = Keeps-frame _ (uuid4-grants host)

  revoke_replayed_code_grant-Rows :
      (c : Code) → Keeps d (Rows PC PT) (revoke_replayed_code_grant host settings c)
  unfolding revoke_replayed_code_grant
  revoke_replayed_code_grant-Rows c =
      search
        (
          keeps_rules,
          now-Rows,
          revoke_where-Rows host settings closed,
          Keeps-frame,
          revoke_upstream-grants host,
        )
        depth 8

  issue_family-Rows :
      (form : TokenForm) (c : Code)
      → PC c
      → is_some c.consumed_at ≡ false
      → Keeps d (Rows PC PT) (issue_family host settings form c)
  unfolding issue_family
  issue_family-Rows form c pc e = record {
    at = λ w b h. step w (
        (add_token_pair-Rows host settings closed form.client_id c.session_id c.scope c.resource
            (host.uuid w.draws)
            (λ kind m expires bm.
              closed.from_code c kind form.client_id m w.draws expires bm b e pc)).at
          (uuid4 host w).1 (omega arith) h);
  }

  issue_for_code-Rows :
      (form : TokenForm) (c : Code)
      → PC c
      → is_some c.consumed_at ≡ false
      → Keeps d (Rows PC PT) (issue_for_code host settings form c)
  unfolding issue_for_code
  issue_for_code-Rows form c s e =
      search (keeps_rules, now-Rows, consume_code-Rows, authorize_client-Rows, issue_family-Rows)
        depth 14

  fresh_code-Rows :
      (form : TokenForm) (c : Code)
      → PC c
      → is_some c.consumed_at ≡ false
      → Keeps d (Rows PC PT) (fresh_code host settings form c)
  unfolding fresh_code
  fresh_code-Rows form c s e = search (keeps_rules, now-Rows, issue_for_code-Rows) depth 8

  replayed_code-Rows : (c : Code) → Keeps d (Rows PC PT) (replayed_code host settings c)
  unfolding replayed_code
  replayed_code-Rows c = search (keeps_rules, revoke_replayed_code_grant-Rows) depth 8

  presented_code-Rows :
      (form : TokenForm) (o : Option Code)
      → Found PC o
      → Keeps d (Rows PC PT) (presented_code host settings form o)
  unfolding presented_code
  presented_code-Rows form none s = search keeps_rules
  presented_code-Rows form (some c) s =
      search (keeps_rules, replayed_code-Rows, fresh_code-Rows) depth 8

  look_up_code-Rows : (form : TokenForm) → Keeps d (Rows PC PT) (look_up_code host settings form)
  unfolding look_up_code
  look_up_code-Rows form = record {
    at = λ w b h.
        (presented_code-Rows form (find_code (code_hash host form) w.codes) (
            find_first-Found PC (λ c. str_eq c.code_hash (code_hash host form)) w.codes h.codes)).at
          w b h;
  }

  pub code_grant-Rows : (form : TokenForm) → Keeps d (Rows PC PT) (code_grant host settings form)
  unfolding code_grant
  code_grant-Rows form = search (keeps_rules, look_up_code-Rows)
