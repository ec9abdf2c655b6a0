-- ===== src/Oauth/Store/Invariance.antt =====
-- A property of the rows through the operations that every grant shares.
use okk_analytics_codex_plug.Common.{ℕ, suc, ◌≤◌, String, Bool, some, arith}
use okk_analytics_codex_plug.Errors.{Result, ok, raised}
use okk_analytics_codex_plug.Models.{Code, Token, TokenType, access, refresh, update_where}
use okk_analytics_codex_plug.Models.Rows.{update_where-All}
use okk_analytics_codex_plug.Effect.{Host, World, Action, Grants, grants}
use okk_analytics_codex_plug.Effect.Keeps.{Keeps}
use okk_analytics_codex_plug.Oauth.Types.{Settings}
use okk_analytics_codex_plug.Oauth.Invariant.{Rows, IsClosed}
use okk_analytics_codex_plug.Oauth.Store.{
  rolled_back, in_transaction, revoke_where, set_tokens, add_token_pair, new_token,
}

rolled_back-Keeps :
    {A : Type 0} (Q : Grants → Type 0) (w : World) (r : Result A) (w' : World)
    → Q (grants w)
    → Q (grants w')
    → Q (grants (rolled_back w (r, w')).1)
unfolding rolled_back
rolled_back-Keeps Q w (ok a) w' q q' = q'
rolled_back-Keeps Q w (raised e) w' q q' = q

rolled_back-grows :
    {A : Type 0} (w : World) (r : Result A) (w' : World)
    → w.draws ≤ w'.draws
    → w.draws ≤ (rolled_back w (r, w')).1.draws
unfolding rolled_back
rolled_back-grows w (ok a) w' h = h
rolled_back-grows w (raised e) w' h = h

-- A transaction keeps what its handler keeps: a rollback restores the rows of before.
pub in_transaction-Keeps :
    {A : Type 0} {d : ℕ} {Q : Grants → Type 0} (m : Action A)
    → Keeps d Q m
    → Keeps d Q (in_transaction m)
unfolding in_transaction
in_transaction-Keeps {Q = Q} m k = record {
  at = λ w b q. (
    rolled_back-Keeps Q w (m w).0 (m w).1 q (k.at w b q).0,
    rolled_back-grows w (m w).0 (m w).1 (k.at w b q).1,
  );
}

module _ (host : Host) (settings : Settings) {d : ℕ} {PC : Code → Type 0} {PT : Token → Type 0}
    (closed : IsClosed host d PC PT) where
  -- Revoking tokens, whichever are selected.
  pub revoke_where-Rows :
      (p : Token → Bool) (at : ℕ) → Keeps d (Rows PC PT) (set_tokens (revoke_where p at))
  revoke_where-Rows p at = record {
    at = λ w b h. (
      record {
        codes = h.codes;
        tokens = update_where-All PT _ _ w.tokens (λ t _. closed.revoked t at) h.tokens;
      },
      omega arith,
    );
  }

  pub revoke_one-Rows :
      (p : Token → Bool) (at : ℕ)
      → Keeps d (Rows PC PT) (set_tokens (update_where p (λ t. record t { revoked_at = some at })))
  revoke_one-Rows p at = record {
    at = λ w b h. (
      record {
        codes = h.codes;
        tokens = update_where-All PT p _ w.tokens (λ t _. closed.revoked t at) h.tokens;
      },
      omega arith,
    );
  }

  -- A new pair of tokens, if the property holds of every such token.
  pub add_token_pair-Rows :
      (client_id : String) (session_id : ℕ) (scope resource : String) (family_id : ℕ)
      → ((kind : TokenType) (m expires : ℕ)
          → d ≤ m
          → PT (
              new_token
                (host.sha256_hex (host.random m))
                kind
                client_id
                session_id
                scope
                resource
                family_id
                expires))
      → Keeps d
          (Rows PC PT)
          (add_token_pair host settings client_id session_id scope resource family_id)
  unfolding add_token_pair
  add_token_pair-Rows client_id session_id scope resource family_id new = record {
    at = λ w b h. (
      record {
        codes = h.codes;
        tokens = (new access w.draws _ b, (new refresh (suc w.draws) _ (omega arith), h.tokens));
      },
      omega arith,
    );
  }
