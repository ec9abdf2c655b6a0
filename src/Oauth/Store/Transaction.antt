-- ===== src/Oauth/Store/Transaction.antt =====
-- What a transaction answers and leaves: the handler's own outcome, and its own writes unless it
-- raises.
use okk_analytics_codex_plug.Common.{◌≡◌, refl}
use okk_analytics_codex_plug.Errors.{Exc, Result, ok, raised}
use okk_analytics_codex_plug.Effect.{World, Action, grants}
use okk_analytics_codex_plug.Oauth.Store.{rolled_back, in_transaction}

rolled_back_outcome :
    {A : Type 0} (w : World) (r : Result A) (w' : World) → (rolled_back w (r, w')).0 ≡ r
unfolding rolled_back
rolled_back_outcome w (ok a) w' = refl
rolled_back_outcome w (raised e) w' = refl

module _ {A : Type 0} (m : Action A) (w : World) where
  -- The outcome is the handler's.
  pub transaction_outcome : (in_transaction m w).0 ≡ (m w).0
  unfolding in_transaction
  transaction_outcome = rolled_back_outcome w (m w).0 (m w).1

  -- A handler that returns keeps its writes.
  pub transaction_commits : (a : A) → (m w).0 ≡ ok a → (in_transaction m w).1 ≡ (m w).1
  unfolding in_transaction
  transaction_commits a e = rw (e, rolled_back)

  -- A handler that raises leaves the clients, codes and tokens of before.
  pub transaction_rolls_back :
      (e : Exc) → (m w).0 ≡ raised e → grants (in_transaction m w).1 ≡ grants w
  unfolding in_transaction
  transaction_rolls_back e h = rw (h, rolled_back)
