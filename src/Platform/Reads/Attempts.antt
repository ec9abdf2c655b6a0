-- ===== src/Platform/Reads/Attempts.antt =====
-- How often `_send_read` of server/okk_mcp/platform_client.py sends a read, and which answer it takes.
use okk_analytics_codex_plug.Common.{
  ℕ, zero, suc, ◌+◌, ◌≤◌, ◌≡◌, refl, String, true, false, Bool-cases, inl, inr, ◌⊎◌, List, [], ◌∷◌,
  length, arith, ap, ◌∙◌, subst,
}
use okk_analytics_codex_plug.Errors.{Result, ok}
use okk_analytics_codex_plug.Effect.{Host, World, Answer, Params, Request, read}
use okk_analytics_codex_plug.Platform.Reads.{
  is_transient, read_retry_delays, send_attempts, send_read,
}

-- the same request, k times, in front of those sent before
abbrev pub repeated : ℕ → Request → List Request → List Request
repeated zero request rest = rest
repeated (suc k) request rest = request ∷ repeated k request rest

repeated-front :
    (k : ℕ) (request : Request) (rest : List Request)
    → repeated k request (request ∷ rest) ≡ request ∷ repeated k request rest
repeated-front zero request rest = refl
repeated-front (suc k) request rest = rw (repeated-front k request rest)

-- A run of a read that may be repeated at most `spare` times.
pub record Attempts (host : Host) (spare : ℕ) (request : Request) (w : World)
    (out : Result Answer × World) : Type 0 where
  -- the repeats made
  pub repeats : ℕ
  pub within : repeats ≤ spare
  -- nothing but the requests that were sent has changed
  pub after : out.1 ≡ record w { sent = repeated (suc repeats) request w.sent }
  pub answer : out.0 ≡ ok (host.answer (length w.sent + repeats))
  pub earlier_failed :
      (k : ℕ) → suc k ≤ repeats → is_transient (host.answer (length w.sent + k)) ≡ true
  pub gave_up : (repeats ≡ spare) ⊎ (is_transient (host.answer (length w.sent + repeats)) ≡ false)

module _ (host : Host) (request : Request) where
  -- the first answer and the later ones
  earlier :
      (start repeats : ℕ)
      → is_transient (host.answer start) ≡ true
      → ((k : ℕ) → suc k ≤ repeats → is_transient (host.answer (suc start + k)) ≡ true)
      → (k : ℕ) → suc k ≤ suc repeats
      → is_transient (host.answer (start + k)) ≡ true
  earlier start repeats e later zero h =
      subst (λ n. is_transient (host.answer n) ≡ true) (omega arith) e
  earlier start repeats e later (suc k) h =
      subst (λ n. is_transient (host.answer n) ≡ true) (omega arith) (later k (omega (arith, h)))

  given_up :
      (start repeats spare : ℕ)
      → (repeats ≡ spare) ⊎ (is_transient (host.answer (suc start + repeats)) ≡ false)
      → (suc repeats ≡ suc spare) ⊎ (is_transient (host.answer (start + suc repeats)) ≡ false)
  given_up start repeats spare (inl e) = inl (omega (arith, e))
  given_up start repeats spare (inr e) =
      inr (subst (λ n. is_transient (host.answer n) ≡ false) (omega arith) e)

  attempts :
      (delays : List ℕ) (w : World)
      → Attempts host (length delays) request w (send_attempts host delays request w)
  unfolding send_attempts
  attempts [] w = record {
    repeats = 0;
    within = omega arith;
    after = refl;
    answer = ap (λ n. ok (host.answer n)) (omega arith);
    earlier_failed = λ k h. absurd (omega (arith, h));
    gave_up = inl refl;
  }
  attempts (delay ∷ delays) w = elim (Bool-cases (is_transient (host.answer (length w.sent)))) [
    | inl e ↦
        let later = attempts delays (record w { sent = request ∷ w.sent }) in
        rw e (record {
          repeats = suc later.repeats;
          within = omega (arith, later.within);
          after =
              later.after
              ∙ ap (λ requests. record w { sent = requests })
                  (repeated-front (suc later.repeats) request w.sent);
          answer = later.answer ∙ ap (λ n. ok (host.answer n)) (omega arith);
          earlier_failed = earlier (length w.sent) later.repeats e later.earlier_failed;
          gave_up = given_up (length w.sent) later.repeats (length delays) later.gave_up;
        })
    | inr e ↦ rw e (record {
      repeats = 0;
      within = omega arith;
      after = refl;
      answer = ap (λ n. ok (host.answer n)) (omega arith);
      earlier_failed = λ k h. absurd (omega (arith, h));
      gave_up = inr (subst (λ n. is_transient (host.answer n) ≡ false) (omega arith) e);
    })
  ]

-- `_send_read` sends the same read one to three times and changes nothing else. It takes the last
-- answer; every earlier one was transient (a dropped connection or 502, 503, 504), and the last one is
-- not, unless it is the third.
pub send_read-Attempts :
    (host : Host) (method path access_token : String) (params : Params) (w : World)
    → Attempts host 2
        (read method path params access_token)
        w
        (send_read host method path params access_token w)
unfolding send_read
send_read-Attempts host method path access_token params w =
    attempts host (read method path params access_token) read_retry_delays w
