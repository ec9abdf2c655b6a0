-- ===== src/Platform/Reads/Renewed.antt =====
-- The memory of renewed access tokens (`_remember_renewal` and `_current_access` of
-- server/okk_mcp/platform_client.py).
use okk_analytics_codex_plug.Common.{
  ℕ, suc, ◌≤◌, ◌<◌, ◌≡◌, refl, String, false, Bool-cases, inl, inr, List, [], ◌∷◌, ◌++◌, length,
  length-append, keep, All, ltb→lt, eq_iff, arith, not, ◌==◌, ltb,
}
use okk_analytics_codex_plug.Platform.Context.{AccountContext}
use okk_analytics_codex_plug.Platform.Rotation.{
  remember_renewal, bounded, drop_oldest, renewals_kept,
}
use okk_analytics_codex_plug.Platform.Reads.{renewed_for, current_access}

abbrev Memory : Type 0
Memory = List (ℕ × String × String)

abbrev others : ℕ → Memory → Memory
others sid cache = keep (λ e. not (e.0 == sid)) cache

length-others : (sid : ℕ) (cache : Memory) → length (others sid cache) ≤ length cache
length-others sid [] = omega arith
length-others sid (e ∷ rest) = elim (Bool-cases (e.0 == sid)) [
  | inl h ↦ rw h (omega (arith, length-others sid rest))
  | inr h ↦ rw h (omega (arith, length-others sid rest))
]

length-bounded :
    (cache : Memory) → length cache ≤ suc renewals_kept → length (bounded cache) ≤ renewals_kept
unfolding bounded drop_oldest
length-bounded [] h = omega arith
length-bounded (e ∷ rest) h = ground (arith, h)

-- no entry is the session's
abbrev Absent : ℕ → Memory → Type 0
Absent sid = All (λ e. (e.0 == sid) ≡ false)

others-Absent : (sid : ℕ) (cache : Memory) → Absent sid (others sid cache)
others-Absent sid [] = tt
others-Absent sid (e ∷ rest) = elim (Bool-cases (e.0 == sid)) [
  | inl h ↦ rw h (others-Absent sid rest)
  | inr h ↦ rw h (h, others-Absent sid rest)
]

module _ (sid : ℕ) (a b : String) where
  abbrev last : Memory
  last = (sid, a, b) ∷ []

  last_found : (cache : Memory) → Absent sid cache → renewed_for sid (cache ++ last) ≡ (a, b)
  unfolding renewed_for
  last_found [] h = ground arith
  last_found (e ∷ rest) h = rw h.0 (last_found rest h.1)

  -- the dropped entry is the oldest one, and not the last
  dropped_found :
      (cache : Memory)
      → Absent sid cache
      → renewals_kept < length (cache ++ last)
      → renewed_for sid (drop_oldest (cache ++ last)) ≡ (a, b)
  unfolding drop_oldest
  dropped_found [] h long = absurd (omega (arith, long))
  dropped_found (e ∷ rest) h long = last_found rest h.1

  bounded_found :
      (cache : Memory) → Absent sid cache → renewed_for sid (bounded (cache ++ last)) ≡ (a, b)
  unfolding bounded
  bounded_found cache h = elim (Bool-cases (ltb renewals_kept (length (cache ++ last)))) [
    | inl long ↦
        rw long (dropped_found cache h (ltb→lt renewals_kept (length (cache ++ last)) long))
    | inr short ↦ rw short (last_found cache h)
  ]

  -- After a renewal is remembered, a tool call that still holds the expired access token of the
  -- session takes the renewed one, and the memory keeps its bound of 1000 sessions.
  pub remembered :
      (cache : Memory) (context : AccountContext)
      → context.session_id ≡ sid
      → context.access_token ≡ a
      → length cache ≤ renewals_kept
      → (current_access context (remember_renewal sid a b cache) ≡ b)
        × (length (remember_renewal sid a b cache) ≤ renewals_kept)
  unfolding current_access remember_renewal
  remembered cache context same expired small = (
    rw
        (
          same,
          bounded_found (others sid cache) (others-Absent sid cache),
          (eq_iff context.access_token a).1 expired,
        )
        refl,
    length-bounded (others sid cache ++ last)
        (omega (arith, length-append (others sid cache) last, length-others sid cache, small)),
  )
