-- ===== src/ClientMetadata/Cache.antt =====
-- The cache of metadata documents is bounded, and holds what was loaded last.
use okk_analytics_codex_plug.Common.{
  ℕ, suc, ◌+◌, ◌≤◌, ◌≡◌, refl, String, false, Bool-cases, inl, inr, some, List, [], ◌∷◌, ◌++◌, All,
  length, length-append, keep, not, str_eq, eq_refl, leb, arith,
}
use okk_analytics_codex_plug.ClientMetadata.Parsing.{ClientMetadata}
use okk_analytics_codex_plug.ClientMetadata.{
  cache_max_entries, cached, drop_oldest_entry, remember_metadata,
}

abbrev Entries : Type 0
Entries = List (String × ℕ × ClientMetadata)

-- no entry is the client's
abbrev Without : String → Entries → Type 0
Without id = All (λ e. str_eq e.0 id ≡ false)

module _ (id : String) (expires : ℕ) (metadata : ClientMetadata) where
  abbrev others : Entries → Entries
  others = keep (λ e. not (str_eq e.0 id))

  others-Without : (cache : Entries) → Without id (others cache)
  others-Without [] = tt
  others-Without (e ∷ rest) = elim (Bool-cases (str_eq e.0 id)) [
    | inl h ↦ rw h (others-Without rest)
    | inr h ↦ rw h (h, others-Without rest)
  ]

  length-others : (cache : Entries) → length (others cache) ≤ length cache
  length-others [] = omega arith
  length-others (e ∷ rest) = elim (Bool-cases (str_eq e.0 id)) [
    | inl h ↦ rw h (omega (arith, length-others rest))
    | inr h ↦ rw h (omega (arith, length-others rest))
  ]

  abbrev entry : Entries
  entry = (id, expires, metadata) ∷ []

  last_found :
      (cache : Entries) → Without id cache → cached id (cache ++ entry) ≡ some (expires, metadata)
  unfolding cached
  last_found [] h = rw (eq_refl id) refl
  last_found (e ∷ rest) h = rw h.0 (last_found rest h.1)

  dropped-Without : (cache : Entries) → Without id cache → Without id (drop_oldest_entry cache)
  unfolding drop_oldest_entry
  dropped-Without [] h = tt
  dropped-Without (e ∷ rest) h = h.1

  length-dropped :
      (cache : Entries)
      → length cache ≤ cache_max_entries
      → suc (length (drop_oldest_entry cache)) ≤ cache_max_entries
  unfolding drop_oldest_entry
  length-dropped [] h = omega arith
  length-dropped (e ∷ rest) h = omega (arith, h)

  -- A document that is remembered is found under its client id with its instant of expiry, and the
  -- cache keeps its bound of 256 entries.
  pub remember_metadata_lem :
      (cache : Entries)
      → length cache ≤ cache_max_entries
      → (cached id (remember_metadata id expires metadata cache) ≡ some (expires, metadata))
        × (length (remember_metadata id expires metadata cache) ≤ cache_max_entries)
  unfolding remember_metadata
  remember_metadata_lem cache small =
      elim (Bool-cases (leb cache_max_entries (length (others cache)))) [
        | inl full ↦ (
          rw full (
              last_found (drop_oldest_entry (others cache))
                (dropped-Without (others cache) (others-Without cache))),
          rw full (
              omega (
                arith,
                length-append (drop_oldest_entry (others cache)) entry,
                length-dropped (others cache) (omega (arith, length-others cache, small)),
              )),
        )
        | inr free ↦ (
          rw free (last_found (others cache) (others-Without cache)),
          rw free (room (length (others cache)) (length-append (others cache) entry) free),
        )
      ]
    where
      room : {m : ℕ} (n : ℕ) → m ≡ n + 1 → leb cache_max_entries n ≡ false → m ≤ cache_max_entries
      room n e free = ground (arith, e, free)
