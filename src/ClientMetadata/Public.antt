-- ===== src/ClientMetadata/Public.antt =====
-- A metadata document is fetched from public addresses only, and bounded in size.
use okk_analytics_codex_plug.Common.{
  ℕ, ◌≡◌, refl, ap, String, true, Bool-cases, inl, inr, ◌⊎◌, Option, none, some, List, [], ◌∷◌, all,
  ltb,
}
use okk_analytics_codex_plug.Errors.{Result, ok, raised}
use okk_analytics_codex_plug.Effect.Outcomes.{not_ok, ok_injective}
use okk_analytics_codex_plug.ClientMetadata.Parsing.{ClientMetadata}
use okk_analytics_codex_plug.ClientMetadata.Network.{SplitResult, IpAddress, Fetch, Web, State}
use okk_analytics_codex_plug.ClientMetadata.{
  host_name, port_of, validated_url, is_public, pick_address, tick, cached, download,
  remember_loaded, fetched_metadata, load_uncached, load_entry, load_client_metadata,
}

-- One request was sent: to the first address that the name of a valid URL resolved to, where every
-- address that it resolved to is public.
pub record FetchedOnce (web : Web) (client_id : String) (before after : List Fetch) : Type 0 where
  pub url : SplitResult
  pub valid : validated_url web client_id ≡ ok url
  pub address : IpAddress
  pub others : List IpAddress
  pub resolved : web.resolve (host_name url.hostname) (port_of url.port) ≡ some (address ∷ others)
  pub public : all is_public (address ∷ others) ≡ true
  pub sent :
      after
      ≡ record { address = address.text; host = host_name url.hostname; path = url.path } ∷ before

-- the picked address is the first of a public answer
record Picked (o : Option (List IpAddress)) (a : IpAddress) : Type 0 where
  pub others : List IpAddress
  pub resolved : o ≡ some (a ∷ others)
  pub public : all is_public (a ∷ others) ≡ true

pick_address-Picked :
    (o : Option (List IpAddress)) (a : IpAddress) → pick_address o ≡ ok a → Picked o a
unfolding pick_address
pick_address-Picked none a h = absurd (not_ok h)
pick_address-Picked (some []) a h = absurd (not_ok h)
pick_address-Picked (some (b ∷ rest)) a h = elim (Bool-cases (all is_public (b ∷ rest))) [
  | inl e ↦
      let same = ok_injective (rw e at h) in
      record { others = rest; resolved = ap (λ x. some (x ∷ rest)) same; public = rw⁻¹ same e }
  | inr e ↦ absurd (not_ok (rw e at h))
]

module _ (web : Web) (client_id : String) where
  remember_loaded_sends :
      (r : Result ClientMetadata) (s : State)
      → (remember_loaded web client_id r s).1.fetches ≡ s.fetches
  unfolding remember_loaded
  remember_loaded_sends (ok m) s = refl
  remember_loaded_sends (raised e) s = refl

  fetched_sends :
      (url : SplitResult) (r : Result IpAddress) (s : State)
      → validated_url web client_id ≡ ok url
      → pick_address (web.resolve (host_name url.hostname) (port_of url.port)) ≡ r
      → ((fetched_metadata web client_id url r s).1.fetches ≡ s.fetches)
        ⊎ FetchedOnce web client_id s.fetches (fetched_metadata web client_id url r s).1.fetches
  unfolding fetched_metadata download
  fetched_sends url (raised e) s valid h = inl refl
  fetched_sends url (ok a) s valid h =
      let picked =
        pick_address-Picked (web.resolve (host_name url.hostname) (port_of url.port)) a h in
      inr (record {
        url = url;
        valid = valid;
        address = a;
        others = picked.others;
        resolved = picked.resolved;
        public = picked.public;
        sent = remember_loaded_sends _ _;
      })

  uncached_sends :
      (r : Result SplitResult) (s : State)
      → validated_url web client_id ≡ r
      → ((load_uncached web client_id r s).1.fetches ≡ s.fetches)
        ⊎ FetchedOnce web client_id s.fetches (load_uncached web client_id r s).1.fetches
  unfolding load_uncached
  uncached_sends (raised e) s h = inl refl
  uncached_sends (ok url) s h = fetched_sends url _ s h refl

  entry_sends :
      (o : Option (ℕ × ClientMetadata)) (s : State)
      → ((load_entry web client_id o s).1.fetches ≡ s.fetches)
        ⊎ FetchedOnce web client_id s.fetches (load_entry web client_id o s).1.fetches
  unfolding load_entry
  entry_sends none s = uncached_sends _ s refl
  entry_sends (some (expires, metadata)) s =
      elim (Bool-cases (ltb (web.monotonic s.ticks) expires)) [
        | inl e ↦ rw e (inl refl)
        | inr e ↦ rw e (uncached_sends _ (tick s) refl)
      ]

  -- Loading the metadata of a client sends nothing, or one request: to the first address that the
  -- host of a valid client id URL resolved to in one lookup, and only where all of the addresses are
  -- public.
  pub load_client_metadata_sends :
      (s : State)
      → ((load_client_metadata web client_id s).1.fetches ≡ s.fetches)
        ⊎ FetchedOnce web client_id s.fetches (load_client_metadata web client_id s).1.fetches
  unfolding load_client_metadata
  load_client_metadata_sends s = entry_sends (cached client_id s.cache) s
