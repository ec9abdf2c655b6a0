-- ===== src/ClientMetadata/Accepted.antt =====
-- What an accepted metadata document says, and how large its body is.
use Prim.Native.String
use okk_analytics_codex_plug.Common.{
  ℕ, ◌≤◌, ◌≡◌, sym, ap, subst, String, Bool, true, false, Bool-cases, inl, inr, Option, none, some,
  List, [], ◌∷◌, ltb, chars, eq_iff, arith, ◌||◌, not, ◌==◌,
}
use okk_analytics_codex_plug.Errors.{ok}
use okk_analytics_codex_plug.Effect.Outcomes.{not_ok, ok_injective}
use okk_analytics_codex_plug.ClientMetadata.Slices.{unique}
use okk_analytics_codex_plug.ClientMetadata.Parsing.{
  Document, ClientMetadata, same_id, or_nil, redirect_texts, grant_texts, is_redirect_list,
  is_grant_list, method_is_none, supports_none, is_code_only, parse_document,
}
use okk_analytics_codex_plug.ClientMetadata.Network.{
  Web, Fetched, timed_out, fetch_failed, answered,
}
use okk_analytics_codex_plug.ClientMetadata.{max_document_bytes, read_chunks, body_of}

-- A public PKCE client with a code flow, that names itself by its own URL.
pub record IsPublicClient (d : Document) (client_id : String) (metadata : ClientMetadata)
    : Type 0 where
  pub own_id : metadata.client_id ≡ client_id
  pub names_itself : d.client_id ≡ some client_id
  pub no_secret : d.has_client_secret ≡ false
  pub redirects : is_redirect_list (redirect_texts d.redirect_uris) ≡ true
  pub same_redirects : metadata.redirect_uris ≡ unique (or_nil (redirect_texts d.redirect_uris))
  pub public :
      (method_is_none d.token_endpoint_auth_method
        || supports_none d.token_endpoint_auth_methods_supported)
      ≡ true
  pub grants : is_grant_list (grant_texts d.grant_types) ≡ true
  pub code_only : is_code_only d.response_types ≡ true

undo : (b : Bool) → not b ≡ false → b ≡ true
undo b h = ground arith

both : (a b : Bool) → (not a || not b) ≡ false → (a ≡ true) × (b ≡ true)
both a b h = (ground arith, ground arith)

named : (o : Option String) (id : String) → same_id o id ≡ true → o ≡ some id
named none id h = cc
named (some s) id h = ap some ((eq_iff s id).0 h)

-- A metadata document that is accepted is of a public client: it names itself by the URL it was read
-- from, holds no secret, has one to twenty return addresses, and supports the code flow without client
-- authentication; its return addresses are the ones saved, each once.
pub parse_document-IsPublicClient :
    (d : Document) (client_id : String) (metadata : ClientMetadata)
    → parse_document d client_id ≡ ok metadata
    → IsPublicClient d client_id metadata
unfolding parse_document
parse_document-IsPublicClient d client_id metadata h =
    let method =
      method_is_none d.token_endpoint_auth_method
      || supports_none d.token_endpoint_auth_methods_supported in
    let grants = is_grant_list (grant_texts d.grant_types) in
    let code_only = is_code_only d.response_types in
    elim (Bool-cases (not d.is_object)) [
      | inl e ↦ absurd (not_ok (rw e at h))
      | inr e1 ↦ elim (Bool-cases (not (same_id d.client_id client_id))) [
        | inl e ↦ absurd (not_ok (rw (e1, e) at h))
        | inr e2 ↦ elim (Bool-cases d.has_client_secret) [
          | inl e ↦ absurd (not_ok (rw (e1, e2, e) at h))
          | inr e3 ↦ elim (Bool-cases (not (is_redirect_list (redirect_texts d.redirect_uris)))) [
            | inl e ↦ absurd (not_ok (rw (e1, e2, e3, e) at h))
            | inr e4 ↦ elim (Bool-cases (not method)) [
              | inl e ↦ absurd (not_ok (rw (e1, e2, e3, e4, e) at h))
              | inr e5 ↦ elim (Bool-cases (not grants || not code_only)) [
                | inl e ↦ absurd (not_ok (rw (e1, e2, e3, e4, e5, e) at h))
                | inr e6 ↦
                    let same = ok_injective (rw (e1, e2, e3, e4, e5, e6) at h) in
                    let (g, c) = both grants code_only e6 in
                    record {
                      own_id = ap (λ m. m.client_id) (sym same);
                      names_itself =
                          named d.client_id client_id (undo (same_id d.client_id client_id) e2);
                      no_secret = e3;
                      redirects = undo (is_redirect_list (redirect_texts d.redirect_uris)) e4;
                      same_redirects = ap (λ m. m.redirect_uris) (sym same);
                      public = undo method e5;
                      grants = g;
                      code_only = c;
                    }
              ]
            ]
          ]
        ]
      ]
    ]

module _ (web : Web) where
  read_chunks_bound :
      (chunks : List String) (body raw : String)
      → chars body ≤ max_document_bytes
      → read_chunks body chunks ≡ ok raw
      → chars raw ≤ max_document_bytes
  unfolding read_chunks
  read_chunks_bound [] body raw small h =
      subst (λ s. chars s ≤ max_document_bytes) (ok_injective h) small
  read_chunks_bound (chunk ∷ rest) body raw small h =
      elim (Bool-cases (ltb max_document_bytes (chars (String.◌++◌ body chunk)))) [
        | inl e ↦ absurd (not_ok (rw e at h))
        | inr e ↦
            read_chunks_bound rest (String.◌++◌ body chunk) raw
              (within (chars (String.◌++◌ body chunk)) e) (rw e at h)
      ]
    where
      within : (n : ℕ) → ltb max_document_bytes n ≡ false → n ≤ max_document_bytes
      within n e = ground arith

  -- The body of a document that is read has at most 5 KiB, however the server sends it.
  pub body_of_bound :
      (f : Fetched) (raw : String) → body_of web f ≡ ok raw → chars raw ≤ max_document_bytes
  unfolding body_of
  body_of_bound timed_out raw h = absurd (not_ok h)
  body_of_bound fetch_failed raw h = absurd (not_ok h)
  body_of_bound (answered status chunks) raw h = elim (Bool-cases (status == 200)) [
    | inl e ↦ read_chunks_bound chunks "" raw (omega arith) (rw e at h)
    | inr e ↦ absurd (not_ok (rw e at h))
  ]
