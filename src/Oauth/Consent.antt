-- ===== src/Oauth/Consent.antt =====
-- `_granted_scope` of server/okk_mcp/oauth.py: the access that a person leaves checked.
pub mod Checked
use okk_analytics_codex_plug.Common.{
  String, Bool, false, not, ◌&&◌, ◌||◌, Option, none, some, List, str_eq, split, join, keep,
  if◌then◌else◌, ◌≡◌, refl, All, [], ◌∷◌, Bool-cases, inl, inr, IsWord, split-join, split-IsWord,
}

-- the fields of the login form
pub record ConsentForm : Type 0 where
  pub consent_version : Option String
  pub grant_transcripts : Option String
  pub grant_phones : Option String

abbrev pub is_text : String → Option String → Bool
is_text s none = false
is_text s (some t) = str_eq t s

-- `OPTIONAL_GRANTS`: the scope is one that the person left unchecked
unfoldable pub is_refused : ConsentForm → String → Bool
is_refused form scope =
    (str_eq scope "okk.transcripts.read" && not (is_text "1" form.grant_transcripts))
    || (str_eq scope "okk.phones.read" && not (is_text "1" form.grant_phones))

unfoldable pub granted_scope : String → ConsentForm → String
granted_scope requested form =
    if is_text "2" form.consent_version
    then join (keep (λ scope. not (is_refused form scope)) (split requested))
    else requested

words_kept : (p : String → Bool) (xs : List String) → All IsWord xs → All IsWord (keep p xs)
words_kept p [] h = tt
words_kept p (x ∷ xs) h = elim (Bool-cases (p x)) [
  | inl e ↦ rw e (h.0, words_kept p xs h.1)
  | inr e ↦ rw e (words_kept p xs h.1)
]

-- the words of the granted scope
pub granted_scope-split :
    (requested : String) (form : ConsentForm)
    → split (granted_scope requested form) ≡ (
        if is_text "2" form.consent_version
        then keep (λ scope. not (is_refused form scope)) (split requested)
        else split requested)
unfolding granted_scope
granted_scope-split requested form = elim (Bool-cases (is_text "2" form.consent_version)) [
  | inl e ↦ rw e (
      split-join (keep (λ scope. not (is_refused form scope)) (split requested)) (
        words_kept (λ scope. not (is_refused form scope)) (split requested)
          (split-IsWord requested)))
  | inr e ↦ rw e refl
]
