-- ===== src/Security/Scopes/Canonical.antt =====
-- What `validate_scopes` accepts: its result is the set of the requested scopes, all of them
-- allowed, in one canonical spelling.
use okk_analytics_codex_plug.Common.{
  String, ◌≡◌, refl, ◌≢◌, ◌∙◌, ap, Bool-cases, inl, inr, true, false, Option, some, List, [],
  nonempty, split, join, subset, sorted_set, arith, IsWord, split-join, split-IsWord, All,
  All-sorted_set, sorted_set-IsSorted, sorted_set_fixed,
}
use okk_analytics_codex_plug.Errors.{ok}
use okk_analytics_codex_plug.Security.Scopes.{
  allowed_scopes, default_scopes, scope_or, check_scopes, validate_scopes,
}

abbrev requested_set : Option String → List String
requested_set s = sorted_set (split (scope_or s default_scopes))

check_scopes-ok :
    (xs : List String) (t : String)
    → check_scopes xs ≡ ok t
    → (t ≡ join xs) × (subset xs allowed_scopes ≡ true)
unfolding check_scopes
check_scopes-ok xs t h = ground arith

set-IsWord : (s : String) → All IsWord (sorted_set (split s))
set-IsWord s = All-sorted_set IsWord (split s) (split-IsWord s)

set-split : (s t : String) → t ≡ join (sorted_set (split s)) → split t ≡ sorted_set (split s)
set-split s t e = rw e (split-join (sorted_set (split s)) (set-IsWord s))

-- When `validate_scopes` accepts a request, its result splits into exactly the sorted set of the
-- requested scopes (the default ones where none is given), and each of them is an allowed scope.
pub validate_scopes-split :
    (s : Option String) (t : String)
    → validate_scopes s ≡ ok t
    → (split t ≡ sorted_set (split (scope_or s default_scopes)))
      × (subset (split t) allowed_scopes ≡ true)
unfolding validate_scopes
validate_scopes-split s t h =
    let r = check_scopes-ok (requested_set s) t h in
    let e = set-split (scope_or s default_scopes) t r.0 in (e, rw e r.1)

nonempty-split : (t : String) → nonempty t ≡ false → split t ≡ []
unfolding split
nonempty-split String.[] h = refl
nonempty-split (String.◌∷◌ c s) h = cc

check_scopes-nil : (t : String) → check_scopes [] ≢ ok t
unfolding check_scopes
check_scopes-nil t h = cc

validate_scopes_again :
    (t : String) → split t ≢ [] → validate_scopes (some t) ≡ check_scopes (sorted_set (split t))
unfolding validate_scopes
validate_scopes_again t h = elim (Bool-cases (nonempty t)) [
  | inl e ↦ rw e
  | inr e ↦ absurd (h (nonempty-split t e))
]

-- The result of `validate_scopes` is a canonical spelling: validating it again returns it unchanged.
pub validate_scopes-validate_scopes :
    (s : Option String) (t : String) → validate_scopes s ≡ ok t → validate_scopes (some t) ≡ ok t
validate_scopes-validate_scopes s t h =
    let e = (validate_scopes-split s t h).0 in
    validate_scopes_again t (λ n. check_scopes-nil t (rw (← n, e) (unfold validate_scopes in h)))
    ∙ ap check_scopes (
        ap sorted_set e
        ∙ sorted_set_fixed _ (sorted_set-IsSorted (split (scope_or s default_scopes))))
    ∙ (unfold validate_scopes in h)
