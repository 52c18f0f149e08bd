-- ===== src/Http/Api/Laws.antt =====
-- http/json_api/middleware: only a request with a token of the server gets through.
use nut_webgui.Prelude.{
  ℕ, ◌≡◌, ap, true, Option, none, some, [], ◌∷◌, ◌++◌, Bool-cases, Option-cases, inl, inr,
}
use nut_webgui.Upsmc.Text.{Bytes, codes}
use nut_webgui.Upsmc.Status.{Chars}
use nut_webgui.Auth.Outcome.{Outcome, done, failed, panicked}
use nut_webgui.Auth.Token.{
  AccessToken, AccessTokenError, Permissions, is_active, has_permission, from_bytes,
}
use nut_webgui.Auth.Signer.{Mac, IsMac, SignatureError}
use nut_webgui.Auth.Signer.Laws.{verify_bytes_sound}
use nut_webgui.Http.Api.{
  inner, unauthorized, crashed, authorize_api, auth_api, extract_bearer_token, check_scheme,
  decode_token, only_active, access_token, trim, split_once, eq_ignore_ascii_case,
}

module _ (mac : Mac) (h : IsMac mac) (decode : Chars → Option Bytes) (server_key : Bytes)
    (now : ℕ) where
  -- The header's text is that of a token that the server has signed, and the token is active.
  abbrev pub Genuine : AccessToken → Type 0
  Genuine token =
      (text : Chars) × (payload : Bytes) × (decode text
        ≡ some (payload ++ mac.tag server_key payload))
      × (from_bytes payload ≡ done token)
      × (is_active token now ≡ true)

  only_active_sound :
      (r : Outcome (SignatureError AccessTokenError) AccessToken) (token : AccessToken)
      → only_active mac decode server_key now r ≡ done token
      → (r ≡ done token) × (is_active token now ≡ true)
  unfolding only_active
  only_active_sound (done t) token e = elim (Bool-cases (is_active t now)) [
    | inl a ↦ let same : t ≡ token = cc (rw (only_active, a) at e) in (ap done same, rw (← same) a)
    | inr a ↦ absurd (cc (rw (only_active, a) at e))
  ]
  only_active_sound (failed x) token e = absurd (cc e)
  only_active_sound panicked token e = absurd (cc e)

  decode_token_sound :
      (text : Chars) (token : AccessToken)
      → decode_token mac decode server_key now text ≡ done token
      → Genuine token
  unfolding decode_token
  decode_token_sound text token e = elim (Option-cases (decode (trim text))) [
    | inl d ↦ absurd (cc (rw (decode_token, d) at e))
    | inr (bytes, d) ↦
        let (r, a) = only_active_sound _ token (rw (decode_token, d) at e) in
        let (payload, s, f) = verify_bytes_sound mac h access_token server_key bytes token r in
        (trim text, payload, rw d (cc s), f, a)
  ]

  check_scheme_sound :
      (p : Chars × Chars) (token : AccessToken)
      → check_scheme mac decode server_key now p ≡ done token
      → Genuine token
  unfolding check_scheme
  check_scheme_sound (scheme, text) token e =
      elim (Bool-cases (eq_ignore_ascii_case (trim scheme) (codes "bearer"))) [
        | inl s ↦ decode_token_sound text token (rw (check_scheme, s) at e)
        | inr s ↦ absurd (cc (rw (check_scheme, s) at e))
      ]

  split_sound :
      (o : Option (Chars × Chars)) (token : AccessToken)
      → elim o [ none ↦ failed tt | some p ↦ check_scheme mac decode server_key now p ] ≡ done token
      → Genuine token
  split_sound none token e = absurd (cc e)
  split_sound (some p) token e = check_scheme_sound p token e

  value_sound :
      (value : Chars) (token : AccessToken)
      → elim value [
        | [] ↦ failed tt
        | c ∷ cs ↦ elim (split_once (c ∷ cs)) [
          | none ↦ failed tt
          | some p ↦ check_scheme mac decode server_key now p
        ]
      ]
        ≡ done token
      → Genuine token
  value_sound [] token e = absurd (cc e)
  value_sound (c ∷ cs) token e = split_sound (split_once (c ∷ cs)) token e

  extract_bearer_token_sound :
      (header : Option Chars) (token : AccessToken)
      → extract_bearer_token mac decode server_key now header ≡ done token
      → Genuine token
  unfolding extract_bearer_token
  extract_bearer_token_sound none token e = absurd (cc e)
  extract_bearer_token_sound (some value) token e = value_sound (trim value) token e

  authorize_api_sound :
      (permissions : Permissions) (given : Option AccessToken) (token : AccessToken)
      → authorize_api permissions given ≡ inner token
      → (given ≡ some token) × (has_permission token permissions ≡ true)
  unfolding authorize_api
  authorize_api_sound permissions none token e = absurd (cc e)
  authorize_api_sound permissions (some t) token e =
      elim (Bool-cases (has_permission t permissions)) [
        | inl p ↦
            let same : t ≡ token = cc (rw (authorize_api, p) at e) in (ap some same, rw (← same) p)
        | inr p ↦ absurd (cc (rw (authorize_api, p) at e))
      ]

  response_sound :
      (permissions : Permissions) (r : Outcome Unit AccessToken) (token : AccessToken)
      → elim r [
        | done t ↦ authorize_api permissions (some t)
        | failed e ↦ unauthorized
        | panicked ↦ crashed
      ]
        ≡ inner token
      → (r ≡ done token) × (has_permission token permissions ≡ true)
  response_sound permissions (done t) token e =
      let (s, p) = authorize_api_sound permissions (some t) token e in
      let same : t ≡ token = cc s in (ap done same, p)
  response_sound permissions (failed x) token e = absurd (cc e)
  response_sound permissions panicked token e = absurd (cc e)

  -- A request reaches a route that needs permissions only with a token that the server has signed,
  -- that is active, and that holds these permissions, if the code is as HMAC promises.
  pub auth_api_sound :
      (header : Option Chars) (permissions : Permissions) (token : AccessToken)
      → auth_api mac decode server_key now header (authorize_api permissions) ≡ inner token
      → Genuine token × (has_permission token permissions ≡ true)
  unfolding auth_api
  auth_api_sound header permissions token e =
      let (r, p) =
        response_sound permissions (extract_bearer_token mac decode server_key now header) token
          e in
      (extract_bearer_token_sound header token r, p)
