-- ===== src/Http/Api/Complete.antt =====
-- http/json_api/middleware: a request with a token of the server does get through.
use nut_webgui.Prelude.{
  ℕ, ◌<◌, ◌≡◌, refl, ap, ◌∙◌, true, false, Option, some, [], ◌∷◌, ◌++◌, All, length, arith,
}
use nut_webgui.Upsmc.Text.{Bytes, codes, text_eq, is_ascii_whitespace}
use nut_webgui.Upsmc.Status.{Chars, is_whitespace}
use nut_webgui.Auth.Outcome.{done}
use nut_webgui.Auth.Token.{AccessToken, Permissions, is_active, has_permission, as_bytes}
use nut_webgui.Auth.Token.Laws.{IsToken, from_bytes-as_bytes, length-as_bytes}
use nut_webgui.Auth.Signer.{Mac, IsMac, sign_token}
use nut_webgui.Auth.Signer.Laws.{verify_bytes-sign_token}
use nut_webgui.Http.Api.{
  inner, authorize_api, auth_api, extract_bearer_token, check_scheme, decode_token, only_active,
  access_token, trim, trim_start, trim_end, keep_end, split_once, eq_ignore_ascii_case,
  to_ascii_lowercase,
}

-- A text without white space, as base64 is.
abbrev pub IsSolid : Chars → Type 0
IsSolid [] = ⊥
IsSolid (c ∷ cs) = All (λ x. is_whitespace x ≡ false) (c ∷ cs)

trim_end-solid : (t : Chars) → All (λ x. is_whitespace x ≡ false) t → trim_end t ≡ t
unfolding trim_end keep_end
trim_end-solid [] h = refl
trim_end-solid (c ∷ []) h = rw h.0 refl
trim_end-solid (c ∷ d ∷ cs) h = rw (trim_end-solid (d ∷ cs) h.1) refl

pub trim-solid : (t : Chars) → IsSolid t → trim t ≡ t
unfolding trim trim_start
trim-solid [] h = absurd h
trim-solid (c ∷ cs) h = rw h.0 (trim_end-solid (c ∷ cs) h)

unfoldable pub bearer : Chars → Chars
bearer t = codes "Bearer " ++ t

trim-bearer : (t : Chars) → IsSolid t → trim (bearer t) ≡ bearer t
unfolding trim trim_start trim_end keep_end bearer is_whitespace
trim-bearer [] h = absurd h
trim-bearer (c ∷ cs) h =
    ap
      (λ x.
        keep_end 66
          (keep_end 101 (keep_end 97 (keep_end 114 (keep_end 101 (keep_end 114 (keep_end 32 x)))))))
      (trim_end-solid (c ∷ cs) h)

split_once-bearer : (t : Chars) → split_once (bearer t) ≡ some (codes "Bearer", t)
unfolding split_once bearer is_ascii_whitespace
split_once-bearer t = refl

scheme : eq_ignore_ascii_case (trim (codes "Bearer")) (codes "bearer") ≡ true
unfolding eq_ignore_ascii_case trim trim_start trim_end keep_end is_whitespace to_ascii_lowercase
    text_eq
scheme = refl

module _ (mac : Mac) (h : IsMac mac) (decode : Chars → Option Bytes) (server_key : Bytes)
    (now : ℕ) where
  decode_token_complete :
      (text : Chars) (token : AccessToken)
      → IsSolid text
      → decode text ≡ some (sign_token mac access_token server_key token)
      → IsToken token
      → is_active token now ≡ true
      → decode_token mac decode server_key now text ≡ done token
  unfolding decode_token only_active
  decode_token_complete text token s d v a =
      let l : 0 < length (as_bytes token) = omega (arith, length-as_bytes token) in
      let accepted =
        verify_bytes-sign_token mac h access_token server_key token l
          (from_bytes-as_bytes token v) in
      rw (decode_token, trim-solid text s, d, accepted, only_active, a) refl

  extract_split :
      (value : Chars) (c : ℕ) (cs : Chars) (p : Chars × Chars)
      → trim value ≡ c ∷ cs
      → split_once (c ∷ cs) ≡ some p
      → extract_bearer_token mac decode server_key now (some value)
        ≡ check_scheme mac decode server_key now p
  unfolding extract_bearer_token
  extract_split value c cs p e k = rw (extract_bearer_token, e, k) refl

  check-bearer :
      (text : Chars)
      → check_scheme mac decode server_key now (codes "Bearer", text)
        ≡ decode_token mac decode server_key now text
  unfolding check_scheme
  check-bearer text = rw (check_scheme, scheme) refl

  pub extract-bearer :
      (text : Chars)
      → IsSolid text
      → extract_bearer_token mac decode server_key now (some (bearer text))
        ≡ decode_token mac decode server_key now text
  unfolding bearer
  extract-bearer text s =
      extract_split (bearer text) b'B' (codes "earer " ++ text) (codes "Bearer", text)
        (trim-bearer text s) (split_once-bearer text)
      ∙ check-bearer text

  -- A request whose header is Bearer and a text without white space reaches the route, if the text
  -- decodes to a token that the builder makes and the server has signed, the token is active and
  -- holds the permissions of the route, and the code is as HMAC promises.
  pub auth_api_complete :
      (text : Chars) (permissions : Permissions) (token : AccessToken)
      → IsSolid text
      → decode text ≡ some (sign_token mac access_token server_key token)
      → IsToken token
      → is_active token now ≡ true
      → has_permission token permissions ≡ true
      → auth_api mac decode server_key now (some (bearer text)) (authorize_api permissions)
        ≡ inner token
  unfolding auth_api authorize_api
  auth_api_complete text permissions token s d v a p =
      rw
        (
          auth_api,
          extract-bearer text s,
          decode_token_complete text token s d v a,
          authorize_api,
          p,
        )
        refl
