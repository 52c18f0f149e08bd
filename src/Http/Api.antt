-- ===== src/Http/Api.antt =====
-- http/json_api/middleware/auth_api.rs and authorize_api.rs: which requests reach a route of the
-- API. The base64 engine, the message authentication code and the clock are arguments, and a header
-- value is the text that `to_str` of the http crate returns, if there is one.
pub mod Laws
pub mod Complete
use nut_webgui.Prelude.{
  ℕ, ◌+◌, Bool, true, false, ◌&&◌, not, if◌then◌else◌, Option, none, some, and_then, List, [], ◌∷◌,
  map, ◌==◌,
}
use nut_webgui.Upsmc.Text.{Bytes, codes, text_eq, within, is_ascii_whitespace}
use nut_webgui.Upsmc.Status.{Chars, is_whitespace}
use nut_webgui.Auth.Outcome.{Outcome, done, failed, panicked}
use nut_webgui.Auth.Token.{
  AccessToken, AccessTokenError, Permissions, is_active, has_permission, as_bytes, from_bytes,
}
use nut_webgui.Auth.Signer.{Mac, BinaryToken, SignatureError, verify_bytes}

-- `str::trim`.
unfoldable pub trim_start : Chars → Chars
trim_start [] = []
trim_start (c ∷ cs) = let rest = trim_start cs in if is_whitespace c then rest else c ∷ cs

unfoldable pub keep_end : ℕ → Chars → Chars
keep_end c [] = if is_whitespace c then [] else c ∷ []
keep_end c (d ∷ ds) = c ∷ d ∷ ds

unfoldable pub trim_end : Chars → Chars
trim_end [] = []
trim_end (c ∷ cs) = keep_end c (trim_end cs)

unfoldable pub trim : Chars → Chars
trim t = trim_end (trim_start t)

-- `split_once(|c| c.is_ascii_whitespace())`.
unfoldable pub split_once : Chars → Option (Chars × Chars)
split_once [] = none
split_once (c ∷ cs) =
    let rest = split_once cs in
    if is_ascii_whitespace c
    then some ([], cs)
    else elim rest [ none ↦ none | some p ↦ some (c ∷ p.0, p.1) ]

unfoldable pub to_ascii_lowercase : ℕ → ℕ
to_ascii_lowercase c = if within 65 90 c then c + 32 else c

unfoldable pub eq_ignore_ascii_case : Chars → Chars → Bool
eq_ignore_ascii_case a b = text_eq (map to_ascii_lowercase a) (map to_ascii_lowercase b)

abbrev pub access_token : BinaryToken AccessToken AccessTokenError
access_token = record { as_bytes = as_bytes; from_bytes = from_bytes }

-- What a request comes to: the route with this token, or one of the two refusals. `crashed` stands
-- for a panic.
pub data ApiResponse : Type 0 where
  inner : AccessToken → ApiResponse
  unauthorized : ApiResponse
  forbidden : ApiResponse
  crashed : ApiResponse

-- `AuthorizeApiService::call`, on the token of the request's extensions.
unfoldable pub authorize_api : Permissions → Option AccessToken → ApiResponse
authorize_api permissions none = unauthorized
authorize_api permissions (some token) =
    if has_permission token permissions then inner token else forbidden

module _ (mac : Mac) (decode : Chars → Option Bytes) (server_key : Bytes) (now : ℕ) where
  unfoldable pub only_active :
      Outcome (SignatureError AccessTokenError) AccessToken → Outcome Unit AccessToken
  only_active (done token) = if is_active token now then done token else failed tt
  only_active (failed e) = failed tt
  only_active panicked = panicked

  unfoldable pub decode_token : Chars → Outcome Unit AccessToken
  decode_token token = elim (decode (trim token)) [
    | none ↦ failed tt
    | some bytes ↦ only_active (verify_bytes mac access_token server_key bytes)
  ]

  unfoldable pub check_scheme : Chars × Chars → Outcome Unit AccessToken
  check_scheme (scheme, token) =
      if eq_ignore_ascii_case (trim scheme) (codes "bearer") then decode_token token else failed tt

  -- `ApiAuthService::extract_bearer_token`.
  unfoldable pub extract_bearer_token : Option Chars → Outcome Unit AccessToken
  extract_bearer_token none = failed tt
  extract_bearer_token (some value) = elim (trim value) [
    | [] ↦ failed tt
    | c ∷ cs ↦ elim (split_once (c ∷ cs)) [ none ↦ failed tt | some p ↦ check_scheme p ]
  ]

  -- `ApiAuthService::call`, in front of `next`.
  unfoldable pub auth_api : Option Chars → (Option AccessToken → ApiResponse) → ApiResponse
  auth_api header next = elim (extract_bearer_token header) [
    | done token ↦ next (some token)
    | failed e ↦ unauthorized
    | panicked ↦ crashed
  ]
