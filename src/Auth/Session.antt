-- ===== src/Auth/Session.antt =====
-- auth/username.rs and auth/user_session.rs: the session of a user and its bytes.
pub mod Laws
pub mod Kinds
use nut_webgui.Prelude.{
  ℕ, Bool, true, false, ◌&&◌, ◌==◌, if◌then◌else◌, ltb, Option, none, some, List, [], ◌∷◌, ◌++◌,
  length, take, drop,
}
use nut_webgui.Upsmc.Text.{Bytes}
use nut_webgui.Upsmc.Status.{is_whitespace, Chars}
use nut_webgui.Auth.Outcome.{Outcome, done, failed, panicked}
use nut_webgui.Auth.Utf8.{from_utf8}
use nut_webgui.Auth.Token.{AccessToken, AccessTokenError, token_byte_len}
use nut_webgui.Auth.Token

-- `trim().is_empty()`.
unfoldable pub is_blank : Chars → Bool
is_blank [] = true
is_blank (c ∷ cs) = is_whitespace c && is_blank cs

-- `Username::new` of a text with these characters; `none` is `EmptyUsername`.
unfoldable pub username_new : Chars → Bytes → Option Bytes
username_new chars username = if is_blank chars then none else some username

pub record UserSession : Type 0 where
  pub username : Bytes
  pub access_token : AccessToken

pub data UserSessionError : Type 0 where
  invalid_length empty_username invalid_utf8 : UserSessionError
  access_token_error : AccessTokenError → UserSessionError

unfoldable pub session_as_bytes : UserSession → Bytes
session_as_bytes self = Token.as_bytes self.access_token ++ self.username

unfoldable pub with_username : AccessToken → Bytes → Outcome UserSessionError UserSession
with_username token bytes = elim (from_utf8 bytes) [
  | none ↦ failed invalid_utf8
  | some chars ↦ elim (username_new chars bytes) [
    | none ↦ failed empty_username
    | some username ↦ done (record { username = username; access_token = token })
  ]
]

unfoldable pub with_token :
    Outcome AccessTokenError AccessToken → Bytes → Outcome UserSessionError UserSession
with_token (done token) username = with_username token username
with_token (failed e) username = failed (access_token_error e)
with_token panicked username = panicked

unfoldable pub session_from_bytes : Bytes → Outcome UserSessionError UserSession
session_from_bytes bytes =
    if ltb (length bytes) token_byte_len
    then failed invalid_length
    else if length bytes == token_byte_len
    then failed empty_username
    else with_token (Token.from_bytes (take token_byte_len bytes)) (drop token_byte_len bytes)
