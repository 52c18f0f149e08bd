-- ===== src/Http/Keys.antt =====
-- http/hypermedia/route/api_key.rs: the tokens that a user makes for programs. The base64 engine,
-- the message authentication code, the clock and the random number are arguments.
pub mod Laws
mod Tests
use nut_webgui.Prelude.{ℕ, ◌/◌, Bool, true, false, if◌then◌else◌, Option, none, some}
use nut_webgui.Upsmc.Text.{Bytes}
use nut_webgui.Upsmc.Status.{Chars}
use nut_webgui.Auth.Token.{AccessToken, Permissions, has_permission, build}
use nut_webgui.Auth.Signer.{Mac, sign_token}
use nut_webgui.Auth.Session.{UserSession}
use nut_webgui.Auth.Users.{UserStore, contains_user}
use nut_webgui.Http.Api.{access_token}

-- What a request for a key comes to: the key on a page, a notification, or a redirection.
pub data KeyResponse : Type 0 where
  key : Chars → KeyResponse
  not_permitted not_found : KeyResponse

unfoldable pub is_user : Option UserStore → Bytes → Bool
is_user none username = false
is_user (some store) username = contains_user store username

-- `AccessToken::builder()`, for a duration in milliseconds.
unfoldable pub key_token : Permissions → ℕ → ℕ → ℕ → AccessToken
key_token permissions duration now nonce = build permissions (duration / 1000) now nonce

-- `api_key::post`, for a form that is accepted.
unfoldable pub create_key :
    Mac
    → (Bytes → Chars)
    → Bytes
    → Option UserStore
    → UserSession
    → Permissions
    → ℕ
    → ℕ
    → ℕ
    → KeyResponse
create_key mac encode server_key auth_user_store session permissions duration now nonce =
    if is_user auth_user_store session.username
    then (if has_permission session.access_token permissions
        then key (
            encode
              (sign_token mac access_token server_key (key_token permissions duration now nonce)))
        else not_permitted)
    else not_found
