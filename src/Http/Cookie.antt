-- ===== src/Http/Cookie.antt =====
-- http/hypermedia/middleware: which requests with a session cookie reach a page, and route/login.rs
-- and route/api_key.rs, which hand out sessions and tokens. The base64 engine, the message
-- authentication code, the text of a cookie, the rendered pages, the clock and the random numbers
-- are arguments.
pub mod Sound
pub mod Complete
mod Tests
use mathlib.Core.Option
use nut_webgui.Prelude.{
  ℕ, ◌+◌, Bool, true, false, ◌&&◌, if◌then◌else◌, leb, ltb, Option, none, some, List, [], ◌∷◌,
}
use nut_webgui.Upsmc.Text.{Bytes, codes}
use nut_webgui.Upsmc.Status.{Chars}
use nut_webgui.Upsmc.Dict.{Dict, lookup}
use nut_webgui.Upsmc.Dict
use nut_webgui.Auth.Outcome.{Outcome, done, failed, panicked}
use nut_webgui.Auth.Token.{AccessToken, Permissions, is_active, has_permission, ttl, build}
use nut_webgui.Auth.Signer.{Mac, SignatureError, sign_token, verify_bytes}
use nut_webgui.Auth.Session.{UserSession, UserSessionError}
use nut_webgui.Auth.Session.Laws.{session_token}
use nut_webgui.Auth.Users.{
  UserStore, Login, logged_in, rejected, contains_user, renew_session, login_user,
}
use nut_webgui.Http.Api.{access_token}

-- What the middleware look at of a request: the trimmed value of the cookie AUTH_COOKIE_NAME, if
-- there is one, whether there is a header HX-Request, and the session of its extensions.
pub record Request : Type 0 where
  pub cookie : Option Chars
  pub is_hx : Bool
  pub session : Option UserSession

pub record Response : Type 0 where
  pub status : ℕ
  pub headers : Dict Chars
  pub body : Chars

-- `headers_mut().insert(name, value)`.
unfoldable pub with_header : Bytes → Chars → Response → Response
with_header name value r = record r { headers = Dict.insert name value r.headers }

-- `Redirect::to`.
unfoldable pub redirect_to : Chars → Response
redirect_to location = record {
  status = 303;
  headers = (codes "location", location) ∷ [];
  body = [];
}

unfoldable pub login_redirect_for : Bool → Chars → Response
login_redirect_for is_hx login_redirect =
    if is_hx
    then record { status = 200; headers = (codes "hx-redirect", login_redirect) ∷ []; body = [] }
    else redirect_to login_redirect

-- `HtmxRedirectService::call`.
unfoldable pub redirected : Response → Response
redirected r =
    if leb 300 r.status && ltb r.status 400
    then elim (lookup (codes "location") r.headers) [
      | none ↦ r
      | some location ↦ record (with_header (codes "hx-redirect") location r) { status = 200 }
    ]
    else r

-- A service behind a request; `none` stands for a panic.
abbrev pub Service : Type 0
Service = Request → Option Response

unfoldable pub htmx_redirect : Service → Service
htmx_redirect inner req = if req.is_hx then Option.map redirected (inner req) else inner req

-- `AuthorizeUserService::call`, with the page of the notification.
unfoldable pub authorize_user : Response → Permissions → Service → Service
authorize_user notification permissions inner req =
    let denied =
      if req.is_hx
      then with_header (codes "hx-reswap") (codes "none") notification
      else record { status = 403; headers = []; body = codes "Forbidden" } in
    elim req.session [
      | none ↦ some denied
      | some session ↦
          if has_permission session.access_token permissions then inner req else some denied
    ]

module _ (mac : Mac) (server_key : Bytes) (user_store : UserStore) where
  -- `extract_user_session`, on the value of the cookie.
  module _ (decode : Chars → Option Bytes) (now : ℕ) where
    unfoldable pub known_session :
        Outcome (SignatureError UserSessionError) UserSession → Outcome Unit UserSession
    known_session (failed e) = failed tt
    known_session panicked = panicked
    known_session (done s) =
        if is_active s.access_token now && contains_user user_store s.username
        then done s
        else failed tt

    unfoldable pub extract_user_session : Option Chars → Outcome Unit UserSession
    extract_user_session none = failed tt
    extract_user_session (some value) = elim (decode value) [
      | none ↦ failed tt
      | some bytes ↦ known_session (verify_bytes mac session_token server_key bytes)
    ]

    -- `UserAuthService::call`.
    unfoldable pub user_auth : Chars → Service → Service
    user_auth login_redirect inner req = elim (extract_user_session req.cookie) [
      | done s ↦ inner (record req { session = some s })
      | failed e ↦ some (login_redirect_for req.is_hx login_redirect)
      | panicked ↦ none
    ]

  -- `Cookie::build((AUTH_COOKIE_NAME, value)) ... .max_age(age)`, as the text of a header.
  module _ (encode : Bytes → Chars) (set_cookie : Chars → ℕ → Chars) where
    unfoldable pub session_cookie : UserSession → ℕ → Chars
    session_cookie s now =
        set_cookie (encode (sign_token mac session_token server_key s)) (ttl s.access_token now)

    unfoldable pub inner_renewed : Service → Request → ℕ → Login → Option Response
    inner_renewed inner req now (rejected e) = inner req
    inner_renewed inner req now (logged_in s) =
        Option.map (with_header (codes "set-cookie") (session_cookie s now))
          (inner (record req { session = some s }))

    -- `RenewSessionService::call`, at this time and with this random number.
    unfoldable pub renew_user : ℕ → ℕ → ℕ → Service → Service
    renew_user renew_duration now nonce inner req = elim req.session [
      | none ↦ inner req
      | some s ↦
          elim (leb (ttl s.access_token now) renew_duration
            && contains_user user_store s.username) [
              | true ↦ inner_renewed inner req now (renew_session user_store s.username now nonce)
              | false ↦ inner req
            ]
    ]

    -- `login::post`, for a form that is accepted and a request without a session; `login_page` is the
    -- form with its message.
    unfoldable pub login_response : Chars → Response → ℕ → Login → Response
    login_response base_path login_page now (rejected e) = login_page
    login_response base_path login_page now (logged_in s) = record {
      status = 200;
      headers =
          (codes "set-cookie", session_cookie s now) ∷ ((codes "hx-redirect", base_path) ∷ []);
      body = [];
    }

    -- A page of create_hypermedia_routes that a permission protects.
    unfoldable pub protected :
        (Chars → Option Bytes) → ℕ → Chars → ℕ → ℕ → ℕ → Response → Permissions → Service → Service
    protected decode now login_redirect renew_duration renew_now nonce notification permissions
          handler =
        htmx_redirect (
          user_auth decode now login_redirect (
            renew_user renew_duration renew_now nonce
              (authorize_user notification permissions handler)))
