-- ===== src/Http/Cookie/Complete.antt =====
-- http/hypermedia/middleware and route/login.rs: the cookie of a login opens the pages.
use mathlib.Core.Option
use nut_webgui.Prelude.{
  leb, if◌then◌else◌, ◌≤◌, ◌≡◌, refl, Bool, ap, sym, subst, ◌∙◌, ℕ, true, false, Option, none, some,
  Bool-cases, Option-cases, inl, inr,
}
use nut_webgui.Upsmc.Text.{Bytes, codes}
use nut_webgui.Upsmc.Status.{Chars}
use nut_webgui.Upsmc.Dict.{lookup}
use nut_webgui.Auth.Utf8.{from_utf8}
use nut_webgui.Auth.Token.{Permissions, is_active, has_permission, ttl, build, u64_max}
use nut_webgui.Auth.Token.Laws.{build-IsToken}
use nut_webgui.Auth.Signer.{Mac, IsMac, sign_token}
use nut_webgui.Auth.Session.{UserSession, is_blank}
use nut_webgui.Auth.Session.Laws.{session_token, IsSession, verify_bytes-session}
use nut_webgui.Auth.Users.{
  User, UserStore, logged_in, contains_user, renew_session, login_user, new_session, check_password,
  cmp_hash,
}
use nut_webgui.Http.Cookie.{
  Request, Response, Service, known_session, extract_user_session, user_auth, inner_renewed,
  renew_user, authorize_user, htmx_redirect, protected, redirected, with_header, session_cookie,
}

-- A login gives a session of a user of the store.
login_user-new_session :
    (scrypt : Bytes → Bytes → Option Bytes) (store : UserStore) (username password : Bytes)
    (now nonce : ℕ) (s : UserSession)
    → login_user scrypt store username password now nonce ≡ logged_in s
    → (user : User) × (lookup username store.inner ≡ some user)
      × (s ≡ new_session store user username now nonce)
unfolding login_user check_password
login_user-new_session scrypt store username password now nonce s e =
    elim (Option-cases (lookup username store.inner)) [
      | inl n ↦ absurd (cc (rw (login_user, n) at e))
      | inr (user, n) ↦ elim (Option-cases (scrypt password user.salt)) [
        | inl o ↦ absurd (cc (rw (login_user, n, check_password, o) at e))
        | inr (out, o) ↦ elim (Bool-cases (cmp_hash out user.password_hash)) [
          | inl c ↦ (user, n, cc (rw (login_user, n, check_password, o, c) at e))
          | inr c ↦ absurd (cc (rw (login_user, n, check_password, o, c) at e))
        ]
      ]
    ]

-- The session that a session is renewed to, while the permissions of its user stay the same.
abbrev pub renewed : UserStore → UserSession → ℕ → ℕ → UserSession
renewed store s now nonce = record s {
  access_token = build s.access_token.permissions store.session_duration now nonce;
}

module _ (store : UserStore) (user : User) (username : Bytes)
    (k : lookup username store.inner ≡ some user) (login_now login_nonce : ℕ) where
  abbrev given : UserSession
  given = new_session store user username login_now login_nonce

  given-renewed :
      (now nonce : ℕ)
      → renew_session store given.username now nonce ≡ logged_in (renewed store given now nonce)
  unfolding renew_session new_session build
  given-renewed now nonce = rw (renew_session, k) refl

  given-contains_user : contains_user store given.username ≡ true
  unfolding contains_user new_session
  given-contains_user = rw (contains_user, k) refl

  given-IsSession :
      (chars : Chars)
      → from_utf8 username ≡ some chars
      → is_blank chars ≡ false
      → login_now ≤ u64_max
      → login_nonce ≤ u64_max
      → IsSession given
  unfolding new_session
  given-IsSession chars f b hn hk = record {
    chars = chars;
    is_utf8 = f;
    not_blank = b;
    token =
        build-IsToken user.profile.permissions store.session_duration login_now login_nonce hn hk;
  }

-- A request with this cookie, as it arrives.
abbrev pub request : Chars → Bool → Request
request text is_hx = record { cookie = some text; is_hx = is_hx; session = none }

module _ (mac : Mac) (h : IsMac mac) (server_key : Bytes) (store : UserStore)
    (decode : Chars → Option Bytes) (now : ℕ) where
  -- A request with the cookie of a session of a known user is passed on with that session.
  user_auth_complete :
      (login_redirect : Chars) (inner : Service) (is_hx : Bool) (text : Chars) (s : UserSession)
      → decode text ≡ some (sign_token mac session_token server_key s)
      → IsSession s
      → is_active s.access_token now ≡ true
      → contains_user store s.username ≡ true
      → user_auth mac server_key store decode now login_redirect inner (request text is_hx)
        ≡ inner (record (request text is_hx) { session = some s })
  unfolding user_auth extract_user_session known_session
  user_auth_complete login_redirect inner is_hx text s d v a c =
      rw
        (
          user_auth,
          extract_user_session,
          d,
          verify_bytes-session mac h server_key s v,
          known_session,
          a,
          c,
        )
        refl

  module _ (encode : Bytes → Chars) (set_cookie : Chars → ℕ → Chars)
      (renew_duration renew_now nonce : ℕ) (permissions : Permissions) (handler : Service) where
    -- What the page answers to a request with this session; a session that is about to end is
    -- renewed, and the response sets the new cookie.
    abbrev pub answer : UserSession → Request → Option Response
    answer s r =
        let t = renewed store s renew_now nonce in
        if leb (ttl s.access_token renew_now) renew_duration
        then Option.map
            (with_header (codes "set-cookie")
              (session_cookie mac server_key store encode set_cookie t renew_now))
            (handler (record r { session = some t }))
        else handler (record r { session = some s })

    authorize_user_complete :
        (notification : Response) (r : Request) (s : UserSession)
        → has_permission s.access_token permissions ≡ true
        → authorize_user notification permissions handler (record r { session = some s })
          ≡ handler (record r { session = some s })
    unfolding authorize_user
    authorize_user_complete notification r s p = rw (authorize_user, p) refl

    renew_user_complete :
        (notification : Response) (r : Request) (s : UserSession)
        → renew_session store s.username renew_now nonce
          ≡ logged_in (renewed store s renew_now nonce)
        → contains_user store s.username ≡ true
        → has_permission s.access_token permissions ≡ true
        → renew_user mac server_key store encode set_cookie renew_duration renew_now nonce
            (authorize_user notification permissions handler)
            (record r { session = some s })
          ≡ answer s r
    unfolding renew_user inner_renewed has_permission build
    renew_user_complete notification r s e c p =
        let same : has_permission (renewed store s renew_now nonce).access_token permissions
            ≡ true =
          p in
        elim (Bool-cases (leb (ttl s.access_token renew_now) renew_duration)) [
          | inl b ↦
              rw (renew_user, b, c, e)
                (ap
                  (Option.map (
                    with_header (codes "set-cookie") (
                      session_cookie mac server_key store encode set_cookie
                        (renewed store s renew_now nonce) renew_now)))
                  (authorize_user_complete notification r (renewed store s renew_now nonce) same))
          | inr b ↦ rw (renew_user, b) (authorize_user_complete notification r s p)
        ]

    -- If a login gives a session, a request with the cookie of this session reaches a protected
    -- page while the session is active, if it holds the permissions of the page, the name of the
    -- user is UTF-8 and not blank, clock and random number have 64 bits, and the code is as HMAC
    -- promises; a session that is about to end is renewed with the same permissions, and the
    -- response sets the new cookie.
    pub protected_login :
        (scrypt : Bytes → Bytes → Option Bytes) (login_redirect : Chars) (notification : Response)
        (is_hx : Bool) (username password text chars : Bytes) (login_now login_nonce : ℕ)
        (s : UserSession)
        → login_user scrypt store username password login_now login_nonce ≡ logged_in s
        → from_utf8 username ≡ some chars
        → is_blank chars ≡ false
        → login_now ≤ u64_max
        → login_nonce ≤ u64_max
        → decode text ≡ some (sign_token mac session_token server_key s)
        → is_active s.access_token now ≡ true
        → has_permission s.access_token permissions ≡ true
        → protected mac server_key store encode set_cookie decode now login_redirect renew_duration
            renew_now nonce notification permissions handler
            (request text is_hx)
          ≡ htmx_redirect (answer s) (request text is_hx)
    unfolding protected htmx_redirect
    protected_login scrypt login_redirect notification is_hx username password text chars login_now
          login_nonce s l f b hn hk d a p =
        let (user, k, e) =
          login_user-new_session scrypt store username password login_now login_nonce s l in
        let valid : IsSession s =
          subst IsSession (sym e)
            (given-IsSession store user username k login_now login_nonce chars f b hn hk) in
        let known : contains_user store s.username ≡ true =
          subst (λ x. contains_user store x.username ≡ true) (sym e)
            (given-contains_user store user username k login_now login_nonce) in
        let renews : renew_session store s.username renew_now nonce
            ≡ logged_in (renewed store s renew_now nonce) =
          subst
            (λ x.
              renew_session store x.username renew_now nonce
              ≡ logged_in (renewed store x renew_now nonce))
            (sym e) (given-renewed store user username k login_now login_nonce renew_now nonce) in
        ap (λ o. if is_hx then Option.map redirected o else o)
          (user_auth_complete login_redirect _ is_hx text s d valid a known
            ∙ renew_user_complete notification (request text is_hx) s renews known p)
