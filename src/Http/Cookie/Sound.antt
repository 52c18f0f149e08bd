-- ===== src/Http/Cookie/Sound.antt =====
-- http/hypermedia/middleware: a page is reached only with a session that the server has signed.
use mathlib.Core.Option
use nut_webgui.Prelude.{
  leb, ◌&&◌, subst, if◌then◌else◌, ◌≡◌, refl, ap, ℕ, true, Option, none, some, ◌++◌, ◌⊎◌, inl, inr,
  Bool-cases, Option-cases,
}
use nut_webgui.Upsmc.Text.{Bytes, codes}
use nut_webgui.Upsmc.Status.{Chars}
use nut_webgui.Auth.Outcome.{Outcome, done, failed, panicked}
use nut_webgui.Auth.Token.{Permissions, is_active, has_permission, ttl}
use nut_webgui.Auth.Signer.{Mac, IsMac, SignatureError}
use nut_webgui.Auth.Signer.Laws.{verify_bytes_sound}
use nut_webgui.Auth.Session.{UserSession, UserSessionError, session_from_bytes}
use nut_webgui.Auth.Session.Laws.{session_token}
use nut_webgui.Auth.Users.{UserStore, Login, logged_in, rejected, contains_user, renew_session}
use nut_webgui.Http.Cookie.{
  Request, Response, Service, known_session, extract_user_session, user_auth, inner_renewed,
  renew_user, authorize_user, htmx_redirect, protected, redirected, with_header, session_cookie,
}

module _ (mac : Mac) (h : IsMac mac) (server_key : Bytes) (user_store : UserStore)
    (decode : Chars → Option Bytes) (now : ℕ) where
  -- The cookie holds this session and its tag; the session is active and its user is known.
  abbrev pub Signed : Option Chars → UserSession → Type 0
  Signed cookie s =
      (text : Chars) × (payload : Bytes) × (cookie ≡ some text)
      × (decode text ≡ some (payload ++ mac.tag server_key payload))
      × (session_from_bytes payload ≡ done s)
      × (is_active s.access_token now ≡ true)
      × (contains_user user_store s.username ≡ true)

  known_session_sound :
      (r : Outcome (SignatureError UserSessionError) UserSession) (s : UserSession)
      → known_session mac server_key user_store decode now r ≡ done s
      → (r ≡ done s)
        × (is_active s.access_token now ≡ true)
        × (contains_user user_store s.username ≡ true)
  unfolding known_session
  known_session_sound (failed e) s f = absurd (cc f)
  known_session_sound panicked s f = absurd (cc f)
  known_session_sound (done t) s f = elim (Bool-cases (is_active t.access_token now)) [
    | inr a ↦ absurd (cc (rw (known_session, a) at f))
    | inl a ↦ elim (Bool-cases (contains_user user_store t.username)) [
      | inr c ↦ absurd (cc (rw (known_session, a, c) at f))
      | inl c ↦
          let same : t ≡ s = cc (rw (known_session, a, c) at f) in
          (ap done same, rw (← same) a, rw (← same) c)
    ]
  ]

  extract_user_session_sound :
      (cookie : Option Chars) (s : UserSession)
      → extract_user_session mac server_key user_store decode now cookie ≡ done s
      → Signed cookie s
  unfolding extract_user_session
  extract_user_session_sound none s e = absurd (cc e)
  extract_user_session_sound (some text) s e = elim (Option-cases (decode text)) [
    | inl d ↦ absurd (cc (rw (extract_user_session, d) at e))
    | inr (bytes, d) ↦
        let (r, a, c) = known_session_sound _ s (rw (extract_user_session, d) at e) in
        let (payload, b, f) = verify_bytes_sound mac h session_token server_key bytes s r in
        (text, payload, refl, rw d (ap some b), f, a, c)
  ]

  -- Two services that agree on the requests with a signed session agree behind the middleware.
  user_auth_agree :
      (login_redirect : Chars) (f g : Service) (req : Request)
      → ((s : UserSession)
          → Signed req.cookie s
          → f (record req { session = some s }) ≡ g (record req { session = some s }))
      → user_auth mac server_key user_store decode now login_redirect f req
        ≡ user_auth mac server_key user_store decode now login_redirect g req
  unfolding user_auth
  user_auth_agree login_redirect f g req k = by_outcome _ refl
    where
      by_outcome :
          (r : Outcome Unit UserSession)
          → extract_user_session mac server_key user_store decode now req.cookie ≡ r
          → user_auth mac server_key user_store decode now login_redirect f req
            ≡ user_auth mac server_key user_store decode now login_redirect g req
      by_outcome (done s) e = rw (user_auth, e) (k s (extract_user_session_sound req.cookie s e))
      by_outcome (failed x) e = rw (user_auth, e) refl
      by_outcome panicked e = rw (user_auth, e) refl

  authorize_user_agree :
      (notification : Response) (permissions : Permissions) (f g : Service) (req : Request)
      → ((s : UserSession)
          → req.session ≡ some s
          → has_permission s.access_token permissions ≡ true
          → f req ≡ g req)
      → authorize_user notification permissions f req
        ≡ authorize_user notification permissions g req
  unfolding authorize_user
  authorize_user_agree notification permissions f g req k = elim (Option-cases req.session) [
    | inl n ↦ rw (authorize_user, n) refl
    | inr (s, n) ↦ elim (Bool-cases (has_permission s.access_token permissions)) [
      | inl p ↦ rw (authorize_user, n, p) (k s n p)
      | inr p ↦ rw (authorize_user, n, p) refl
    ]
  ]

  module _ (encode : Bytes → Chars) (set_cookie : Chars → ℕ → Chars)
      (renew_duration renew_now nonce : ℕ) where
    renew_user_agree :
        (f g : Service) (req : Request) (s : UserSession)
        → req.session ≡ some s
        → f req ≡ g req
        → ((t : UserSession)
            → renew_session user_store s.username renew_now nonce ≡ logged_in t
            → f (record req { session = some t }) ≡ g (record req { session = some t }))
        → renew_user mac server_key user_store encode set_cookie renew_duration renew_now nonce f
            req
          ≡ renew_user mac server_key user_store encode set_cookie renew_duration renew_now nonce g
              req
    unfolding renew_user inner_renewed
    renew_user_agree f g req s e k l =
        elim (Bool-cases (
          leb (ttl s.access_token renew_now) renew_duration
          && contains_user user_store s.username)) [
            | inr b ↦ rw (renew_user, e, b) k
            | inl b ↦ rw (renew_user, e, b) (by_login _ refl)
          ]
      where
        by_login :
            (r : Login)
            → renew_session user_store s.username renew_now nonce ≡ r
            → inner_renewed mac server_key user_store encode set_cookie f req renew_now r
              ≡ inner_renewed mac server_key user_store encode set_cookie g req renew_now r
        by_login (rejected x) q = k
        by_login (logged_in t) q =
            ap
              (Option.map (
                with_header (codes "set-cookie")
                  (session_cookie mac server_key user_store encode set_cookie t renew_now)))
              (l t q)

    -- A request that the middleware of a page pass on: it carries the session of the cookie or the
    -- one that the session is renewed to.
    abbrev pub Authorised : Permissions → Option Chars → Request → Type 0
    Authorised permissions cookie r =
        (s t : UserSession) × Signed cookie s
        × (r.session ≡ some t)
        × (has_permission t.access_token permissions ≡ true)
        × ((t ≡ s) ⊎ (renew_session user_store s.username renew_now nonce ≡ logged_in t))

    -- Two handlers of a protected page that agree on the requests with an authorised session give
    -- the same responses to every request, if the code is as HMAC promises: the session is the one
    -- of the cookie, signed by the server, active and of a known user, or the one it is renewed
    -- to, and it holds the permissions of the page.
    pub protected_sound :
        (login_redirect : Chars) (notification : Response) (permissions : Permissions)
        (f g : Service) (req : Request)
        → ((r : Request) → Authorised permissions req.cookie r → f r ≡ g r)
        → protected mac server_key user_store encode set_cookie decode now login_redirect
            renew_duration renew_now nonce notification permissions f req
          ≡ protected mac server_key user_store encode set_cookie decode now login_redirect
              renew_duration renew_now nonce notification permissions g req
    unfolding protected htmx_redirect
    protected_sound login_redirect notification permissions f g req k =
        ap (λ o. if req.is_hx then Option.map redirected o else o)
          (user_auth_agree login_redirect _ _ req λ s signed.
            renew_user_agree (authorize_user notification permissions f)
              (authorize_user notification permissions g) (record req { session = some s }) s refl
              (authorize_user_agree notification permissions f g _
                λ t e p. k _ (s, t, signed, e, p, inl (cc e)))
              λ t renewed. authorize_user_agree notification permissions f g _ λ u e p.
                let same : t ≡ u = cc e in
                k _ (
                  s,
                  u,
                  signed,
                  e,
                  p,
                  inr (
                      subst (λ x. renew_session user_store s.username renew_now nonce ≡ logged_in x)
                        same renewed),
                ))
