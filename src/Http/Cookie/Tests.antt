-- ===== src/Http/Cookie/Tests.antt =====
-- Runs of the login and of the session middleware, with a code that is a constant.
use nut_webgui.Prelude.{◌≡◌, refl, ℕ, [], true, false, Option, none, some, arith}
use nut_webgui.Upsmc.Text.{Bytes, codes}
use nut_webgui.Upsmc.Status.{Chars, is_whitespace}
use nut_webgui.Auth.Outcome.{done}
use nut_webgui.Auth.Utf8.{from_utf8, decode_loop, decode_byte, push_char}
use nut_webgui.Auth.Token.{is_active, build, setvar}
use nut_webgui.Auth.Token.Laws.{build-IsToken}
use nut_webgui.Auth.Signer.{sign_token, verify_bytes}
use nut_webgui.Auth.Session.{is_blank}
use nut_webgui.Auth.Session.Laws.{session_token, IsSession, verify_bytes-session}
use nut_webgui.Auth.Session.Kinds.{verify_bytes_exclusive}
use nut_webgui.Auth.Users.{profile_of, build_store}
use nut_webgui.Http.Api.{access_token}
use nut_webgui.Http.Cookie.{Request, Response, Service, protected, htmx_redirect}
use nut_webgui.Http.Cookie.Sound.{protected_sound, Authorised}
use nut_webgui.Http.Cookie.Complete.{protected_login, request, answer}
use nut_webgui.Auth.Users.Tests.{
  permitted, login, scrypt, store, constant_mac-IsMac, ann, session, constant_mac,
}

-- base64, as the identity.
abbrev decode : Chars → Option Bytes
decode text = some text

abbrev cookie : Chars
cookie = sign_token constant_mac session_token [] session

abbrev handler : Service
handler r = some (record { status = 200; headers = []; body = codes "page" })

-- A handler that answers nothing to a request without a session.
abbrev picky : Service
picky r = elim r.session [ none ↦ none | some s ↦ handler r ]

abbrev notification : Response
notification = record { status = 200; headers = []; body = [] }

abbrev set_cookie : Chars → ℕ → Chars
set_cookie text age = text

active : is_active session.access_token 1_700_000_001 ≡ true
unfolding is_active build build_store
active = refl

ann_reads : from_utf8 (codes "ann") ≡ some (codes "ann")
unfolding from_utf8 decode_loop decode_byte push_char
ann_reads = refl

ann_not_blank : is_blank (codes "ann") ≡ false
unfolding is_blank is_whitespace
ann_not_blank = refl

protected_login_example :
    protected constant_mac [] store
      (λ b. b)
      set_cookie
      decode
      1_700_000_001
      (codes "/login")
      604_800
      1_700_000_001
      43
      notification
      setvar
      handler
      (request cookie false)
    ≡ htmx_redirect
        (answer constant_mac constant_mac-IsMac [] store decode 1_700_000_001
          (λ b. b)
          set_cookie
          604_800
          1_700_000_001
          43
          setvar
          handler
          session)
        (request cookie false)
protected_login_example =
    protected_login constant_mac constant_mac-IsMac [] store decode 1_700_000_001 (λ b. b)
      set_cookie 604_800 1_700_000_001 43 setvar handler scrypt (codes "/login") notification false
      (codes "ann") (codes "secret") cookie (codes "ann") 1_700_000_000 42 session login ann_reads
      ann_not_blank (omega arith) (omega arith) refl active permitted

picky_agrees :
    (r : Request)
    → Authorised constant_mac constant_mac-IsMac [] store decode 1_700_000_001
        (λ b. b)
        set_cookie
        604_800
        1_700_000_001
        43
        setvar
        (some cookie)
        r
    → handler r ≡ picky r
picky_agrees r (s, t, signed, e, q, w) = rw e refl

protected_sound_example :
    protected constant_mac [] store
      (λ b. b)
      set_cookie
      decode
      1_700_000_001
      (codes "/login")
      604_800
      1_700_000_001
      43
      notification
      setvar
      handler
      (request cookie false)
    ≡ protected constant_mac [] store
        (λ b. b)
        set_cookie
        decode
        1_700_000_001
        (codes "/login")
        604_800
        1_700_000_001
        43
        notification
        setvar
        picky
        (request cookie false)
protected_sound_example =
    protected_sound constant_mac constant_mac-IsMac [] store decode 1_700_000_001 (λ b. b)
      set_cookie 604_800 1_700_000_001 43 (codes "/login") notification setvar handler picky
      (request cookie false) picky_agrees

session-IsSession : IsSession session
session-IsSession = record {
  chars = codes "ann";
  is_utf8 = ann_reads;
  not_blank = ann_not_blank;
  token =
      build-IsToken (profile_of ann).permissions store.session_duration 1_700_000_000 42
        (omega arith) (omega arith);
}

verify_bytes_exclusive_example :
    ¬ (verify_bytes constant_mac access_token [] cookie ≡ done session.access_token)
verify_bytes_exclusive_example =
    verify_bytes_exclusive constant_mac constant_mac-IsMac [] cookie session session.access_token
      (verify_bytes-session constant_mac constant_mac-IsMac [] session session-IsSession)
