-- ===== src/Auth/Session/Kinds.antt =====
-- auth/user_session.rs and auth/access_token.rs under one key: a signed session is no signed token.
use nut_webgui.Prelude.{
  ◌<◌, ◌≡◌, ap, sym, ◌∙◌, length, length-append, Bool-cases, inl, inr, ltb, ◌==◌, arith,
}
use nut_webgui.Upsmc.Text.{Bytes}
use nut_webgui.Auth.Outcome.{done}
use nut_webgui.Auth.Token.{AccessToken, from_bytes}
use nut_webgui.Auth.Signer.{Mac, IsMac, verify_bytes}
use nut_webgui.Auth.Signer.Laws.{verify_bytes_sound}
use nut_webgui.Auth.Session.{UserSession, session_from_bytes}
use nut_webgui.Auth.Session.Laws.{session_token}
use nut_webgui.Http.Api.{access_token}

from_bytes-length :
    (bytes : Bytes) (t : AccessToken) → from_bytes bytes ≡ done t → length bytes ≡ 26
unfolding from_bytes
from_bytes-length bytes t e = elim (Bool-cases (length bytes == 26)) [
  | inl l ↦ ground (arith, l)
  | inr l ↦ absurd (cc (rw (from_bytes, l) at e))
]

session_from_bytes-length :
    (bytes : Bytes) (s : UserSession) → session_from_bytes bytes ≡ done s → 26 < length bytes
unfolding session_from_bytes
session_from_bytes-length bytes s e = elim (Bool-cases (ltb (length bytes) 26)) [
  | inl l ↦ absurd (cc (rw (session_from_bytes, l) at e))
  | inr l ↦ elim (Bool-cases (length bytes == 26)) [
    | inl m ↦ absurd (cc (rw (session_from_bytes, l, m) at e))
    | inr m ↦ ground (arith, l, m)
  ]
]

-- Bytes that are accepted as a session are not accepted as a token of the API under the same key,
-- if the code is as HMAC promises.
pub verify_bytes_exclusive :
    (mac : Mac) (h : IsMac mac) (server_key bytes : Bytes) (s : UserSession) (t : AccessToken)
    → verify_bytes mac session_token server_key bytes ≡ done s
    → ¬ (verify_bytes mac access_token server_key bytes ≡ done t)
verify_bytes_exclusive mac h server_key bytes s t e f =
    let (p, b, k) = verify_bytes_sound mac h session_token server_key bytes s e in
    let (q, c, l) = verify_bytes_sound mac h access_token server_key bytes t f in
    let same = ap length (sym b ∙ c) in
    let long = session_from_bytes-length p s k in
    let short = from_bytes-length q t l in
    omega (
      arith,
      same,
      long,
      short,
      length-append p (mac.tag server_key p),
      length-append q (mac.tag server_key q),
      h.length_tag server_key p,
      h.length_tag server_key q,
    )
