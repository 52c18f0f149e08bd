-- ===== src/Auth/Session/Laws.antt =====
-- auth/user_session.rs: the bytes of a session and the session of bytes.
use nut_webgui.Prelude.{
  ◌+◌, ◌<◌, ◌≡◌, refl, subst, false, ltb, ◌==◌, some, [], ◌∷◌, ◌++◌, length, take, drop,
  length-append, take-length_append, drop-length_append, arith,
}
use nut_webgui.Upsmc.Text.{Bytes}
use nut_webgui.Upsmc.Status.{Chars}
use nut_webgui.Auth.Outcome.{done}
use nut_webgui.Auth.Utf8.{from_utf8, decode_loop}
use nut_webgui.Auth.Token.{as_bytes}
use nut_webgui.Auth.Token.Laws.{IsToken, from_bytes-as_bytes, length-as_bytes}
use nut_webgui.Auth.Session.{
  UserSessionError, UserSession, is_blank, username_new, session_as_bytes, session_from_bytes,
  with_token, with_username,
}
use nut_webgui.Auth.Signer.{Mac, IsMac, BinaryToken, sign_token, verify_bytes}
use nut_webgui.Auth.Signer.Laws.{verify_bytes-sign_token}

-- The name of a session is UTF-8 and not blank, and its token is one that the builder made.
pub record IsSession (s : UserSession) : Type 0 where
  pub chars : Chars
  pub is_utf8 : from_utf8 s.username ≡ some chars
  pub not_blank : is_blank chars ≡ false
  pub token : IsToken s.access_token

not_blank-length :
    (u : Bytes) (cs : Chars) → from_utf8 u ≡ some cs → is_blank cs ≡ false → 0 < length u
unfolding from_utf8 decode_loop is_blank
not_blank-length (b ∷ bs) cs e h = omega arith
not_blank-length [] [] e h = absurd (cc h)
not_blank-length [] (c ∷ cs) e h = absurd (cc e)

length-username : (s : UserSession) → IsSession s → 0 < length s.username
length-username s v = not_blank-length s.username v.chars v.is_utf8 v.not_blank

-- The bytes of a session are read back as the session.
pub session_from_bytes-session_as_bytes :
    (s : UserSession) → IsSession s → session_from_bytes (session_as_bytes s) ≡ done s
unfolding session_from_bytes session_as_bytes with_token with_username username_new
session_from_bytes-session_as_bytes s v =
    let t = as_bytes s.access_token in
    let n = length-as_bytes s.access_token in
    let size : length (t ++ s.username) ≡ 26 + length s.username =
      omega (arith, n, length-append t s.username) in
    let long : ltb (length (t ++ s.username)) 26 ≡ false = ground (arith, size) in
    let longer : (length (t ++ s.username) == 26) ≡ false =
      ground (arith, size, length-username s v) in
    let first : take 26 (t ++ s.username) ≡ t =
      subst (λ k. take k (t ++ s.username) ≡ t) n (take-length_append t s.username) in
    let second : drop 26 (t ++ s.username) ≡ s.username =
      subst (λ k. drop k (t ++ s.username) ≡ s.username) n (drop-length_append t s.username) in
    rw
      (
        long,
        longer,
        first,
        second,
        from_bytes-as_bytes s.access_token v.token,
        with_username,
        v.is_utf8,
        v.not_blank,
      )
      refl

abbrev pub session_token : BinaryToken UserSession UserSessionError
session_token = record { as_bytes = session_as_bytes; from_bytes = session_from_bytes }

-- A signed session is accepted under the same key, and is this session, if its name is UTF-8 and
-- not blank, its token is one that the builder makes, and the code is as HMAC promises.
pub verify_bytes-session :
    (mac : Mac) (h : IsMac mac) (server_key : Bytes) (s : UserSession)
    → IsSession s
    → verify_bytes mac session_token server_key (sign_token mac session_token server_key s) ≡ done s
unfolding session_as_bytes
verify_bytes-session mac h server_key s v =
    verify_bytes-sign_token mac h session_token server_key s
      (omega (arith, length-append (as_bytes s.access_token) s.username, length-username s v))
      (session_from_bytes-session_as_bytes s v)
