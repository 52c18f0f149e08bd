-- ===== src/Auth/Tests.antt =====
-- Runs of nut_webgui/src/auth with a code that is a constant, or the message's first bytes.
use nut_webgui.Upsmc.Status.{is_whitespace}
use nut_webgui.Prelude.{◌≡◌, refl, [], ◌∷◌, ◌++◌, arith}
use nut_webgui.Upsmc.Text.{Bytes, codes, text_eq, text_eq_iff}
use nut_webgui.Auth.Outcome.{done}
use nut_webgui.Auth.Token.{AccessToken, as_bytes, from_bytes, build, setvar}
use nut_webgui.Auth.Token.Laws.{
  IsToken, build-IsToken, from_bytes-as_bytes, from_bytes_total, length-as_bytes, Reading,
}
use nut_webgui.Auth.Signer.{Mac, IsMac, sign_token, verify_bytes}
use nut_webgui.Auth.Signer.Laws.{verify_bytes-sign_token, verify_bytes_sound}
use nut_webgui.Auth.Session.{UserSession, session_as_bytes, session_from_bytes, is_blank}
use nut_webgui.Auth.Session.Laws.{
  IsSession, session_from_bytes-session_as_bytes, verify_bytes-session, session_token,
}
use nut_webgui.Auth.Utf8.{from_utf8, decode_loop, decode_byte, push_char}
use nut_webgui.Http.Api.{access_token}

abbrev some_token : AccessToken
some_token = build setvar 900 1_700_000_000 42

some_token-IsToken : IsToken some_token
some_token-IsToken = build-IsToken setvar 900 1_700_000_000 42 (omega arith) (omega arith)

build-IsToken_example : IsToken some_token
build-IsToken_example = build-IsToken setvar 900 1_700_000_000 42 (omega arith) (omega arith)

from_bytes-as_bytes_example : from_bytes (as_bytes some_token) ≡ done some_token
from_bytes-as_bytes_example = from_bytes-as_bytes some_token some_token-IsToken

from_bytes_total_example : Reading (1 ∷ 2 ∷ 3 ∷ [])
from_bytes_total_example =
    from_bytes_total (1 ∷ 2 ∷ 3 ∷ []) (omega arith, (omega arith, (omega arith, tt)))

abbrev zeros_32 : Bytes
zeros_32 =
    0 ∷ 0 ∷ 0 ∷ 0 ∷ 0 ∷ 0 ∷ 0 ∷ 0 ∷ 0 ∷ 0 ∷ 0 ∷ 0 ∷ 0 ∷ 0 ∷ 0 ∷ 0 ∷ 0 ∷ 0 ∷ 0 ∷ 0 ∷ 0 ∷ 0 ∷ 0 ∷ 0
    ∷ 0 ∷ 0 ∷ 0 ∷ 0 ∷ 0 ∷ 0 ∷ 0 ∷ 0 ∷ []

abbrev constant_mac : Mac
constant_mac = record {
  tag = λ key message. zeros_32;
  verify_slice = λ key message signature. text_eq signature zeros_32;
}

constant_mac-IsMac : IsMac constant_mac
constant_mac-IsMac = record {
  length_tag = λ key message. refl;
  verify_iff = λ key message signature. text_eq_iff signature zeros_32;
}

verify_bytes-sign_token_example :
    verify_bytes constant_mac access_token [] (sign_token constant_mac access_token [] some_token)
    ≡ done some_token
verify_bytes-sign_token_example =
    verify_bytes-sign_token constant_mac constant_mac-IsMac access_token [] some_token
      (omega (arith, length-as_bytes some_token))
      (from_bytes-as_bytes some_token some_token-IsToken)

signed :
    verify_bytes constant_mac access_token [] (sign_token constant_mac access_token [] some_token)
    ≡ done some_token
signed =
    verify_bytes-sign_token constant_mac constant_mac-IsMac access_token [] some_token
      (omega (arith, length-as_bytes some_token))
      (from_bytes-as_bytes some_token some_token-IsToken)

verify_bytes_sound_example :
    (payload : Bytes) × (sign_token constant_mac access_token [] some_token ≡ payload ++ zeros_32)
    × (from_bytes payload ≡ done some_token)
verify_bytes_sound_example =
    verify_bytes_sound constant_mac constant_mac-IsMac access_token []
      (sign_token constant_mac access_token [] some_token) some_token signed

abbrev some_session : UserSession
some_session = record { username = codes "bob"; access_token = some_token }

some_session-IsSession : IsSession some_session
unfolding from_utf8 decode_loop decode_byte push_char is_blank is_whitespace
some_session-IsSession = record {
  chars = codes "bob";
  is_utf8 = refl;
  not_blank = refl;
  token = some_token-IsToken;
}

session_from_bytes-session_as_bytes_example :
    session_from_bytes (session_as_bytes some_session) ≡ done some_session
session_from_bytes-session_as_bytes_example =
    session_from_bytes-session_as_bytes some_session some_session-IsSession

verify_bytes-session_example :
    verify_bytes constant_mac session_token []
      (sign_token constant_mac session_token [] some_session)
    ≡ done some_session
verify_bytes-session_example =
    verify_bytes-session constant_mac constant_mac-IsMac [] some_session some_session-IsSession
