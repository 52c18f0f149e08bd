-- ===== src/Http/Keys/Tests.antt =====
-- Runs of the keys for programs.
use nut_webgui.Prelude.{
  not, ◌&&◌, ◌≡◌, refl, ◌∷◌, [], Bool, true, false, if◌then◌else◌, Option, some, arith, All,
}
use nut_webgui.Upsmc.Text.{Bytes}
use nut_webgui.Upsmc.Status.{Chars, is_whitespace}
use nut_webgui.Upsmc.Bits.{single, zeros}
use nut_webgui.Upsmc.Bits.Value.{to_nat}
use nut_webgui.Auth.LittleEndian.{to_le_bytes}
use nut_webgui.Auth.Token.{
  AccessToken, is_active, has_permission, build, as_bytes, as_u8, setvar, fsd,
}
use nut_webgui.Auth.Signer.{sign_token}
use nut_webgui.Http.Api.{access_token, auth_api, authorize_api, inner, forbidden, unauthorized}
use nut_webgui.Http.Api.Complete.{bearer, IsSolid}
use nut_webgui.Http.Keys.{is_user, create_key, key, key_token}
use nut_webgui.Http.Keys.Laws.{create_key-auth_api}
use nut_webgui.Auth.Users.Tests.{
  permitted, has_user, constant_mac-IsMac, store, session, constant_mac, filled,
}

-- base64, as the identity.
abbrev decode : Chars → Option Bytes
decode text = some text

abbrev token : AccessToken
token = key_token setvar 900_000 1_700_000_000 42

abbrev ann_key : Chars
ann_key = sign_token constant_mac access_token [] token

is_solid : Chars → Bool
is_solid [] = true
is_solid (c ∷ cs) = not (is_whitespace c) && is_solid cs

is_solid_lem : (t : Chars) → is_solid t ≡ true → All (λ c. is_whitespace c ≡ false) t
unfolding is_solid
is_solid_lem [] h = tt
is_solid_lem (c ∷ cs) h = (ground (arith, h), is_solid_lem cs (ground (arith, h)))

ann_key-IsSolid : IsSolid ann_key
unfolding is_solid is_whitespace sign_token as_bytes as_u8 to_le_bytes filled build key_token to_nat
    single setvar zeros
ann_key-IsSolid = is_solid_lem ann_key refl

created :
    create_key constant_mac (λ b. b) [] (some store) session setvar 900_000 1_700_000_000 42
    ≡ key ann_key
unfolding create_key is_user
created = rw (has_user, permitted) refl

create_key-auth_api_example :
    (auth_api constant_mac decode [] 1_700_000_002 (some (bearer ann_key)) (authorize_api fsd) ≡ (
      if is_active token 1_700_000_002
      then (if has_permission token fsd then inner token else forbidden)
      else unauthorized))
    × (has_permission token fsd ≡ true → has_permission session.access_token fsd ≡ true)
create_key-auth_api_example =
    create_key-auth_api constant_mac constant_mac-IsMac decode [] (λ b. b) (some store) session
      setvar fsd 900_000 1_700_000_000 42 1_700_000_002 ann_key (λ b. refl) created ann_key-IsSolid
      (omega arith) (omega arith)
