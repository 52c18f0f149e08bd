-- ===== src/Http/Tests.antt =====
-- Runs of the middleware with a decoder that knows one text.
use nut_webgui.Upsmc.Bits.{zeros, word_or, single, set}
use nut_webgui.Upsmc.Bits.Iter.{positions_from, positions}
use nut_webgui.Http.StatusDetail.{
  status_details-positions, until_unknown, status_details_shown, until_unnamed, shown_name,
  status_details,
}
use nut_webgui.Prelude.{map, ◌≡◌, refl, Option, some, true, [], ◌∷◌, arith}
use nut_webgui.Upsmc.Text.{Bytes, codes}
use nut_webgui.Upsmc.Text
use nut_webgui.Upsmc.Bits.Laws.{has_iff}
use nut_webgui.Upsmc.Status.{Chars, is_whitespace}
use nut_webgui.Auth.Token.{AccessToken, build, setvar, is_active, has_permission}
use nut_webgui.Auth.Token.Laws.{build-IsToken}
use nut_webgui.Auth.Signer.{Mac, IsMac, sign_token}
use nut_webgui.Http.Api.{access_token, auth_api, authorize_api, inner}
use nut_webgui.Http.Api.Laws.{auth_api_sound, Genuine}
use nut_webgui.Http.Api.Complete.{auth_api_complete, bearer, IsSolid}

abbrev zeros_32 : Bytes
zeros_32 =
    0 ∷ 0 ∷ 0 ∷ 0 ∷ 0 ∷ 0 ∷ 0 ∷ 0 ∷ 0 ∷ 0 ∷ 0 ∷ 0 ∷ 0 ∷ 0 ∷ 0 ∷ 0 ∷ 0 ∷ 0 ∷ 0 ∷ 0 ∷ 0 ∷ 0 ∷ 0 ∷ 0
    ∷ 0 ∷ 0 ∷ 0 ∷ 0 ∷ 0 ∷ 0 ∷ 0 ∷ 0 ∷ []

abbrev constant_mac : Mac
constant_mac = record {
  tag = λ key message. zeros_32;
  verify_slice = λ key message signature. Text.text_eq signature zeros_32;
}

constant_mac-IsMac : IsMac constant_mac
constant_mac-IsMac = record {
  length_tag = λ key message. refl;
  verify_iff = λ key message signature. Text.text_eq_iff signature zeros_32;
}

abbrev some_token : AccessToken
some_token = build setvar 900 1_700_000_000 42

abbrev decode : Chars → Option Bytes
decode text = some (sign_token constant_mac access_token [] some_token)

abc-IsSolid : IsSolid (codes "abc")
unfolding is_whitespace
abc-IsSolid = (refl, (refl, (refl, tt)))

active : is_active some_token 1_700_000_001 ≡ true
unfolding is_active build
active = refl

permitted : has_permission some_token setvar ≡ true
unfolding has_permission build
permitted = (has_iff 8 setvar setvar).1 (λ i h. h)

auth_api_complete_example :
    auth_api constant_mac decode [] 1_700_000_001
      (some (bearer (codes "abc")))
      (authorize_api setvar)
    ≡ inner some_token
auth_api_complete_example =
    auth_api_complete constant_mac constant_mac-IsMac decode [] 1_700_000_001 (codes "abc") setvar
      some_token abc-IsSolid refl
      (build-IsToken setvar 900 1_700_000_000 42 (omega arith) (omega arith)) active permitted

auth_api_sound_example :
    Genuine constant_mac constant_mac-IsMac decode [] 1_700_000_001 some_token
    × (has_permission some_token setvar ≡ true)
auth_api_sound_example =
    auth_api_sound constant_mac constant_mac-IsMac decode [] 1_700_000_001
      (some (bearer (codes "abc"))) setvar some_token auth_api_complete_example

comm_first : positions 32 (set 32 (single 32 5) (single 32 11)) ≡ 5 ∷ 11 ∷ []
unfolding positions positions_from set word_or single zeros
comm_first = refl

status_details_shown_example :
    map (λ d. d.name) (status_details (set 32 (single 32 5) (single 32 11)))
    ≡ until_unnamed (positions 32 (set 32 (single 32 5) (single 32 11)))
status_details_shown_example = status_details_shown (set 32 (single 32 5) (single 32 11))

-- The flag ONLINE is hidden by the flag COMM.
hidden : until_unnamed (positions 32 (set 32 (single 32 5) (single 32 11))) ≡ []
unfolding until_unnamed shown_name
hidden = rw comm_first refl

status_details-positions_example :
    status_details (single 32 11) ≡ until_unknown (map (single 32) (positions 32 (single 32 11)))
status_details-positions_example = status_details-positions (single 32 11)
