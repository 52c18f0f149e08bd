-- ===== src/Http/Keys/Laws.antt =====
-- http/hypermedia/route/api_key.rs with the middleware of the API: what a key opens.
use nut_webgui.Prelude.{
  ◌≡◌, refl, sym, subst, ℕ, ◌≤◌, ◌<◌, true, if◌then◌else◌, Option, some, Bool-cases, inl, inr,
  length, arith,
}
use nut_webgui.Upsmc.Text.{Bytes}
use nut_webgui.Upsmc.Status.{Chars}
use nut_webgui.Upsmc.Bits.Laws.{has_iff}
use nut_webgui.Auth.Token.{
  AccessToken, Permissions, has_permission, is_active, build, u64_max, as_bytes,
}
use nut_webgui.Auth.Token.Laws.{build-IsToken, from_bytes-as_bytes, length-as_bytes, IsToken}
use nut_webgui.Auth.Signer.{Mac, IsMac, sign_token}
use nut_webgui.Auth.Signer.Laws.{verify_bytes-sign_token}
use nut_webgui.Auth.Session.{UserSession}
use nut_webgui.Auth.Users.{UserStore}
use nut_webgui.Http.Api.{
  access_token, auth_api, authorize_api, inner, unauthorized, forbidden, decode_token, only_active,
  ApiResponse,
}
use nut_webgui.Http.Api.Complete.{bearer, IsSolid, extract-bearer, trim-solid}
use nut_webgui.Http.Keys.{key, is_user, key_token, create_key}

-- Who holds some permissions holds every part of them.
has_permission_trans :
    (s t : AccessToken) (part : Permissions)
    → has_permission s t.permissions ≡ true
    → has_permission t part ≡ true
    → has_permission s part ≡ true
unfolding has_permission
has_permission_trans s t part p q =
    (has_iff 8 s.permissions part).1
      λ i h. (has_iff 8 s.permissions t.permissions).0 p i ((has_iff 8 t.permissions part).0 q i h)

-- The token that the middleware of the API find behind a key.
opened : AccessToken → Permissions → ℕ → ApiResponse
opened token route now =
    if is_active token now
    then (if has_permission token route then inner token else forbidden)
    else unauthorized

module _ (mac : Mac) (h : IsMac mac) (decode : Chars → Option Bytes) (server_key : Bytes) where
  auth_api-opened :
      (text : Chars) (route : Permissions) (token : AccessToken) (now : ℕ)
      → IsSolid text
      → decode text ≡ some (sign_token mac access_token server_key token)
      → IsToken token
      → auth_api mac decode server_key now (some (bearer text)) (authorize_api route)
        ≡ opened token route now
  unfolding auth_api authorize_api decode_token only_active opened
  auth_api-opened text route token now s d v =
      let l : 0 < length (as_bytes token) = omega (arith, length-as_bytes token) in
      let accepted =
        verify_bytes-sign_token mac h access_token server_key token l
          (from_bytes-as_bytes token v) in
      elim (Bool-cases (is_active token now)) [
        | inl a ↦
            rw
              (
                auth_api,
                extract-bearer mac h decode server_key now text s,
                decode_token,
                trim-solid text s,
                d,
                accepted,
                only_active,
                a,
                authorize_api,
                opened,
              )
              refl
        | inr a ↦
            rw
              (
                auth_api,
                extract-bearer mac h decode server_key now text s,
                decode_token,
                trim-solid text s,
                d,
                accepted,
                only_active,
                a,
                opened,
              )
              refl
      ]

  created :
      (encode : Bytes → Chars) (store : Option UserStore) (session : UserSession)
      (permissions : Permissions) (duration now nonce : ℕ) (text : Chars)
      → create_key mac encode server_key store session permissions duration now nonce ≡ key text
      → (has_permission session.access_token permissions ≡ true)
        × (text
            ≡ encode
                (sign_token mac access_token server_key (key_token permissions duration now nonce)))
  unfolding create_key
  created encode store session permissions duration now nonce text e =
      elim (Bool-cases (is_user store session.username)) [
        | inr u ↦ absurd (cc (rw (create_key, u) at e))
        | inl u ↦ elim (Bool-cases (has_permission session.access_token permissions)) [
          | inr p ↦ absurd (cc (rw (create_key, u, p) at e))
          | inl p ↦ (p, cc (rw (create_key, u, p) at e))
        ]
      ]

  -- A key that a user makes opens a route of the API exactly while the key is active and if its
  -- permissions include those of the route, and then the session of the user holds them as well,
  -- if base64 decodes what it encodes, the key holds no white space, clock and random number have
  -- 64 bits, and the code is as HMAC promises.
  pub create_key-auth_api :
      (encode : Bytes → Chars) (store : Option UserStore) (session : UserSession)
      (permissions route : Permissions) (duration now nonce later : ℕ) (text : Chars)
      → ((bytes : Bytes) → decode (encode bytes) ≡ some bytes)
      → create_key mac encode server_key store session permissions duration now nonce ≡ key text
      → IsSolid text
      → now ≤ u64_max
      → nonce ≤ u64_max
      → (auth_api mac decode server_key later (some (bearer text)) (authorize_api route) ≡ (
          if is_active (key_token permissions duration now nonce) later
          then (if has_permission (key_token permissions duration now nonce) route
              then inner (key_token permissions duration now nonce)
              else forbidden)
          else unauthorized))
        × (has_permission (key_token permissions duration now nonce) route ≡ true
            → has_permission session.access_token route ≡ true)
  unfolding opened
  create_key-auth_api encode store session permissions route duration now nonce later text d e s hn
        hk =
      let (p, t) = created encode store session permissions duration now nonce text e in
      let token = key_token permissions duration now nonce in
      let held : has_permission session.access_token token.permissions ≡ true =
        unfold key_token build in p in
      let valid : IsToken token = unfold key_token in build-IsToken permissions _ now nonce hn hk in
      (
        auth_api-opened text route token later s
            (subst (λ x. decode x ≡ some (sign_token mac access_token server_key token)) (sym t)
              (d _))
            valid,
        λ q. has_permission_trans session.access_token token route held q,
      )
