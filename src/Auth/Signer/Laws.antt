-- ===== src/Auth/Signer/Laws.antt =====
-- auth/token_signer.rs: what is signed is accepted, and only that.
use nut_webgui.Prelude.{
  ◌+◌, ◌-◌, ◌<◌, ◌≡◌, refl, ap, sym, ◌∙◌, false, leb, ◌++◌, length, take, drop, length-append,
  take-append-drop, take-length_append, drop-length_append, Bool-cases, inl, inr, arith,
}
use nut_webgui.Upsmc.Text.{Bytes}
use nut_webgui.Auth.Outcome.{Outcome, done, failed, panicked}
use nut_webgui.Auth.Signer.{Mac, IsMac, BinaryToken, sign_token, verify_bytes, map_token_error}

module _ (mac : Mac) (h : IsMac mac) {T E : Type 0} (token : BinaryToken T E)
    (server_key : Bytes) where
  -- A signed token that can be read back from its own bytes is accepted, and is this token.
  pub verify_bytes-sign_token :
      (t : T)
      → 0 < length (token.as_bytes t)
      → token.from_bytes (token.as_bytes t) ≡ done t
      → verify_bytes mac token server_key (sign_token mac token server_key t) ≡ done t
  unfolding verify_bytes sign_token map_token_error
  verify_bytes-sign_token t l e =
      let bytes = token.as_bytes t in
      let signature = mac.tag server_key bytes in
      let n : length (bytes ++ signature) ≡ length bytes + 32 =
        omega (arith, length-append bytes signature, h.length_tag server_key bytes) in
      let at : length (bytes ++ signature) - 32 ≡ length bytes = omega (arith, n) in
      let long : leb (length (bytes ++ signature)) 32 ≡ false = ground (arith, n, l) in
      let valid = (h.verify_iff server_key bytes signature).1 refl in
      rw
        (long, at, take-length_append bytes signature, drop-length_append bytes signature, valid, e)
        refl

  map_token_error-done :
      (o : Outcome E T) (t : T) → map_token_error mac token server_key o ≡ done t → o ≡ done t
  unfolding map_token_error
  map_token_error-done (done u) t e = cc e
  map_token_error-done (failed x) t e = cc e
  map_token_error-done panicked t e = cc e

  -- Bytes are accepted as a token only if they are bytes that read as this token, followed by
  -- their own tag under the key of the server, if the code is as HMAC promises.
  pub verify_bytes_sound :
      (bytes : Bytes) (t : T)
      → verify_bytes mac token server_key bytes ≡ done t
      → (payload : Bytes) × (bytes ≡ payload ++ mac.tag server_key payload)
        × (token.from_bytes payload ≡ done t)
  unfolding verify_bytes
  verify_bytes_sound bytes t e =
      let at = length bytes - 32 in
      let payload = take at bytes in
      elim (Bool-cases (leb (length bytes) 32)) [
        | inl l ↦ absurd (cc (rw (verify_bytes, l) at e))
        | inr l ↦ elim (Bool-cases (mac.verify_slice server_key payload (drop at bytes))) [
          | inl v ↦ (
            payload,
            sym (take-append-drop at bytes) ∙ ap (λ s. payload ++ s) ((h.verify_iff _ _ _).0 v),
            map_token_error-done _ t (rw (verify_bytes, l, v) at e),
          )
          | inr v ↦ absurd (cc (rw (verify_bytes, l, v) at e))
        ]
      ]
