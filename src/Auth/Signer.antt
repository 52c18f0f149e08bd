-- ===== src/Auth/Signer.antt =====
-- auth/token_signer.rs, over any token that has bytes, and over the message authentication code of
-- the hmac crate.
pub mod Laws
use nut_webgui.Prelude.{
  ℕ, ◌-◌, ◌≡◌, ◌↔◌, Bool, true, if◌then◌else◌, leb, List, ◌++◌, length, take, drop,
}
use nut_webgui.Upsmc.Text.{Bytes}
use nut_webgui.Auth.Outcome.{Outcome, done, failed, panicked}

-- `Hmac<Sha256>`: the tag of a message under a key, and `verify_slice`.
pub record Mac : Type 0 where
  pub tag : Bytes → Bytes → Bytes
  pub verify_slice : Bytes → Bytes → Bytes → Bool

-- What its documentation promises: a tag has 32 bytes, and only the tag is verified.
pub record IsMac (mac : Mac) : Type 0 where
  pub length_tag : (key message : Bytes) → length (mac.tag key message) ≡ 32
  pub verify_iff :
      (key message signature : Bytes)
      → (mac.verify_slice key message signature ≡ true) ↔ (signature ≡ mac.tag key message)

-- The trait `BinaryToken`.
pub record BinaryToken (T E : Type 0) : Type 0 where
  pub as_bytes : T → Bytes
  pub from_bytes : Bytes → Outcome E T

pub data SignatureError (E : Type 0) : Type 0 where
  invalid_length : SignatureError E
  invalid_signature : SignatureError E
  token_error : E → SignatureError E

abbrev pub signature_size : ℕ
signature_size = 32

module _ (mac : Mac) {T E : Type 0} (token : BinaryToken T E) (server_key : Bytes) where
  unfoldable pub sign_token : T → Bytes
  sign_token t = let bytes = token.as_bytes t in bytes ++ mac.tag server_key bytes

  -- `map_err(SignatureError::TokenError)`.
  unfoldable pub map_token_error : Outcome E T → Outcome (SignatureError E) T
  map_token_error (done t) = done t
  map_token_error (failed e) = failed (token_error e)
  map_token_error panicked = panicked

  unfoldable pub verify_bytes : Bytes → Outcome (SignatureError E) T
  verify_bytes bytes =
      let at = length bytes - signature_size in
      let payload = take at bytes in
      if leb (length bytes) signature_size
      then failed invalid_length
      else if mac.verify_slice server_key payload (drop at bytes)
      then map_token_error (token.from_bytes payload)
      else failed invalid_signature
