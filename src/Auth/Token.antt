-- ===== src/Auth/Token.antt =====
-- auth/permission.rs, auth/nonce.rs and auth/access_token.rs: the token and its 26 bytes. The clock
-- and the random number are arguments.
pub mod Laws
use nut_webgui.Prelude.{
  ℕ, zero, suc, ◌+◌, ◌-◌, min, Bool, true, false, ◌&&◌, if◌then◌else◌, ltb, leb, ◌==◌, not, Option,
  none, some, List, [], ◌∷◌, ◌++◌, length, take, drop,
}
use nut_webgui.Upsmc.Text.{Bytes}
use nut_webgui.Upsmc.Bits.{Word, zeros, single, set, has}
use nut_webgui.Upsmc.Bits.Value.{to_nat, of_nat}
use nut_webgui.Auth.Outcome.{Outcome, done, failed, panicked}
use nut_webgui.Auth.LittleEndian.{to_le_bytes, from_le_bytes}

abbrev pub Permissions : Type 0
Permissions = Word 8

unfoldable pub fsd : Permissions
fsd = single 8 0

unfoldable pub instcmd : Permissions
instcmd = single 8 1

unfoldable pub setvar : Permissions
setvar = single 8 2

unfoldable pub readonly : Permissions
readonly = zeros 8

unfoldable pub all_permissions : Permissions
all_permissions = set 8 (set 8 fsd instcmd) setvar

unfoldable pub as_u8 : Permissions → ℕ
as_u8 = to_nat 8

unfoldable pub permissions_from : ℕ → Permissions
permissions_from = of_nat 8

pub record AccessToken : Type 0 where
  pub permissions : Permissions
  pub valid_until : ℕ
  pub issued_at : ℕ
  pub nonce : ℕ

pub data AccessTokenError : Type 0 where
  invalid_length invalid_version invalid_timestamps : AccessTokenError

abbrev pub u64_max : ℕ
u64_max = 18_446_744_073_709_551_615

-- `AccessTokenBuilder::build`, at this time and with this nonce; durations are in seconds.
unfoldable pub build : Permissions → ℕ → ℕ → ℕ → AccessToken
build permissions valid_until now nonce = record {
  permissions = permissions;
  valid_until = min (now + valid_until) u64_max;
  issued_at = now;
  nonce = nonce;
}

abbrev pub token_byte_len : ℕ
token_byte_len = 26

abbrev pub version : ℕ
version = 1

unfoldable pub is_active : AccessToken → ℕ → Bool
is_active self now = leb self.issued_at now && ltb now self.valid_until

unfoldable pub ttl : AccessToken → ℕ → ℕ
ttl self now = self.valid_until - now

unfoldable pub has_permission : AccessToken → Permissions → Bool
has_permission self permissions = has 8 self.permissions permissions

unfoldable pub as_bytes : AccessToken → Bytes
as_bytes self =
    version
    ∷ as_u8 self.permissions
    ∷ (to_le_bytes 8 self.issued_at ++ (to_le_bytes 8 self.valid_until ++ to_le_bytes 8 self.nonce))

-- `u64::from_le_bytes(bytes[start..start + 8].try_into().expect(..))`; `none` is the panic.
unfoldable pub u64_at : Bytes → ℕ → Option ℕ
u64_at bytes start =
    let slice = take 8 (drop start bytes) in
    if length slice == 8 then some (from_le_bytes slice) else none

unfoldable pub byte_at : Bytes → ℕ → Option ℕ
byte_at [] i = none
byte_at (b ∷ bs) zero = some b
byte_at (b ∷ bs) (suc i) = byte_at bs i

-- The checks of `from_bytes` behind the reads.
unfoldable pub check_fields : ℕ → ℕ → ℕ → ℕ → ℕ → Outcome AccessTokenError AccessToken
check_fields version_val permissions_val issued_at valid_until nonce_val =
    if not (version_val == version)
    then failed invalid_version
    else if ltb valid_until issued_at
    then failed invalid_timestamps
    else done (record {
      permissions = permissions_from permissions_val;
      valid_until = valid_until;
      issued_at = issued_at;
      nonce = nonce_val;
    })

abbrev or_panicked :
    {A : Type 0}
    → Option A
    → (A → Outcome AccessTokenError AccessToken)
    → Outcome AccessTokenError AccessToken
or_panicked none f = panicked
or_panicked (some a) f = f a

unfoldable pub read_fields : Bytes → Outcome AccessTokenError AccessToken
read_fields bytes = or_panicked (byte_at bytes 0) λ version_val.
    or_panicked (byte_at bytes 1) λ permissions_val. or_panicked (u64_at bytes 2) λ issued_at.
      or_panicked (u64_at bytes 10) λ valid_until.
        or_panicked (u64_at bytes 18)
          λ nonce_val. check_fields version_val permissions_val issued_at valid_until nonce_val

unfoldable pub from_bytes : Bytes → Outcome AccessTokenError AccessToken
from_bytes bytes =
    if length bytes == token_byte_len then read_fields bytes else failed invalid_length
