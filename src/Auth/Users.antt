-- ===== src/Auth/Users.antt =====
-- auth/user_store.rs: the users, their passwords and the sessions they are given. scrypt, the
-- clock and the random numbers are arguments; durations are in seconds.
pub mod Hash
pub mod Laws
pub mod Tests
use nut_webgui.Prelude.{
  ℕ, zero, suc, ◌+◌, ◌*◌, Bool, true, false, not, if◌then◌else◌, Option, none, some, and_then, List,
  [], ◌∷◌, take, drop,
}
use nut_webgui.Upsmc.Text.{Bytes, slice}
use nut_webgui.Upsmc.Bits.{Word, bit_eq, word_or, word_eq, zeros}
use nut_webgui.Upsmc.Bits.Value.{of_nat}
use nut_webgui.Upsmc.Dict.{Dict, lookup, is_some}
use nut_webgui.Upsmc.Dict
use nut_webgui.Auth.LittleEndian.{from_le_bytes}
use nut_webgui.Auth.Token.{Permissions, build, readonly}
use nut_webgui.Auth.Session.{UserSession}

pub record UserProfile : Type 0 where
  pub permissions : Permissions
  pub username : Bytes

pub record User : Type 0 where
  pub profile : UserProfile
  pub salt : Bytes
  pub password_hash : Bytes

-- A user of the configuration, with the salt that is drawn for it.
pub record Account : Type 0 where
  pub username : Bytes
  pub permissions : Option Permissions
  pub password : Bytes
  pub salt : Bytes

unfoldable pub profile_of : Account → UserProfile
profile_of a = record {
  permissions = elim a.permissions [ none ↦ readonly | some permissions ↦ permissions ];
  username = a.username;
}

pub record UserStore : Type 0 where
  pub inner : Dict User
  pub session_duration : ℕ

pub data SessionError : Type 0 where
  invalid_login invalid_output_length : SessionError

pub data Login : Type 0 where
  logged_in : UserSession → Login
  rejected : SessionError → Login

unfoldable pub word_xor : (n : ℕ) → Word n → Word n → Word n
word_xor zero v w = tt
word_xor (suc n) (a, v) (b, w) = (not (bit_eq a b), word_xor n v w)

-- `add(i).read_unaligned()` of a pointer to u128, on a machine whose lowest byte is the first.
unfoldable pub read_u128 : Bytes → ℕ → Word 128
read_u128 bytes i = of_nat 128 (from_le_bytes (take 16 (drop (16 * i) bytes)))

unfoldable pub cmp_hash : Bytes → Bytes → Bool
cmp_hash lhs rhs =
    let first = word_or 128 (zeros 128) (word_xor 128 (read_u128 lhs 0) (read_u128 rhs 0)) in
    let result = word_or 128 first (word_xor 128 (read_u128 lhs 1) (read_u128 rhs 1)) in
    word_eq 128 result (zeros 128)

unfoldable pub contains_user : UserStore → Bytes → Bool
contains_user self username = is_some (lookup username self.inner)

unfoldable pub new_session : UserStore → User → Bytes → ℕ → ℕ → UserSession
new_session self user username now nonce = record {
  username = username;
  access_token = build user.profile.permissions self.session_duration now nonce;
}

unfoldable pub renew_session : UserStore → Bytes → ℕ → ℕ → Login
renew_session self username now nonce = elim (lookup username self.inner) [
  | none ↦ rejected invalid_login
  | some user ↦ logged_in (new_session self user username now nonce)
]

-- `scrypt password salt`, with the parameters of `UserStoreBuilder::new` and an output of 32 bytes;
-- `none` is its error.
module _ (scrypt : Bytes → Bytes → Option Bytes) where
  unfoldable pub check_password : UserStore → User → Bytes → Bytes → ℕ → ℕ → Login
  check_password self user username password now nonce = elim (scrypt password user.salt) [
    | none ↦ rejected invalid_output_length
    | some output ↦
        if cmp_hash output user.password_hash
        then logged_in (new_session self user username now nonce)
        else rejected invalid_login
  ]

  unfoldable pub login_user : UserStore → Bytes → Bytes → ℕ → ℕ → Login
  login_user self username password now nonce = elim (lookup username self.inner) [
    | none ↦ rejected invalid_login
    | some user ↦ check_password self user username password now nonce
  ]

  -- `add_user`, with what `random_salt` returns; `none` is the panic of `expect`, and the user that
  -- is replaced is in front.
  unfoldable pub add_user :
      Dict User → UserProfile → Bytes → Bytes → Option (Option User × Dict User)
  add_user users profile password salt = elim (scrypt password salt) [
    | none ↦ none
    | some hash ↦ some (
      lookup profile.username users,
      Dict.insert profile.username (record { profile = profile; salt = salt; password_hash = hash })
          users,
    )
  ]

  -- The loop of main.rs over the users of the configuration.
  unfoldable pub add_users : Dict User → List Account → Option (Dict User)
  add_users users [] = some users
  add_users users (a ∷ later) =
      and_then (add_user users (profile_of a) a.password a.salt) λ r. add_users r.1 later

abbrev pub week_in_secs : ℕ
week_in_secs = 604_800

-- `UserStoreBuilder::build`.
unfoldable pub build_store : Dict User → Option ℕ → UserStore
build_store users none = record { inner = users; session_duration = week_in_secs }
build_store users (some duration) = record { inner = users; session_duration = duration }

-- `Username::get_initials`; `none` is the panic of a slice inside of a character.
unfoldable pub get_initials : Bytes → Option Bytes
get_initials [] = some []
get_initials (c ∷ []) = some (c ∷ [])
get_initials (c ∷ d ∷ cs) = slice (c ∷ d ∷ cs) 0 2
