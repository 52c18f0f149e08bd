-- ===== src/Auth/Users/Tests.antt =====
-- Runs of auth/user_store.rs with one user, ann, whose password is secret, and what the runs of the
-- middleware share with them.
use nut_webgui.Prelude.{
  length, ap, subst, zero, suc, subst, ◌≡◌, refl, ℕ, ◌∷◌, [], true, if◌then◌else◌, Option, none,
  some, Bool-cases, inl, inr, arith, All, ◌↔◌, ◌<◌,
}
use nut_webgui.Upsmc.Text.{Bytes, codes, text_eq, text_eq_iff}
use nut_webgui.Upsmc.Bits.Laws.{has_iff}
use nut_webgui.Upsmc.Dict.{Dict, insert, lookup}
use nut_webgui.Auth.LittleEndian.{IsByte}
use nut_webgui.Auth.Token.{has_permission, build, setvar}
use nut_webgui.Auth.Signer.{Mac, IsMac}
use nut_webgui.Auth.Session.{UserSession}
use nut_webgui.Auth.Users.{
  contains_user, User, UserStore, Account, logged_in, login_user, add_users, add_user, profile_of,
  build_store,
}
use nut_webgui.Auth.Users.Hash.{IsHash}
use nut_webgui.Auth.Users.Laws.{IsScrypt, login_user_iff, find_account}

unfoldable pub filled : ℕ → ℕ → Bytes
filled zero b = []
filled (suc n) b = b ∷ filled n b

pub length-filled : (n b : ℕ) → length (filled n b) ≡ n
unfolding filled
length-filled zero b = refl
length-filled (suc n) b = ap suc (length-filled n b)

pub filled-IsByte : (n b : ℕ) → b < 256 → All IsByte (filled n b)
unfolding filled
filled-IsByte zero b h = tt
filled-IsByte (suc n) b h = (h, filled-IsByte n b h)

abbrev pub zeros_32 : Bytes
zeros_32 = filled 32 0

abbrev pub sevens_32 : Bytes
sevens_32 = filled 32 7

zeros_32-IsHash : IsHash zeros_32
zeros_32-IsHash = (length-filled 32 0, filled-IsByte 32 0 (omega arith))

sevens_32-IsHash : IsHash sevens_32
sevens_32-IsHash = (length-filled 32 7, filled-IsByte 32 7 (omega arith))

abbrev pub scrypt : Bytes → Bytes → Option Bytes
scrypt password salt = some (if text_eq password (codes "secret") then sevens_32 else zeros_32)

pub scrypt-IsScrypt : IsScrypt scrypt
scrypt-IsScrypt = record {
  output = λ password salt out e. elim (Bool-cases (text_eq password (codes "secret"))) [
    | inl t ↦ let same : sevens_32 ≡ out = cc (rw t at e) in subst IsHash same sevens_32-IsHash
    | inr t ↦ let same : zeros_32 ≡ out = cc (rw t at e) in subst IsHash same zeros_32-IsHash
  ];
}

abbrev pub ann : Account
ann = record {
  username = codes "ann";
  permissions = some setvar;
  password = codes "secret";
  salt = [];
}

abbrev pub stored : User
stored = record { profile = profile_of ann; salt = []; password_hash = sevens_32 }

abbrev pub users : Dict User
users = (codes "ann", stored) ∷ []

added : add_users scrypt [] (ann ∷ []) ≡ some users
unfolding add_users add_user insert text_eq profile_of
added = refl

abbrev pub store : UserStore
store = build_store users none

-- The session of ann, and the login that gives it.
abbrev pub session : UserSession
session = record {
  username = codes "ann";
  access_token = build (profile_of ann).permissions store.session_duration 1_700_000_000 42;
}

found : find_account (codes "ann") (ann ∷ []) ≡ some ann
unfolding find_account text_eq
found = refl

login_user_iff_example :
    (login_user scrypt store (codes "ann") (codes "secret") 1_700_000_000 42 ≡ logged_in session)
    ↔ ((a : Account) × (find_account (codes "ann") (ann ∷ []) ≡ some a)
        × (scrypt (codes "secret") a.salt ≡ scrypt a.password a.salt)
        × (session ≡ record {
          username = codes "ann";
          access_token = build (profile_of a).permissions store.session_duration 1_700_000_000 42;
        }))
login_user_iff_example =
    login_user_iff scrypt scrypt-IsScrypt (ann ∷ []) users added none (codes "ann") (codes "secret")
      1_700_000_000 42 session

pub login :
    login_user scrypt store (codes "ann") (codes "secret") 1_700_000_000 42 ≡ logged_in session
login = login_user_iff_example.1 (ann, found, refl, refl)

abbrev pub constant_mac : Mac
constant_mac = record {
  tag = λ key message. zeros_32;
  verify_slice = λ key message signature. text_eq signature zeros_32;
}

pub constant_mac-IsMac : IsMac constant_mac
constant_mac-IsMac = record {
  length_tag = λ key message. length-filled 32 0;
  verify_iff = λ key message signature. text_eq_iff signature zeros_32;
}

pub has_user : contains_user store (codes "ann") ≡ true
unfolding contains_user build_store lookup text_eq
has_user = refl

pub permitted : has_permission session.access_token setvar ≡ true
unfolding has_permission build profile_of
permitted = (has_iff 8 setvar setvar).1 (λ i h. h)
