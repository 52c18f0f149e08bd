-- ===== src/Auth/Users/Laws.antt =====
-- auth/user_store.rs: who can log in, and what a login gives.
use nut_webgui.Prelude.{
  ◌≡◌, refl, ap, sym, subst, ◌∙◌, ℕ, if◌then◌else◌, ◌↔◌, Option, none, some, List, [], ◌∷◌,
  Bool-cases, inl, inr, Option-cases,
}
use nut_webgui.Upsmc.Text.{Bytes, text_eq}
use nut_webgui.Upsmc.Dict.{Dict, lookup, lookup-insert}
use nut_webgui.Upsmc.Dict
use nut_webgui.Auth.Token.{build}
use nut_webgui.Auth.Session.{UserSession}
use nut_webgui.Auth.Users.{
  User, UserStore, logged_in, login_user, check_password, add_user, build_store, new_session,
  cmp_hash, Account, add_users, profile_of,
}
use nut_webgui.Auth.Users.Hash.{IsHash, cmp_hash_iff}

-- What scrypt is relied on for: its outputs are 32 bytes.
pub record IsScrypt (scrypt : Bytes → Bytes → Option Bytes) : Type 0 where
  pub output : (password salt out : Bytes) → scrypt password salt ≡ some out → IsHash out

-- The last account of a name.
unfoldable pub find_account : Bytes → List Account → Option Account
find_account name [] = none
find_account name (a ∷ later) = elim (find_account name later) [
  | some b ↦ some b
  | none ↦ if text_eq a.username name then some a else none
]

module _ (scrypt : Bytes → Bytes → Option Bytes) where
  abbrev hash_of : Account → Bytes
  hash_of a = elim (scrypt a.password a.salt) [ none ↦ [] | some hash ↦ hash ]

  abbrev user_of : Account → User
  user_of a = record { profile = profile_of a; salt = a.salt; password_hash = hash_of a }

  abbrev known : Option Account → Option User → Option User
  known none before = before
  known (some a) before = some (user_of a)

  add_users-cons :
      (users : Dict User) (a : Account) (later : List Account) (all : Dict User)
      → add_users scrypt users (a ∷ later) ≡ some all
      → (scrypt a.password a.salt ≡ some (hash_of a))
        × (add_users scrypt (Dict.insert a.username (user_of a) users) later ≡ some all)
  unfolding add_users add_user profile_of
  add_users-cons users a later all e = elim (Option-cases (scrypt a.password a.salt)) [
    | inl n ↦ absurd (cc (rw (add_users, add_user, n) at e))
    | inr (hash, h) ↦
        let same : hash ≡ hash_of a = rw (h, hash_of) refl in
        (
          h ∙ ap some same,
          subst
              (λ x.
                add_users scrypt
                  (Dict.insert a.username
                    (record { profile = profile_of a; salt = a.salt; password_hash = x }) users)
                  later
                ≡ some all)
              same (rw (add_users, add_user, h) at e),
        )
  ]

  lookup-add_users :
      (name : Bytes) (later : List Account) (users all : Dict User)
      → add_users scrypt users later ≡ some all
      → lookup name all ≡ known (find_account name later) (lookup name users)
  unfolding add_users find_account
  lookup-add_users name [] users all e = cc e
  lookup-add_users name (a ∷ later) users all e =
      let (h, rest) = add_users-cons users a later all e in
      let below = lookup-add_users name later (Dict.insert a.username (user_of a) users) all rest in
      elim (Option-cases (find_account name later)) [
        | inr (b, f) ↦ rw f (below ∙ rw f refl)
        | inl f ↦ rw f (
            below
            ∙ rw f (
                lookup-insert name a.username (user_of a) users
                ∙ elim (Bool-cases (text_eq a.username name)) [
                  | inl t ↦ rw t refl
                  | inr t ↦ rw t refl
                ]))
      ]

  scrypt-find_account :
      (name : Bytes) (later : List Account) (users all : Dict User) (a : Account)
      → add_users scrypt users later ≡ some all
      → find_account name later ≡ some a
      → scrypt a.password a.salt ≡ some (hash_of a)
  unfolding add_users find_account
  scrypt-find_account name [] users all a e f = absurd (cc f)
  scrypt-find_account name (b ∷ later) users all a e f =
      let (h, rest) = add_users-cons users b later all e in
      elim (Option-cases (find_account name later)) [
        | inr (c, g) ↦
            scrypt-find_account name later (Dict.insert b.username (user_of b) users) all a rest
              (g ∙ rw g at f)
        | inl g ↦ elim (Bool-cases (text_eq b.username name)) [
          | inl t ↦
              let same : b ≡ a = cc (rw (g, t) at f) in
              subst (λ x. scrypt x.password x.salt ≡ some (hash_of x)) same h
          | inr t ↦ absurd (cc (rw (g, t) at f))
        ]
      ]

  module _ (h : IsScrypt scrypt) (later : List Account) (users : Dict User)
      (e : add_users scrypt [] later ≡ some users) (duration : Option ℕ) (name password : Bytes)
      (now nonce : ℕ) where
    abbrev store : UserStore
    store = build_store users duration

    -- The session that the account gives.
    abbrev session_of : Account → UserSession
    session_of a = record {
      username = name;
      access_token = build (profile_of a).permissions store.session_duration now nonce;
    }

    check_password_iff :
        (a : Account) (s : UserSession)
        → scrypt a.password a.salt ≡ some (hash_of a)
        → (check_password scrypt store (user_of a) name password now nonce ≡ logged_in s)
          ↔ ((scrypt password a.salt ≡ scrypt a.password a.salt) × (s ≡ session_of a))
    unfolding check_password new_session
    check_password_iff a s k = elim (Option-cases (scrypt password a.salt)) [
      | inl n ↦
          (λ g. absurd (cc (rw (check_password, n) at g)), λ (p, q). absurd (cc (sym n ∙ p ∙ k)))
      | inr (out, o) ↦
          let (f, g) =
            cmp_hash_iff out (hash_of a) (h.output _ _ out o) (h.output _ _ (hash_of a) k) in
          elim (Bool-cases (cmp_hash out (hash_of a))) [
            | inl c ↦ (
              λ l. (o ∙ ap some (f c) ∙ sym k, cc (rw (check_password, o, c) at l)),
              λ (p, q). rw (check_password, o, c) (ap logged_in (sym q)),
            )
            | inr c ↦ (
              λ l. absurd (cc (rw (check_password, o, c) at l)),
              λ (p, q). let same : out ≡ hash_of a = cc (sym o ∙ p ∙ k) in absurd (cc (g same)),
            )
          ]
    ]

    inner_lem : store.inner ≡ users
    unfolding build_store
    inner_lem = elim (Option-cases duration) [ inl n ↦ rw n refl | inr (d, n) ↦ rw n refl ]

    empty : lookup {V = User} name [] ≡ none
    unfolding lookup
    empty = refl

    -- A name and a password give a session exactly if the last user of that name in the
    -- configuration has a password with the same scrypt output under the salt of that user; the
    -- session is of that name and of the permissions and the duration of the store, if the outputs
    -- of scrypt are 32 bytes.
    pub login_user_iff :
        (s : UserSession)
        → (login_user scrypt store name password now nonce ≡ logged_in s) ↔ (
            (a : Account) × (find_account name later ≡ some a)
            × (scrypt password a.salt ≡ scrypt a.password a.salt)
            × (s ≡ session_of a))
    unfolding login_user
    login_user_iff s =
        let stored =
          ap (lookup name) inner_lem
          ∙ lookup-add_users name later [] users e
          ∙ ap (known (find_account name later)) empty in
        elim (Option-cases (find_account name later)) [
          | inl f ↦
              let missing : lookup name store.inner ≡ none = rw f at stored in
              (
                λ l. absurd (cc (rw (login_user, missing) at l)),
                λ (a, fa, q, t). absurd (cc (sym f ∙ fa)),
              )
          | inr (a, f) ↦
              let found : lookup name store.inner ≡ some (user_of a) = rw f at stored in
              let (there, back) =
                check_password_iff a s (scrypt-find_account name later [] users a e f) in
              (
                λ l. let (q, t) = there (rw (login_user, found) at l) in (a, f, q, t),
                λ (b, fb, q, t).
                    let same : b ≡ a = cc (sym fb ∙ f) in
                    rw (login_user, found)
                      (back (
                        subst
                          (λ x.
                            (scrypt password x.salt ≡ scrypt x.password x.salt)
                            × (s ≡ session_of x))
                          same (q, t))),
              )
        ]
