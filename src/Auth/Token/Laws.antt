-- ===== src/Auth/Token/Laws.antt =====
-- auth/access_token.rs: the bytes of a token and the token of bytes.
use nut_webgui.Prelude.{
  ℕ, ◌⊎◌, ◌≤◌, ◌≡◌, refl, ap, sym, ◌∙◌, subst, false, some, [], ◌∷◌, ◌++◌, ◌==◌, ==_iff, ltb,
  length, take, drop, take-append-drop, length-append, length-drop, length-take_of_le,
  take-length_append, drop-length_append, append_assoc, append-nil, All, Bool-cases, inl, inr,
  arith,
}
use nut_webgui.Upsmc.Text.{Bytes}
use nut_webgui.Upsmc.Bits.Value.{of_nat-to_nat, to_nat-of_nat}
use nut_webgui.Auth.Outcome.{done, failed}
use nut_webgui.Auth.LittleEndian.{
  to_le_bytes, from_le_bytes, length-to_le_bytes, from_le_bytes-to_le_bytes,
  to_le_bytes-from_le_bytes, IsByte,
}
use nut_webgui.Auth.Token.{
  Permissions, AccessToken, AccessTokenError, invalid_length, invalid_version, invalid_timestamps,
  as_u8, permissions_from, as_bytes, from_bytes, read_fields, check_fields, u64_at, byte_at,
  token_byte_len, version, u64_max, build,
}

-- The five fields of a token of the right length.
record Fields (bytes : Bytes) : Type 0 where
  version_val : ℕ
  permissions_val : ℕ
  issued_at : Bytes
  valid_until : Bytes
  nonce_val : Bytes
  issued_len : length issued_at ≡ 8
  valid_len : length valid_until ≡ 8
  nonce_len : length nonce_val ≡ 8
  splits : bytes ≡ version_val ∷ permissions_val ∷ (issued_at ++ (valid_until ++ nonce_val))

take_8 : (a b : Bytes) → length a ≡ 8 → take 8 (a ++ b) ≡ a
take_8 a b h = subst (λ n. take n (a ++ b) ≡ a) h (take-length_append a b)

drop_n : (n : ℕ) (a b : Bytes) → length a ≡ n → drop n (a ++ b) ≡ b
drop_n n a b h = subst (λ n. drop n (a ++ b) ≡ b) h (drop-length_append a b)

length-Fields : (bytes : Bytes) → length bytes ≡ 26 → Fields bytes
length-Fields [] h = absurd (omega (arith, h))
length-Fields (x ∷ []) h = absurd (omega (arith, h))
length-Fields (x ∷ y ∷ bs) h =
    let rest = drop 8 bs in
    let n : length bs ≡ 24 = omega (arith, h) in
    record {
      version_val = x;
      permissions_val = y;
      issued_at = take 8 bs;
      valid_until = take 8 rest;
      nonce_val = drop 8 rest;
      issued_len = length-take_of_le 8 bs (omega (arith, n));
      valid_len = length-take_of_le 8 rest (omega (arith, n, length-drop 8 bs));
      nonce_len = omega (arith, n, length-drop 8 bs, length-drop 8 rest);
      splits =
          ap (λ z. x ∷ y ∷ z)
            (sym (take-append-drop 8 bs)
              ∙ ap (λ z. take 8 bs ++ z) (sym (take-append-drop 8 rest)));
    }

u64_at_lem :
    (bytes : Bytes) (start : ℕ) (a b : Bytes)
    → drop start bytes ≡ a ++ b
    → length a ≡ 8
    → u64_at bytes start ≡ some (from_le_bytes a)
unfolding u64_at
u64_at_lem bytes start a b e h =
    let here : take 8 (drop start bytes) ≡ a = ap (take 8) e ∙ take_8 a b h in rw (here, h) refl

read_parts :
    (x y : ℕ) (a b c : Bytes)
    → length a ≡ 8
    → length b ≡ 8
    → length c ≡ 8
    → read_fields (x ∷ y ∷ (a ++ (b ++ c)))
      ≡ check_fields x y (from_le_bytes a) (from_le_bytes b) (from_le_bytes c)
unfolding read_fields byte_at
read_parts x y a b c ha hb hc =
    let bytes = x ∷ y ∷ (a ++ (b ++ c)) in
    let both : length (a ++ b) ≡ 16 = omega (arith, length-append a b, ha, hb) in
    let third : drop 18 bytes ≡ c =
      ap (drop 16) (sym (append_assoc a b c)) ∙ drop_n 16 (a ++ b) c both in
    rw
      (
        u64_at_lem bytes 2 a (b ++ c) refl ha,
        u64_at_lem bytes 10 b c (drop_n 8 a (b ++ c) ha) hb,
        u64_at_lem bytes 18 c [] (third ∙ sym (append-nil c)) hc,
      )
      refl

pub length-as_bytes : (t : AccessToken) → length (as_bytes t) ≡ token_byte_len
unfolding as_bytes
length-as_bytes t =
    let a = to_le_bytes 8 t.issued_at in
    let b = to_le_bytes 8 t.valid_until in
    let c = to_le_bytes 8 t.nonce in
    omega (
      arith,
      length-append a (b ++ c),
      length-append b c,
      length-to_le_bytes 8 t.issued_at,
      length-to_le_bytes 8 t.valid_until,
      length-to_le_bytes 8 t.nonce,
    )

-- What the builder guarantees of a token, if the clock and the random number are of 64 bits.
pub record IsToken (t : AccessToken) : Type 0 where
  pub ordered : t.issued_at ≤ t.valid_until
  pub valid_fits : t.valid_until ≤ u64_max
  pub nonce_fits : t.nonce ≤ u64_max

-- The builder makes tokens whose times are in order and whose numbers have 64 bits, whatever the
-- duration, if the clock and the random number have 64 bits.
pub build-IsToken :
    (permissions : Permissions) (valid_until now nonce : ℕ)
    → now ≤ u64_max
    → nonce ≤ u64_max
    → IsToken (build permissions valid_until now nonce)
unfolding build
build-IsToken permissions valid_until now nonce h k = record {
  ordered = omega (arith, h);
  valid_fits = omega arith;
  nonce_fits = k;
}

check_fields-IsToken :
    (t : AccessToken)
    → IsToken t
    → check_fields version (as_u8 t.permissions) t.issued_at t.valid_until t.nonce ≡ done t
unfolding check_fields as_u8 permissions_from
check_fields-IsToken t v =
    let ordered : ltb t.valid_until t.issued_at ≡ false = ground (arith, v.ordered) in
    rw (check_fields, ordered, of_nat-to_nat 8 t.permissions) refl

-- The bytes of a token are read back as the token, if its times are in order and its numbers have
-- 64 bits.
pub from_bytes-as_bytes : (t : AccessToken) → IsToken t → from_bytes (as_bytes t) ≡ done t
unfolding from_bytes as_bytes
from_bytes-as_bytes t v =
    let read =
      read_parts version (as_u8 t.permissions) (to_le_bytes 8 t.issued_at)
        (to_le_bytes 8 t.valid_until) (to_le_bytes 8 t.nonce) (length-to_le_bytes 8 t.issued_at)
        (length-to_le_bytes 8 t.valid_until) (length-to_le_bytes 8 t.nonce) in
    let i = from_le_bytes-to_le_bytes 8 t.issued_at (omega (arith, v.ordered, v.valid_fits)) in
    let u = from_le_bytes-to_le_bytes 8 t.valid_until (omega (arith, v.valid_fits)) in
    let n = from_le_bytes-to_le_bytes 8 t.nonce (omega (arith, v.nonce_fits)) in
    rw (length-as_bytes t) (read ∙ rw (i, u, n) (check_fields-IsToken t v))

check_cases :
    (x y i u n : ℕ)
    → ((e : AccessTokenError) × (check_fields x y i u n ≡ failed e))
      ⊎ ((x ≡ version)
          × (i ≤ u)
          × (check_fields x y i u n
              ≡ done (record {
                permissions = permissions_from y;
                valid_until = u;
                issued_at = i;
                nonce = n;
              })))
unfolding check_fields
check_cases x y i u n = elim (Bool-cases (x == version)) [
  | inr e ↦ inl (invalid_version, rw (check_fields, e) refl)
  | inl e ↦ elim (Bool-cases (ltb u i)) [
    | inl l ↦ inl (invalid_timestamps, rw (check_fields, e, l) refl)
    | inr l ↦ inr ((==_iff x version).0 e, ground (arith, l), rw (check_fields, e, l) refl)
  ]
]

le_field : (a : Bytes) → All IsByte a → length a ≡ 8 → to_le_bytes 8 (from_le_bytes a) ≡ a
le_field a h l = subst (λ n. to_le_bytes n (from_le_bytes a) ≡ a) l (to_le_bytes-from_le_bytes a h)

All-split : (xs ys : Bytes) → All IsByte (xs ++ ys) → All IsByte xs × All IsByte ys
All-split [] ys h = (tt, h)
All-split (x ∷ xs) ys h = let (a, b) = All-split xs ys h.1 in ((h.0, a), b)

as_bytes-fields :
    (x y : ℕ) (a b c : Bytes)
    → All IsByte (x ∷ y ∷ (a ++ (b ++ c)))
    → length a ≡ 8
    → length b ≡ 8
    → length c ≡ 8
    → x ≡ version
    → as_bytes (record {
      permissions = permissions_from y;
      valid_until = from_le_bytes b;
      issued_at = from_le_bytes a;
      nonce = from_le_bytes c;
    })
      ≡ x ∷ y ∷ (a ++ (b ++ c))
unfolding as_bytes as_u8 permissions_from
as_bytes-fields x y a b c h la lb lc e =
    let (ha, hbc) = All-split a (b ++ c) h.1.1 in
    let (hb, hc) = All-split b c hbc in
    rw
      (
        le_field a ha la,
        le_field b hb lb,
        le_field c hc lc,
        e,
        to_nat-of_nat 8 y (omega (arith, h.1.0)),
      )
      refl

from_bytes-Fields :
    (bytes : Bytes) (f : Fields bytes)
    → from_bytes bytes
      ≡ check_fields f.version_val f.permissions_val
          (from_le_bytes f.issued_at)
          (from_le_bytes f.valid_until)
          (from_le_bytes f.nonce_val)
unfolding from_bytes
from_bytes-Fields bytes f =
    let parts = f.issued_at ++ (f.valid_until ++ f.nonce_val) in
    let size : length (f.version_val ∷ f.permissions_val ∷ parts) ≡ 26 = omega (
      arith,
      length-append f.issued_at (f.valid_until ++ f.nonce_val),
      length-append f.valid_until f.nonce_val,
      f.issued_len,
      f.valid_len,
      f.nonce_len,
    ) in
    ap from_bytes f.splits
    ∙ rw size (
        read_parts f.version_val f.permissions_val f.issued_at f.valid_until f.nonce_val
          f.issued_len f.valid_len f.nonce_len)

-- What the reader returns on any bytes.
abbrev pub Reading : Bytes → Type 0
Reading bytes =
    ((e : AccessTokenError) × (from_bytes bytes ≡ failed e))
    ⊎ ((t : AccessToken) × (from_bytes bytes ≡ done t)
        × (as_bytes t ≡ bytes)
        × (t.issued_at ≤ t.valid_until))

Fields-Reading : (bytes : Bytes) → All IsByte bytes → Fields bytes → Reading bytes
Fields-Reading bytes h f =
    let x = f.version_val in
    let y = f.permissions_val in
    elim (check_cases x y (from_le_bytes f.issued_at) (from_le_bytes f.valid_until)
      (from_le_bytes f.nonce_val)) [
        | inl (e, c) ↦ inl (e, from_bytes-Fields bytes f ∙ c)
        | inr (v, l, c) ↦
            let parts = subst (All IsByte) f.splits h in
            let back =
              as_bytes-fields x y f.issued_at f.valid_until f.nonce_val parts f.issued_len
                f.valid_len f.nonce_len v in
            inr (_, from_bytes-Fields bytes f ∙ c, back ∙ sym f.splits, l)
      ]

-- On any bytes the reader of access tokens either fails or returns a token, whose bytes are those
-- read and whose times are in order; it never panics.
pub from_bytes_total : (bytes : Bytes) → All IsByte bytes → Reading bytes
unfolding from_bytes
from_bytes_total bytes h = elim (Bool-cases (length bytes == token_byte_len)) [
  | inr l ↦ inl (invalid_length, rw (from_bytes, l) refl)
  | inl l ↦ Fields-Reading bytes h (length-Fields bytes ((==_iff _ _).0 l))
]
