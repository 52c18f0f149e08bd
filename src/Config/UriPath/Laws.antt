-- ===== src/Config/UriPath/Laws.antt =====
-- What `UriPath::new` of config/uri_path.rs accepts and returns.
use nut_webgui.Upsmc.Text.{Bytes}
use nut_webgui.Prelude.{
  ◌/◌, ◌+◌, ◌++◌, ltb, ◌⊎◌, ◌≤◌, subst, ==_iff, ◌≡◌, ◌↔◌, refl, ℕ, [], ◌∷◌, Bool, Bool-cases, true,
  false, ◌&&◌, ◌==◌, inl, inr, some, All, arith,
}
use nut_webgui.Upsmc.Status.{Chars, is_whitespace}
use nut_webgui.Upsmc.Str.{
  continuation, trim_start_matches, trim_last, trim_end_matches, encode_utf8, as_bytes,
}
use nut_webgui.Config.UriPath.{is_uri_char, valid_loop, is_trailing, from_normalized, uri_path_new}

-- The last character, if there is one, fails the test.
abbrev pub Ends : (ℕ → Bool) → Chars → Type 0
Ends p [] = Unit
Ends p (c ∷ []) = p c ≡ false
Ends p (c ∷ (d ∷ ds)) = Ends p (d ∷ ds)

-- No slash follows a slash.
abbrev pub NoDouble : Chars → Type 0
NoDouble [] = Unit
NoDouble (c ∷ []) = Unit
NoDouble (c ∷ (d ∷ ds)) = ((d == b'/' && c == b'/') ≡ false) × NoDouble (d ∷ ds)

abbrev pub IsUri : Chars → Type 0
IsUri t = All (λ c. is_uri_char c ≡ true) t

-- A base path: nothing, or segments that each begin with one slash.
abbrev pub IsUriPath : Chars → Type 0
IsUriPath [] = Unit
IsUriPath (c ∷ cs) = (c ≡ b'/') × (IsUri (c ∷ cs) × (NoDouble (c ∷ cs) × Ends is_trailing (c ∷ cs)))

trim_last-Ends : (p : ℕ → Bool) (c : ℕ) (ds : Chars) → Ends p ds → Ends p (trim_last p c ds)
unfolding trim_last
trim_last-Ends p c [] h = elim (Bool-cases (p c)) [ inl e ↦ rw e tt | inr e ↦ rw e e ]
trim_last-Ends p c (d ∷ ds) h = h

trim_end_matches-Ends : (p : ℕ → Bool) (t : Chars) → Ends p (trim_end_matches p t)
unfolding trim_end_matches
trim_end_matches-Ends p [] = tt
trim_end_matches-Ends p (c ∷ cs) =
    trim_last-Ends p c (trim_end_matches p cs) (trim_end_matches-Ends p cs)

trim_end_matches_of_Ends : (p : ℕ → Bool) (t : Chars) → Ends p t → trim_end_matches p t ≡ t
unfolding trim_end_matches trim_last
trim_end_matches_of_Ends p [] h = refl
trim_end_matches_of_Ends p (c ∷ []) h = rw h refl
trim_end_matches_of_Ends p (c ∷ (d ∷ ds)) h = rw (trim_end_matches_of_Ends p (d ∷ ds) h) refl

Ends-is_whitespace : (t : Chars) → Ends is_trailing t → Ends is_whitespace t
Ends-is_whitespace [] h = tt
Ends-is_whitespace (c ∷ []) h = ground arith
Ends-is_whitespace (c ∷ (d ∷ ds)) h = Ends-is_whitespace (d ∷ ds) h

-- A character that is not ASCII begins with a byte from 128.
encode_utf8-cases :
    (c : ℕ)
    → (encode_utf8 c ≡ c ∷ []) ⊎ ((b : ℕ) × ((bs : Bytes) × ((encode_utf8 c ≡ b ∷ bs) × (128 ≤ b))))
unfolding encode_utf8
encode_utf8-cases c = elim (Bool-cases (ltb c 128)) [
  | inl e ↦ inl (rw e refl)
  | inr e ↦ elim (Bool-cases (ltb c 2048)) [
    | inl f ↦ inr (192 + c / 64, (continuation c ∷ [], (rw (e, f) refl, omega arith)))
    | inr f ↦ elim (Bool-cases (ltb c 65536)) [
      | inl g ↦ inr (
        224 + c / 4096,
        (continuation (c / 64) ∷ (continuation c ∷ []), (rw (e, f, g) refl, omega arith)),
      )
      | inr g ↦ inr (
        240 + c / 262144,
        (
          continuation (c / 4096) ∷ (continuation (c / 64) ∷ (continuation c ∷ [])),
          (rw (e, f, g) refl, omega arith),
        ),
      )
    ]
  ]
]

is_uri_char_of_high : (b : ℕ) → 128 ≤ b → is_uri_char b ≡ false
unfolding is_uri_char
is_uri_char_of_high b h = ground arith

valid_loop_step :
    (p b : ℕ) (bs : Bytes)
    → valid_loop p (b ∷ bs) ≡ true
    → ((b == b'/' && p == b'/') ≡ false) × ((is_uri_char b ≡ true) × (valid_loop b bs ≡ true))
unfolding valid_loop
valid_loop_step p b bs h = ground arith

is_uri_char-encode_utf8 : (c : ℕ) → is_uri_char c ≡ true → encode_utf8 c ≡ c ∷ []
unfolding is_uri_char encode_utf8
is_uri_char-encode_utf8 c h = ground arith

valid_loop-encode_utf8 :
    (p c : ℕ) (bs : Bytes) → valid_loop p (encode_utf8 c ++ bs) ≡ true → encode_utf8 c ≡ c ∷ []
valid_loop-encode_utf8 p c bs h = elim (encode_utf8-cases c) [
  | inl e ↦ e
  | inr (b, (bs', (e, high))) ↦
      let k : valid_loop p (b ∷ (bs' ++ bs)) ≡ true =
        subst (λ x. valid_loop p (x ++ bs) ≡ true) e h in
      let u = (valid_loop_step p b (bs' ++ bs) k).1.0 in
      let n = is_uri_char_of_high b high in ground arith
]

valid_loop_sound :
    (p : ℕ) (t : Chars) → valid_loop p (as_bytes t) ≡ true → IsUri t × NoDouble (p ∷ t)
unfolding as_bytes
valid_loop_sound p [] h = (tt, tt)
valid_loop_sound p (c ∷ cs) h =
    let k : valid_loop p (c ∷ as_bytes cs) ≡ true =
      subst (λ x. valid_loop p (x ++ as_bytes cs) ≡ true)
        (valid_loop-encode_utf8 p c (as_bytes cs) h) h in
    let (single, (uri, rest)) = valid_loop_step p c (as_bytes cs) k in
    let (us, ds) = valid_loop_sound c cs rest in ((uri, us), (single, ds))

valid_loop_complete :
    (p : ℕ) (t : Chars) → IsUri t → NoDouble (p ∷ t) → valid_loop p (as_bytes t) ≡ true
unfolding valid_loop as_bytes
valid_loop_complete p [] u d = refl
valid_loop_complete p (c ∷ cs) u d =
    let rest = valid_loop_complete c cs u.1 d.1 in
    let e = is_uri_char-encode_utf8 c u.0 in rw (e, d.0, u.0) rest

from_normalized-IsUriPath :
    (t q : Chars) → Ends is_trailing t → from_normalized t ≡ some q → IsUriPath q
unfolding from_normalized is_uri_char
from_normalized-IsUriPath [] q e h = let k : [] ≡ q = ground arith in subst IsUriPath k tt
from_normalized-IsUriPath (c ∷ cs) q e h = elim (Bool-cases (valid_loop 0 (as_bytes (c ∷ cs)))) [
  | inl v ↦
      let (us, ds) = valid_loop_sound 0 (c ∷ cs) v in
      elim (Bool-cases (c == b'/')) [
        | inl s ↦
            let k : c ∷ cs ≡ q = ground arith in
            subst IsUriPath k ((==_iff c b'/').0 s, (us, (ds.1, e)))
        | inr s ↦
            let k : b'/' ∷ (c ∷ cs) ≡ q = ground arith in
            subst IsUriPath k (refl, ((refl, us), ((rw s refl, ds.1), e)))
      ]
  | inr v ↦ ground arith
]

-- A text that is accepted becomes a base path: nothing, or one slash, then characters of the table
-- with no two slashes in a row and no slash or white space at the end.
pub uri_path_new-IsUriPath : (t q : Chars) → uri_path_new t ≡ some q → IsUriPath q
unfolding uri_path_new
uri_path_new-IsUriPath t q h = from_normalized-IsUriPath _ q (trim_end_matches-Ends is_trailing _) h

from_normalized_of_IsUriPath : (q : Chars) → IsUriPath q → from_normalized q ≡ some q
unfolding from_normalized is_uri_char
from_normalized_of_IsUriPath [] h = refl
from_normalized_of_IsUriPath (c ∷ cs) (root, (us, (ds, e))) =
    let s : (c == b'/') ≡ true = (==_iff c b'/').1 root in
    rw (valid_loop_complete 0 (c ∷ cs) us (rw s refl, ds), s) refl

trim_start_of_IsUriPath : (q : Chars) → IsUriPath q → trim_start_matches is_whitespace q ≡ q
unfolding trim_start_matches is_whitespace
trim_start_of_IsUriPath [] h = refl
trim_start_of_IsUriPath (c ∷ cs) h = rw (h.0) refl

IsUriPath-Ends : (q : Chars) → IsUriPath q → Ends is_trailing q
IsUriPath-Ends [] h = tt
IsUriPath-Ends (c ∷ cs) h = h.1.1.1

-- The texts that are accepted as they are are exactly the base paths.
pub uri_path_new_fixed_iff : (q : Chars) → (uri_path_new q ≡ some q) ↔ IsUriPath q
unfolding uri_path_new
uri_path_new_fixed_iff q = (
  uri_path_new-IsUriPath q q,
  λ h.
      let e = IsUriPath-Ends q h in
      rw
        (
          trim_start_of_IsUriPath q h,
          trim_end_matches_of_Ends is_whitespace q (Ends-is_whitespace q e),
          trim_end_matches_of_Ends is_trailing q e,
        )
        (from_normalized_of_IsUriPath q h),
)

-- A text that is accepted becomes a base path: nothing, or one slash, then characters of the table
-- with no two slashes in a row and no slash or white space at the end; the texts that are accepted
-- as they are are exactly the base paths.
pub uri_path_new_lem :
    (t q : Chars)
    → ((uri_path_new t ≡ some q) → IsUriPath q) × ((uri_path_new q ≡ some q) ↔ IsUriPath q)
uri_path_new_lem t q = (uri_path_new-IsUriPath t q, uri_path_new_fixed_iff q)
