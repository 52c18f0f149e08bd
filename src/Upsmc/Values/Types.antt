-- ===== src/Upsmc/Values/Types.antt =====
-- response/get_var_type.rs and response/list_client.rs, with the parser of IP addresses as an argument.
use nut_webgui.Prelude.{
  ℕ, zero, suc, ◌<◌, ◌≤◌, refl, [], ◌∷◌, ◌++◌, List, Option, none, some, length, inl, inr, arith,
}
use nut_webgui.Upsmc.Text.{Bytes, codes}
use nut_webgui.Upsmc.Error.{diverged, var_type, invalid_token}
use nut_webgui.Upsmc.Lexer.{
  bind, State, M, ◌>>=◌, ◌>>◌, return, or_panic, init, next_token, extract_from_token, Token, text,
  lf, quoted_text,
}
use nut_webgui.Upsmc.Lexer.Cursor.{At, At-length, isize_max}
use nut_webgui.Upsmc.Lexer.Total.{next_token_total, Scans-length}
use nut_webgui.Upsmc.Names.Laws.{IsUpsName, IsName}
use nut_webgui.Upsmc.Parser.{
  fail_at, extract_text, extract_ups_name, extract_var_name, cmp_literal, end_parser, finish,
}
use nut_webgui.Upsmc.Parser.Rules.{
  Returns, Returns-then, Returns-weaken, Keeps, Keeps-Returns, Keeps-bind, or_panic-Keeps,
}
use nut_webgui.Upsmc.Parser.Returns.{finish-Returns}
use nut_webgui.Upsmc.Response.{read_list}
use nut_webgui.Upsmc.Response.Returns.{
  Any, init-At, literal-then, literal-first, end_parser-then, ups_name-then, read_list-then,
}
use nut_webgui.Upsmc.Values.{
  VarType, TypeResult, parsed, refused, var_type_from_str, UpsVarType, ClientList,
}
use nut_webgui.Upsmc.Values.Returns.{var_name-then, text-then}

unfoldable pub type_or_error : TypeResult → M VarType
type_or_error (parsed type_info) = return type_info
type_or_error (refused e) = fail_at (var_type e)

-- The type that a text token holds.
unfoldable pub read_type : Bytes → Token → M VarType
read_type buffer token = do
  t ← or_panic (extract_from_token buffer token)
  type_or_error (var_type_from_str t)

-- The arms of the loop; `again` is its next round.
unfoldable pub take_type :
    Bytes → (List VarType → M (List VarType)) → List VarType → Option Token → M (List VarType)
take_type buffer again types none = return types
take_type buffer again types (some lf) = return types
take_type buffer again types (some (quoted_text start end)) = fail_at invalid_token
take_type buffer again types (some (text start end)) = do
  type_info ← read_type buffer (text start end)
  again (types ++ (type_info ∷ []))

-- `while let Some(token) = lexer.next_token()?`, on fuel.
unfoldable pub type_loop : ℕ → Bytes → List VarType → M (List VarType)
type_loop zero buffer types s = (diverged, s)
type_loop (suc fuel) buffer types s =
    bind (next_token buffer s) (take_type buffer (λ more. type_loop fuel buffer more) types)

unfoldable pub get_var_type : Bytes → M UpsVarType
get_var_type buffer = do
  cmp_literal buffer (codes "TYPE")
  ups ← extract_ups_name buffer
  name ← extract_var_name buffer
  types ← type_loop (suc (length buffer)) buffer []
  finish buffer (record { var_types = types; name = name; ups_name = ups })

module _ {Ip : Type 0} (parse_ip : Bytes → Option Ip) (buffer : Bytes) where
  unfoldable pub ip_or_error : Option Ip → M Ip
  ip_or_error none = fail_at invalid_token
  ip_or_error (some ip) = return ip

  unfoldable pub client_line : Bytes → M Ip
  client_line ups = do
    cmp_literal buffer (codes "CLIENT")
    cmp_literal buffer ups
    t ← extract_text buffer
    end_parser buffer
    ip_or_error (parse_ip t)

  unfoldable pub list_client : M (ClientList Ip)
  list_client = do
    cmp_literal buffer (codes "BEGIN")
    cmp_literal buffer (codes "LIST")
    cmp_literal buffer (codes "CLIENT")
    ups ← extract_ups_name buffer
    end_parser buffer
    ips ← read_list buffer (codes "CLIENT") (client_line ups)
    cmp_literal buffer (codes "END")
    cmp_literal buffer (codes "LIST")
    cmp_literal buffer (codes "CLIENT")
    cmp_literal buffer ups
    end_parser buffer
    finish buffer (record { ups_name = ups; ips = ips })

type_or_error-Keeps : (r : TypeResult) (s : State) → Keeps Any s (type_or_error r s)
unfolding type_or_error fail_at
type_or_error-Keeps (parsed type_info) s = (tt, refl)
type_or_error-Keeps (refused e) s = tt

read_type-Keeps :
    (buffer : Bytes) (token : Token) (s : State) → Keeps Any s (read_type buffer token s)
unfolding read_type
read_type-Keeps buffer token s =
    Keeps-bind Any Any s (or_panic (extract_from_token buffer token))
      (λ t. type_or_error (var_type_from_str t))
      (or_panic-Keeps (extract_from_token buffer token) s)
      (λ t _. type_or_error-Keeps (var_type_from_str t) s)

take_type-Returns :
    {buffer : Bytes} (again : List VarType → M (List VarType)) (types : List VarType)
    (token : Token) (t : State) (rest : Bytes)
    → At buffer t rest
    → ((more : List VarType) (u : State) (last : Bytes)
        → length last ≤ length rest
        → At buffer u last
        → Returns buffer last 0 Any (again more u))
    → Returns buffer rest 0 Any (take_type buffer again types (some token) t)
unfolding take_type fail_at
take_type-Returns again types lf t rest v h = (tt, (rest, v, omega arith))
take_type-Returns again types (quoted_text start end) t rest v h = tt
take_type-Returns {buffer} again types (text start end) t rest v h =
    Returns-then rest Any Any 0 t (read_type buffer (text start end))
      (λ v. again (types ++ (v ∷ [])))
      (Keeps-Returns rest Any t _ v (read_type-Keeps buffer (text start end) t))
      (λ v u last _ w l. h (types ++ (v ∷ [])) u last (omega (arith, l)) w)

type_loop-Returns :
    {buffer : Bytes} (fuel : ℕ) (types : List VarType) (input : Bytes) (s : State)
    → length input < fuel
    → At buffer s input
    → Returns buffer input 0 Any (type_loop fuel buffer types s)
unfolding type_loop take_type
type_loop-Returns zero types input s l v = absurd (omega arith)
type_loop-Returns {buffer} (suc fuel) types input s l v = elim (next_token_total s v) [
  | inl (b, t, r, u) ↦ rw r (tt, ([], u, omega arith))
  | inr (inl (lexeme, rest, k, (o, t, r, (token, e, d), u))) ↦
      let shorter = Scans-length k in
      rw (r, e)
        (Returns-weaken buffer input rest 0 0 Any _ (omega (arith, shorter)) (
          take_type-Returns (λ more. type_loop fuel buffer more) types token t rest u
            (λ more w last m x.
              type_loop-Returns fuel more last w (omega (arith, l, shorter, m)) x)))
  | inr (inr (u, (t, r))) ↦ rw r tt
]

-- A text of at most isize::MAX bytes is parsed to an end as the types of a variable, and what is
-- accepted has valid names.
pub get_var_type-Returns :
    (buffer : Bytes)
    → length buffer ≤ isize_max
    → Returns buffer buffer 0 (λ r. IsUpsName r.ups_name × IsName r.name) (get_var_type buffer init)
unfolding get_var_type
get_var_type-Returns buffer h =
    let Q : UpsVarType → Type 0 = λ r. IsUpsName r.ups_name × IsName r.name in
    literal-then Q buffer init (init-At buffer h) _ _ λ t₁ r₁ v₁.
      ups_name-then Q r₁ t₁ v₁ _ λ ups valid t₂ r₂ v₂.
        var_name-then Q r₂ t₂ v₂ _ λ name named t₃ r₃ v₃.
          Returns-then r₃ Any Q 0 t₃ (type_loop (suc (length buffer)) buffer []) _
            (type_loop-Returns (suc (length buffer)) [] r₃ t₃ (omega (arith, At-length v₃)) v₃)
            λ types t r _ v _. finish-Returns t v Q _ (valid, named)

module _ {Ip : Type 0} (parse_ip : Bytes → Option Ip) (buffer : Bytes) where
  ip_or_error-Keeps : (o : Option Ip) (s : State) → Keeps Any s (ip_or_error parse_ip buffer o s)
  unfolding ip_or_error fail_at
  ip_or_error-Keeps none s = tt
  ip_or_error-Keeps (some ip) s = (tt, refl)

  client_line-Returns :
      (ups : Bytes) (s : State) (rest : Bytes)
      → At buffer s rest
      → Returns buffer rest 1 Any (client_line parse_ip buffer ups s)
  unfolding client_line
  client_line-Returns ups s input v = literal-first Any input s v (codes "CLIENT") _ λ t₁ r₁ v₁.
      literal-then Any r₁ t₁ v₁ ups _ λ t₂ r₂ v₂. text-then Any r₂ t₂ v₂ _ λ ip t₃ r₃ v₃.
        end_parser-then Any r₃ t₃ v₃ _
          λ t₄ r₄ v₄. Keeps-Returns r₄ Any t₄ _ v₄ (ip_or_error-Keeps (parse_ip ip) t₄)

  -- A text of at most isize::MAX bytes is parsed to an end as a list of clients, and what is
  -- accepted has a valid device name.
  pub list_client-Returns :
      length buffer ≤ isize_max
      → Returns buffer buffer 0 (λ r. IsUpsName r.ups_name) (list_client parse_ip buffer init)
  unfolding list_client
  list_client-Returns h =
      let Q : ClientList Ip → Type 0 = λ r. IsUpsName r.ups_name in
      literal-then Q buffer init (init-At buffer h) _ _ λ t₁ r₁ v₁.
        literal-then Q r₁ t₁ v₁ _ _ λ t₂ r₂ v₂. literal-then Q r₂ t₂ v₂ _ _ λ t₃ r₃ v₃.
          ups_name-then Q r₃ t₃ v₃ _ λ ups valid t₄ r₄ v₄. end_parser-then Q r₄ t₄ v₄ _ λ t₅ r₅ v₅.
            read_list-then Q r₅ t₅ v₅ _ _ Any _ (client_line-Returns ups) λ ips p t₆ r₆ v₆.
              literal-then Q r₆ t₆ v₆ _ _ λ t₇ r₇ v₇. literal-then Q r₇ t₇ v₇ _ _ λ t₈ r₈ v₈.
                literal-then Q r₈ t₈ v₈ _ _ λ t₉ r₉ v₉.
                  literal-then Q r₉ t₉ v₉ ups _
                    λ t r v. end_parser-then Q r t v _ λ u l w. finish-Returns u w Q _ valid
