-- ===== src/Query/Tokens/Quotes.antt =====
-- crates/scour-query/src/parse.rs, `tokenize`: what the tokens of a text are.
use scour.Prelude.{
  ℕ, Bool, true, false, not, ◌&&◌, ◌≡◌, refl, sym, ap, ◌∙◌, List, [], ◌∷◌, ◌++◌, append-nil,
  append_assoc, foldl, ◌==◌, ==_iff, if◌then◌else◌, Str, is_empty, All, All-append, Bool-cases, inl,
  inr, flat_map, flat_map-append,
}
use scour.Core.Fold.{Std}
use scour.Query.Tokens.{quote, Reading, flushed, read_char, tokenize}

-- The text without the spaces outside quotes; `quoted` says whether it begins inside them.
unfoldable pub solid : (ℕ → Bool) → Bool → Str → Str
solid space quoted [] = []
solid space quoted (c ∷ s) =
    let flipped = solid space (not quoted) s in
    let on = solid space quoted s in
    if c == quote then c ∷ flipped else if space c && not quoted then on else c ∷ on

abbrev pub concat : List Str → Str
concat = flat_map (λ t. t)

concat-flushed : (out : List Str) (cur : Str) → concat (flushed out cur) ≡ concat out ++ cur
concat-flushed out [] = sym (append-nil (concat out))
concat-flushed out (c ∷ cur) =
    rw (flat_map-append (λ t. t) out ((c ∷ cur) ∷ []), append-nil (c ∷ cur))

flushed-nonempty :
    (out : List Str) (cur : Str)
    → All (λ t. is_empty t ≡ false) out
    → All (λ t. is_empty t ≡ false) (flushed out cur)
flushed-nonempty out [] h = h
flushed-nonempty out (c ∷ cur) h =
    All-append (λ t. is_empty t ≡ false) out ((c ∷ cur) ∷ []) h (refl, tt)

module _ (std : Std) where
  open std use {is_whitespace}

  abbrev read_all : Reading → Str → Reading
  read_all = foldl (read_char std)

  read_quote :
      (r : Reading) (c : ℕ)
      → (c == quote) ≡ true
      → read_char std r c
        ≡ record { out = r.out; cur = r.cur ++ (quote ∷ []); in_quotes = not r.in_quotes }
  unfolding read_char
  read_quote r c e = rw (e)

  read_space :
      (r : Reading) (c : ℕ)
      → (c == quote) ≡ false
      → (is_whitespace c && not r.in_quotes) ≡ true
      → read_char std r c ≡ record { out = flushed r.out r.cur; cur = []; in_quotes = r.in_quotes }
  unfolding read_char
  read_space r c e k = rw (e, k)

  read_on :
      (r : Reading) (c : ℕ)
      → (c == quote) ≡ false
      → (is_whitespace c && not r.in_quotes) ≡ false
      → read_char std r c ≡ record { out = r.out; cur = r.cur ++ (c ∷ []); in_quotes = r.in_quotes }
  unfolding read_char
  read_on r c e k = rw (e, k)

  abbrev read_out : Reading → Str → Str
  read_out r s = concat (flushed (read_all r s).out (read_all r s).cur)

  read_all-solid :
      (out : List Str) (cur : Str) (q : Bool) (s : Str)
      → read_out (record { out = out; cur = cur; in_quotes = q }) s
        ≡ concat out ++ (cur ++ solid is_whitespace q s)
  unfolding solid
  read_all-solid out cur q [] = rw (concat-flushed out cur, append-nil cur)
  read_all-solid out cur q (c ∷ s) = elim (Bool-cases (c == quote)) [
    | inl e ↦
        ap (λ r. read_out r s) (read_quote _ c e)
        ∙ (read_all-solid out (cur ++ (quote ∷ [])) (not q) s
            ∙ rw (e, append_assoc cur, (==_iff c quote).0 e))
    | inr e ↦ elim (Bool-cases (is_whitespace c && not q)) [
      | inl k ↦
          ap (λ r. read_out r s) (read_space _ c e k)
          ∙ (read_all-solid (flushed out cur) [] q s
              ∙ rw (e, k, concat-flushed out cur, append_assoc (concat out)))
      | inr k ↦
          ap (λ r. read_out r s) (read_on _ c e k)
          ∙ (read_all-solid out (cur ++ (c ∷ [])) q s ∙ rw (e, k, append_assoc cur))
    ]
  ]

  -- The tokens of a text, one after the other, are the text without its spaces outside quotes.
  pub concat-tokenize : (s : Str) → concat (tokenize std s) ≡ solid is_whitespace false s
  unfolding tokenize
  concat-tokenize s = read_all-solid [] [] false s

  read_all-nonempty :
      (r : Reading) (s : Str)
      → All (λ t. is_empty t ≡ false) r.out
      → All (λ t. is_empty t ≡ false) (read_all r s).out
  unfolding read_char
  read_all-nonempty r [] h = h
  read_all-nonempty r (c ∷ s) h =
      read_all-nonempty (read_char std r c) s (elim (Bool-cases (c == quote)) [
        | inl e ↦ rw (e) h
        | inr e ↦ elim (Bool-cases (is_whitespace c && not r.in_quotes)) [
          | inl k ↦ rw (e, k) (flushed-nonempty r.out r.cur h)
          | inr k ↦ rw (e, k) h
        ]
      ])

  -- No token is empty.
  pub tokenize-nonempty : (s : Str) → All (λ t. is_empty t ≡ false) (tokenize std s)
  unfolding tokenize
  tokenize-nonempty s = flushed-nonempty _ _ (read_all-nonempty _ s tt)
