-- ===== src/Query/Tokens.antt =====
-- crates/scour-query/src/parse.rs: from text to tokens. The quotes stay in the tokens.
pub mod Split
pub mod Join
pub mod Quotes
use scour.Prelude.{
  ℕ, zero, suc, ◌+◌, Bool, true, false, not, ◌&&◌, ◌||◌, Option, none, some, List, [], ◌∷◌, ◌++◌,
  map, foldl, ◌==◌, if◌then◌else◌, Str, codes, str_eq, strip_prefix, starts_with, starts_char,
  ends_char, has_char, trim_start, trim_end, is_some, length, is_empty, last?, keep, flat_map,
  split, split_once, join, cons_head, leb, all,
}
use scour.Core.Fold.{Std, fold}
use scour.Query.Fields.{Field, lookup}
use scour.Query.Value.{trim}

abbrev pub quote : ℕ
quote = 0x22

abbrev pub bang : ℕ
bang = b'!'

abbrev pub bar : ℕ
bar = b'|'

abbrev pub semicolon : ℕ
semicolon = b';'

-- The pieces between the marks outside quotes; `quoted` says whether the text begins inside them.
unfoldable pub split_quoted : ℕ → Bool → Str → List Str
split_quoted mark quoted [] = [] ∷ []
split_quoted mark quoted (c ∷ s) =
    let flipped = cons_head c (split_quoted mark (not quoted) s) in
    let cut = [] ∷ split_quoted mark quoted s in
    let on = cons_head c (split_quoted mark quoted s) in
    if c == quote then flipped else if c == mark && not quoted then cut else on

unfoldable pub split_outside_quotes : Str → ℕ → List Str
unfolding split_quoted
split_outside_quotes s mark = split_quoted mark false s

-- `strip_prefix('!')`, or the text itself.
abbrev pub without_bang : Str → Str
without_bang [] = []
without_bang (c ∷ s) = if c == bang then s else c ∷ s

-- The loop of `tokenize`: the tokens so far, the one being read, and whether it is in quotes.
pub record Reading : Type 0 where
  pub out : List Str
  pub cur : Str
  pub in_quotes : Bool

abbrev pub flushed : List Str → Str → List Str
flushed out [] = out
flushed out (c ∷ cur) = out ++ ((c ∷ cur) ∷ [])

abbrev pop : Str → Str
pop [] = []
pop (c ∷ []) = []
pop (c ∷ d ∷ s) = c ∷ pop (d ∷ s)

-- `out.last_mut()`
abbrev pub change_last : (Str → Str) → List Str → List Str
change_last f [] = []
change_last f (t ∷ []) = f t ∷ []
change_last f (t ∷ u ∷ ts) = t ∷ change_last f (u ∷ ts)

-- One token of `join_operators`, with the marks that wait for the next one.
pub record Joining : Type 0 where
  pub out : List Str
  pub pending_bang : Bool
  pub want_alt : Bool

abbrev with_bang : Bool → Str → Str
with_bang pending t = if pending && not (starts_char bang t) then bang ∷ t else t

abbrev attach : Bool → List Str → Str → List Str
attach want [] t = t ∷ []
attach want (o ∷ out) t =
    if want then change_last (λ prev. prev ++ (bar ∷ t)) (o ∷ out) else (o ∷ out) ++ (t ∷ [])

-- After the leading and the trailing `|` are off.
abbrev join_bare : Joining → Bool → Bool → Str → Joining
join_bare s quoted trailing t =
    if not quoted && str_eq t (bang ∷ [])
    then record s { pending_bang = true }
    else if is_empty t
    then record s { want_alt = s.want_alt || trailing }
    else record {
      out = attach s.want_alt s.out (with_bang s.pending_bang t);
      pending_bang = false;
      want_alt = trailing;
    }

abbrev has_trailing : Bool → Str → Bool
has_trailing quoted t = not quoted && (leb 2 (length t) && ends_char bar t)

abbrev join_tail : Joining → Bool → Str → Joining
join_tail s quoted t =
    join_bare s quoted (has_trailing quoted t) (if has_trailing quoted t then pop t else t)

abbrev remove_first : Str → Str
remove_first [] = []
remove_first (c ∷ s) = s

unfoldable pub join_operator : Joining → Str → Joining
unfolding str_eq
join_operator s t =
    let quoted = starts_char quote t in
    let leading = not quoted && (starts_char bar t && not (is_empty s.out)) in
    if not quoted && str_eq t (bar ∷ [])
    then record s { want_alt = true }
    else if leading
    then join_tail (record s { want_alt = true }) quoted (remove_first t)
    else join_tail s quoted t

unfoldable pub join_operators : List Str → List Str
unfolding join_operator
join_operators tokens =
    (foldl join_operator (record { out = []; pending_bang = false; want_alt = false }) tokens).out

-- Something stands before, and it is no mark that a term follows.
abbrev starts_term : Option ℕ → Bool
starts_term none = false
starts_term (some b) = not (b == bar || b == semicolon)

-- The cut of one token at its bangs: `prev` is the character before, `cur` the piece so far.
unfoldable pub bang_pieces : Option ℕ → Str → Str → List Str
bang_pieces prev cur [] = cur ∷ []
bang_pieces prev cur (c ∷ s) =
    let fresh = bang_pieces (some c) (c ∷ []) s in
    let cut = if is_empty cur then fresh else cur ∷ fresh in
    let on = bang_pieces (some c) (cur ++ (c ∷ [])) s in
    if c == bang && (starts_term prev && not (is_empty s)) then cut else on

-- The tokens up to the first that ends in the closer, and those after it.
unfoldable pub find_run : ℕ → List Str → Option (List Str × List Str)
find_run closer [] = none
find_run closer (t ∷ ts) =
    let further : Option (List Str × List Str) = elim (find_run closer ts) [
      | none ↦ none
      | some (run, rest) ↦ some (t ∷ run, rest)
    ] in
    if ends_char closer t then some (t ∷ [], ts) else further

abbrev opens : Str → Bool
opens t = (starts_char b'(' t || starts_char b'<' t) && not (starts_with (codes "(\"") t)

abbrev pub nonempty : Str → Bool
nonempty t = not (is_empty t)

module _ (std : Std) where
  open std use {is_alphabetic, is_whitespace}

  unfoldable pub read_char : Reading → ℕ → Reading
  read_char r c =
      if c == quote
      then record r { cur = r.cur ++ (quote ∷ []); in_quotes = not r.in_quotes }
      else if is_whitespace c && not r.in_quotes
      then record r { out = flushed r.out r.cur; cur = [] }
      else record r { cur = r.cur ++ (c ∷ []) }

  unfoldable pub tokenize : Str → List Str
  unfolding read_char
  tokenize input =
      let r = foldl read_char (record { out = []; cur = []; in_quotes = false }) input in
      flushed r.out r.cur

  abbrev named_field : Option (Str × Str) → Option (Str × Str)
  named_field none = none
  named_field (some (name, value)) =
      if leb 2 (length name) && all is_alphabetic name then some (fold std name, value) else none

  unfoldable pub split_field : Str → Option (Str × Str)
  unfolding split_once fold
  split_field s = named_field (split_once (b':' ∷ []) s)

  unfoldable pub token_field : Str → Option (Str × Str)
  unfolding split_field
  token_field s = split_field (without_bang s)

  abbrev names_field : Option (Str × Str) → Bool
  names_field none = false
  names_field (some (f, value)) = is_some (lookup f)

  -- A quoted run, or the value of a field that the table has.
  unfoldable pub is_literal : Str → Bool
  unfolding token_field lookup
  is_literal t = starts_char quote t || names_field (token_field t)

  unfoldable pub split_semicolons : List Str → List Str
  unfolding is_literal split_outside_quotes
  split_semicolons =
      flat_map
        (λ t. if is_literal t then t ∷ [] else keep nonempty (split_outside_quotes t semicolon))

  unfoldable pub split_bangs : List Str → List Str
  unfolding is_literal bang_pieces
  split_bangs = flat_map (λ t. if is_literal t then t ∷ [] else bang_pieces none [] t)

  abbrev extended : Str → Str → Str
  extended t prev =
      (if ends_char semicolon prev then prev else prev ++ (semicolon ∷ []))
      ++ trim_start (λ c. c == semicolon) t

  abbrev is_field : Option Str → Bool
  is_field none = false
  is_field (some p) = is_some (token_field p)

  abbrev still_open : Option Str → Bool
  still_open none = false
  still_open (some last) = ends_char semicolon last && is_some (token_field last)

  -- One token of `join_lists`: the tokens so far, and whether the last one wants what comes next.
  unfoldable pub join_list : List Str × Bool → Str → List Str × Bool
  unfolding token_field trim_start
  join_list (out, wants) t =
      let glued = is_field (last? out) && (wants || starts_char semicolon t) in
      let out' = if glued then change_last (extended t) out else out ++ (t ∷ []) in
      if starts_char quote t then (out ++ (t ∷ []), false) else (out', still_open (last? out'))

  unfoldable pub join_lists : List Str → List Str
  unfolding join_list
  join_lists tokens = (foldl join_list ([], false) tokens).0

  abbrev inner_of : List Str → Str
  inner_of run = trim std (
      trim_end (λ c. c == b')' || c == b'>')
        (trim_start (λ c. c == b'(' || c == b'<') (join (codes " ") run)))

  -- `a | b` inside the parentheses is `a|b`.
  abbrev closed_up : Str → Str
  closed_up inner = join (bar ∷ []) (map (trim std) (split bar inner))

  -- A token that opens, before `ts`, with the run that it begins; `next` is the rest of the loop.
  abbrev pub regroup :
      (List Str → List Str) → Str → List Str → Option (List Str × List Str) → List Str
  regroup next t ts none = t ∷ next ts
  regroup next t ts (some (run, rest)) =
      if has_char bar (inner_of run) then closed_up (inner_of run) ∷ next rest else t ∷ next ts

  -- Each round takes a token, so their number is fuel enough.
  unfoldable pub join_parens_from : ℕ → List Str → List Str
  unfolding find_run split join trim_end trim_start
  join_parens_from zero tokens = tokens
  join_parens_from (suc f) [] = []
  join_parens_from (suc f) (t ∷ ts) =
      let plain = t ∷ join_parens_from f ts in
      let closer = if starts_char b'<' t then b'>' else b')' in
      let grouped = regroup (λ us. join_parens_from f us) t ts (find_run closer (t ∷ ts)) in
      if opens t then grouped else plain

  unfoldable pub join_parens : List Str → List Str
  unfolding join_parens_from
  join_parens tokens = join_parens_from (length tokens) tokens
