-- ===== src/Index/Trigram/Tests.antt =====
-- Runs of the trigram index, and the theorems at concrete inputs.
use scour.Prelude.{
  ℕ, zero, suc, ◌/◌, ◌<◌, ◌^◌, ◌≡◌, refl, true, none, some, List, [], ◌∷◌, ◌++◌, length, arith, has,
  All, All-append, codes, Option,
}
use scour.Index.Varint.{Bytes}
use scour.Index.Varint.RoundTrip.{IsByte}
use scour.Index.Trigram.{TrigramWriter, new, push_all, finish, block_rows}
use scour.Index.Trigram.Reader.{TrigramIndex, open_index, candidates}
use scour.Index.Trigram.Rows.{push_all-new, Counts}
use scour.Index.Trigram.Sound.{open_index-finish, candidates_complete, index}

abbrev rows_of : ℕ → Bytes → List Bytes
rows_of zero name = []
rows_of (suc n) name = name ∷ rows_of n name

abbrev names : List Bytes
names = rows_of 32 (codes "log") ++ (codes "xabcd" ∷ [])

abbrev files : Bytes × Bytes
files = finish (λ blocks. blocks) (push_all new names)

abbrev opened : Option TrigramIndex
opened = open_index files.0 files.1

abbrev ask : Option TrigramIndex → Bytes → Option (List ℕ)
ask none needle = none
ask (some idx) needle = candidates idx needle

finds_the_second_block : ask opened (codes "abcd") ≡ some (1 ∷ [])
unfolding finish push_all open_index candidates scour.Index.Trigram.put_to scour.Index.Varint.put
    scour.Index.Varint.get
finds_the_second_block = refl

finds_nothing : ask opened (codes "abd") ≡ some []
unfolding finish push_all open_index candidates scour.Index.Trigram.put_to scour.Index.Varint.put
    scour.Index.Varint.get
finds_nothing = refl

too_short_to_ask : ask opened (codes "ab") ≡ none
unfolding finish push_all open_index candidates scour.Index.Trigram.put_to scour.Index.Varint.put
    scour.Index.Varint.get
too_short_to_ask = refl

rows_of-All : (P : Bytes → Type 0) (n : ℕ) (name : Bytes) → P name → All P (rows_of n name)
rows_of-All P zero name h = tt
rows_of-All P (suc n) name h = (h, rows_of-All P n name h)

names_are_bytes : All (All IsByte) names
names_are_bytes =
    All-append (All IsByte) (rows_of 32 (codes "log")) (codes "xabcd" ∷ [])
      (rows_of-All (All IsByte) 32 (codes "log") (omega arith, (omega arith, (omega arith, tt))))
      ((omega arith, (omega arith, (omega arith, (omega arith, (omega arith, tt))))), tt)

push_all-new_example : Counts names (push_all new names)
push_all-new_example = push_all-new names (omega arith)

open_index-finish_example :
    open_index files.0 files.1 ≡ some (index (λ blocks. blocks) names (omega arith) names_are_bytes)
open_index-finish_example =
    open_index-finish (λ blocks. blocks) names (omega arith) names_are_bytes (dict_fits)
  where
    dict_fits : length files.0 < 2 ^ 32
    dict_fits =
        unfold finish push_all scour.Index.Trigram.put_to scour.Index.Varint.put in omega arith

candidates_complete_example : has (32 / block_rows) (1 ∷ []) ≡ true
unfolding finish push_all open_index candidates scour.Index.Trigram.put_to scour.Index.Varint.put
    scour.Index.Varint.get
candidates_complete_example =
    candidates_complete (λ blocks. blocks) names (omega arith) names_are_bytes 32 (codes "x")
      (codes "abcd") [] (index (λ blocks. blocks) names (omega arith) names_are_bytes) (1 ∷ [])
      (omega arith) (omega arith) refl refl refl
