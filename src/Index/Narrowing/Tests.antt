-- ===== src/Index/Narrowing/Tests.antt =====
-- A run of narrow_to_blocks, and its theorem at it.
use scour.Prelude.{
  ℕ, zero, suc, ◌/◌, ◌≡◌, refl, true, false, List, [], ◌∷◌, ◌++◌, arith, has, All, All-append,
  codes, Str,
}
use scour.Core.Ast.{Match}
use scour.Index.Varint.{Bytes}
use scour.Index.Varint.RoundTrip.{IsByte}
use scour.Index.Trigram.{push_all, finish, block_rows}
use scour.Index.Trigram.Reader.{open_index, candidates}
use scour.Index.Trigram.Sound.{index}
use scour.Index.Plan.{Test}
use scour.Index.Narrowing.{Clause, accepts, narrow_to_blocks}
use scour.Index.Narrowing.Complete.{stored, narrow_to_blocks_complete}

abbrev times {ℓ} : {A : Type ℓ} → ℕ → A → List A
times zero e = []
times (suc n) e = e ∷ times n e

times-All : {A : Type 0} (P : A → Type 0) (n : ℕ) (a : A) → P a → All P (times n a)
times-All P zero a h = tt
times-All P (suc n) a h = (h, times-All P n a h)

-- The last name is in the second block.
abbrev names : List Str
names = times 32 (codes "log") ++ (codes "xabcd.txt" ∷ [])

abbrev one_byte : ℕ → Bytes
one_byte c = c ∷ []

abbrev blocks : ℕ → ℕ
blocks n = n

-- abcd *.txt and not a folder
abbrev clauses : List Clause
clauses =
    record { alts = (false, Test.name_has (codes "abcd")) ∷ [] }
    ∷ record { alts = (false, Test.ext (codes "txt" ∷ []) true) ∷ [] }
    ∷ record { alts = (true, Test.other (Match.is_dir true)) ∷ [] }
    ∷ []

stored_are_bytes : All (All IsByte) (stored one_byte blocks names)
stored_are_bytes =
    All-append (All IsByte) (times 32 (codes "log")) (codes "xabcd.txt" ∷ [])
      (times-All (All IsByte) 32 (codes "log") (omega arith, (omega arith, (omega arith, tt))))
      (
        (
          omega arith,
          (
            omega arith,
            (
              omega arith,
              (
                omega arith,
                (omega arith, (omega arith, (omega arith, (omega arith, (omega arith, tt))))),
              ),
            ),
          ),
        ),
        tt,
      )

narrow_to_blocks_complete_example : has (32 / block_rows) (1 ∷ []) ≡ true
unfolding accepts narrow_to_blocks finish push_all open_index candidates scour.Index.Trigram.put_to
    scour.Index.Varint.put scour.Index.Varint.get
narrow_to_blocks_complete_example =
    narrow_to_blocks_complete one_byte blocks names (omega arith) stored_are_bytes (omega arith)
      (omega arith) (index blocks (stored one_byte blocks names) (omega arith) stored_are_bytes)
      refl 32 (codes "xabcd.txt") refl (λ m. false) (codes "xAbcd.txt") false false clauses (1 ∷ [])
      refl refl
