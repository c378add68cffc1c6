-- ===== src/Core/Entry/Names.antt =====
-- crates/scour-core/src/types/entry.rs: `Entry::name` and `Entry::parent`, the two parts of a path.
use scour.Prelude.{
  ℕ, ◌≡◌, refl, sym, ap, true, false, Option, none, some, [], ◌∷◌, ◌++◌, ◌==◌, ==_iff,
  if◌then◌else◌, Str, codes, has_char, arith, Bool-cases, inl, inr, str_eq, str_eq_refl,
}
use scour.Core.Entry.{rsplit_char, last_component, front_of, entry_name, entry_parent}

-- What the two sides of the last place of the character are.
abbrev pub IsCut : ℕ → Str → Option (Str × Str) → Type 0
IsCut c s none = has_char c s ≡ false
IsCut c s (some (front, rest)) = (s ≡ front ++ (c ∷ rest)) × (has_char c rest ≡ false)

IsCut-cons :
    (c a : ℕ) (s : Str) (o : Option (Str × Str))
    → IsCut c s o
    → IsCut c (a ∷ s) (elim o [
      | some (front, rest) ↦ some (a ∷ front, rest)
      | none ↦ if a == c then some ([], s) else none
    ])
IsCut-cons c a s (some (front, rest)) (e, h) = (ap (λ t. a ∷ t) e, h)
IsCut-cons c a s none h = elim (Bool-cases (a == c)) [
  | inl e ↦ rw (e) (ap (λ b. b ∷ s) ((==_iff a c).0 e), h)
  | inr e ↦ rw (e) (ground arith)
]

pub rsplit_char-IsCut : (c : ℕ) (s : Str) → IsCut c s (rsplit_char c s)
unfolding rsplit_char
rsplit_char-IsCut c [] = refl
rsplit_char-IsCut c (a ∷ s) = IsCut-cons c a s (rsplit_char c s) (rsplit_char-IsCut c s)

-- A name has no slash in it, and a path with a slash whose parent is not the root is its parent, a
-- slash and its name.
pub entry_parent-entry_name :
    (path : Str)
    → has_char b'/' path ≡ true
    → str_eq (entry_parent path) (codes "/") ≡ false
    → (has_char b'/' (entry_name path) ≡ false)
      × (entry_parent path ++ (b'/' ∷ entry_name path) ≡ path)
unfolding entry_parent entry_name
entry_parent-entry_name path h n = go (rsplit_char b'/' path) (rsplit_char-IsCut b'/' path) n
  where
    go :
        (o : Option (Str × Str))
        → IsCut b'/' path o
        → str_eq (front_of o) (codes "/") ≡ false
        → (has_char b'/' (last_component path o) ≡ false)
          × (front_of o ++ (b'/' ∷ last_component path o) ≡ path)
    go none k m = absurd (ground arith)
    go (some ([], rest)) k m = absurd (ground (arith, str_eq_refl (codes "/")))
    go (some (a ∷ front, rest)) (e, k) m = (k, sym e)
