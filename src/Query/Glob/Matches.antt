-- ===== src/Query/Glob/Matches.antt =====
-- What it means for a text to match a pattern, with no search order in it.
use scour.Prelude.{ℕ, ◌≡◌, ◌≢◌, [], ◌∷◌, Str, arith, ◌⊎◌}

-- `*` matches any run, `?` any one character, and every other character itself.
pub data Matches : Str → Str → Type 0 where
  done : Matches [] []
  skip : {a : ℕ} {p t : Str} → a ≡ b'*' → Matches p t → Matches (a ∷ p) t
  eat : {a c : ℕ} {p t : Str} → a ≡ b'*' → Matches (a ∷ p) t → Matches (a ∷ p) (c ∷ t)
  any_one : {a c : ℕ} {p t : Str} → a ≡ b'?' → Matches p t → Matches (a ∷ p) (c ∷ t)
  same : {a c : ℕ} {p t : Str} → a ≢ b'*' → a ≢ b'?' → a ≡ c → Matches p t → Matches (a ∷ p) (c ∷ t)

-- A star before the pattern: some tail of the text matches it.
pub data Ends (p : Str) : Str → Type 0 where
  now : {t : Str} → Matches p t → Ends p t
  later : {c : ℕ} {t : Str} → Ends p t → Ends p (c ∷ t)

pub Ends→Matches : {a : ℕ} {p t : Str} → a ≡ b'*' → Ends p t → Matches (a ∷ p) t
Ends→Matches e (now d) = skip e d
Ends→Matches e (later d) = eat e (Ends→Matches e d)

pub Matches→Ends : {a : ℕ} {p t : Str} → a ≡ b'*' → Matches (a ∷ p) t → Ends p t
Matches→Ends e (skip _ d) = now d
Matches→Ends e (eat _ d) = later (Matches→Ends e d)
Matches→Ends e (any_one q d) = absurd (omega arith)
Matches→Ends e (same n _ _ d) = absurd (n e)

-- A step over one character other than by a star.
abbrev pub Takes : ℕ → ℕ → Type 0
Takes a c = (a ≢ b'*') × ((a ≡ b'?') ⊎ (a ≡ c))
