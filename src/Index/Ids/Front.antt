-- ===== src/Index/Ids/Front.antt =====
-- crates/scour-index-native/src/ids.rs: the pairs of a table as a sorted list.
use scour.Prelude.{
  ℕ, zero, suc, ◌+◌, ◌*◌, ◌≤◌, ◌<◌, ◌≡◌, ◌≢◌, refl, Bool, false, ◌&&◌, some, List, [], ◌∷◌, ◌==◌,
  if◌then◌else◌, length, drop, take, arith, inl, inr, Bool-cases, get_elem?, All, any, has, ◌∙◌, ap,
}
use scour.Index.Words.{u32_at, IsU32, this_key, this_off, next_entry}
use scour.Index.Sort.{RisesBy}
use scour.Index.Ids.{pair_rank, pair_bytes}

abbrev pub Small : ℕ × ℕ → Type 0
Small p = IsU32 p.0 × IsU32 p.1

pub words_at :
    (pairs : List (ℕ × ℕ)) (i : ℕ) (p : ℕ × ℕ)
    → All Small pairs
    → get_elem? pairs i ≡ some p
    → (u32_at (pair_bytes pairs) (i * 8 + 0) ≡ p.0) × (u32_at (pair_bytes pairs) (i * 8 + 4) ≡ p.1)
unfolding pair_bytes
words_at [] i p h e = absurd (cc)
words_at ((a, b) ∷ pairs) zero p ((ha, hb), h) e =
    let same : (a, b) ≡ p = cc in
    (
      this_key a b (pair_bytes pairs) ha ∙ ap (λ q. q.0) same,
      this_off a b (pair_bytes pairs) hb ∙ ap (λ q. q.1) same,
    )
words_at ((a, b) ∷ pairs) (suc i) p (s, h) e =
    let (x, y) = words_at pairs i p h e in
    (next_entry a b (pair_bytes pairs) i 0 ∙ x, next_entry a b (pair_bytes pairs) i 4 ∙ y)

pub length-pair_bytes : (pairs : List (ℕ × ℕ)) → length (pair_bytes pairs) ≡ length pairs * 8
unfolding pair_bytes
length-pair_bytes [] = refl
length-pair_bytes ((a, b) ∷ pairs) = omega (arith, length-pair_bytes pairs)

abbrev pub is_pair : ℕ → ℕ → ℕ × ℕ → Bool
is_pair want row p = p.0 == want && p.1 == row

-- The rows of the pairs in front that have the hash.
unfoldable pub front_rows : ℕ → List (ℕ × ℕ) → List ℕ
front_rows want [] = []
front_rows want ((h, row) ∷ pairs) =
    let rest = front_rows want pairs in if h == want then row ∷ rest else []

pub drop_get {ℓ} :
    {A : Type ℓ} (l : List A) (i : ℕ)
    → i < length l
    → (a : A) × (get_elem? l i ≡ some a) × (drop i l ≡ a ∷ drop (suc i) l)
drop_get [] i h = absurd (omega arith)
drop_get (a ∷ l) zero h = (a, refl, refl)
drop_get (a ∷ l) (suc i) h = drop_get l i (omega arith)

pub drop_done {ℓ} : {A : Type ℓ} (l : List A) (i : ℕ) → length l ≤ i → drop i l ≡ []
drop_done [] zero h = refl
drop_done [] (suc i) h = refl
drop_done (a ∷ l) zero h = absurd (omega arith)
drop_done (a ∷ l) (suc i) h = drop_done l i (omega arith)

pub drop-RisesBy {ℓ} :
    {A : Type ℓ} (f : A → ℕ) (n : ℕ) (l : List A) → RisesBy f l → RisesBy f (drop n l)
drop-RisesBy f zero l h = h
drop-RisesBy f (suc n) [] h = tt
drop-RisesBy f (suc n) (a ∷ l) (p, h) = drop-RisesBy f n l h

pub All-drop {ℓ κ} :
    {A : Type ℓ} (P : A → Type κ) (l : List A) (n : ℕ)
    → ((i : ℕ) (a : A) → n ≤ i → get_elem? l i ≡ some a → P a)
    → All P (drop n l)
All-drop P [] zero h = tt
All-drop P [] (suc n) h = tt
All-drop P (a ∷ l) zero h =
    (h 0 a (omega arith) refl, All-drop P l 0 (λ i b p q. h (suc i) b (omega arith) q))
All-drop P (a ∷ l) (suc n) h = All-drop P l n (λ i b p q. h (suc i) b (omega arith) q)

none_above :
    (want row : ℕ) (h : ℕ) (pairs : List (ℕ × ℕ))
    → want < h
    → All (λ q. h ≤ q.0) pairs
    → any (is_pair want row) pairs ≡ false
none_above want row h [] lt all = refl
none_above want row h ((a, b) ∷ pairs) lt (le, all) =
    ground (arith, none_above want row h pairs lt all)

pub none_below :
    (want row n : ℕ) (pairs : List (ℕ × ℕ))
    → ((i : ℕ) (p : ℕ × ℕ) → i < n → get_elem? pairs i ≡ some p → p.0 < want)
    → any (is_pair want row) (take n pairs) ≡ false
none_below want row zero pairs h = refl
none_below want row (suc n) [] h = refl
none_below want row (suc n) ((a, b) ∷ pairs) h =
    let lt : a < want = h 0 (a, b) (omega arith) refl in
    ground (arith, none_below want row n pairs (λ i p q e. h (suc i) p (omega arith) e))

pub front_rows-any :
    (want row : ℕ) (pairs : List (ℕ × ℕ))
    → RisesBy (λ p. p.0) pairs
    → All (λ q. want ≤ q.0) pairs
    → has row (front_rows want pairs) ≡ any (is_pair want row) pairs
unfolding front_rows
front_rows-any want row [] r h = refl
front_rows-any want row ((a, b) ∷ pairs) (up, r) (le, h) = elim (Bool-cases (a == want)) [
  | inl e ↦ rw e (ground (arith, front_rows-any want row pairs r h))
  | inr e ↦
      let ne : a ≢ want = ground arith in
      ground (arith, none_above want row a pairs (omega arith) up)
]

pub hash_rises :
    (pairs : List (ℕ × ℕ)) → All Small pairs → RisesBy pair_rank pairs → RisesBy (λ p. p.0) pairs
hash_rises [] s r = tt
hash_rises ((a, b) ∷ pairs) (s, h) (up, r) = (below pairs h up, hash_rises pairs h r)
  where
    below :
        (l : List (ℕ × ℕ))
        → All Small l
        → All (λ q. pair_rank (a, b) ≤ pair_rank q) l
        → All (λ q. a ≤ q.0) l
    below [] k u = tt
    below ((c, d) ∷ l) ((hc, hd), k) (le, u) = (omega arith, below l k u)
