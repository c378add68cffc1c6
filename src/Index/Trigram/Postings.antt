-- ===== src/Index/Trigram/Postings.antt =====
-- crates/scour-index-native/src/trigram.rs: one posting list, as it is appended to and as it is read.
use scour.Index.Words.{u32}
use scour.Prelude.{
  ℕ, suc, ◌+◌, ◌-◌, ◌^◌, ◌≤◌, ◌<◌, ◌≡◌, refl, true, ◌&&◌, some, List, [], ◌∷◌, ◌++◌, append-nil,
  append_assoc, length, length-append, drop, has, arith, ◌∙◌,
}
use scour.Index.Varint.{Bytes, get}
use scour.Index.Varint.RoundTrip.{varint_of, put-varint_of, get-varint_of}
use scour.Index.Trigram.{Posting, default, put_to, append_block}
use scour.Index.Trigram.Reader.{decode, decode_from, intersect}

-- Strictly ascending, from `lo` on and below `hi`.
abbrev pub Ascends : ℕ → ℕ → List ℕ → Type 0
Ascends lo hi [] = lo ≤ hi
Ascends lo hi (b ∷ bs) = (lo ≤ b) × Ascends (b + 1) hi bs

pub Ascends-le : (lo hi : ℕ) (bs : List ℕ) → Ascends lo hi bs → lo + length bs ≤ hi
Ascends-le lo hi [] h = omega arith
Ascends-le lo hi (b ∷ bs) (p, h) = omega (arith, Ascends-le (b + 1) hi bs h)

pub Ascends-snoc :
    (lo hi b : ℕ) (bs : List ℕ) → Ascends lo hi bs → hi ≤ b → Ascends lo (b + 1) (bs ++ (b ∷ []))
Ascends-snoc lo hi b [] h p = (omega arith, omega arith)
Ascends-snoc lo hi b (a ∷ bs) (q, h) p = (q, Ascends-snoc (a + 1) hi b bs h p)

pub Ascends-raise : (lo hi hi' : ℕ) (bs : List ℕ) → Ascends lo hi bs → hi ≤ hi' → Ascends lo hi' bs
Ascends-raise lo hi hi' [] h p = omega arith
Ascends-raise lo hi hi' (a ∷ bs) (q, h) p = (q, Ascends-raise (a + 1) hi hi' bs h p)

pub Ascends-lower : (lo lo' hi : ℕ) (bs : List ℕ) → Ascends lo hi bs → lo' ≤ lo → Ascends lo' hi bs
Ascends-lower lo lo' hi [] h p = omega arith
Ascends-lower lo lo' hi (a ∷ bs) (q, h) p = (omega arith, h)

-- The differences of a list, from `last` on.
pub encode : ℕ → List ℕ → Bytes
encode last [] = []
encode last (b ∷ bs) = varint_of (b - last) ++ encode b bs

pub last_of : ℕ → List ℕ → ℕ
last_of last [] = last
last_of last (b ∷ bs) = last_of b bs

encode-snoc :
    (last b : ℕ) (bs : List ℕ)
    → encode last (bs ++ (b ∷ [])) ≡ encode last bs ++ varint_of (b - last_of last bs)
unfolding encode last_of
encode-snoc last b [] = append-nil (varint_of (b - last))
encode-snoc last b (a ∷ bs) =
    rw (encode-snoc a b bs, append_assoc (varint_of (a - last)) (encode a bs))

last_of-snoc : (last b : ℕ) (bs : List ℕ) → last_of last (bs ++ (b ∷ [])) ≡ b
unfolding last_of
last_of-snoc last b [] = refl
last_of-snoc last b (a ∷ bs) = last_of-snoc a b bs

pub drop-length {ℓ} : {A : Type ℓ} (xs ys : List A) → drop (length xs) (xs ++ ys) ≡ ys
drop-length [] ys = refl
drop-length (x ∷ xs) ys = drop-length xs ys

pub put_to-varint_of : (out : Bytes) (v : ℕ) → v < 2 ^ 64 → put_to out v ≡ out ++ varint_of v
unfolding put_to
put_to-varint_of out v h = rw (put_to, put-varint_of out v h) refl

decode_step :
    (n block delta used : ℕ) (bytes : Bytes)
    → get bytes ≡ some (delta, used)
    → decode_from (suc n) block bytes
      ≡ u32 (block + u32 delta) ∷ decode_from n (u32 (block + u32 delta)) (drop used bytes)
unfolding decode_from
decode_step n block delta used bytes h = rw (decode_from, h) refl

decode_from-encode :
    (lo last hi : ℕ) (bs : List ℕ) (rest : Bytes)
    → Ascends lo hi bs
    → last ≤ lo
    → hi ≤ 2 ^ 32
    → decode_from (length bs) last (encode last bs ++ rest) ≡ bs
unfolding decode_from encode
decode_from-encode lo last hi [] rest h p q = refl
decode_from-encode lo last hi (b ∷ bs) rest (l, h) p q =
    let top : b + 1 ≤ hi = omega (arith, Ascends-le (b + 1) hi bs h) in
    let moved : u32 (last + u32 (b - last)) ≡ b = omega arith in
    let bytes : Bytes = varint_of (b - last) ++ (encode b bs ++ rest) in
    rw (append_assoc (varint_of (b - last)) (encode b bs) rest) (
      decode_step (length bs) last (b - last) (length (varint_of (b - last))) bytes
        (get-varint_of (b - last) (encode b bs ++ rest) (omega arith))
      ∙ rw (
        moved,
        drop-length (varint_of (b - last)) (encode b bs ++ rest),
        decode_from-encode (b + 1) b hi bs rest h (omega arith) q,
      ))

-- The posting holds the ascending list `bs` of blocks below `hi`.
pub record Holds (hi : ℕ) (bs : List ℕ) (list : Posting) : Type 0 where
  pub is_last : list.last ≡ last_of 0 bs
  pub is_count : list.count ≡ length bs
  pub is_bytes : list.bytes ≡ encode 0 bs
  pub is_ascending : Ascends 0 hi bs

pub default-Holds : Holds 0 [] default
unfolding last_of encode
default-Holds = record {
  is_last = refl;
  is_count = refl;
  is_bytes = refl;
  is_ascending = omega arith;
}

last_of-le : (last lo hi : ℕ) (bs : List ℕ) → Ascends lo hi bs → last ≤ hi → last_of last bs ≤ hi
unfolding last_of
last_of-le last lo hi [] h p = omega arith
last_of-le last lo hi (b ∷ bs) (q, h) p =
    last_of-le b (b + 1) hi bs h (omega (arith, Ascends-le (b + 1) hi bs h))

pub append_block-Holds :
    (b : ℕ) (bs : List ℕ) (list : Posting)
    → Holds b bs list
    → b + 1 < 2 ^ 32
    → Holds (b + 1) (bs ++ (b ∷ [])) (append_block b list)
append_block-Holds b bs list h fits =
    let most : 0 + length bs ≤ b = Ascends-le 0 b bs h.is_ascending in
    let below : last_of 0 bs ≤ b = last_of-le 0 0 b bs h.is_ascending (omega arith) in
    record {
      is_last = rw (last_of-snoc 0 b bs) refl;
      is_count = rw (h.is_count, length-append bs (b ∷ [])) (omega arith);
      is_bytes =
          put_to-varint_of list.bytes (b - list.last) (omega arith)
          ∙ rw (h.is_bytes, h.is_last, encode-snoc 0 b bs);
      is_ascending = Ascends-snoc 0 b b bs h.is_ascending (omega arith);
    }

pub Holds-raise :
    (hi hi' : ℕ) (bs : List ℕ) (list : Posting) → Holds hi bs list → hi ≤ hi' → Holds hi' bs list
Holds-raise hi hi' bs list h p = record {
  is_last = h.is_last;
  is_count = h.is_count;
  is_bytes = h.is_bytes;
  is_ascending = Ascends-raise 0 hi hi' bs h.is_ascending p;
}

-- The blocks that a posting list holds are read back from its count and its bytes, whatever follows
-- them.
pub decode-Holds :
    (hi : ℕ) (bs : List ℕ) (list : Posting) (rest : Bytes)
    → Holds hi bs list
    → hi ≤ 2 ^ 32
    → decode list.count (list.bytes ++ rest) ≡ bs
unfolding decode
decode-Holds hi bs list rest h fits =
    rw (h.is_count, h.is_bytes)
      (decode_from-encode 0 0 hi bs rest h.is_ascending (omega arith) fits)

has-Ascends : (lo hi x : ℕ) (bs : List ℕ) → Ascends lo hi bs → has x bs ≡ true → lo ≤ x
has-Ascends lo hi x [] h e = ground arith
has-Ascends lo hi x (b ∷ bs) (p, h) e = ground (arith, has-Ascends (b + 1) hi x bs h)

-- The pass over two ascending lists finds the numbers that stand in both, and no others.
pub has-intersect :
    (lo hi lo' hi' x : ℕ) (xs bs : List ℕ)
    → Ascends lo hi xs
    → Ascends lo' hi' bs
    → has x (intersect xs bs) ≡ (has x xs && has x bs)
unfolding intersect
has-intersect lo hi lo' hi' x [] bs h k = refl
has-intersect lo hi lo' hi' x (a ∷ xs) [] h k = ground arith
has-intersect lo hi lo' hi' x (a ∷ xs) (b ∷ bs) (p, h) (q, k) = ground (
  arith,
  has-intersect (a + 1) hi lo' hi' x xs (b ∷ bs) h (q, k),
  has-intersect lo hi (b + 1) hi' x (a ∷ xs) bs (p, h) k,
  has-intersect (a + 1) hi (b + 1) hi' x xs bs h k,
  has-Ascends (a + 1) hi x xs h,
  has-Ascends (b + 1) hi' x bs k,
)
