-- ===== src/Core/Kind/Laws.antt =====
-- crates/scour-core/src/types/entry.rs: the numbers and the names of the kinds, there and back.
use scour.Prelude.{
  ℕ, zero, suc, ◌≡◌, refl, Bool, true, false, Option, none, some, List, [], ◌∷◌, arith, any, all,
  ◌==◌, get_elem?, ◌∙◌, ◌+◌, subst, str_eq,
}
use scour.Core.Kind.{Kind, as_u8, from_u8, token, from_name, all_kinds, offered}

-- The number of a kind is read back as that kind.
pub from_u8-as_u8 : (k : Kind) → from_u8 (as_u8 k) ≡ some k
unfolding from_u8 as_u8
from_u8-as_u8 Kind.file = refl
from_u8-as_u8 Kind.dir = refl
from_u8-as_u8 Kind.code = refl
from_u8-as_u8 Kind.image = refl
from_u8-as_u8 Kind.archive = refl
from_u8-as_u8 Kind.doc = refl
from_u8-as_u8 Kind.exec = refl
from_u8-as_u8 Kind.media = refl
from_u8-as_u8 Kind.audio = refl
from_u8-as_u8 Kind.video = refl
from_u8-as_u8 Kind.build = refl
from_u8-as_u8 Kind.dataset = refl
from_u8-as_u8 Kind.config = refl
from_u8-as_u8 Kind.font = refl

-- The kinds of a list have the numbers from `base` on.
abbrev Numbered : ℕ → List Kind → Type 0
Numbered base [] = Unit
Numbered base (k ∷ ks) = (as_u8 k ≡ base) × Numbered (suc base) ks

Numbered-at :
    (base v : ℕ) (ks : List Kind) (k : Kind)
    → Numbered base ks
    → get_elem? ks v ≡ some k
    → as_u8 k ≡ base + v
Numbered-at base v [] k h e = absurd (cc)
Numbered-at base zero (j ∷ ks) k (h, hs) e = subst (λ i. as_u8 i ≡ base + 0) (cc) (h ∙ omega arith)
Numbered-at base (suc v) (j ∷ ks) k (h, hs) e = Numbered-at (suc base) v ks k hs e ∙ omega arith

all_kinds-Numbered : Numbered 0 all_kinds
unfolding as_u8
all_kinds-Numbered = (
  refl,
  (
    refl,
    (
      refl,
      (refl, (refl, (refl, (refl, (refl, (refl, (refl, (refl, (refl, (refl, (refl, tt))))))))))),
    ),
  ),
)

-- A byte that is read as a kind is that kind's number.
pub as_u8-from_u8 : (v : ℕ) (k : Kind) → from_u8 v ≡ some k → as_u8 k ≡ v
unfolding from_u8
as_u8-from_u8 v k e = Numbered-at 0 v all_kinds k all_kinds-Numbered e ∙ omega arith

abbrev pub names : Kind → Option (List Kind) → Bool
names k none = false
names k (some ks) = any (λ j. as_u8 j == as_u8 k) ks

-- Every kind is among those that its own `kind:` spelling names.
pub from_name-token : (k : Kind) → names k (from_name (token k)) ≡ true
unfolding from_name token as_u8 str_eq
from_name-token Kind.file = refl
from_name-token Kind.dir = refl
from_name-token Kind.code = refl
from_name-token Kind.image = refl
from_name-token Kind.archive = refl
from_name-token Kind.doc = refl
from_name-token Kind.exec = refl
from_name-token Kind.media = refl
from_name-token Kind.audio = refl
from_name-token Kind.video = refl
from_name-token Kind.build = refl
from_name-token Kind.dataset = refl
from_name-token Kind.config = refl
from_name-token Kind.font = refl

abbrev is_only : Kind → Option (List Kind) → Bool
is_only k (some (j ∷ [])) = as_u8 j == as_u8 k
is_only k _ = false

-- Every kind that the interface offers is the only one that its spelling names.
pub offered-is_only : all (λ k. is_only k (from_name (token k))) offered ≡ true
unfolding from_name token as_u8 str_eq
offered-is_only = refl
