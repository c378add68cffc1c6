-- ===== src/Volumes/Mounts/Escapes.antt =====
-- crates/scour-volumes/src/mountinfo.rs, `unescape`: the escapes of the kernel.
use scour.Prelude.{
  ℕ, ◌≡◌, refl, false, [], ◌∷◌, ◌++◌, ◌==◌, ==_iff, if◌then◌else◌, Str, Bool-cases, inl, inr,
}
use scour.Volumes.Mounts.{unescape, backslash}

-- How the kernel writes a name in the table: a space, a tab, an end of line and a backslash as three
-- octal digits after a backslash, and every other byte as it is.
abbrev pub escaped_byte : ℕ → Str
escaped_byte b =
    if b == 32
    then backslash ∷ b'0' ∷ b'4' ∷ b'0' ∷ []
    else if b == 9
    then backslash ∷ b'0' ∷ b'1' ∷ b'1' ∷ []
    else if b == 10
    then backslash ∷ b'0' ∷ b'1' ∷ b'2' ∷ []
    else if b == backslash
    then backslash ∷ b'1' ∷ b'3' ∷ b'4' ∷ []
    else b ∷ []

unfoldable pub escaped : Str → Str
escaped [] = []
escaped (b ∷ s) = escaped_byte b ++ escaped s

-- A byte that is no backslash stays.
unescape-plain : (b : ℕ) (s : Str) → (b == backslash) ≡ false → unescape (b ∷ s) ≡ b ∷ unescape s
unfolding unescape
unescape-plain b [] h = refl
unescape-plain b (d ∷ []) h = refl
unescape-plain b (d ∷ e ∷ []) h = refl
unescape-plain b (d ∷ e ∷ f ∷ s) h = rw (h)

-- A name that the kernel wrote is read back as it was.
pub unescape-escaped : (s : Str) → unescape (escaped s) ≡ s
unfolding escaped unescape
unescape-escaped [] = refl
unescape-escaped (b ∷ s) = elim (Bool-cases (b == 32)) [
  | inl e ↦ rw (e, unescape-escaped s, (==_iff b 32).0 e)
  | inr e ↦ elim (Bool-cases (b == 9)) [
    | inl k ↦ rw (e, k, unescape-escaped s, (==_iff b 9).0 k)
    | inr k ↦ elim (Bool-cases (b == 10)) [
      | inl l ↦ rw (e, k, l, unescape-escaped s, (==_iff b 10).0 l)
      | inr l ↦ elim (Bool-cases (b == backslash)) [
        | inl m ↦ rw (e, k, l, m, unescape-escaped s, (==_iff b backslash).0 m)
        | inr m ↦ rw (e, k, l, m, unescape-plain b (escaped s) m, unescape-escaped s)
      ]
    ]
  ]
]
