-- ===== src/Names/Laws.antt =====
-- crates/scour-name/src/lib.rs: what `check` lets pass, and what `rename` does.
use scour.Prelude.{
  ◌≡◌, refl, Bool, true, false, ◌||◌, ◌&&◌, not, leb, Str, codes, str_eq, has_char, ends_char,
  is_empty, arith, ◌⊎◌, inl, inr, sym, ◌∙◌, ap,
}
use scour.Core.Fold.{byte_len}
use scour.Core.Prefix.{slash}
use scour.Names.{FileSystem, Outcome, Refusal, Renamed, beside, check, rename, is_name, answer}

-- What a new name must be, as one test.
abbrev pub is_component : Str → Bool
is_component name =
    (not (is_empty name) && (not (has_char slash name) && not (has_char 0 name)))
    && (not (str_eq name (codes ".") || str_eq name (codes ".."))
        && (not (ends_char b' ' name || ends_char b'.' name) && leb (byte_len name) 255))

abbrev pub is_done {ℓ} : {A : Type ℓ} → Outcome A → Bool
is_done (Outcome.done a) = true
is_done (Outcome.refused r) = false

Outcome-cases :
    (o : Outcome (Unit {0})) → (o ≡ Outcome.done tt) ⊎ ((r : Refusal) × (o ≡ Outcome.refused r))
Outcome-cases (Outcome.done u) = inl refl
Outcome-cases (Outcome.refused r) = inr (r, refl)

module _ (fs : FileSystem) where
  open fs use {FilePath, State, file_name, symlink_exists, move_to}

  answer_done :
      (to : FilePath) (o : State × Renamed) (st' : State) (to' : FilePath)
      → answer fs to o ≡ (st', Outcome.done to')
      → (to' ≡ to) × (o ≡ (st', Renamed.moved))
  answer_done to (st, Renamed.moved) st' to' h = (cc, cc)
  answer_done to (st, Renamed.already_exists) st' to' h = absurd (cc)
  answer_done to (st, Renamed.other_error) st' to' h = absurd (cc)

  -- A name passes the check exactly if it is one component of a path, 255 bytes at most, ends in no
  -- space or dot, is not the name that the file has, and is free in its folder.
  pub check-is_component :
      (st : State) (path : FilePath) (name : Str)
      → is_done (check fs st path name) ≡ (
          is_component name
          && (not (is_name (file_name path) name) && not (symlink_exists st (beside fs path name))))
  unfolding check
  check-is_component st path name = ground arith

  rename_passed :
      (st : State) (path : FilePath) (name : Str)
      → check fs st path name ≡ Outcome.done tt
      → rename fs st path name
        ≡ answer fs (beside fs path name) (move_to st path (beside fs path name))
  unfolding rename
  rename_passed st path name e = rw (rename, e) refl

  rename_stopped :
      (st : State) (path : FilePath) (name : Str) (r : Refusal)
      → check fs st path name ≡ Outcome.refused r
      → rename fs st path name ≡ (st, Outcome.refused r)
  unfolding rename
  rename_stopped st path name r e = rw (rename, e) refl

  -- A file that is renamed has the new name beside it, which was free and is one component of a path,
  -- and the file system has moved it there and nothing else.
  pub rename-moves :
      (st st' : State) (path to : FilePath) (name : Str)
      → rename fs st path name ≡ (st', Outcome.done to)
      → (is_component name ≡ true)
        × (to ≡ beside fs path name)
        × (symlink_exists st to ≡ false)
        × (move_to st path to ≡ (st', Renamed.moved))
  rename-moves st st' path to name h =
      let ok = check-is_component st path name in
      let there = beside fs path name in
      elim (Outcome-cases (check fs st path name)) [
        | inr (r, e) ↦
            let stopped : ◌≡◌ {A = Outcome FilePath} (Outcome.refused r) (Outcome.done to) =
              ap (λ o. o.1) (sym (rename_stopped st path name r e) ∙ h) in
            absurd (cc)
        | inl e ↦
            let passed : is_done (check fs st path name) ≡ true = ap is_done e in
            let (same, moved) =
              answer_done there (move_to st path there) st' to
                (sym (rename_passed st path name e) ∙ h) in
            let free : symlink_exists st there ≡ false = ground arith in
            (
              ground arith,
              same,
              ap (symlink_exists st) same ∙ free,
              ap (move_to st path) same ∙ moved,
            )
      ]

  -- A name that is refused leaves the file system as it was.
  pub rename_refused :
      (st : State) (path : FilePath) (name : Str)
      → is_component name ≡ false
      → (rename fs st path name).0 ≡ st
  rename_refused st path name h =
      let ok = check-is_component st path name in
      elim (Outcome-cases (check fs st path name)) [
        | inr (r, e) ↦ ap (λ o. o.0) (rename_stopped st path name r e)
        | inl e ↦
            let passed : is_done (check fs st path name) ≡ true = ap is_done e in
            absurd (ground arith)
      ]
