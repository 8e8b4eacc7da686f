-- ===== src/Procfs/Numbers/Fields.antt =====
-- How a line is split into fields.
use mikroscope.Common.{
  [], ◌∷◌, ◌++◌, true, false, Bytes, All, ◌≡◌, refl, ap, ◌∙◌, Bool-cases, inl, inr, ◌≢◌, ◌⊎◌,
}
use mikroscope.Procfs.Numbers.{is_blank, skip_blanks, word, next_field}

-- The bytes end, or a blank comes next.
abbrev pub AtBlank : Bytes → Type 0
AtBlank [] = Unit
AtBlank (b ∷ bs) = is_blank b ≡ true

skip_blanks_lem :
    (bs : Bytes)
    → (blanks : Bytes) × (bs ≡ blanks ++ skip_blanks bs) × All (λ b. is_blank b ≡ true) blanks
unfolding skip_blanks
skip_blanks_lem [] = ([], refl, tt)
skip_blanks_lem (b ∷ bs) = elim (Bool-cases (is_blank b)) [
  | inl blank ↦
      let (blanks, same, all) = skip_blanks_lem bs in
      (b ∷ blanks, rw blank (ap (λ xs. b ∷ xs) same), (blank, all))
  | inr other ↦ ([], rw other refl, tt)
]

word_lem :
    (bs : Bytes)
    → (bs ≡ (word bs).0 ++ (word bs).1)
      × All (λ b. is_blank b ≡ false) (word bs).0
      × AtBlank (word bs).1
unfolding word
word_lem [] = (refl, tt, tt)
word_lem (b ∷ bs) = elim (Bool-cases (is_blank b)) [
  | inl blank ↦ rw blank (refl, tt, blank)
  | inr other ↦
      let (same, all, after) = word_lem bs in rw other (ap (λ xs. b ∷ xs) same, (other, all), after)
]

word_nil : (bs : Bytes) → ((word (skip_blanks bs)).0 ≢ []) ⊎ ((word (skip_blanks bs)).1 ≡ [])
unfolding skip_blanks word
word_nil [] = inr refl
word_nil (b ∷ bs) = elim (Bool-cases (is_blank b)) [
  | inl blank ↦ rw blank (word_nil bs)
  | inr other ↦ rw (other, other) (inl (λ h. cc))
]

-- A line is blanks, then its next field, then the rest: all of the leading blanks are skipped, so
-- that the field has a byte unless nothing comes after them; the field has no blank in it, it ends
-- where a blank or the line's end comes, and nothing of the line is lost.
pub next_field_lem :
    (bs : Bytes)
    → let (field, rest) = next_field bs in
      (blanks : Bytes) × (bs ≡ blanks ++ (field ++ rest))
      × All (λ b. is_blank b ≡ true) blanks
      × All (λ b. is_blank b ≡ false) field
      × ((field ≢ []) ⊎ (rest ≡ []))
      × AtBlank rest
unfolding next_field
next_field_lem bs =
    let (blanks, same, all) = skip_blanks_lem bs in
    let (parts, field, after) = word_lem (skip_blanks bs) in
    (blanks, same ∙ ap (λ xs. blanks ++ xs) parts, all, field, word_nil bs, after)
