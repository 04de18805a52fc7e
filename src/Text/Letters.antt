-- ===== src/Text/Letters.antt =====
-- Case and padding.
use cdroid_demo.Common.{
  ℕ, ◌-◌, ◌≤◌, ◌≡◌, refl, ap₂, List, [], ◌∷◌, take, length, length-append, length-replicate,
  replicate, take-append_length, take_all, ◌⊎◌, arith,
}
use cdroid_demo.Text.{upper, lower, to_upper, to_lower, fill_length}

upper_again : (c : ℕ) → (upper (upper c) ≡ upper c) × (lower (lower c) ≡ lower c)
unfolding upper lower
upper_again c = ground arith

lower-upper : (c : ℕ) → (lower (upper c) ≡ lower c) × (upper (lower c) ≡ upper c)
unfolding upper lower
lower-upper c = ground arith

-- Changing the case twice in one way is as good as once, and of two ways the later counts.
pub to_lower-to_upper :
    (letter : List ℕ)
    → (to_upper (to_upper letter) ≡ to_upper letter)
      × (to_lower (to_lower letter) ≡ to_lower letter)
      × (to_lower (to_upper letter) ≡ to_lower letter)
      × (to_upper (to_lower letter) ≡ to_upper letter)
unfolding to_upper to_lower
to_lower-to_upper [] = (refl, refl, refl, refl)
to_lower-to_upper (c ∷ cs) =
    let rest = to_lower-to_upper cs in
    (
      ap₂ (λ (d : ℕ) ds. d ∷ ds) (upper_again c).0 rest.0,
      ap₂ (λ (d : ℕ) ds. d ∷ ds) (upper_again c).1 rest.1,
      ap₂ (λ (d : ℕ) ds. d ∷ ds) (lower-upper c).0 rest.2,
      ap₂ (λ (d : ℕ) ds. d ∷ ds) (lower-upper c).1 rest.3,
    )

-- fillLength gives at least the length asked for and no more than that and the text need, and it
-- begins with the text.
pub fill_length_lem :
    (str : List ℕ) (len end : ℕ)
    → (len ≤ length (fill_length str len end))
      × (length str ≤ length (fill_length str len end))
      × ((length (fill_length str len end) ≤ len) ⊎ (fill_length str len end ≡ str))
      × (take (length str) (fill_length str len end) ≡ str)
unfolding fill_length
fill_length_lem str len end = ground (
  arith,
  length-append str (replicate (len - length str) end),
  length-replicate (len - length str) end,
  take-append_length str (replicate (len - length str) end),
  take_all (length str) str (omega arith),
)
