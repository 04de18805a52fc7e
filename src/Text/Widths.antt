-- ===== src/Text/Widths.antt =====
-- getWordChineseDouble of src/common/comm_func.cc: the text that fits into a width, where a character of
-- several bytes is as wide as two others.
use cdroid_demo.Common.{
  ℕ, zero, suc, ◌+◌, ◌-◌, ◌≤◌, ◌≡◌, refl, ap, ◌∙◌, true, false, List, [], ◌∷◌, ◌++◌, arith, ltb,
  length, length-append, take, drop, if◌then◌else◌, Bool-cases, inl, inr,
}
use cdroid_demo.Text.{num_bytes, is_multi}
use cdroid_demo.Text.Words.{Character, bytes_of, encode, drop_following, length-encode}

-- The loop: `size` characters have been taken, `chinese_word` of them of several bytes; the result is how
-- many bytes the ones to come have, wordPos in the end. A round takes a byte at least.
unfoldable pub word_pos : ℕ → ℕ → ℕ → ℕ → List ℕ → ℕ
word_pos zero count size chinese_word buffer = 0
word_pos (suc fuel) count size chinese_word [] = 0
word_pos (suc fuel) count size chinese_word (c ∷ cs) =
    let chinese = word_pos fuel count (size + 1) (chinese_word + 1) (drop (num_bytes c) cs) in
    let single = word_pos fuel count (size + 1) chinese_word cs in
    if is_multi c
    then (if ltb count (size + chinese_word + 2) then 0 else num_bytes c + 1 + chinese)
    else if ltb count (size + chinese_word + 1)
    then 0
    else 1 + single

unfoldable pub get_word_chinese_double : List ℕ → ℕ → List ℕ
unfolding word_pos
get_word_chinese_double buffer count = take (word_pos (length buffer) count 0 0 buffer) buffer

abbrev pub width : Character → ℕ
width c = if is_multi c.first then 2 else 1

unfoldable pub total_width : List Character → ℕ
total_width [] = 0
total_width (c ∷ cs) = width c + total_width cs

-- The characters from the front, as long as there is room.
unfoldable pub fitting : ℕ → List Character → List Character
fitting room [] = []
fitting room (c ∷ cs) =
    let rest = fitting (room - width c) cs in if ltb room (width c) then [] else c ∷ rest

fitting_width : (room : ℕ) (cs : List Character) → total_width (fitting room cs) ≤ room
unfolding fitting total_width
fitting_width room [] = omega arith
fitting_width room (c ∷ cs) = elim (Bool-cases (ltb room (width c))) [
  | inl e ↦ rw e (omega arith)
  | inr e ↦ rw e (ground (arith, e, fitting_width (room - width c) cs))
]

single_bytes : (c : ℕ) → is_multi c ≡ false → num_bytes c ≡ 0
unfolding num_bytes
single_bytes c h = ground (arith, h)

-- The bytes of a character that has room, and those behind it.
cons_length :
    (c : Character) (room left : ℕ) (cs : List Character)
    → room ≡ left
    → num_bytes c.first + 1 + length (encode (fitting room cs))
      ≡ length (bytes_of c ++ encode (fitting left cs))
cons_length c room left cs e =
    ap (λ (r : ℕ). num_bytes c.first + 1 + length (encode (fitting r cs))) e
    ∙ omega (arith, length-append (bytes_of c) (encode (fitting left cs)), c.whole)

word_pos-encode :
    (fuel count size chinese_word : ℕ) (cs : List Character)
    → length cs ≤ fuel
    → size + chinese_word ≤ count
    → word_pos fuel count size chinese_word (encode cs)
      ≡ length (encode (fitting (count - (size + chinese_word)) cs))
unfolding word_pos encode fitting
word_pos-encode zero count size chinese_word [] f h = refl
word_pos-encode (suc fuel) count size chinese_word [] f h = refl
word_pos-encode zero count size chinese_word (c ∷ cs) f h = absurd (omega arith)
word_pos-encode (suc fuel) count size chinese_word (c ∷ cs) f h =
    elim (Bool-cases (is_multi c.first)) [
      | inl e ↦
          let behind : drop (num_bytes c.first) (c.following ++ encode cs) ≡ encode cs =
            drop_following c.following (encode cs) (num_bytes c.first) c.whole in
          elim (Bool-cases (ltb count (size + chinese_word + 2))) [
            | inl g ↦
                let full : ltb (count - (size + chinese_word)) 2 ≡ true = ground (arith, g) in
                rw (e, g, full) refl
            | inr g ↦
                let fits : ltb (count - (size + chinese_word)) 2 ≡ false = ground (arith, g) in
                rw (e, g, fits, behind)
                  (ap (λ (m : ℕ). num_bytes c.first + 1 + m)
                      (word_pos-encode fuel count (size + 1) (chinese_word + 1) cs (omega arith)
                        (ground (arith, g)))
                    ∙ cons_length c (count - (size + 1 + (chinese_word + 1)))
                        (count - (size + chinese_word) - 2) cs (omega arith))
          ]
      | inr e ↦
          let alone = single_bytes c.first e in
          let behind : c.following ++ encode cs ≡ encode cs =
            drop_following c.following (encode cs) 0 (c.whole ∙ alone) in
          elim (Bool-cases (ltb count (size + chinese_word + 1))) [
            | inl g ↦
                let full : ltb (count - (size + chinese_word)) 1 ≡ true = ground (arith, g) in
                rw (e, g, full) refl
            | inr g ↦
                let fits : ltb (count - (size + chinese_word)) 1 ≡ false = ground (arith, g) in
                rw (e, g, fits, behind)
                  (ap (λ (m : ℕ). 1 + m)
                      (word_pos-encode fuel count (size + 1) chinese_word cs (omega arith)
                        (ground (arith, g)))
                    ∙ omega (
                      arith,
                      alone,
                      cons_length c (count - (size + 1 + chinese_word))
                          (count - (size + chinese_word) - 1) cs (omega arith),
                    ))
          ]
    ]

take-append_same :
    (xs ys zs : List ℕ) → take (length (xs ++ ys)) (xs ++ zs) ≡ xs ++ take (length ys) zs
take-append_same [] ys zs = refl
take-append_same (x ∷ xs) ys zs = ap (◌∷◌ x) (take-append_same xs ys zs)

-- What has room is a beginning of the text.
encode-fitting :
    (room : ℕ) (cs : List Character)
    → take (length (encode (fitting room cs))) (encode cs) ≡ encode (fitting room cs)
unfolding fitting encode
encode-fitting room [] = refl
encode-fitting room (c ∷ cs) = elim (Bool-cases (ltb room (width c))) [
  | inl e ↦ rw e refl
  | inr e ↦ rw e (
      take-append_same (bytes_of c) (encode (fitting (room - width c) cs)) (encode cs)
      ∙ ap (λ t. bytes_of c ++ t) (encode-fitting (room - width c) cs))
]

-- getWordChineseDouble takes the characters from the front of a text of whole characters as long as
-- there is room for them, and what it gives is not wider than `count`, where a character of several
-- bytes has a width of 2 and the others of 1.
pub get_word_chinese_double-encode :
    (count : ℕ) (cs : List Character)
    → (get_word_chinese_double (encode cs) count ≡ encode (fitting count cs))
      × (total_width (fitting count cs) ≤ count)
unfolding get_word_chinese_double
get_word_chinese_double-encode count cs = (
  ap (λ (n : ℕ). take n (encode cs))
        (word_pos-encode (length (encode cs)) count 0 0 cs (length-encode cs) (omega arith))
      ∙ ap (λ (r : ℕ). take (length (encode (fitting r cs))) (encode cs)) {x = count - (0 + 0)}
          {y = count} (omega arith)
      ∙ encode-fitting count cs,
  fitting_width count cs,
)
