-- ===== src/Text/Padding.antt =====
-- fillLength of a number, isWhitespace and isToday of src/common/comm_func.cc.
use cdroid_demo.Common.{
  ℕ, zero, suc, ◌+◌, ◌≤◌, ◌<◌, ◌≡◌, refl, ◌⊎◌, inl, inr, Bool, true, ◌&&◌, List, [], ◌∷◌, ◌++◌,
  Option, none, some, arith, ltb, leb, length, length-append, if◌then◌else◌, Bool-cases, ℤ,
}
use cdroid_demo.ConfMgr.{std_to_string_int}
use cdroid_demo.Pages.{is_space}

-- The loop that puts `pre` in front; `none` when the fuel runs out.
unfoldable pub pad_loop : ℕ → ℕ → List ℕ → List ℕ → List ℕ → Option (List ℕ)
pad_loop zero len num_string pre ret = none
pad_loop (suc fuel) len num_string pre ret =
    let again = pad_loop fuel len num_string pre (ret ++ pre) in
    if ltb (length num_string + length ret) len then again else some (ret ++ num_string)

-- fillLength(num, len, pre): a round adds a byte at least, if `pre` is not empty.
unfoldable pub fill_length_num : ℤ → ℕ → List ℕ → Option (List ℕ)
unfolding pad_loop
fill_length_num num len pre = pad_loop (suc len) len (std_to_string_int num) pre []

unfoldable pub is_whitespace : List ℕ → Bool
is_whitespace [] = true
is_whitespace (c ∷ cs) = is_space c && is_whitespace cs

-- DAY_SECONDS.
abbrev pub day_seconds : ℕ
day_seconds = 86400

-- isToday, where getZeroTime gives `zero_sec`.
unfoldable pub is_today : ℕ → ℕ → Bool
is_today zero_sec sec = leb zero_sec sec && ltb sec (zero_sec + day_seconds)

-- Long enough, and no longer than it has to be.
abbrev pub IsPadded : ℕ → ℕ → List ℕ → List ℕ → Type 0
IsPadded len least pre q = (len ≤ length q) × ((length q ≤ least) ⊎ (length q < len + length pre))

pad_loop-IsPadded :
    (fuel len : ℕ) (num_string pre ret : List ℕ)
    → 0 < length pre
    → 0 < fuel
    → len < fuel + length ret
    → (length ret ≡ 0) ⊎ (length num_string + length ret < len + length pre)
    → (front : List ℕ) × (pad_loop fuel len num_string pre ret ≡ some (front ++ num_string))
      × IsPadded len (length num_string) pre (front ++ num_string)
unfolding pad_loop
pad_loop-IsPadded zero len num_string pre ret p g f h = absurd (omega arith)
pad_loop-IsPadded (suc fuel) len num_string pre ret p g f h =
    elim (Bool-cases (ltb (length num_string + length ret) len)) [
      | inl e ↦
          let (front, q, r) =
            pad_loop-IsPadded fuel len num_string pre (ret ++ pre) p (ground (arith, e))
              (omega (arith, length-append ret pre))
              (inr (ground (arith, e, length-append ret pre))) in
          (front, rw (pad_loop, e) q, r)
      | inr e ↦ (
        ret,
        rw (pad_loop, e) refl,
        (
          ground (arith, e, length-append ret num_string),
          elim h [
            | inl none_yet ↦ inl (omega (arith, length-append ret num_string))
            | inr some_yet ↦ inr (omega (arith, length-append ret num_string))
          ],
        ),
      )
    ]

-- Padding a number with a text that is not empty ends; the number stands behind what was put in front,
-- the result has `len` bytes at least, and unless the number alone is as long, fewer than `len` and those
-- of the text together.
pub fill_length_num_lem :
    (num : ℤ) (len : ℕ) (pre : List ℕ)
    → 0 < length pre
    → (front : List ℕ) × (fill_length_num num len pre ≡ some (front ++ std_to_string_int num))
      × IsPadded len (length (std_to_string_int num)) pre (front ++ std_to_string_int num)
unfolding fill_length_num
fill_length_num_lem num len pre p =
    pad_loop-IsPadded (suc len) len (std_to_string_int num) pre [] p (omega arith) (omega arith)
      (inl refl)
