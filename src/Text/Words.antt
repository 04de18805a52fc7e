-- ===== src/Text/Words.antt =====
-- Text as a list of characters: what the functions on words do to it.
use cdroid_demo.Common.{
  ℕ, zero, suc, ◌+◌, ◌≤◌, ◌<◌, ◌≡◌, refl, ap, ap₂, ◌∙◌, List, [], ◌∷◌, ◌++◌, false, take, drop,
  length, length-append, arith, if◌then◌else◌,
}
use cdroid_demo.Text.{
  num_bytes, is_multi, word_len, word_len_from, get_chinese_word_len, chinese_len_from, get_word,
  dec_last_word, dec_last_from, is_end,
}

-- A character: its first byte, and as many as that announces.
pub record Character : Type 0 where
  pub first : ℕ
  pub following : List ℕ
  pub whole : length following ≡ num_bytes first

abbrev pub bytes_of : Character → List ℕ
bytes_of c = c.first ∷ c.following

-- The bytes of a text.
unfoldable pub encode : List Character → List ℕ
encode [] = []
encode (c ∷ cs) = bytes_of c ++ encode cs

pub multi_count : List Character → ℕ
multi_count [] = 0
multi_count (c ∷ cs) = (if is_multi c.first then 1 else 0) + multi_count cs

word_len_skip :
    (xs ys : List ℕ) (n : ℕ) → length xs ≡ n → word_len_from n (xs ++ ys) ≡ word_len_from 0 ys
unfolding word_len_from
word_len_skip [] ys zero h = refl
word_len_skip [] ys (suc n) h = absurd (omega arith)
word_len_skip (x ∷ xs) ys zero h = absurd (omega arith)
word_len_skip (x ∷ xs) ys (suc n) h = word_len_skip xs ys n (omega arith)

chinese_len_skip :
    (xs ys : List ℕ) (n : ℕ) → length xs ≡ n → chinese_len_from n (xs ++ ys) ≡ chinese_len_from 0 ys
unfolding chinese_len_from
chinese_len_skip [] ys zero h = refl
chinese_len_skip [] ys (suc n) h = absurd (omega arith)
chinese_len_skip (x ∷ xs) ys zero h = absurd (omega arith)
chinese_len_skip (x ∷ xs) ys (suc n) h = chinese_len_skip xs ys n (omega arith)

take_following : (xs ys : List ℕ) (n : ℕ) → length xs ≡ n → take n (xs ++ ys) ≡ xs
take_following [] ys zero h = refl
take_following [] ys (suc n) h = absurd (omega arith)
take_following (x ∷ xs) ys zero h = absurd (omega arith)
take_following (x ∷ xs) ys (suc n) h = ap (◌∷◌ x) (take_following xs ys n (omega arith))

pub drop_following : (xs ys : List ℕ) (n : ℕ) → length xs ≡ n → drop n (xs ++ ys) ≡ ys
drop_following [] ys zero h = refl
drop_following [] ys (suc n) h = absurd (omega arith)
drop_following (x ∷ xs) ys zero h = absurd (omega arith)
drop_following (x ∷ xs) ys (suc n) h = drop_following xs ys n (omega arith)

-- wordLen counts the characters of a text, and getChineseWordLen those of several bytes.
pub word_len-encode :
    (cs : List Character)
    → (word_len (encode cs) ≡ length cs) × (get_chinese_word_len (encode cs) ≡ multi_count cs)
unfolding word_len word_len_from get_chinese_word_len chinese_len_from encode multi_count
word_len-encode [] = (refl, refl)
word_len-encode (c ∷ cs) = (
  ap suc
      (word_len_skip c.following (encode cs) (num_bytes c.first) c.whole ∙ (word_len-encode cs).0),
  ap (λ n. (if is_multi c.first then 1 else 0) + n)
      (chinese_len_skip c.following (encode cs) (num_bytes c.first) c.whole
        ∙ (word_len-encode cs).1),
)

-- getWord gives the first `count` characters, all where there are no more.
pub get_word-encode :
    (count : ℕ) (cs : List Character) → get_word count (encode cs) ≡ encode (take count cs)
unfolding get_word encode
get_word-encode zero cs = refl
get_word-encode (suc count) [] = refl
get_word-encode (suc count) (c ∷ cs) = ap (◌∷◌ c.first) (
    ap₂ (λ xs ys. xs ++ get_word count ys)
      (take_following c.following (encode cs) (num_bytes c.first) c.whole)
      (drop_following c.following (encode cs) (num_bytes c.first) c.whole)
    ∙ ap (λ ys. c.following ++ ys) (get_word-encode count cs))

snoc-is_end : (cs : List Character) (c : Character) → is_end (encode (cs ++ c ∷ [])) ≡ false
unfolding encode
snoc-is_end [] c = refl
snoc-is_end (d ∷ cs) c = refl

-- A character has a byte at least.
pub length-encode : (cs : List Character) → length cs ≤ length (encode cs)
unfolding encode
length-encode [] = omega arith
length-encode (c ∷ cs) = omega (arith, length-append (bytes_of c) (encode cs), length-encode cs)

dec_last_from-encode :
    (fuel : ℕ) (cs : List Character) (c : Character)
    → length cs < fuel
    → dec_last_from fuel (encode (cs ++ c ∷ [])) ≡ encode cs
unfolding dec_last_from encode
dec_last_from-encode zero cs c h = absurd (omega arith)
dec_last_from-encode (suc fuel) [] c h =
    rw (drop_following c.following [] (num_bytes c.first) c.whole)
dec_last_from-encode (suc fuel) (d ∷ cs) c h =
    rw (drop_following d.following (encode (cs ++ c ∷ [])) (num_bytes d.first) d.whole) (
      rw (snoc-is_end cs c) (
        ap₂ (λ xs ys. d.first ∷ (xs ++ ys))
          (take_following d.following (encode (cs ++ c ∷ [])) (num_bytes d.first) d.whole)
          (dec_last_from-encode fuel cs c (omega arith))))

-- decLastWord takes the last character away, however many bytes it has.
pub dec_last_word-encode :
    (cs : List Character) (c : Character) → dec_last_word (encode (cs ++ c ∷ [])) ≡ encode cs
unfolding dec_last_word
dec_last_word-encode cs c =
    dec_last_from-encode (length (encode (cs ++ c ∷ []))) cs c
      (omega (arith, length-encode (cs ++ c ∷ []), length-append cs (c ∷ [])))
