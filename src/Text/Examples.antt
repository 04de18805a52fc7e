-- ===== src/Text/Examples.antt =====
-- The functions of src/common/comm_func.cc on concrete texts, and their properties.
use cdroid_demo.Common.{◌≤◌, drop, pos, ◌/◌, ◌%◌, ℕ, ◌≡◌, refl, List, [], ◌∷◌, All, some, arith}
use cdroid_demo.Text.{
  num_bytes, to_upper, string_split, check_version, newer, find_char, split_loop,
}
use cdroid_demo.ConfMgr.{std_to_string_int, std_to_string, decimal}
use cdroid_demo.Text.Releases.{get_mcu_version, split_version, split_version-get_mcu_version}
use cdroid_demo.Text.Widths.{
  word_pos, get_word_chinese_double, fitting, total_width, get_word_chinese_double-encode,
}
use cdroid_demo.Text.Padding.{pad_loop, fill_length_num}
use cdroid_demo.Text.Replacing.{
  is_prefix, find_text, find_from, replace_at, replace_loop, replace_all, replaced, replace_all_lem,
  stristr, stristr_lem,
}
use cdroid_demo.Text.Words.{Character, encode}
use cdroid_demo.Text.Splitting.{IsPiece, joined, without_char, string_split-Pieces}

-- "a", and a character of three bytes.
abbrev letter : Character
unfolding num_bytes
letter = record { first = 0x61; following = []; whole = refl }

abbrev chinese : Character
unfolding num_bytes
chinese = record { first = 0xe6; following = 0xb0 ∷ 0xb4 ∷ []; whole = refl }

abbrev word : List Character
word = letter ∷ chinese ∷ letter ∷ []

-- "1,,23".
abbrev list : List ℕ
list = 49 ∷ 44 ∷ 44 ∷ 50 ∷ 51 ∷ []

split_list : string_split list 44 ≡ (49 ∷ []) ∷ (50 ∷ 51 ∷ []) ∷ []
unfolding string_split split_loop find_char
split_list = refl

string_split-Pieces_example :
    All (IsPiece 44) (string_split list 44) × (joined (string_split list 44) ≡ without_char 44 list)
string_split-Pieces_example = string_split-Pieces list 44

abbrev next_version : List ℕ
next_version = 1 ∷ 2 ∷ 0 ∷ []

abbrev last_version : List ℕ
last_version = 1 ∷ 1 ∷ 9 ∷ []

newer_versions :
    (check_version next_version last_version ≡ newer)
    × (check_version last_version (1 ∷ []) ≡ newer)
unfolding check_version
newer_versions = (refl, refl)

-- "aaa" with "aa" in the place of "a": the new text is not looked at again.
replace_all_example :
    replace_all (97 ∷ 97 ∷ 97 ∷ []) (97 ∷ []) (97 ∷ 97 ∷ [])
    ≡ some (97 ∷ 97 ∷ 97 ∷ 97 ∷ 97 ∷ 97 ∷ [])
unfolding replace_all replace_loop replace_at find_from find_text is_prefix
replace_all_example = refl

replace_all_lem_example :
    replace_all (97 ∷ 98 ∷ 97 ∷ []) (97 ∷ []) (99 ∷ 100 ∷ [])
    ≡ some (replaced 4 (97 ∷ 98 ∷ 97 ∷ []) (97 ∷ []) (99 ∷ 100 ∷ []))
replace_all_lem_example =
    replace_all_lem (97 ∷ 98 ∷ 97 ∷ []) (97 ∷ []) (99 ∷ 100 ∷ []) (omega arith)

stristr_lem_example :
    stristr (120 ∷ 65 ∷ 98 ∷ []) (97 ∷ 66 ∷ [])
    ≡ find_text (to_upper (97 ∷ 66 ∷ [])) (to_upper (120 ∷ 65 ∷ 98 ∷ []))
stristr_lem_example = stristr_lem (120 ∷ 65 ∷ 98 ∷ []) (97 ∷ 66 ∷ [])

-- 234 is V1.2.3.4.
split_version-get_mcu_version_example :
    split_version (drop 7 (get_mcu_version 234))
    ≡ some (pos 1 ∷ pos (234 / 100) ∷ pos (234 % 100 / 10) ∷ pos (234 % 10) ∷ [])
split_version-get_mcu_version_example = split_version-get_mcu_version 234 (omega arith)

get_word_chinese_double-encode_example :
    (get_word_chinese_double (encode word) 3 ≡ encode (fitting 3 word))
    × (total_width (fitting 3 word) ≤ 3)
get_word_chinese_double-encode_example = get_word_chinese_double-encode 3 word

-- A text that is wider than the room ends before the character that has none.
fits_two : get_word_chinese_double (encode (chinese ∷ chinese ∷ [])) 3 ≡ encode (chinese ∷ [])
unfolding get_word_chinese_double word_pos encode num_bytes
fits_two = refl

padded_number : fill_length_num (pos 7) 3 (48 ∷ []) ≡ some (48 ∷ 48 ∷ 55 ∷ [])
unfolding fill_length_num pad_loop std_to_string_int std_to_string decimal
padded_number = refl
