-- ===== src/Text.antt =====
-- src/common/comm_func.cc: the functions on text. Text is the list of its bytes before the closing
-- zero. Where a text ends inside a character of several bytes, the code reads on behind the zero;
-- here the character ends with the text; texts of whole characters never get there.
pub mod Words
pub mod Splitting
pub mod Versions
pub mod Letters
pub mod Replacing
pub mod Releases
pub mod Widths
pub mod Padding
mod Examples
use cdroid_demo.Common.{
  ℕ, zero, suc, ◌+◌, ◌-◌, Bool, true, false, ◌&&◌, ◌||◌, not, List, [], ◌∷◌, ◌++◌, Option, none,
  some, ltb, leb, ◌==◌, if◌then◌else◌, take, drop, length, replicate, map, bit_and,
}

pub is_numric : List ℕ → Bool
is_numric [] = true
is_numric (c ∷ cs) = let rest = is_numric cs in if ltb c 48 || ltb 57 c then false else rest

-- fillLength(str, len, end).
pub fill_length : List ℕ → ℕ → ℕ → List ℕ
fill_length str len end =
    if ltb (length str) len then str ++ replicate (len - length str) end else str

pub upper : ℕ → ℕ
upper c = if leb 97 c && leb c 122 then c - 32 else c

unfoldable pub to_upper : List ℕ → List ℕ
to_upper letter = map upper letter

pub lower : ℕ → ℕ
lower c = if leb 65 c && leb c 90 then c + 32 else c

pub to_lower : List ℕ → List ℕ
to_lower letter = map lower letter

-- numBytes: how many bytes follow the first one of a character. Bytes that start none have none.
pub num_bytes : ℕ → ℕ
num_bytes c =
    if bit_and c 0x80 == 0
    then 0
    else if bit_and c 0xe0 == 0xc0
    then 1
    else if bit_and c 0xf0 == 0xe0
    then 2
    else if bit_and c 0xf8 == 0xf0
    then 3
    else 0

-- *pos & 0x80.
abbrev pub is_multi : ℕ → Bool
is_multi c = not (bit_and c 0x80 == 0)

-- The loop of wordLen with `skip` bytes of the character still to come.
pub word_len_from : ℕ → List ℕ → ℕ
word_len_from skip [] = 0
word_len_from zero (c ∷ cs) = suc (word_len_from (num_bytes c) cs)
word_len_from (suc skip) (c ∷ cs) = word_len_from skip cs

pub word_len : List ℕ → ℕ
word_len buffer = word_len_from 0 buffer

pub chinese_len_from : ℕ → List ℕ → ℕ
chinese_len_from skip [] = 0
chinese_len_from zero (c ∷ cs) = (if is_multi c then 1 else 0) + chinese_len_from (num_bytes c) cs
chinese_len_from (suc skip) (c ∷ cs) = chinese_len_from skip cs

pub get_chinese_word_len : List ℕ → ℕ
get_chinese_word_len buffer = chinese_len_from 0 buffer

-- The first `count` characters.
pub get_word : ℕ → List ℕ → List ℕ
get_word zero buffer = []
get_word (suc count) [] = []
get_word (suc count) (c ∷ cs) =
    c ∷ (take (num_bytes c) cs ++ get_word count (drop (num_bytes c) cs))

abbrev pub is_end : List ℕ → Bool
is_end [] = true
is_end (c ∷ cs) = false

-- All but the last character; a round takes a byte at least.
pub dec_last_from : ℕ → List ℕ → List ℕ
dec_last_from zero buffer = []
dec_last_from (suc fuel) [] = []
dec_last_from (suc fuel) (c ∷ cs) =
    let rest = dec_last_from fuel (drop (num_bytes c) cs) in
    if is_end (drop (num_bytes c) cs) then [] else c ∷ (take (num_bytes c) cs ++ rest)

pub dec_last_word : List ℕ → List ℕ
dec_last_word buffer = dec_last_from (length buffer) buffer

-- str.find(ch): what stands before it and behind it.
pub find_char : ℕ → List ℕ → Option (List ℕ × List ℕ)
find_char ch [] = none
find_char ch (c ∷ cs) =
    let rest : Option (List ℕ × List ℕ) = elim (find_char ch cs) [
      | none ↦ none
      | some (before, behind) ↦ some (c ∷ before, behind)
    ] in
    if c == ch then some ([], cs) else rest

-- if (offset < pos) out.push_back(...).
abbrev pub push_piece : List ℕ → List (List ℕ) → List (List ℕ)
push_piece [] out = out
push_piece (c ∷ cs) out = (c ∷ cs) ∷ out

-- A round passes a separator at least.
pub split_loop : ℕ → ℕ → List ℕ → List (List ℕ)
split_loop zero ch str = []
split_loop (suc fuel) ch str = elim (find_char ch str) [
  | none ↦ push_piece str []
  | some (before, behind) ↦ push_piece before (split_loop fuel ch behind)
]

-- stringSplit with an empty `out`.
pub string_split : List ℕ → ℕ → List (List ℕ)
string_split str ch = split_loop (suc (length str)) ch str

pub data Newer : Type 0 where
  -- -1, 0 and 1.
  older same_version newer : Newer

-- checkVersion on the parts of both versions: the first that differ decide, else the lengths.
pub check_version : List ℕ → List ℕ → Newer
check_version [] [] = same_version
check_version [] (l ∷ local) = older
check_version (o ∷ ota) [] = newer
check_version (o ∷ ota) (l ∷ local) =
    let rest = check_version ota local in if ltb o l then older else if ltb l o then newer else rest
