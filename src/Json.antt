-- ===== src/Json.antt =====
-- src/data/json_func.cc: reading and writing a file of JSON, and the values in it with their defaults.
-- The values, the parser and the printer are jsoncpp's: `Value`, `parse` and `write`, and what isInt
-- with asInt and their likes answer, are arguments. A path is a file, a directory or nothing.
pub mod Files
pub mod Numbers
pub mod Modes
pub mod Restart
pub mod Sample
mod Examples
use cdroid_demo.Common.{
  ℕ, zero, suc, ◌+◌, ◌-◌, ◌%◌, ◌^◌, Bool, true, false, List, [], ◌∷◌, ◌++◌, Option, none, some, ltb,
  ◌==◌, if◌then◌else◌, length, take, drop, ℤ, pos, negsuc, ◌-ℤ◌,
}
use cdroid_demo.ConfMgr.{codes}
use cdroid_demo.Pages.{read_digits, drop_space, same_text, to_int}

pub data Node : Type 0 where
  missing : Node
  file : (content : List ℕ) → Node
  directory : Node

-- char data[1024].
abbrev pub data_size : ℕ
data_size = 1024

-- The loop of reads until the end of the file, which a read that gets less than it asks for has seen.
unfoldable pub read_chunks : ℕ → List ℕ → List ℕ → List ℕ
read_chunks zero rest content = content
read_chunks (suc fuel) rest content =
    let more = read_chunks fuel (drop data_size rest) (content ++ take data_size rest) in
    if ltb (length (take data_size rest)) data_size then content ++ take data_size rest else more

-- loadLocalJson with convertStringToJson; `opens` says whether the file can be opened. A round takes a
-- byte at least or ends the loop.
unfoldable pub load_local_json :
    {Value : Type 0} → (List ℕ → Option Value) → Bool → Node → Option Value
unfolding read_chunks
load_local_json parse opens missing = none
load_local_json parse opens directory = none
load_local_json parse opens (file content) =
    if opens then parse (read_chunks (suc (length content)) content []) else none

-- What is there after a file of the name was removed.
unfoldable pub removed : Node → Node
removed missing = missing
removed (file content) = missing
removed directory = directory

-- saveLocalJson with convertJsonToString; `opens` says whether the new file can be opened, and `room` how
-- many bytes of the text get into it, which the code does not look at.
unfoldable pub save_local_json :
    {Value : Type 0} → (Value → List ℕ) → Bool → ℕ → Node → Value → Node × Bool
unfolding removed
save_local_json write opens room directory root = (directory, false)
save_local_json write opens room missing root =
    if opens then (file (take room (write root)), true) else (missing, false)
save_local_json write opens room (file content) root =
    if opens then (file (take room (write root)), true) else (removed (file content), false)

-- What the accessors of a value answer: isMember with operator[], and the tests with their results.
pub record Access (Value : Type 0) : Type 0 where
  pub member : Value → List ℕ → Option Value
  pub as_int : Value → Option ℤ
  pub as_string : Value → Option (List ℕ)
  pub as_bool : Value → Option Bool

-- atoll: blanks, a sign, and the digits; 0 without digits. Numbers beyond a long long are left out.
unfoldable pub atoll_sign : List ℕ → ℤ
unfolding read_digits
atoll_sign [] = pos 0
atoll_sign (c ∷ cs) =
    if c == 45
    then pos 0 -ℤ pos (read_digits 0 cs)
    else if c == 43
    then pos (read_digits 0 cs)
    else pos (read_digits 0 (c ∷ cs))

unfoldable pub atoll : List ℕ → ℤ
unfolding atoll_sign drop_space
atoll text = atoll_sign (drop_space text)

module _ {Value : Type 0} (access : Access Value) where
  unfoldable pub json_to_int : Value → ℤ → ℤ
  unfolding atoll to_int
  json_to_int value default_value = elim (access.as_int value) [
    | some n ↦ n
    | none ↦ elim (access.as_string value) [
      | some text ↦ to_int (atoll text)
      | none ↦ default_value
    ]
  ]

  unfoldable pub json_to_string : Value → List ℕ → List ℕ
  json_to_string value default_value = elim (access.as_string value) [
    | some text ↦ text
    | none ↦ default_value
  ]

  -- An int is true where it is not 0, and a text where it is "true".
  unfoldable pub json_to_bool : Value → Bool → Bool
  json_to_bool value default_value = elim (access.as_bool value) [
    | some b ↦ b
    | none ↦ elim (access.as_int value) [
      | some (pos n) ↦ ltb 0 n
      | some (negsuc n) ↦ true
      | none ↦ elim (access.as_string value) [
        | some text ↦ same_text text (codes "true")
        | none ↦ default_value
      ]
    ]
  ]

  unfoldable pub get_json_int : Value → List ℕ → ℤ → ℤ
  unfolding json_to_int
  get_json_int root key default_value = elim (access.member root key) [
    | none ↦ default_value
    | some value ↦ json_to_int value default_value
  ]

  unfoldable pub get_json_string : Value → List ℕ → List ℕ → List ℕ
  unfolding json_to_string
  get_json_string root key default_value = elim (access.member root key) [
    | none ↦ default_value
    | some value ↦ json_to_string value default_value
  ]

  unfoldable pub get_json_bool : Value → List ℕ → Bool → Bool
  unfolding json_to_bool
  get_json_bool root key default_value = elim (access.member root key) [
    | none ↦ default_value
    | some value ↦ json_to_bool value default_value
  ]
