-- ===== src/ConfMgr.antt =====
-- src/data/conf_mgr.cc and src/windows/ModeData.h: CConfMgr keeps the list of the water modes and
-- makes a text of it after each change, which is to be saved. `init` gets the entries that Json/Modes.antt reads from the
-- file. Text is a list of character codes. Every position is in the list, as the pages that call
-- these methods see to; outside of it the code is undefined, and nothing changes here.
pub mod Numbering
mod Examples
use Prim.Native.Char.{code}
use Prim.Native.String.{String}
use cdroid_demo.Common.{
  ℕ, zero, suc, ◌+◌, ◌-◌, ◌/◌, ◌%◌, Bool, true, false, List, [], ◌∷◌, ◌++◌, Option, none, some, ltb,
  leb, length, set, get_or, if◌then◌else◌, ℤ, pos, negsuc,
}

pub record ModeData : Type 0 where
  pub data_pos : ℕ
  pub chu_shui_liang : ℤ
  pub can_delete : ℕ
  pub data_type : List ℕ
  pub mode_name : List ℕ
  pub temperature : List ℕ
  pub image_dir : List ℕ

abbrev pub codes : String → List ℕ
codes String.[] = []
codes (String.◌∷◌ c s) = code c ∷ codes s

-- std::to_string of a number that is not negative; a digit a round.
unfoldable pub decimal : ℕ → ℕ → List ℕ
decimal zero n = []
decimal (suc fuel) n =
    let rest = decimal fuel (n / 10) in
    if ltb n 10 then (48 + n) ∷ [] else rest ++ (48 + n % 10) ∷ []

unfoldable pub std_to_string : ℕ → List ℕ
std_to_string n = decimal (suc n) n

-- std::to_string of an int: 45 is the sign.
unfoldable pub std_to_string_int : ℤ → List ℕ
std_to_string_int (pos n) = std_to_string n
std_to_string_int (negsuc n) = 45 ∷ std_to_string (suc n)

pub to_string : ModeData → List ℕ
to_string m =
    codes "{\"dataPos\":\""
    ++ std_to_string m.data_pos
    ++ codes "\",\"chuShuiLiang\":\""
    ++ std_to_string_int m.chu_shui_liang
    ++ codes "\",\"canDelete\":\""
    ++ std_to_string m.can_delete
    ++ codes "\",\"dataType\":\""
    ++ m.data_type
    ++ codes "\",\"imageDir\":\""
    ++ m.image_dir
    ++ codes "\",\"modeName\":\""
    ++ m.mode_name
    ++ codes "\",\"temperature\":\""
    ++ m.temperature
    ++ codes "\"}"

-- The text of the loops over modeDataList, without the brackets.
pub mode_texts : List ModeData → List ℕ
mode_texts [] = []
mode_texts (m ∷ []) = to_string m
mode_texts (m ∷ n ∷ ms) = to_string m ++ codes "," ++ mode_texts (n ∷ ms)

unfoldable pub mode_data_json_array : List ModeData → List ℕ
mode_data_json_array ms = codes "[" ++ mode_texts ms ++ codes "]"

-- `text_to_save` is the text that was last given to convertStringToJson; what saveLocalJson makes of its
-- value is save_modes of Json/Modes.antt.
pub record ConfMgr : Type 0 where
  pub mode_data_list : List ModeData
  pub text_to_save : Option (List ℕ)

unfoldable pub save : List ModeData → ConfMgr
save ms = record { mode_data_list = ms; text_to_save = some (mode_data_json_array ms) }

-- compareByPos.
pub compare_by_pos : ModeData → ModeData → Bool
compare_by_pos a b = ltb a.data_pos b.data_pos

-- std::sort by it; which of two modes at the same position comes first is open there.
pub insert_by_pos : ModeData → List ModeData → List ModeData
insert_by_pos m [] = m ∷ []
insert_by_pos m (n ∷ ms) =
    let rest = insert_by_pos m ms in if compare_by_pos n m then n ∷ rest else m ∷ n ∷ ms

pub sort_by_pos : List ModeData → List ModeData
sort_by_pos [] = []
sort_by_pos (m ∷ ms) = insert_by_pos m (sort_by_pos ms)

unfoldable pub init : List ModeData → ConfMgr
init entries = record { mode_data_list = sort_by_pos entries; text_to_save = none }

-- `none` is the position -1.
unfoldable pub update_mode_data_by_pos : ConfMgr → ModeData → Option ℕ → ConfMgr
update_mode_data_by_pos c m none =
    save (c.mode_data_list ++ record m { data_pos = length c.mode_data_list + 1 } ∷ [])
update_mode_data_by_pos c m (some position) = save (set c.mode_data_list position m)

unfoldable pub erase_at : List ModeData → ℕ → List ModeData
erase_at [] i = []
erase_at (m ∷ ms) zero = ms
erase_at (m ∷ ms) (suc i) = m ∷ erase_at ms i

-- if (i >= position) modeDataList[i].dataPos -= 1, from `i` on. Positions start at 1.
unfoldable pub renumber_from : ℕ → ℕ → List ModeData → List ModeData
renumber_from i position [] = []
renumber_from i position (m ∷ ms) =
    (if leb position i then record m { data_pos = m.data_pos - 1 } else m)
    ∷ renumber_from (i + 1) position ms

unfoldable pub delete_mode_data : ConfMgr → ℕ → ConfMgr
delete_mode_data c position = save (renumber_from 0 position (erase_at c.mode_data_list position))

abbrev blank : ModeData
blank = record {
  data_pos = 0;
  chu_shui_liang = pos 0;
  can_delete = 0;
  data_type = [];
  mode_name = [];
  temperature = [];
  image_dir = [];
}

-- modeDataList[i].
abbrev pub mode_at : List ModeData → ℕ → ModeData
mode_at ms i = get_or ms i blank

-- std::swap(ms[i], ms[j]).
pub swap_modes : List ModeData → ℕ → ℕ → List ModeData
swap_modes ms i j = set (set ms i (mode_at ms j)) j (mode_at ms i)

-- std::swap(ms[i].dataPos, ms[j].dataPos).
pub swap_positions : List ModeData → ℕ → ℕ → List ModeData
swap_positions ms i j =
    let first : ModeData = mode_at ms i in
    let written = set ms i (record first { data_pos = (mode_at ms j).data_pos }) in
    let second : ModeData = mode_at written j in
    set written j (record second { data_pos = first.data_pos })

unfoldable pub moved_mode : ConfMgr → ℕ → ℕ → ConfMgr
moved_mode c from_pos to_pos =
    save (swap_positions (swap_modes c.mode_data_list from_pos to_pos) from_pos to_pos)
