-- ===== src/Json/Sample.antt =====
-- Values that stand in for jsoncpp's where concrete ones are asked for: a text, an entry with the members of a
-- mode, and an array of entries.
use cdroid_demo.Common.{
  ℕ, refl, List, [], ◌∷◌, Option, none, some, if◌then◌else◌, pos, map, All, arith,
}
use cdroid_demo.ConfMgr.{ModeData, codes, std_to_string_int}
use cdroid_demo.Pages.{same_text}
use cdroid_demo.Json.{Access}
use cdroid_demo.Json.Modes.{Holds, HoldsAll, HasInts}
use cdroid_demo.Json.Restart.{Store, IsStored}

pub data Value : Type 0 where
  text : (t : List ℕ) → Value
  entry : (m : ModeData) → Value
  array : (ms : List ModeData) → Value

abbrev pub entry_member : ModeData → List ℕ → Option Value
entry_member m key =
    if same_text key (codes "dataPos")
    then some (text (std_to_string_int (pos m.data_pos)))
    else if same_text key (codes "chuShuiLiang")
    then some (text (std_to_string_int m.chu_shui_liang))
    else if same_text key (codes "canDelete")
    then some (text (std_to_string_int (pos m.can_delete)))
    else if same_text key (codes "dataType")
    then some (text m.data_type)
    else if same_text key (codes "imageDir")
    then some (text m.image_dir)
    else if same_text key (codes "modeName")
    then some (text m.mode_name)
    else if same_text key (codes "temperature")
    then some (text m.temperature)
    else none

abbrev pub value_member : Value → List ℕ → Option Value
value_member (text t) key = none
value_member (entry m) key = entry_member m key
value_member (array ms) key = none

abbrev pub value_string : Value → Option (List ℕ)
value_string (text t) = some t
value_string (entry m) = none
value_string (array ms) = none

abbrev pub values : Access Value
values = record {
  member = value_member;
  as_int = λ v. none;
  as_string = value_string;
  as_bool = λ v. none;
}

abbrev pub value_entries : Value → List Value
value_entries (text t) = []
value_entries (entry m) = []
value_entries (array ms) = map entry ms

abbrev pub print_value : Value → List ℕ
print_value v = 1 ∷ []

-- jsoncpp for one value.
abbrev pub sample_store : Value → Store Value
sample_store root = record {
  access = values;
  entries = value_entries;
  parse_text = λ t. some root;
  write_text = print_value;
  left_over = text [];
  local = text [];
}

pub entry-Holds : (m : ModeData) → Holds values (entry m) m
unfolding same_text
entry-Holds m = (
  (text (std_to_string_int (pos m.data_pos)), refl, refl, refl),
  (text (std_to_string_int m.chu_shui_liang), refl, refl, refl),
  (text (std_to_string_int (pos m.can_delete)), refl, refl, refl),
  (text m.data_type, refl, refl, refl),
  (text m.image_dir, refl, refl, refl),
  (text m.mode_name, refl, refl, refl),
  (text m.temperature, refl, refl, refl),
)

pub entries-HoldsAll : (ms : List ModeData) → All HasInts ms → HoldsAll values (map entry ms) ms
entries-HoldsAll [] h = tt
entries-HoldsAll (m ∷ ms) h = (entry-Holds m, h.0, entries-HoldsAll ms h.1)

-- What the stand-in keeps of modes with numbers in the range of an int.
pub sample-IsStored :
    (ms : List ModeData) → All HasInts ms → IsStored (sample_store (array ms)) ms (array ms) 10
sample-IsStored ms h = record {
  text = refl;
  printed = refl;
  fits = omega arith;
  holds = entries-HoldsAll ms h;
}
