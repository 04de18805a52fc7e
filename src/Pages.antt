-- ===== src/Pages.antt =====
-- src/windows: what the pages keep and show. page_water_mode_modify.cc edits a mode,
-- page_water_mode.cc and RecyclerViewAdapter.cc list the modes, page_steam_barbecue.cc and
-- page_home.cc lead to them. Texts are lists of character codes, the sign of degrees among them.
-- Layouts, margins, icons and sounds are the framework's.
pub mod Numerals
pub mod Buttons
pub mod Pictures
mod Examples
use cdroid_demo.Common.{
  ℕ, zero, suc, ◌+◌, ◌-◌, ◌*◌, ◌%◌, ◌^◌, Bool, true, false, ◌&&◌, ◌||◌, not, List, [], ◌∷◌, ◌++◌,
  Option, none, some, ltb, leb, ◌==◌, if◌then◌else◌, ℤ, pos, negsuc, ◌+ℤ◌, ◌-ℤ◌, length,
}
use cdroid_demo.ConfMgr.{
  ConfMgr, ModeData, codes, std_to_string, std_to_string_int, mode_at, update_mode_data_by_pos,
}

abbrev pub is_digit : ℕ → Bool
is_digit c = leb 48 c && leb c 57

-- isspace: the blank and 9 to 13.
abbrev pub is_space : ℕ → Bool
is_space c = c == 32 || (leb 9 c && leb c 13)

unfoldable pub read_digits : ℕ → List ℕ → ℕ
read_digits acc [] = acc
read_digits acc (c ∷ cs) =
    let rest = read_digits (acc * 10 + (c - 48)) cs in if is_digit c then rest else acc

unfoldable pub drop_space : List ℕ → List ℕ
drop_space [] = []
drop_space (c ∷ cs) = let rest = drop_space cs in if is_space c then rest else c ∷ cs

abbrev pub int_max : ℕ
int_max = 2147483647

-- The digits after the sign; std::invalid_argument and std::out_of_range are `none`.
unfoldable pub stoi_digits : Bool → List ℕ → Option ℤ
unfolding read_digits
stoi_digits is_negative [] = none
stoi_digits is_negative (c ∷ cs) =
    let n = read_digits 0 (c ∷ cs) in
    if is_digit c
    then (if is_negative
        then (if leb n (int_max + 1) then some (pos 0 -ℤ pos n) else none)
        else (if leb n int_max then some (pos n) else none))
    else none

-- The sign: 45 is minus, 43 is plus.
unfoldable pub stoi_sign : List ℕ → Option ℤ
unfolding stoi_digits
stoi_sign [] = none
stoi_sign (c ∷ cs) =
    if c == 45
    then stoi_digits true cs
    else if c == 43
    then stoi_digits false cs
    else stoi_digits false (c ∷ cs)

unfoldable pub std_stoi : List ℕ → Option ℤ
unfolding stoi_sign drop_space
std_stoi text = stoi_sign (drop_space text)

unfoldable pub same_text : List ℕ → List ℕ → Bool
same_text [] [] = true
same_text [] (b ∷ bs) = false
same_text (a ∷ as_) [] = false
same_text (a ∷ as_) (b ∷ bs) = a == b && same_text as_ bs

-- The fields of PageWaterModify that a press changes; `position` is the one that the listeners of
-- Start_Page_action captured, `none` for -1. `name` is the text of display_name.
pub record WaterModify : Type 0 where
  pub tmp_modedata : ModeData
  pub tmp_if_set : ModeData
  pub display_temp : List ℕ
  pub display_chushuiliang : List ℕ
  pub display_name : List ℕ
  pub display_picture : List ℕ
  pub position : Option ℕ

-- "℃" and "mL".
abbrev pub degrees : List ℕ
degrees = 8451 ∷ []

abbrev pub millilitres : List ℕ
millilitres = codes "mL"

-- Both branches of Start_Page_action end so: the mode is copied and shown.
unfoldable pub show_mode : ModeData → Option ℕ → WaterModify
show_mode m position = record {
  tmp_modedata = m;
  tmp_if_set = m;
  display_temp = m.temperature ++ degrees;
  display_chushuiliang = std_to_string_int m.chu_shui_liang ++ millilitres;
  display_name = m.mode_name;
  display_picture = m.image_dir;
  position = position;
}

-- Start_Page_action of PAGE_WATER_MODIFY_. With -1 the access is outside of the list: undefined.
unfoldable pub start_modify : ConfMgr → ℕ → WaterModify
unfolding show_mode
start_modify c position = show_mode (mode_at c.mode_data_list position) (some position)

-- The mode that PAGE_WATER_ADD_ starts with; its name is "温开水".
unfoldable pub default_mode : ConfMgr → ModeData
default_mode c = record {
  data_pos = length c.mode_data_list;
  chu_shui_liang = pos 500;
  can_delete = 1;
  data_type = codes "addnew";
  mode_name = 28201 ∷ 24320 ∷ 27700 ∷ [];
  temperature = codes "55";
  image_dir = codes "@mipmap/pic_chushui_changwenshui";
}

unfoldable pub start_add : ConfMgr → Option ℕ → WaterModify
unfolding show_mode default_mode
start_add c position = show_mode (default_mode c) position

-- SetAddMinusButton, with the item 0 for the temperature and 1 for the water, and the mode 0 to take
-- the offset away and 1 to add it. ExtractDigits gives a text that is not used. `none` is the
-- exception of std::stoi.
pub data Item : Type 0 where
  temperature_item water_item : Item

pub data Direction : Type 0 where
  minus add : Direction

abbrev pub two32 : ℕ
two32 = 2 ^ 32

-- The int of 32 bits.
unfoldable pub int_of_bits : ℕ → ℤ
int_of_bits m = if ltb m (2 ^ 31) then pos m else pos m -ℤ pos two32

unfoldable pub to_int : ℤ → ℤ
unfolding int_of_bits
to_int (pos n) = int_of_bits (n % two32)
to_int (negsuc n) = int_of_bits (two32 - 1 - n % two32)

-- result -= offset and result += offset, in 32 bits.
unfoldable pub shift : Direction → ℤ → ℕ → ℤ
unfolding to_int
shift minus result offset = to_int (result -ℤ pos offset)
shift add result offset = to_int (result +ℤ pos offset)

unfoldable pub set_item : WaterModify → Item → ℤ → WaterModify
set_item w temperature_item result = record w {
  tmp_if_set = record (w.tmp_if_set) { temperature = std_to_string_int result };
  display_temp = std_to_string_int result ++ degrees;
}
set_item w water_item result = record w {
  tmp_if_set = record (w.tmp_if_set) { chu_shui_liang = result };
  display_chushuiliang = std_to_string_int result ++ millilitres;
}

abbrev pub item_text : WaterModify → Item → List ℕ
item_text w temperature_item = w.display_temp
item_text w water_item = w.display_chushuiliang

-- The offsets of the four buttons.
abbrev pub item_offset : Item → ℕ
item_offset temperature_item = 1
item_offset water_item = 50

unfoldable pub press_button : WaterModify → Item → Direction → Option WaterModify
unfolding set_item shift std_stoi
press_button w item direction = elim (std_stoi (item_text w item)) [
  | none ↦ none
  | some result ↦ some (set_item w item (shift direction result (item_offset item)))
]

-- The pictures in their order.
abbrev pub image_dirs : List (List ℕ)
image_dirs =
    codes "@mipmap/pic_chushui_changwenshui"
    ∷ codes "@mipmap/pic_chushui_feishui"
    ∷ codes "@mipmap/pic_chushui_fengmishui"
    ∷ codes "@mipmap/pic_chushui_gouji"
    ∷ codes "@mipmap/pic_chushui_huacha"
    ∷ codes "@mipmap/pic_chushui_kafei"
    ∷ codes "@mipmap/pic_chushui_lengshui"
    ∷ codes "@mipmap/pic_chushui_lvcha"
    ∷ codes "@mipmap/pic_chushui_ningmengshui"
    ∷ codes "@mipmap/pic_chushui_paonai"
    ∷ codes "@mipmap/pic_chushui_wulong"
    ∷ []

-- What follows `dir` in `dirs`, and `first` after the last; `none` if it is not found.
unfoldable pub next_dir : List ℕ → List (List ℕ) → List ℕ → Option (List ℕ)
unfolding same_text
next_dir first [] dir = none
next_dir first (d ∷ []) dir = if same_text d dir then some first else none
next_dir first (d ∷ e ∷ ds) dir =
    let rest = next_dir first (e ∷ ds) dir in if same_text d dir then some e else rest

unfoldable pub first_dir : List (List ℕ) → List ℕ
first_dir [] = []
first_dir (d ∷ ds) = d

unfoldable pub change_picture : WaterModify → WaterModify
unfolding next_dir first_dir
change_picture w = elim (next_dir (first_dir image_dirs) image_dirs w.tmp_if_set.image_dir) [
  | none ↦ w
  | some dir ↦ record w {
    tmp_if_set = record (w.tmp_if_set) { image_dir = dir };
    display_picture = dir;
  }
]

-- The three assignments of bt_confirm, each under a test that the fields differ, which decides nothing.
unfoldable pub confirmed : WaterModify → ModeData
confirmed w = record (w.tmp_modedata) {
  temperature = w.tmp_if_set.temperature;
  chu_shui_liang = w.tmp_if_set.chu_shui_liang;
  image_dir = w.tmp_if_set.image_dir;
}

unfoldable pub confirm : ConfMgr → WaterModify → ConfMgr
unfolding confirmed
confirm c w = update_mode_data_by_pos c (confirmed w) w.position

-- The text of mode_no: two digits below 10.
unfoldable pub two_digits : ℕ → List ℕ
two_digits n = if ltb n 10 then 48 ∷ std_to_string n else std_to_string n
