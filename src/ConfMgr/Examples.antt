-- ===== src/ConfMgr/Examples.antt =====
-- The modes of src/data/conf_mgr.cc in a concrete list, and the properties there.
use cdroid_demo.Common.{pos, ℕ, ◌≡◌, refl, [], ◌∷◌, none}
use cdroid_demo.ConfMgr.{ConfMgr, ModeData, codes, std_to_string, decimal}
use cdroid_demo.ConfMgr.Numbering.{number, IsNumbered}

abbrev mode : ℕ → ℕ → ModeData
mode position amount = record {
  data_pos = position;
  chu_shui_liang = pos amount;
  can_delete = 1;
  data_type = codes "add";
  mode_name = codes "tea";
  temperature = codes "85";
  image_dir = codes "";
}

abbrev modes : ConfMgr
modes = record { mode_data_list = mode 1 100 ∷ mode 2 200 ∷ mode 3 300 ∷ []; text_to_save = none }

modes-IsNumbered : IsNumbered modes
unfolding number
modes-IsNumbered = refl

decimal_of : std_to_string 1205 ≡ codes "1205"
unfolding std_to_string decimal
decimal_of = refl
