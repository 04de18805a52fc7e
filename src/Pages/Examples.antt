-- ===== src/Pages/Examples.antt =====
-- Presses on small pages.
use cdroid_demo.Common.{◌≡◌, refl, [], some, none, arith, pos, negsuc, ◌-ℤ◌}
use cdroid_demo.ConfMgr.{ConfMgr, codes, std_to_string, std_to_string_int, decimal}
use cdroid_demo.Pages.{
  WaterModify, show_mode, start_add, default_mode, std_stoi, stoi_sign, stoi_digits, drop_space,
  read_digits, temperature_item, water_item, minus, item_text, press_button, two_digits,
}
use cdroid_demo.Pages.Buttons.{moved, press_button_lem, shows, kept}

abbrev no_modes : ConfMgr
no_modes = record { mode_data_list = []; text_to_save = none }

abbrev adding : WaterModify
adding = start_add no_modes none

-- A minus before the digits, and what is not a number.
stoi_minus : std_stoi (codes " -12mL") ≡ some (negsuc 11)
unfolding std_stoi stoi_sign stoi_digits drop_space read_digits ◌-ℤ◌
stoi_minus = refl

stoi_no_number : std_stoi (codes "mL") ≡ none
unfolding std_stoi stoi_sign stoi_digits drop_space read_digits ◌-ℤ◌
stoi_no_number = refl

two_digits_of : two_digits 7 ≡ codes "07"
unfolding two_digits std_to_string decimal
two_digits_of = refl

press_button_lem_example :
    (v : WaterModify) × (press_button adding water_item minus ≡ some v)
    × (item_text v water_item ≡ shows water_item (moved minus (pos 500) water_item))
    × (kept v water_item ≡ std_to_string_int (moved minus (pos 500) water_item))
    × (item_text v temperature_item ≡ item_text adding temperature_item)
    × (kept v temperature_item ≡ kept adding temperature_item)
unfolding start_add show_mode default_mode ◌-ℤ◌
press_button_lem_example =
    press_button_lem adding water_item minus (pos 500) (omega arith) (ground arith) refl
