-- ===== src/Json/Examples.antt =====
-- A file of one digit, and a value that is a text.
use cdroid_demo.Common.{
  ℕ, ◌≡◌, refl, ◌⊎◌, true, false, List, [], ◌∷◌, Option, none, some, arith, if◌then◌else◌, pos,
}
use cdroid_demo.ConfMgr.{ModeData, codes, init}
use cdroid_demo.Json.{missing, file, directory, load_local_json, save_local_json, removed}
use cdroid_demo.Json.Modes.{load_data, conf_init, conf_init-save_local_json}
use cdroid_demo.Json.Sample.{Value, text, array, values, value_entries, print_value, entry-Holds}
use cdroid_demo.Json.Files.{save_local_json_lem}

-- A printer and a parser of one number.
abbrev write_one : ℕ → List ℕ
write_one n = n ∷ []

abbrev parse_one : List ℕ → Option ℕ
parse_one [] = none
parse_one (n ∷ ns) = some n

save_local_json_lem_example :
    let (saved, done) = save_local_json write_one true 100 (file (9 ∷ 9 ∷ [])) 7 in
    if done
    then load_local_json parse_one true saved ≡ some 7
    else (file (9 ∷ 9 ∷ []) ≡ directory) × (saved ≡ directory)
    ⊎ (true ≡ false) × (saved ≡ missing)
save_local_json_lem_example =
    save_local_json_lem parse_one write_one true 100 (file (9 ∷ 9 ∷ [])) 7 refl (omega arith)

-- A file that cannot be written any more is lost.
lost : save_local_json write_one false 100 (file (9 ∷ [])) 7 ≡ (missing, false)
unfolding save_local_json removed
lost = refl

abbrev tea : ModeData
tea = record {
  data_pos = 1;
  chu_shui_liang = pos 250;
  can_delete = 1;
  data_type = codes "add";
  mode_name = codes "tea";
  temperature = codes "85";
  image_dir = codes "";
}

abbrev modes_value : Value
modes_value = array (tea ∷ [])

abbrev parse_value : List ℕ → Option Value
parse_value t = some modes_value

saved_file : (save_local_json print_value true 10 missing modes_value).1 ≡ true
unfolding save_local_json
saved_file = refl

conf_init-save_local_json_example :
    let saved = (save_local_json print_value true 10 missing modes_value).0 in
    let (data_value, left) = load_data parse_value print_value true false 10 (text []) saved in
    (conf_init values value_entries data_value ≡ init (tea ∷ [])) × (left ≡ saved)
conf_init-save_local_json_example =
    conf_init-save_local_json values value_entries parse_value print_value false 10 10 modes_value
      (text []) (tea ∷ []) true missing refl (omega arith)
      (entry-Holds tea, (omega arith, omega arith, omega arith), tt) saved_file

-- Where there is no room, less is in the file, and saving says that it succeeded.
cut_off : save_local_json write_one true 0 missing 7 ≡ (file [], true)
unfolding save_local_json
cut_off = refl
