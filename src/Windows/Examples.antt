-- ===== src/Windows/Examples.antt =====
-- Clicks on a list of two modes.
use cdroid_demo.Common.{ℕ, ◌≡◌, ◌≢◌, refl, true, [], ◌∷◌, none, arith, pos, All}
use cdroid_demo.ConfMgr.{
  ConfMgr, ModeData, mode_at, erase_at, delete_mode_data, renumber_from, save,
  update_mode_data_by_pos,
}
use cdroid_demo.ConfMgr.Numbering.{IsNumbered, number}
use cdroid_demo.Pages.{start_modify, show_mode, confirm, confirmed}
use cdroid_demo.Windows.{
  page_home, page_water_mode_layout, type_number, same_type, content_type, home, water_mode,
  water_modify, Page, get_pagetype, new_page, delete_from_list, PopPage, WindMgr, init_window,
  find_page, refresh, deal_close_pop_page, recycled, stopped, is_current, change_page, show_page,
  show_pop_page, enter_pop, open_item, delete_item, click_list, click_edit,
}
use cdroid_demo.Windows.Sound.{IsShown, IsPop, IsSound}
use cdroid_demo.Windows.Unique.{IsTidy}
use cdroid_demo.Windows.Runs.{Reach, start, next, water, list_click, run-IsSound}
use cdroid_demo.Windows.Tidy.{run-IsTidy}
use cdroid_demo.Windows.Effects.{ListsModes, edited}
use cdroid_demo.Windows.Restart.{restart-click_edit, restart-enter_pop}
use cdroid_demo.Json.{missing, save_local_json}
use cdroid_demo.Json.Modes.{HasInts}
use cdroid_demo.Json.Restart.{Store, save_text, save_conf, restart}
use cdroid_demo.Json.Sample.{Value, array, sample_store, sample-IsStored}

abbrev mode : ℕ → ℕ → ModeData
mode position amount = record {
  data_pos = position;
  chu_shui_liang = pos amount;
  can_delete = 1;
  data_type = [];
  mode_name = 65 ∷ [];
  temperature = 53 ∷ 53 ∷ [];
  image_dir = [];
}

abbrev modes : ConfMgr
modes = record { mode_data_list = mode 1 500 ∷ mode 2 250 ∷ []; text_to_save = none }

abbrev at_home : WindMgr
at_home = show_page (init_window modes) page_home 1 none

abbrev home_page : Page
home_page = record { content = home; is_added = true; is_timed = true }

abbrev listing : WindMgr
listing = show_page at_home page_water_mode_layout 1 none

abbrev list_page : Page
list_page = record { content = water_mode modes.mode_data_list; is_added = true; is_timed = true }

abbrev asking : WindMgr
asking = click_list listing modes.mode_data_list 1 delete_item

abbrev editing : WindMgr
editing = click_list listing modes.mode_data_list 0 open_item

listing_run : Reach at_home listing
unfolding show_page init_window is_current change_page recycled find_page new_page
listing_run = next start (water home_page refl refl refl)

asking_run : Reach at_home asking
unfolding show_page init_window is_current change_page recycled find_page new_page stopped same_type
    type_number get_pagetype content_type
asking_run =
    next listing_run
      (list_click list_page modes.mode_data_list 1 delete_item refl refl refl (omega arith))

editing_run : Reach at_home editing
unfolding show_page init_window is_current change_page recycled find_page new_page stopped same_type
    type_number get_pagetype content_type
editing_run =
    next listing_run
      (list_click list_page modes.mode_data_list 0 open_item refl refl refl (omega arith))

modes-IsNumbered : IsNumbered modes
unfolding number
modes-IsNumbered = refl

run-IsSound_example :
    IsNumbered asking.conf
    × IsShown asking.conf asking.cur_showpage
    × IsPop asking asking.cur_show_poppage
run-IsSound_example = run-IsSound modes modes-IsNumbered asking_run

run-IsTidy_example : IsTidy editing
run-IsTidy_example = run-IsTidy modes editing_run

asking-IsSound : IsSound asking
asking-IsSound =
    let (a, b, c) = run-IsSound modes modes-IsNumbered asking_run in
    record { numbered = a; shown = b; asks = c }

editing-IsSound : IsSound editing
editing-IsSound =
    let (a, b, c) = run-IsSound modes modes-IsNumbered editing_run in
    record { numbered = a; shown = b; asks = c }

abbrev question : PopPage
question = record { enter_callback = delete_from_list; position = 1; mode = mode 2 250 }

abbrev store_of : WindMgr → Store Value
store_of m = sample_store (array m.conf.mode_data_list)

abbrev after_delete : WindMgr
after_delete = enter_pop asking question

after_delete-HasInts : All HasInts after_delete.conf.mode_data_list
unfolding show_page init_window is_current change_page recycled find_page new_page stopped same_type
    type_number get_pagetype content_type click_list show_pop_page enter_pop delete_mode_data save
    erase_at renumber_from refresh deal_close_pop_page
after_delete-HasInts = ((omega arith, omega arith, omega arith), tt)

after_delete_saved : (save_conf (store_of after_delete) true 10 missing after_delete.conf).1 ≡ true
unfolding show_page init_window is_current change_page recycled find_page new_page stopped same_type
    type_number get_pagetype content_type click_list show_pop_page enter_pop delete_mode_data save
    erase_at renumber_from refresh deal_close_pop_page save_conf save_text save_local_json
after_delete_saved = refl

restart-enter_pop_example :
    let again =
      restart
        (store_of after_delete)
        true
        10
        (save_conf (store_of after_delete) true 10 missing after_delete.conf).0 in
    (again.mode_data_list ≡ number 1 (erase_at asking.conf.mode_data_list 1))
    × ListsModes after_delete
    × (after_delete.cur_show_poppage ≡ none)
    × (after_delete.is_page_visible ≡ true)
unfolding show_page init_window is_current change_page recycled find_page new_page stopped same_type
    type_number get_pagetype content_type click_list show_pop_page
restart-enter_pop_example =
    restart-enter_pop (store_of after_delete) (array after_delete.conf.mode_data_list) true true 10
      10 missing asking question refl asking-IsSound
      (sample-IsStored after_delete.conf.mode_data_list after_delete-HasInts) after_delete_saved

abbrev edit_page : Page
edit_page = record {
  content = water_modify (start_modify modes 0);
  is_added = true;
  is_timed = true;
}

abbrev after_confirm : WindMgr
after_confirm =
    show_page (record editing { conf = confirm editing.conf (start_modify modes 0) })
      page_water_mode_layout 1 none

after_confirm-HasInts : All HasInts after_confirm.conf.mode_data_list
unfolding show_page init_window is_current change_page recycled find_page new_page stopped same_type
    type_number get_pagetype content_type click_list confirm confirmed update_mode_data_by_pos save
    start_modify show_mode
after_confirm-HasInts =
    ((omega arith, omega arith, omega arith), ((omega arith, omega arith, omega arith), tt))

after_confirm_saved :
    (save_conf (store_of after_confirm) true 10 missing after_confirm.conf).1 ≡ true
unfolding show_page init_window is_current change_page recycled find_page new_page stopped same_type
    type_number get_pagetype content_type click_list confirm confirmed update_mode_data_by_pos save
    start_modify show_mode save_conf save_text save_local_json
after_confirm_saved = refl

restart-click_edit_example :
    let again =
      restart
        (store_of after_confirm)
        true
        10
        (save_conf (store_of after_confirm) true 10 missing after_confirm.conf).0 in
    (mode_at again.mode_data_list 0
      ≡ edited (mode_at editing.conf.mode_data_list 0) (start_modify modes 0))
    × ((j : ℕ) → j ≢ 0 → mode_at again.mode_data_list j ≡ mode_at editing.conf.mode_data_list j)
    × ListsModes after_confirm
unfolding show_page init_window is_current change_page recycled find_page new_page stopped same_type
    type_number get_pagetype content_type click_list click_edit start_modify show_mode
restart-click_edit_example =
    restart-click_edit (store_of after_confirm) (array after_confirm.conf.mode_data_list) true true
      10 10 missing editing after_confirm edit_page (start_modify modes 0) 0 refl refl refl
      editing-IsSound refl (sample-IsStored after_confirm.conf.mode_data_list after_confirm-HasInts)
      after_confirm_saved
