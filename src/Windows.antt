-- ===== src/Windows.antt =====
-- src/windows: wind_mgr.cc shows one page at a time and keeps the others for use again, poppage.cc
-- asks before a mode is deleted, pagebase.cc adds a page to the window and takes it away, and the
-- listeners of page_home.cc, page_water_mode.cc, RecyclerViewAdapter.cc and
-- page_water_mode_modify.cc say what a click does.
pub mod Showing
pub mod Unique
pub mod Sound
pub mod Clicks
pub mod Runs
pub mod Tidy
pub mod Effects
pub mod Restart
mod Examples
use cdroid_demo.Common.{
  ℕ, zero, suc, ◌+◌, ◌-◌, Bool, true, false, List, [], ◌∷◌, ◌++◌, Option, none, some, ltb, leb,
  ◌==◌, if◌then◌else◌, length,
}
use cdroid_demo.ConfMgr.{ConfMgr, ModeData, mode_at, delete_mode_data, moved_mode}
use cdroid_demo.Pages.{
  WaterModify, start_modify, start_add, Item, Direction, press_button, change_picture, confirm,
}

pub data PageType : Type 0 where
  page_none page_home page_steam_barbecue page_water_mode_layout page_water_modify page_water_add :
      PageType

-- The numbers of the enumeration, and 5 for its -1.
unfoldable pub type_number : PageType → ℕ
type_number page_none = 5
type_number page_home = 0
type_number page_steam_barbecue = 1
type_number page_water_mode_layout = 2
type_number page_water_modify = 3
type_number page_water_add = 4

unfoldable pub same_type : PageType → PageType → Bool
unfolding type_number
same_type a b = type_number a == type_number b

-- A page of each class; PageWaterModify is built with one of two types. The steam page keeps the
-- value of its picker of the cooking mode, the page of the modes its adapter's list.
pub data Content : Type 0 where
  home : Content
  steam_barbecue : Option ℕ → Content
  water_mode : List ModeData → Content
  water_modify : WaterModify → Content
  water_add : WaterModify → Content

unfoldable pub content_type : Content → PageType
content_type home = page_home
content_type (steam_barbecue mode) = page_steam_barbecue
content_type (water_mode list) = page_water_mode_layout
content_type (water_modify w) = page_water_modify
content_type (water_add w) = page_water_add

-- Whether the page's layout is in the window's box, and whether its clock is posted.
pub record Page : Type 0 where
  pub content : Content
  pub is_added : Bool
  pub is_timed : Bool

unfoldable pub get_pagetype : Page → PageType
unfolding content_type
get_pagetype p = content_type p.content

-- Stop_Page_action and RemovePage.
unfoldable pub stopped : Page → Page
stopped p = record p { is_added = false; is_timed = false }

-- Start_Page_action for the page's own type; only PageBase's and PageWaterMode's start the clock.
unfoldable pub start_page : ConfMgr → Option ℕ → Page → Page
unfolding start_modify start_add
start_page c position p = elim p.content [
  | home ↦ record p { is_timed = true }
  | steam_barbecue mode ↦ record p { content = steam_barbecue position }
  | water_mode list ↦ record p { content = water_mode c.mode_data_list; is_timed = true }
  | water_modify w ↦ (elim position [
    | none ↦ p
    | some i ↦ record p { content = water_modify (start_modify c i) }
  ])
  | water_add w ↦ record p { content = water_add (start_add c position) }
]

-- The constructors of the pages; each adds the page and starts the clock. -1 as the position of a
-- mode to change is an access outside of the list.
unfoldable pub new_page : ConfMgr → PageType → ℕ → Option ℕ → Option Page
unfolding start_modify start_add
new_page c type mode position = elim type [
  | page_none ↦ none
  | page_home ↦ some (record { content = home; is_added = true; is_timed = true })
  | page_steam_barbecue ↦
      some (record { content = steam_barbecue (some mode); is_added = true; is_timed = true })
  | page_water_mode_layout ↦
      some (record { content = water_mode c.mode_data_list; is_added = true; is_timed = true })
  | page_water_modify ↦ (elim position [
    | none ↦ none
    | some i ↦
        some
          (record { content = water_modify (start_modify c i); is_added = true; is_timed = true })
  ])
  | page_water_add ↦
      some (record { content = water_add (start_add c position); is_added = true; is_timed = true })
]

-- What the pop-up does when it is confirmed: the adapter's deletion, or that of the page that edits.
pub data PopCallback : Type 0 where
  delete_from_list delete_from_page : PopCallback

pub record PopPage : Type 0 where
  pub enter_callback : PopCallback
  pub position : ℕ
  -- tmp_modedata, which the pop-up shows.
  pub mode : ModeData

-- wind_mgr with the modes that its pages work on. `close_messages` counts the MSG_PAGE_DELAY_CLOSE
-- that wait in the looper.
pub record WindMgr : Type 0 where
  pub conf : ConfMgr
  pub cur_showpage : Option Page
  pub page_recycle_list : List Page
  pub cur_show_poppage : Option PopPage
  pub is_page_visible : Bool
  pub close_messages : ℕ

-- Init_Window; the pop-up's box starts invisible in the layout.
unfoldable pub init_window : ConfMgr → WindMgr
init_window c = record {
  conf = c;
  cur_showpage = none;
  page_recycle_list = [];
  cur_show_poppage = none;
  is_page_visible = true;
  close_messages = 0;
}

-- The search of the recycled pages, and the list without the page that is found.
unfoldable pub find_page : PageType → List Page → Option Page
unfolding same_type get_pagetype
find_page type [] = none
find_page type (p ∷ ps) =
    let rest = find_page type ps in if same_type (get_pagetype p) type then some p else rest

unfoldable pub erase_page : PageType → List Page → List Page
unfolding same_type get_pagetype
erase_page type [] = []
erase_page type (p ∷ ps) =
    let rest = erase_page type ps in if same_type (get_pagetype p) type then ps else p ∷ rest

unfoldable pub recycled : WindMgr → List Page
unfolding stopped
recycled m = elim m.cur_showpage [
  | none ↦ m.page_recycle_list
  | some p ↦ m.page_recycle_list ++ stopped p ∷ []
]

unfoldable pub is_current : WindMgr → PageType → Bool
unfolding same_type get_pagetype
is_current m type = elim m.cur_showpage [ none ↦ false | some p ↦ same_type (get_pagetype p) type ]

-- The rest of Show_Page, for a type that is not shown.
unfoldable pub change_page : WindMgr → PageType → ℕ → Option ℕ → WindMgr
unfolding recycled find_page erase_page start_page new_page
change_page m type mode position = elim (find_page type (recycled m)) [
  | some p ↦ record m {
    cur_showpage = some (start_page m.conf position (record p { is_added = true }));
    page_recycle_list = erase_page type (recycled m);
    close_messages = 1;
  }
  | none ↦ record m {
    cur_showpage = new_page m.conf type mode position;
    page_recycle_list = recycled m;
    close_messages = 1;
  }
]

unfoldable pub show_page : WindMgr → PageType → ℕ → Option ℕ → WindMgr
unfolding is_current change_page
show_page m type mode position = if is_current m type then m else change_page m type mode position

-- Show_Pop_Page; the pop-up reads the mode at its position.
unfoldable pub show_pop_page : WindMgr → PopCallback → ℕ → WindMgr
show_pop_page m callback position = elim m.cur_show_poppage [
  | some p ↦ m
  | none ↦ record m {
    cur_show_poppage = some (record {
      enter_callback = callback;
      position = position;
      mode = mode_at m.conf.mode_data_list position;
    });
    is_page_visible = false;
  }
]

unfoldable pub deal_close_pop_page : WindMgr → WindMgr
deal_close_pop_page m = record m { cur_show_poppage = none; is_page_visible = true }

-- handleMessage of MSG_PAGE_DELAY_CLOSE.
unfoldable pub stop_all : List Page → List Page
unfolding stopped
stop_all [] = []
stop_all (p ∷ ps) = stopped p ∷ stop_all ps

unfoldable pub handle_message : WindMgr → WindMgr
unfolding stop_all
handle_message m = record m {
  page_recycle_list = stop_all m.page_recycle_list;
  close_messages = m.close_messages - 1;
}

-- mode_data_list=d_fileLoad->getModeDataList(), in the adapter of the page that is shown.
unfoldable pub refresh : WindMgr → WindMgr
refresh m = elim m.cur_showpage [
  | none ↦ m
  | some p ↦ (elim p.content [
    | water_mode list ↦ record m {
      cur_showpage = some (record p { content = water_mode m.conf.mode_data_list });
    }
    | _ ↦ m
  ])
]

-- The callback of the pop-up, and then Deal_Close_Pop_Page.
unfoldable pub enter_pop : WindMgr → PopPage → WindMgr
unfolding refresh show_page deal_close_pop_page
enter_pop m p =
    let deleted = record m { conf = delete_mode_data m.conf p.position } in
    deal_close_pop_page (elim p.enter_callback [
      | delete_from_list ↦ refresh deleted
      | delete_from_page ↦ show_page deleted page_water_mode_layout 1 none
    ])

-- The clicks on an item of the list of modes.
pub data ListClick : Type 0 where
  open_item move_left move_right delete_item : ListClick

unfoldable pub move : WindMgr → ℕ → ℕ → WindMgr
unfolding refresh
move m i j = refresh (record m { conf = moved_mode m.conf i j })

unfoldable pub click_list : WindMgr → List ModeData → ℕ → ListClick → WindMgr
unfolding show_page move show_pop_page
click_list m list i open_item = show_page m page_water_modify 1 (some i)
click_list m list i move_left = if ltb 0 i then move m i (i - 1) else m
click_list m list i move_right = if ltb i (length list - 1) then move m i (i + 1) else m
click_list m list i delete_item =
    if (mode_at list i).can_delete == 0 then m else show_pop_page m delete_from_list i

-- The clicks on the page that edits a mode; only one that changes a mode has the delete button.
pub data EditClick : Type 0 where
  button : Item → Direction → EditClick
  next_picture confirm_mode delete_mode back back_home : EditClick

-- `none` is the exception of a button.
unfoldable pub click_edit :
    WindMgr → Page → (WaterModify → Content) → WaterModify → EditClick → Option WindMgr
unfolding show_page show_pop_page
click_edit m p wrap w (button item direction) = elim (press_button w item direction) [
  | none ↦ none
  | some v ↦ some (record m { cur_showpage = some (record p { content = wrap v }) })
]
click_edit m p wrap w next_picture =
    some (record m { cur_showpage = some (record p { content = wrap (change_picture w) }) })
click_edit m p wrap w confirm_mode =
    some (show_page (record m { conf = confirm m.conf w }) page_water_mode_layout 1 none)
click_edit m p wrap w delete_mode = elim w.position [
  | none ↦ some m
  | some i ↦ some (show_pop_page m delete_from_page i)
]
click_edit m p wrap w back = some (show_page m page_water_mode_layout 1 none)
click_edit m p wrap w back_home = some (show_page m page_home 1 none)
