-- ===== src/Windows/Runs.antt =====
-- Every click that the windows take, in any order.
use cdroid_demo.Common.{ℕ, ◌<◌, ◌≡◌, refl, ◌≢◌, sym, ◌∙◌, subst, List, Option, none, some, length}
use cdroid_demo.ConfMgr.{ConfMgr, ModeData}
use cdroid_demo.ConfMgr.Numbering.{IsNumbered}
use cdroid_demo.Pages.{WaterModify}
use cdroid_demo.Windows.{
  page_home, page_steam_barbecue, page_water_mode_layout, page_water_add, type_number, same_type,
  home, water_mode, water_modify, water_add, content_type, Page, PopPage, WindMgr, init_window,
  is_current, show_page, deal_close_pop_page, handle_message, enter_pop, ListClick, click_list,
  EditClick, click_edit,
}
use cdroid_demo.Windows.Sound.{
  IsPlace, IsShown, IsPop, IsSound, show_page-IsSound, enter_pop-IsSound, closed-IsSound,
}
use cdroid_demo.Windows.Clicks.{
  confirm-IsNumbered, confirm-IsNumbered_new, IsPlace-same, click_list-IsSound, click_edit-IsSound,
}

-- The clicks of a run.
pub data Step (m : WindMgr) : WindMgr → Type 0 where
  -- page_home.cc: the four cooking modes, and the water.
  cook :
      (p : Page) (mode : ℕ)
      → m.cur_showpage ≡ some p
      → p.content ≡ home
      → m.cur_show_poppage ≡ none
      → Step m (show_page m page_steam_barbecue mode (some mode))
  water :
      (p : Page)
      → m.cur_showpage ≡ some p
      → p.content ≡ home
      → m.cur_show_poppage ≡ none
      → Step m (show_page m page_water_mode_layout 1 none)
  -- bt_home and bt_back_home of the steam page and of the list.
  to_home : m.cur_show_poppage ≡ none → Step m (show_page m page_home 1 none)
  -- bt_mode_add.
  add_mode :
      (p : Page) (list : List ModeData)
      → m.cur_showpage ≡ some p
      → p.content ≡ water_mode list
      → m.cur_show_poppage ≡ none
      → Step m (show_page m page_water_add 1 none)
  list_click :
      (p : Page) (list : List ModeData) (i : ℕ) (click : ListClick)
      → m.cur_showpage ≡ some p
      → p.content ≡ water_mode list
      → m.cur_show_poppage ≡ none
      → i < length list
      → Step m (click_list m list i click)
  modify_click :
      (p : Page) (w : WaterModify) (click : EditClick) (t : WindMgr)
      → m.cur_showpage ≡ some p
      → p.content ≡ water_modify w
      → m.cur_show_poppage ≡ none
      → click_edit m p water_modify w click ≡ some t
      → Step m t
  add_click :
      (p : Page) (w : WaterModify) (click : EditClick) (t : WindMgr)
      → m.cur_showpage ≡ some p
      → p.content ≡ water_add w
      → m.cur_show_poppage ≡ none
      → click_edit m p water_add w click ≡ some t
      → Step m t
  -- The two buttons of the pop-up, which covers the page, and the message.
  pop_enter : (q : PopPage) → m.cur_show_poppage ≡ some q → Step m (enter_pop m q)
  pop_cancel : (q : PopPage) → m.cur_show_poppage ≡ some q → Step m (deal_close_pop_page m)
  message : 0 < m.close_messages → Step m (handle_message m)

pub data Reach (m : WindMgr) : WindMgr → Type 0 where
  start : Reach m m
  next : {t u : WindMgr} → Reach m t → Step t u → Reach m u

message-IsSound : (m : WindMgr) → IsSound m → IsSound (handle_message m)
unfolding handle_message is_current
message-IsSound m i = record {
  numbered = i.numbered;
  shown = i.shown;
  asks = kept m.cur_show_poppage i.asks;
}
  where
    kept : (o : Option PopPage) → IsPop m o → IsPop (handle_message m) o
    kept none h = h
    kept (some q) h = h

Step-IsSound : {m t : WindMgr} → Step m t → IsSound m → IsSound t
unfolding deal_close_pop_page content_type same_type type_number
Step-IsSound {m} (cook p mode e f g) i =
    show_page-IsSound m page_steam_barbecue mode (some mode) g tt i
Step-IsSound {m} (water p e f g) i = show_page-IsSound m page_water_mode_layout 1 none g tt i
Step-IsSound {m} (to_home g) i = show_page-IsSound m page_home 1 none g tt i
Step-IsSound {m} (add_mode p list e f g) i = show_page-IsSound m page_water_add 1 none g refl i
Step-IsSound {m} (list_click p list j click e f g h) i =
    click_list-IsSound m p list j click e f g h i
Step-IsSound {m} (modify_click p w click t e f g h) i =
    click_edit-IsSound water_modify (λ w. refl) IsPlace-same
      (λ c w. confirm-IsNumbered c w w.position refl) (λ c w j k q. (subst (IsPlace c w) q k).0) m p
      w click t e f g h i
Step-IsSound {m} (add_click p w click t e f g h) i =
    click_edit-IsSound water_add (λ w. refl) (λ c w v a b k. a ∙ k)
      (λ c w v k. confirm-IsNumbered_new c w k v) (λ c w j k q. absurd (position_none (sym k ∙ q)))
      m p w click t e f g h i
  where
    position_none : {j : ℕ} → ◌≢◌ {A = Option ℕ} none (some j)
    position_none q = cc
Step-IsSound {m} (pop_enter q e) i = enter_pop-IsSound m q e i
Step-IsSound {m} (pop_cancel q e) i =
    closed-IsSound (deal_close_pop_page m) i.numbered i.shown refl refl
Step-IsSound {m} (message h) i = message-IsSound m i

Reach-IsSound : {m t : WindMgr} → IsSound m → Reach m t → IsSound t
Reach-IsSound i start = i
Reach-IsSound i (next r s) = Step-IsSound s (Reach-IsSound i r)

-- From modes that are numbered from 1 and the home page, after any clicks and messages in any order
-- the modes are numbered from 1; a list of modes that is shown is the list that is kept; a page that
-- edits a mode has a position in that list, and its copy is the mode that stands there; and a pop-up
-- asks about a position in the list and hides the page.
pub run-IsSound :
    (c : ConfMgr) {t : WindMgr}
    → IsNumbered c
    → Reach (show_page (init_window c) page_home 1 none) t
    → IsNumbered t.conf × IsShown t.conf t.cur_showpage × IsPop t t.cur_show_poppage
unfolding init_window
run-IsSound c v r =
    let i = Reach-IsSound (show_page-IsSound (init_window c) page_home 1 none refl tt first) r in
    (i.numbered, i.shown, i.asks)
  where
    first : IsSound (init_window c)
    first = record { numbered = v; shown = tt; asks = refl }
