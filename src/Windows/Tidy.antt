-- ===== src/Windows/Tidy.antt =====
-- The pages of a run: one of each type, and one in the window.
use cdroid_demo.Common.{
  ℕ, ◌+◌, ◌-◌, ◌≤◌, ◌≡◌, refl, sym, ◌∙◌, ap, subst, List, [], ◌∷◌, Option, none, some, arith, ltb,
  ◌==◌, All, Bool-cases, Option-cases, inl, inr, length,
}
use cdroid_demo.ConfMgr.{ConfMgr, ModeData, mode_at, delete_mode_data}
use cdroid_demo.Pages.{WaterModify, press_button, change_picture, confirm}
use cdroid_demo.Windows.{
  PageType, page_home, page_steam_barbecue, page_water_mode_layout, page_water_modify,
  page_water_add, Content, water_modify, water_add, content_type, Page, get_pagetype, stopped,
  delete_from_list, delete_from_page, PopCallback, PopPage, WindMgr, init_window, show_page,
  show_pop_page, deal_close_pop_page, stop_all, handle_message, refresh, enter_pop, ListClick,
  open_item, move_left, move_right, delete_item, move, click_list, EditClick, button, next_picture,
  confirm_mode, delete_mode, back, back_home, click_edit,
}
use cdroid_demo.Windows.Unique.{type_count, current_count, IsAway, IsThere, IsTidy}
use cdroid_demo.Windows.Showing.{show_page-IsTidy}
use cdroid_demo.Windows.Runs.{
  Step, cook, water, to_home, add_mode, list_click, modify_click, add_click, pop_enter, pop_cancel,
  message, Reach, start, next,
}

-- A state with the same pages.
same-IsTidy :
    (m n : WindMgr)
    → n.cur_showpage ≡ m.cur_showpage
    → n.page_recycle_list ≡ m.page_recycle_list
    → IsTidy m
    → IsTidy n
same-IsTidy m n e f i = record {
  unique = λ t. rw (e, f) (i.unique t);
  away = rw f i.away;
  there = rw e i.there;
}

conf-IsTidy : (m : WindMgr) (c : ConfMgr) → IsTidy m → IsTidy (record m { conf = c })
conf-IsTidy m c i = same-IsTidy m (record m { conf = c }) refl refl i

-- A new content of the page that is shown, of the same type.
edited-IsTidy :
    (m : WindMgr) (p : Page) (content : Content)
    → m.cur_showpage ≡ some p
    → content_type content ≡ content_type p.content
    → IsTidy m
    → IsTidy (record m { cur_showpage = some (record p { content = content }) })
unfolding get_pagetype
edited-IsTidy m p content e f i = record {
  unique = λ t.
      rw f (subst (λ o. current_count t o + type_count t m.page_recycle_list ≤ 1) e (i.unique t));
  away = i.away;
  there = subst IsThere e i.there;
}

refresh-IsTidy : (m : WindMgr) → IsTidy m → IsTidy (refresh m)
unfolding refresh get_pagetype content_type
refresh-IsTidy m i = record {
  unique = λ t. ground (arith, i.unique t);
  away = ground (arith, i.away);
  there = ground (arith, i.there);
}

stop_all-count : (t : PageType) (ps : List Page) → type_count t (stop_all ps) ≡ type_count t ps
unfolding stop_all stopped get_pagetype
stop_all-count t [] = refl
stop_all-count t (p ∷ ps) = omega (arith, stop_all-count t ps)

stop_all-IsAway : (ps : List Page) → All IsAway (stop_all ps)
unfolding stop_all stopped
stop_all-IsAway [] = tt
stop_all-IsAway (p ∷ ps) = ((refl, refl), stop_all-IsAway ps)

handle_message-IsTidy : (m : WindMgr) → IsTidy m → IsTidy (handle_message m)
unfolding handle_message
handle_message-IsTidy m i = record {
  unique = λ t. omega (arith, i.unique t, stop_all-count t m.page_recycle_list);
  away = stop_all-IsAway m.page_recycle_list;
  there = i.there;
}

show_pop_page-IsTidy :
    (m : WindMgr) (callback : PopCallback) (position : ℕ)
    → IsTidy m
    → IsTidy (show_pop_page m callback position)
unfolding show_pop_page
show_pop_page-IsTidy m callback position i =
    same-IsTidy m (show_pop_page m callback position) (ground arith) (ground arith) i

enter_pop-IsTidy : (m : WindMgr) (q : PopPage) → IsTidy m → IsTidy (enter_pop m q)
unfolding enter_pop deal_close_pop_page
enter_pop-IsTidy m q i = go q.enter_callback refl
  where
    deleted : WindMgr
    deleted = record m { conf = delete_mode_data m.conf q.position }

    tidy : IsTidy deleted
    tidy = conf-IsTidy m (delete_mode_data m.conf q.position) i

    go : (k : PopCallback) → q.enter_callback ≡ k → IsTidy (enter_pop m q)
    go delete_from_list f =
        rw (enter_pop, f)
          (same-IsTidy (refresh deleted) (deal_close_pop_page (refresh deleted)) refl refl
            (refresh-IsTidy deleted tidy))
    go delete_from_page f =
        rw (enter_pop, f)
          (let shown = show_page deleted page_water_mode_layout 1 none in
            same-IsTidy shown (deal_close_pop_page shown) refl refl
              (show_page-IsTidy deleted page_water_mode_layout 1 none tidy))

click_list-IsTidy :
    (m : WindMgr) (list : List ModeData) (j : ℕ) (click : ListClick)
    → IsTidy m
    → IsTidy (click_list m list j click)
unfolding click_list move
click_list-IsTidy m list j open_item i = show_page-IsTidy m page_water_modify 1 (some j) i
click_list-IsTidy m list j move_left i = elim (Bool-cases (ltb 0 j)) [
  | inl l ↦ rw (click_list, l) (refresh-IsTidy (record m { conf = _ }) (conf-IsTidy m _ i))
  | inr l ↦ rw (click_list, l) i
]
click_list-IsTidy m list j move_right i = elim (Bool-cases (ltb j (length list - 1))) [
  | inl l ↦ rw (click_list, l) (refresh-IsTidy (record m { conf = _ }) (conf-IsTidy m _ i))
  | inr l ↦ rw (click_list, l) i
]
click_list-IsTidy m list j delete_item i = elim (Bool-cases ((mode_at list j).can_delete == 0)) [
  | inl l ↦ rw (click_list, l) i
  | inr l ↦ rw (click_list, l) (show_pop_page-IsTidy m delete_from_list j i)
]

-- A predicate of a result that may be an exception.
abbrev OnSome : (WindMgr → Type 0) → Option WindMgr → Type 0
OnSome P none = Unit
OnSome P (some m) = P m

module _ (wrap : WaterModify → Content)
    (one_type : (v w : WaterModify) → content_type (wrap v) ≡ content_type (wrap w)) (m : WindMgr)
    (p : Page) (w : WaterModify) (e : m.cur_showpage ≡ some p) (f : p.content ≡ wrap w)
    (i : IsTidy m) where
  wrapped-IsTidy :
      (v : WaterModify) → IsTidy (record m { cur_showpage = some (record p { content = wrap v }) })
  wrapped-IsTidy v = edited-IsTidy m p (wrap v) e (one_type v w ∙ ap content_type (sym f)) i

  click_edit-OnSome : (click : EditClick) → OnSome IsTidy (click_edit m p wrap w click)
  unfolding click_edit
  click_edit-OnSome (button item d) = elim (Option-cases (press_button w item d)) [
    | inl q ↦ rw (click_edit, q) tt
    | inr (v, q) ↦ rw (click_edit, q) (wrapped-IsTidy v)
  ]
  click_edit-OnSome next_picture = wrapped-IsTidy (change_picture w)
  click_edit-OnSome confirm_mode =
      show_page-IsTidy (record m { conf = confirm m.conf w }) page_water_mode_layout 1 none
        (conf-IsTidy m (confirm m.conf w) i)
  click_edit-OnSome delete_mode = elim (Option-cases w.position) [
    | inl q ↦ rw (click_edit, q) i
    | inr (j, q) ↦ rw (click_edit, q) (show_pop_page-IsTidy m delete_from_page j i)
  ]
  click_edit-OnSome back = show_page-IsTidy m page_water_mode_layout 1 none i
  click_edit-OnSome back_home = show_page-IsTidy m page_home 1 none i

  click_edit-IsTidy :
      (click : EditClick) (t : WindMgr) → click_edit m p wrap w click ≡ some t → IsTidy t
  click_edit-IsTidy click t h = subst (OnSome IsTidy) h (click_edit-OnSome click)

Step-IsTidy : {m t : WindMgr} → Step m t → IsTidy m → IsTidy t
unfolding deal_close_pop_page content_type
Step-IsTidy {m} (cook p mode e f g) i = show_page-IsTidy m page_steam_barbecue mode (some mode) i
Step-IsTidy {m} (water p e f g) i = show_page-IsTidy m page_water_mode_layout 1 none i
Step-IsTidy {m} (to_home g) i = show_page-IsTidy m page_home 1 none i
Step-IsTidy {m} (add_mode p list e f g) i = show_page-IsTidy m page_water_add 1 none i
Step-IsTidy {m} (list_click p list j click e f g h) i = click_list-IsTidy m list j click i
Step-IsTidy {m} (modify_click p w click t e f g h) i =
    click_edit-IsTidy water_modify (λ v u. refl) m p w e f i click t h
Step-IsTidy {m} (add_click p w click t e f g h) i =
    click_edit-IsTidy water_add (λ v u. refl) m p w e f i click t h
Step-IsTidy {m} (pop_enter q e) i = enter_pop-IsTidy m q i
Step-IsTidy {m} (pop_cancel q e) i = same-IsTidy m (deal_close_pop_page m) refl refl i
Step-IsTidy {m} (message h) i = handle_message-IsTidy m i

-- From the home page, after any clicks and messages in any order, there is at most one page of each
-- type, shown or kept for use again; every kept page is out of the window and its clock does not
-- run; and the page that is shown is in the window.
pub run-IsTidy :
    (c : ConfMgr) {t : WindMgr} → Reach (show_page (init_window c) page_home 1 none) t → IsTidy t
unfolding init_window
run-IsTidy c start =
    show_page-IsTidy (init_window c) page_home 1 none
      (record { unique = λ t. omega arith; away = tt; there = tt })
run-IsTidy c (next r s) = Step-IsTidy s (run-IsTidy c r)
