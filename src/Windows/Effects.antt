-- ===== src/Windows/Effects.antt =====
-- What confirming and deleting a mode do to the list that is kept and shown, and to the text to save.
use cdroid_demo.Common.{
  ℕ, ◌≡◌, ◌≢◌, refl, sym, ◌∙◌, ap, subst, Bool, true, false, none, some, arith, get_or-set_self,
  get_or-set_ne, Option-cases, inl, inr,
}
use cdroid_demo.ConfMgr.{
  ConfMgr, ModeData, mode_at, delete_mode_data, update_mode_data_by_pos, erase_at,
  mode_data_json_array, save,
}
use cdroid_demo.ConfMgr.Numbering.{number, delete_mode_data-number}
use cdroid_demo.Pages.{WaterModify, confirm, confirmed}
use cdroid_demo.Windows.{
  page_water_mode_layout, same_type, type_number, Content, home, steam_barbecue, water_mode,
  water_modify, water_add, content_type, Page, get_pagetype, start_page, new_page, PopCallback,
  delete_from_list, delete_from_page, PopPage, WindMgr, find_page, recycled, is_current,
  change_page, show_page, deal_close_pop_page, refresh, enter_pop, confirm_mode, click_edit,
}
use cdroid_demo.Windows.Sound.{
  IsPlace, from_list, IsPop, IsSound, find_page-type, show_page-IsKept, refresh-IsKept,
}
use cdroid_demo.Windows.Clicks.{is_current-content, content-IsContent}

-- The list of modes that is shown is the one that is kept.
abbrev pub ListsModes : WindMgr → Type 0
ListsModes m =
    (p : Page) × (m.cur_showpage ≡ some p) × (p.content ≡ water_mode m.conf.mode_data_list)

start_page-list :
    (c : ConfMgr) (content : Content) (b : Bool)
    → content_type content ≡ page_water_mode_layout
    → (start_page c none (record { content = content; is_added = true; is_timed = b })).content
      ≡ water_mode c.mode_data_list
unfolding start_page content_type
start_page-list c home b e = cc
start_page-list c (steam_barbecue mode) b e = cc
start_page-list c (water_mode list) b e = refl
start_page-list c (water_modify w) b e = cc
start_page-list c (water_add w) b e = cc

-- Show_Page for the list, from a page of another type, lists the modes as they are.
change_page-ListsModes : (m : WindMgr) → ListsModes (change_page m page_water_mode_layout 1 none)
unfolding change_page new_page get_pagetype
change_page-ListsModes m = elim (Option-cases (find_page page_water_mode_layout (recycled m))) [
  | inl e ↦ (
    record { content = water_mode m.conf.mode_data_list; is_added = true; is_timed = true },
    rw (change_page, e) refl,
    rw (change_page, e) refl,
  )
  | inr (p, e) ↦ (
    start_page m.conf none (record p { is_added = true }),
    rw (change_page, e) refl,
    rw (change_page, e)
        (start_page-list m.conf p.content p.is_timed
          (find_page-type page_water_mode_layout (recycled m) p e)),
  )
]

show_page-ListsModes :
    (m : WindMgr)
    → is_current m page_water_mode_layout ≡ false
    → ListsModes (show_page m page_water_mode_layout 1 none)
unfolding show_page
show_page-ListsModes m c = rw c (change_page-ListsModes m)

refreshed :
    (m : WindMgr) (p : Page) (content : Content)
    → m.cur_showpage ≡ some p
    → p.content ≡ content
    → same_type (content_type content) page_water_mode_layout ≡ true
    → ListsModes (refresh m)
unfolding refresh same_type content_type type_number
refreshed m p home e f c = cc
refreshed m p (steam_barbecue mode) e f c = cc
refreshed m p (water_modify w) e f c = cc
refreshed m p (water_add w) e f c = cc
refreshed m p (water_mode list) e f c = (
  record p { content = water_mode m.conf.mode_data_list },
  rw (refresh, e, f) refl,
  rw (refresh, e, f) refl,
)

refresh-ListsModes :
    (m : WindMgr) → is_current m page_water_mode_layout ≡ true → ListsModes (refresh m)
unfolding is_current get_pagetype
refresh-ListsModes m c = elim (Option-cases m.cur_showpage) [
  | inl e ↦ absurd (ground (arith, c, e))
  | inr (p, e) ↦ refreshed m p p.content e refl (ground (arith, c, e))
]

-- What the pop-up asked for is done: the mode at its position is gone, the modes behind it move up and
-- the list counts from 1 again, its text is the one to save, and the page shows it; the pop-up is closed and the
-- page visible.
pub enter_pop_lem :
    (m : WindMgr) (q : PopPage)
    → m.cur_show_poppage ≡ some q
    → IsSound m
    → let t = enter_pop m q in
      (t.conf.mode_data_list ≡ number 1 (erase_at m.conf.mode_data_list q.position))
      × (t.conf.text_to_save ≡ some (mode_data_json_array t.conf.mode_data_list))
      × ListsModes t
      × (t.cur_show_poppage ≡ none)
      × (t.is_page_visible ≡ true)
unfolding enter_pop deal_close_pop_page is_current delete_mode_data save
enter_pop_lem m q e i = go q.enter_callback refl
  where
    deleted : WindMgr
    deleted = record m { conf = delete_mode_data m.conf q.position }

    current : is_current m page_water_mode_layout ≡ from_list q.enter_callback
    current = (subst (IsPop m) e i.asks).1

    listed : deleted.conf.mode_data_list ≡ number 1 (erase_at m.conf.mode_data_list q.position)
    listed = delete_mode_data-number m.conf q.position i.numbered

    is_saved : deleted.conf.text_to_save ≡ some (mode_data_json_array deleted.conf.mode_data_list)
    is_saved = refl

    go :
        (k : PopCallback)
        → q.enter_callback ≡ k
        → let t = enter_pop m q in
          (t.conf.mode_data_list ≡ number 1 (erase_at m.conf.mode_data_list q.position))
          × (t.conf.text_to_save ≡ some (mode_data_json_array t.conf.mode_data_list))
          × ListsModes t
          × (t.cur_show_poppage ≡ none)
          × (t.is_page_visible ≡ true)
    go delete_from_list f =
        rw (enter_pop, f)
          (let kept = (refresh-IsKept deleted).0 in
            (
              rw kept listed,
              rw kept is_saved,
              refresh-ListsModes deleted (current ∙ ap from_list f),
              refl,
              refl,
            ))
    go delete_from_page f =
        rw (enter_pop, f)
          (let kept = (show_page-IsKept deleted page_water_mode_layout 1 none).0 in
            (
              rw kept listed,
              rw kept is_saved,
              show_page-ListsModes deleted (current ∙ ap from_list f),
              refl,
              refl,
            ))

-- The mode that confirming writes at its position.
abbrev pub edited : ModeData → WaterModify → ModeData
edited m w = record m {
  temperature = w.tmp_if_set.temperature;
  chu_shui_liang = w.tmp_if_set.chu_shui_liang;
  image_dir = w.tmp_if_set.image_dir;
}

confirm_lem :
    (c : ConfMgr) (w : WaterModify) (i : ℕ)
    → w.position ≡ some i
    → IsPlace c w (some i)
    → (mode_at (confirm c w).mode_data_list i ≡ edited (mode_at c.mode_data_list i) w)
      × ((j : ℕ) → j ≢ i → mode_at (confirm c w).mode_data_list j ≡ mode_at c.mode_data_list j)
      × ((confirm c w).text_to_save ≡ some (mode_data_json_array (confirm c w).mode_data_list))
unfolding confirm confirmed update_mode_data_by_pos save
confirm_lem c w i g h =
    rw (confirm, g)
      (
        get_or-set_self c.mode_data_list i (confirmed w) _ h.0
            ∙ ap (λ (m : ModeData). edited m w) h.1,
        λ j ne. get_or-set_ne c.mode_data_list i j (confirmed w) _ (λ e. ne (sym e)),
        refl,
      )

pub some-injective : {a b : WindMgr} → some a ≡ some b → a ≡ b
some-injective e = cc

-- Confirming a change writes the temperature, the water and the picture that the page keeps into the
-- mode at its position and nothing else into it; the other modes
-- stay, the list's text is the one to save, and the list is shown.
pub click_edit_confirm :
    (m t : WindMgr) (p : Page) (w : WaterModify) (i : ℕ)
    → m.cur_showpage ≡ some p
    → p.content ≡ water_modify w
    → w.position ≡ some i
    → IsSound m
    → click_edit m p water_modify w confirm_mode ≡ some t
    → (mode_at t.conf.mode_data_list i ≡ edited (mode_at m.conf.mode_data_list i) w)
      × ((j : ℕ) → j ≢ i → mode_at t.conf.mode_data_list j ≡ mode_at m.conf.mode_data_list j)
      × (t.conf.text_to_save ≡ some (mode_data_json_array t.conf.mode_data_list))
      × ListsModes t
unfolding click_edit is_current content_type same_type type_number
click_edit_confirm m t p w i e f g s h = subst IsConfirmed (some-injective h) (
    let (a, b, d) =
      confirm_lem m.conf w i g
        (subst (IsPlace m.conf w) g (content-IsContent m p (water_modify w) e f s)) in
    let kept = (show_page-IsKept changed page_water_mode_layout 1 none).0 in
    (
      rw kept a,
      λ j ne. rw kept (b j ne),
      rw kept d,
      show_page-ListsModes changed
          (is_current-content m p (water_modify w) page_water_mode_layout e f),
    ))
  where
    changed : WindMgr
    changed = record m { conf = confirm m.conf w }

    IsConfirmed : WindMgr → Type 0
    IsConfirmed u =
        (mode_at u.conf.mode_data_list i ≡ edited (mode_at m.conf.mode_data_list i) w)
        × ((j : ℕ) → j ≢ i → mode_at u.conf.mode_data_list j ≡ mode_at m.conf.mode_data_list j)
        × (u.conf.text_to_save ≡ some (mode_data_json_array u.conf.mode_data_list))
        × ListsModes u
