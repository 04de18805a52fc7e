-- ===== src/Windows/Clicks.antt =====
-- What each click does to the modes, the page and the pop-up.
use cdroid_demo.Common.{
  ℕ, ◌+◌, ◌-◌, ◌<◌, ◌≡◌, refl, ◌≢◌, sym, ◌∙◌, ap, subst, true, false, List, [], ◌∷◌, ◌++◌, Option,
  none, some, arith, ltb, ◌==◌, length, set, Bool-cases, Option-cases, inl, inr,
}
use cdroid_demo.ConfMgr.{
  ConfMgr, ModeData, mode_at, moved_mode, update_mode_data_by_pos, swap_modes,
}
use cdroid_demo.ConfMgr.Numbering.{
  IsNumbered, number-IsNumbered, mode_at-data_pos, moved_mode-number, update_mode_data-number,
  add_mode_data-number,
}
use cdroid_demo.Pages.{
  WaterModify, Item, Direction, press_button, set_item, change_picture, next_dir, first_dir,
  image_dirs, confirm, confirmed, temperature_item, water_item,
}
use cdroid_demo.Windows.{
  PageType, page_home, page_water_mode_layout, page_water_modify, type_number, same_type, Content,
  water_mode, content_type, Page, get_pagetype, PopCallback, delete_from_list, delete_from_page,
  WindMgr, is_current, show_pop_page, ListClick, open_item, move_left, move_right, delete_item,
  move, click_list, EditClick, button, next_picture, confirm_mode, delete_mode, back, back_home,
  click_edit,
}
use cdroid_demo.Windows.Sound.{
  IsPlace, IsContent, IsShown, from_list, IsSound, show_page-IsSound, to_list-IsSound,
  refresh-IsSound, IsPop-none, closed-IsSound,
}

-- The page that is shown decides the type that is current.
pub is_current-content :
    (m : WindMgr) (p : Page) (content : Content) (type : PageType)
    → m.cur_showpage ≡ some p
    → p.content ≡ content
    → is_current m type ≡ same_type (content_type content) type
unfolding is_current get_pagetype
is_current-content m p content type e f =
    rw (is_current, e) (ap (λ c. same_type (content_type c) type) f)

pub content-IsContent :
    (m : WindMgr) (p : Page) (content : Content)
    → m.cur_showpage ≡ some p
    → p.content ≡ content
    → IsSound m
    → IsContent m.conf content
content-IsContent m p content e f i = subst (IsContent m.conf) f (subst (IsShown m.conf) e i.shown)

show_pop_page-IsSound :
    (m : WindMgr) (callback : PopCallback) (position : ℕ)
    → m.cur_show_poppage ≡ none
    → position < length m.conf.mode_data_list
    → is_current m page_water_mode_layout ≡ from_list callback
    → IsSound m
    → IsSound (show_pop_page m callback position)
unfolding show_pop_page is_current
show_pop_page-IsSound m callback position e h c i =
    rw (show_pop_page, e) (record { numbered = i.numbered; shown = i.shown; asks = (h, c, refl) })

move-IsSound :
    (m : WindMgr) (i j : ℕ)
    → m.cur_show_poppage ≡ none
    → is_current m page_water_mode_layout ≡ true
    → i < length m.conf.mode_data_list
    → j < length m.conf.mode_data_list
    → i ≢ j
    → IsSound m
    → IsSound (move m i j)
unfolding move is_current
move-IsSound m i j e c h k ne s =
    refresh-IsSound (record m { conf = moved_mode m.conf i j })
      (number-IsNumbered (moved_mode m.conf i j) (swap_modes m.conf.mode_data_list i j)
        (moved_mode-number m.conf i j s.numbered h k ne))
      c e (IsPop-none m e s)

pub click_list-IsSound :
    (m : WindMgr) (p : Page) (list : List ModeData) (i : ℕ) (click : ListClick)
    → m.cur_showpage ≡ some p
    → p.content ≡ water_mode list
    → m.cur_show_poppage ≡ none
    → i < length list
    → IsSound m
    → IsSound (click_list m list i click)
unfolding click_list content_type same_type type_number
click_list-IsSound m p list i click e f g h s = go click
  where
    same : list ≡ m.conf.mode_data_list
    same = content-IsContent m p (water_mode list) e f s

    inside : i < length m.conf.mode_data_list
    inside = rw (← same) h

    current : is_current m page_water_mode_layout ≡ true
    current = is_current-content m p (water_mode list) page_water_mode_layout e f

    go : (click : ListClick) → IsSound (click_list m list i click)
    go open_item = show_page-IsSound m page_water_modify 1 (some i) g inside s
    go move_left = elim (Bool-cases (ltb 0 i)) [
      | inl l ↦
          rw l (
            move-IsSound m i (i - 1) g current inside (omega (arith, inside)) (ground (arith, l)) s)
      | inr l ↦ rw l s
    ]
    go move_right = elim (Bool-cases (ltb i (length list - 1))) [
      | inl l ↦ rw l (
          move-IsSound m i (i + 1) g current inside (ground (arith, l, ap length same))
            (omega arith) s)
      | inr l ↦ rw l s
    ]
    go delete_item = elim (Bool-cases ((mode_at list i).can_delete == 0)) [
      | inl l ↦ rw l s
      | inr l ↦ rw l (show_pop_page-IsSound m delete_from_list i g inside current s)
    ]

-- A press of a button or of the picture leaves the mode that is edited and its position.
press_button-same :
    (w v : WaterModify) (item : Item) (d : Direction)
    → press_button w item d ≡ some v
    → (v.position ≡ w.position) × (v.tmp_modedata ≡ w.tmp_modedata)
unfolding press_button set_item
press_button-same w v temperature_item d e = ground arith
press_button-same w v water_item d e = ground arith

change_picture-same :
    (w : WaterModify)
    → ((change_picture w).position ≡ w.position)
      × ((change_picture w).tmp_modedata ≡ w.tmp_modedata)
unfolding change_picture
change_picture-same w =
    elim (Option-cases (next_dir (first_dir image_dirs) image_dirs w.tmp_if_set.image_dir)) [
      | inl e ↦ rw (change_picture, e) (refl, refl)
      | inr (dir, e) ↦ rw (change_picture, e) (refl, refl)
    ]

pub IsPlace-same :
    (c : ConfMgr) (w v : WaterModify)
    → v.position ≡ w.position
    → v.tmp_modedata ≡ w.tmp_modedata
    → IsPlace c w w.position
    → IsPlace c v v.position
IsPlace-same c w v p q h = rw p (go w.position h)
  where
    go : (position : Option ℕ) → IsPlace c w position → IsPlace c v position
    go none k = absurd k
    go (some i) k = (k.0, q ∙ k.1)

pub confirm-IsNumbered :
    (c : ConfMgr) (w : WaterModify) (position : Option ℕ)
    → w.position ≡ position
    → IsNumbered c
    → IsPlace c w position
    → IsNumbered (confirm c w)
unfolding confirm confirmed
confirm-IsNumbered c w none e v h = absurd h
confirm-IsNumbered c w (some i) e v h = rw e (
    number-IsNumbered (update_mode_data_by_pos c (confirmed w) (some i))
      (set c.mode_data_list i (confirmed w))
      (update_mode_data-number c (confirmed w) i v
        (ap (λ (m : ModeData). m.data_pos) h.1 ∙ mode_at-data_pos c i v h.0)).1)

pub confirm-IsNumbered_new :
    (c : ConfMgr) (w : WaterModify) → w.position ≡ none → IsNumbered c → IsNumbered (confirm c w)
unfolding confirm
confirm-IsNumbered_new c w e v = rw e (
    number-IsNumbered (update_mode_data_by_pos c (confirmed w) none)
      (c.mode_data_list ++ confirmed w ∷ []) (add_mode_data-number c (confirmed w) v))

some-injective : {a b : WindMgr} → some a ≡ some b → a ≡ b
some-injective e = cc

none-ne-some : {a : WindMgr} → ◌≢◌ {A = Option WindMgr} none (some a)
none-ne-some e = cc

-- What a click on either page for a mode needs: `wrap` is the page's content.
module _ (wrap : WaterModify → Content)
    (other : (w : WaterModify) → same_type (content_type (wrap w)) page_water_mode_layout ≡ false)
    (keeps : (c : ConfMgr) (w v : WaterModify)
      → v.position ≡ w.position
      → v.tmp_modedata ≡ w.tmp_modedata
      → IsContent c (wrap w)
      → IsContent c (wrap v))
    (confirms : (c : ConfMgr) (w : WaterModify)
      → IsNumbered c
      → IsContent c (wrap w)
      → IsNumbered (confirm c w))
    (asks : (c : ConfMgr) (w : WaterModify) (i : ℕ)
      → IsContent c (wrap w)
      → w.position ≡ some i
      → i < length c.mode_data_list) where
  edited-IsSound :
      (m : WindMgr) (p : Page) (w v : WaterModify)
      → m.cur_showpage ≡ some p
      → p.content ≡ wrap w
      → m.cur_show_poppage ≡ none
      → v.position ≡ w.position
      → v.tmp_modedata ≡ w.tmp_modedata
      → IsSound m
      → IsSound (record m { cur_showpage = some (record p { content = wrap v }) })
  edited-IsSound m p w v e f g h k s =
      closed-IsSound (record m { cur_showpage = some (record p { content = wrap v }) }) s.numbered
        (keeps m.conf w v h k (content-IsContent m p (wrap w) e f s)) g (IsPop-none m g s)

  pub click_edit-IsSound :
      (m : WindMgr) (p : Page) (w : WaterModify) (click : EditClick) (t : WindMgr)
      → m.cur_showpage ≡ some p
      → p.content ≡ wrap w
      → m.cur_show_poppage ≡ none
      → click_edit m p wrap w click ≡ some t
      → IsSound m
      → IsSound t
  unfolding click_edit is_current
  click_edit-IsSound m p w (button item d) t e f g h s =
      elim (Option-cases (press_button w item d)) [
        | inl q ↦ absurd (none-ne-some (sym (refused q) ∙ h))
        | inr (v, q) ↦
            (let (a, b) = press_button-same w v item d q in
              subst IsSound (some-injective (sym (taken v q) ∙ h))
                (edited-IsSound m p w v e f g a b s))
      ]
    where
      refused : press_button w item d ≡ none → click_edit m p wrap w (button item d) ≡ none
      refused q = rw (click_edit, q) refl

      taken :
          (v : WaterModify)
          → press_button w item d ≡ some v
          → click_edit m p wrap w (button item d)
            ≡ some (record m { cur_showpage = some (record p { content = wrap v }) })
      taken v q = rw (click_edit, q) refl
  click_edit-IsSound m p w next_picture t e f g h s =
      let (a, b) = change_picture-same w in
      subst IsSound (some-injective h) (edited-IsSound m p w (change_picture w) e f g a b s)
  click_edit-IsSound m p w confirm_mode t e f g h s = subst IsSound (some-injective h) (
      to_list-IsSound (record m { conf = confirm m.conf w })
        (confirms m.conf w s.numbered (content-IsContent m p (wrap w) e f s))
        (is_current-content m p (wrap w) page_water_mode_layout e f ∙ other w) g (IsPop-none m g s))
  click_edit-IsSound m p w delete_mode t e f g h s = elim (Option-cases w.position) [
    | inl q ↦ subst IsSound (some-injective (sym (stayed q) ∙ h)) s
    | inr (i, q) ↦ subst IsSound (some-injective (sym (asked i q) ∙ h)) (
        show_pop_page-IsSound m delete_from_page i g
          (asks m.conf w i (content-IsContent m p (wrap w) e f s) q)
          (is_current-content m p (wrap w) page_water_mode_layout e f ∙ other w) s)
  ]
    where
      stayed : w.position ≡ none → click_edit m p wrap w delete_mode ≡ some m
      stayed q = rw (click_edit, q) refl

      asked :
          (i : ℕ)
          → w.position ≡ some i
          → click_edit m p wrap w delete_mode ≡ some (show_pop_page m delete_from_page i)
      asked i q = rw (click_edit, q) refl
  click_edit-IsSound m p w back t e f g h s =
      subst IsSound (some-injective h) (show_page-IsSound m page_water_mode_layout 1 none g tt s)
  click_edit-IsSound m p w back_home t e f g h s =
      subst IsSound (some-injective h) (show_page-IsSound m page_home 1 none g tt s)
