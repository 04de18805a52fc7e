-- ===== src/Windows/Restart.antt =====
-- What the pages change is there again at the next start, through the file of src/data/conf_mgr.cc.
use cdroid_demo.Common.{ℕ, ◌≡◌, ◌≢◌, refl, sym, ◌∙◌, ap, subst, Bool, true, none, some}
use cdroid_demo.ConfMgr.{mode_at, erase_at}
use cdroid_demo.ConfMgr.Numbering.{IsNumbered, number}
use cdroid_demo.Pages.{WaterModify, confirm}
use cdroid_demo.Json.{Node}
use cdroid_demo.Json.Restart.{Store, save_conf, restart, IsStored, restart-save_conf}
use cdroid_demo.Windows.{
  page_water_mode_layout, water_modify, Page, PopPage, WindMgr, enter_pop, confirm_mode, click_edit,
}
use cdroid_demo.Windows.Sound.{IsSound, show_page-IsKept, enter_pop-IsSound}
use cdroid_demo.Windows.Clicks.{content-IsContent, confirm-IsNumbered}
use cdroid_demo.Windows.Effects.{
  ListsModes, edited, click_edit_confirm, enter_pop_lem, some-injective,
}

confirmed-IsNumbered :
    (m t : WindMgr) (p : Page) (w : WaterModify)
    → m.cur_showpage ≡ some p
    → p.content ≡ water_modify w
    → IsSound m
    → click_edit m p water_modify w confirm_mode ≡ some t
    → IsNumbered t.conf
unfolding click_edit
confirmed-IsNumbered m t p w e f s h =
    subst (λ (u : WindMgr). IsNumbered u.conf) (some-injective h)
      (subst IsNumbered (sym (show_page-IsKept changed page_water_mode_layout 1 none).0) (
        confirm-IsNumbered m.conf w w.position refl s.numbered
          (content-IsContent m p (water_modify w) e f s)))
  where
    changed : WindMgr
    changed = record m { conf = confirm m.conf w }

-- From a sound state, confirming a change of a mode and starting the program again. Where jsoncpp reads the
-- text of the modes as entries with the members of these and reads what it prints of them as the same
-- value, their numbers are in the range of an int, there is room for the file, and saving succeeds: the
-- mode at the page's place has the temperature, the water and the picture that the page kept and is as
-- before otherwise, and the other modes are as before. Before the restart the page lists the modes.
pub restart-click_edit :
    {Value : Type 0} (store : Store Value) (root : Value) (opens writes : Bool) (room later : ℕ)
    (node : Node) (m t : WindMgr) (p : Page) (w : WaterModify) (i : ℕ)
    → m.cur_showpage ≡ some p
    → p.content ≡ water_modify w
    → w.position ≡ some i
    → IsSound m
    → click_edit m p water_modify w confirm_mode ≡ some t
    → IsStored store t.conf.mode_data_list root room
    → (save_conf store opens room node t.conf).1 ≡ true
    → let again = restart store writes later (save_conf store opens room node t.conf).0 in
      (mode_at again.mode_data_list i ≡ edited (mode_at m.conf.mode_data_list i) w)
      × ((j : ℕ) → j ≢ i → mode_at again.mode_data_list j ≡ mode_at m.conf.mode_data_list j)
      × ListsModes t
restart-click_edit store root opens writes room later node m t p w i e f g s h k d =
    let (at_place, others, text, lists) = click_edit_confirm m t p w i e f g s h in
    let same =
      restart-save_conf store t.conf root opens writes room later node
        (confirmed-IsNumbered m t p w e f s h) text k d in
    (
      ap (λ ms. mode_at ms i) same ∙ at_place,
      λ j ne. ap (λ ms. mode_at ms j) same ∙ others j ne,
      lists,
    )

-- From a sound state, deleting a mode, from the list or from its page, and starting the program again.
-- Where jsoncpp reads the text of the modes as entries with the members of these and reads what it
-- prints of them as the same value, their numbers are in the range of an int, there is room for the
-- file, and saving succeeds: the mode at the pop-up's place is gone, and the modes behind it have moved
-- up and count from 1 without a gap. Before the restart the page lists the modes, the pop-up is closed
-- and the page is visible.
pub restart-enter_pop :
    {Value : Type 0} (store : Store Value) (root : Value) (opens writes : Bool) (room later : ℕ)
    (node : Node) (m : WindMgr) (q : PopPage)
    → m.cur_show_poppage ≡ some q
    → IsSound m
    → IsStored store (enter_pop m q).conf.mode_data_list root room
    → (save_conf store opens room node (enter_pop m q).conf).1 ≡ true
    → let t = enter_pop m q in
      let again = restart store writes later (save_conf store opens room node t.conf).0 in
      (again.mode_data_list ≡ number 1 (erase_at m.conf.mode_data_list q.position))
      × ListsModes t
      × (t.cur_show_poppage ≡ none)
      × (t.is_page_visible ≡ true)
restart-enter_pop store root opens writes room later node m q e s k d =
    let (listed, text, lists, closed, visible) = enter_pop_lem m q e s in
    (
      restart-save_conf store (enter_pop m q).conf root opens writes room later node
            (enter_pop-IsSound m q e s).numbered text k d
          ∙ listed,
      lists,
      closed,
      visible,
    )
