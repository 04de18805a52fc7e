-- ===== src/Windows/Sound.antt =====
-- What the pages, the pop-up and the modes agree on.
use cdroid_demo.Common.{
  ℕ, zero, suc, ◌<◌, ◌≡◌, refl, sym, ◌∙◌, ap, subst, Bool, true, false, List, [], ◌∷◌, Option, none,
  some, arith, length, Bool-cases, Option-cases, inl, inr,
}
use cdroid_demo.ConfMgr.{ConfMgr, mode_at, delete_mode_data, erase_at}
use cdroid_demo.ConfMgr.Numbering.{IsNumbered, number-IsNumbered, delete_mode_data-number}
use cdroid_demo.Pages.{WaterModify, show_mode, start_modify, start_add}
use cdroid_demo.Windows.{
  PageType, page_none, page_home, page_steam_barbecue, page_water_mode_layout, page_water_modify,
  page_water_add, type_number, same_type, Content, home, steam_barbecue, water_mode, water_modify,
  water_add, content_type, Page, get_pagetype, start_page, new_page, PopCallback, delete_from_list,
  delete_from_page, PopPage, WindMgr, find_page, recycled, is_current, change_page, show_page,
  deal_close_pop_page, refresh, enter_pop,
}

-- The position of a mode that is edited is in the list, and the copy is what stands there.
abbrev pub IsPlace : ConfMgr → WaterModify → Option ℕ → Type 0
IsPlace c w none = ⊥
IsPlace c w (some i) = (i < length c.mode_data_list) × (w.tmp_modedata ≡ mode_at c.mode_data_list i)

abbrev pub IsContent : ConfMgr → Content → Type 0
IsContent c home = Unit
IsContent c (steam_barbecue mode) = Unit
IsContent c (water_mode list) = list ≡ c.mode_data_list
IsContent c (water_modify w) = IsPlace c w w.position
IsContent c (water_add w) = w.position ≡ none

abbrev pub IsShown : ConfMgr → Option Page → Type 0
IsShown c none = Unit
IsShown c (some p) = IsContent c p.content

-- Whether the list of modes is what asks.
abbrev pub from_list : PopCallback → Bool
from_list delete_from_list = true
from_list delete_from_page = false

abbrev pub IsPop : WindMgr → Option PopPage → Type 0
IsPop m none = m.is_page_visible ≡ true
IsPop m (some q) =
    (q.position < length m.conf.mode_data_list)
    × (is_current m page_water_mode_layout ≡ from_list q.enter_callback)
    × (m.is_page_visible ≡ false)

pub record IsSound (m : WindMgr) : Type 0 where
  pub numbered : IsNumbered m.conf
  pub shown : IsShown m.conf m.cur_showpage
  pub asks : IsPop m m.cur_show_poppage

-- The position that goes with a type.
abbrev pub IsTarget : ConfMgr → PageType → Option ℕ → Type 0
IsTarget c page_water_modify none = ⊥
IsTarget c page_water_modify (some i) = i < length c.mode_data_list
IsTarget c page_water_add position = position ≡ none
IsTarget c _ position = Unit

start_modify-IsPlace :
    (c : ConfMgr) (i : ℕ)
    → IsNumbered c
    → i < length c.mode_data_list
    → IsPlace c (start_modify c i) (start_modify c i).position
unfolding start_modify show_mode
start_modify-IsPlace c i v h = (h, refl)

new_page-IsShown :
    (c : ConfMgr) (type : PageType) (mode : ℕ) (position : Option ℕ)
    → IsNumbered c
    → IsTarget c type position
    → IsShown c (new_page c type mode position)
unfolding new_page start_add show_mode
new_page-IsShown c page_none mode position v t = tt
new_page-IsShown c page_home mode position v t = tt
new_page-IsShown c page_steam_barbecue mode position v t = tt
new_page-IsShown c page_water_mode_layout mode position v t = refl
new_page-IsShown c page_water_modify mode none v t = tt
new_page-IsShown c page_water_modify mode (some i) v t = start_modify-IsPlace c i v t
new_page-IsShown c page_water_add mode position v t = t

start_page-IsContent :
    (c : ConfMgr) (position : Option ℕ) (content : Content) (a b : Bool)
    → IsNumbered c
    → IsTarget c (content_type content) position
    → IsContent c
        (start_page c position (record { content = content; is_added = a; is_timed = b })).content
unfolding start_page start_add show_mode content_type
start_page-IsContent c position home a b v t = tt
start_page-IsContent c position (steam_barbecue mode) a b v t = tt
start_page-IsContent c position (water_mode list) a b v t = refl
start_page-IsContent c none (water_modify w) a b v t = absurd t
start_page-IsContent c (some i) (water_modify w) a b v t = start_modify-IsPlace c i v t
start_page-IsContent c position (water_add w) a b v t = t

-- A type is determined by its number.
type_of : ℕ → PageType
type_of zero = page_home
type_of (suc zero) = page_steam_barbecue
type_of (suc (suc zero)) = page_water_mode_layout
type_of (suc (suc (suc zero))) = page_water_modify
type_of (suc (suc (suc (suc zero)))) = page_water_add
type_of (suc (suc (suc (suc (suc n))))) = page_none

type_of-type_number : (t : PageType) → type_of (type_number t) ≡ t
unfolding type_of type_number
type_of-type_number page_none = refl
type_of-type_number page_home = refl
type_of-type_number page_steam_barbecue = refl
type_of-type_number page_water_mode_layout = refl
type_of-type_number page_water_modify = refl
type_of-type_number page_water_add = refl

pub same_type-eq : (a b : PageType) → same_type a b ≡ true → a ≡ b
unfolding same_type
same_type-eq a b h =
    let e : type_number a ≡ type_number b = ground (arith, h) in
    sym (type_of-type_number a) ∙ ap type_of e ∙ type_of-type_number b

pub find_page-type :
    (t : PageType) (ps : List Page) (p : Page) → find_page t ps ≡ some p → get_pagetype p ≡ t
unfolding find_page
find_page-type t [] p e = cc
find_page-type t (q ∷ ps) p e = elim (Bool-cases (same_type (get_pagetype q) t)) [
  | inl s ↦ ground (arith, same_type-eq (get_pagetype q) t s)
  | inr s ↦ find_page-type t ps p (ground arith)
]

change_page-IsShown :
    (m : WindMgr) (type : PageType) (mode : ℕ) (position : Option ℕ)
    → IsNumbered m.conf
    → IsTarget m.conf type position
    → IsShown m.conf (change_page m type mode position).cur_showpage
unfolding change_page get_pagetype
change_page-IsShown m type mode position v t = elim (Option-cases (find_page type (recycled m))) [
  | inl e ↦ rw (change_page, e) (new_page-IsShown m.conf type mode position v t)
  | inr (p, e) ↦
      rw (change_page, e)
        (start_page-IsContent m.conf position p.content true p.is_timed v
          (subst (λ k. IsTarget m.conf k position) (sym (find_page-type type (recycled m) p e)) t))
]

show_page-IsShown :
    (m : WindMgr) (type : PageType) (mode : ℕ) (position : Option ℕ)
    → IsNumbered m.conf
    → IsTarget m.conf type position
    → IsShown m.conf m.cur_showpage
    → IsShown m.conf (show_page m type mode position).cur_showpage
unfolding show_page
show_page-IsShown m type mode position v t s =
    ground (arith, change_page-IsShown m type mode position v t, s)

-- A change of the page leaves the modes and the pop-up.
abbrev pub IsKept : WindMgr → WindMgr → Type 0
IsKept m n =
    (n.conf ≡ m.conf)
    × (n.cur_show_poppage ≡ m.cur_show_poppage)
    × (n.is_page_visible ≡ m.is_page_visible)

pub show_page-IsKept :
    (m : WindMgr) (type : PageType) (mode : ℕ) (position : Option ℕ)
    → IsKept m (show_page m type mode position)
unfolding show_page change_page
show_page-IsKept m type mode position = ground arith

-- Without a pop-up, soundness is that of the modes and of the page.
pub closed-IsSound :
    (m : WindMgr)
    → IsNumbered m.conf
    → IsShown m.conf m.cur_showpage
    → m.cur_show_poppage ≡ none
    → m.is_page_visible ≡ true
    → IsSound m
closed-IsSound m v s e b = record { numbered = v; shown = s; asks = rw e b }

pub IsPop-none : (m : WindMgr) → m.cur_show_poppage ≡ none → IsSound m → m.is_page_visible ≡ true
IsPop-none m e i = subst (IsPop m) e i.asks

pub show_page-IsSound :
    (m : WindMgr) (type : PageType) (mode : ℕ) (position : Option ℕ)
    → m.cur_show_poppage ≡ none
    → IsTarget m.conf type position
    → IsSound m
    → IsSound (show_page m type mode position)
show_page-IsSound m type mode position e t i =
    let (c, p, b) = show_page-IsKept m type mode position in
    closed-IsSound (show_page m type mode position) (rw c i.numbered)
      (rw c (show_page-IsShown m type mode position i.numbered t i.shown)) (p ∙ e)
      (b ∙ IsPop-none m e i)

to_list-IsShown :
    (m : WindMgr)
    → IsNumbered m.conf
    → is_current m page_water_mode_layout ≡ false
    → IsShown
        (show_page m page_water_mode_layout 1 none).conf
        (show_page m page_water_mode_layout 1 none).cur_showpage
unfolding show_page
to_list-IsShown m v f =
    rw ((show_page-IsKept m page_water_mode_layout 1 none).0, f)
      (change_page-IsShown m page_water_mode_layout 1 none v tt)

-- From a page of another type, with any numbered modes, Show_Page leads to a fresh list of them.
pub to_list-IsSound :
    (m : WindMgr)
    → IsNumbered m.conf
    → is_current m page_water_mode_layout ≡ false
    → m.cur_show_poppage ≡ none
    → m.is_page_visible ≡ true
    → IsSound (show_page m page_water_mode_layout 1 none)
to_list-IsSound m v f e b =
    let (c, p, d) = show_page-IsKept m page_water_mode_layout 1 none in
    closed-IsSound (show_page m page_water_mode_layout 1 none) (rw c v) (to_list-IsShown m v f)
      (p ∙ e) (d ∙ b)

pub refresh-IsShown :
    (m : WindMgr)
    → is_current m page_water_mode_layout ≡ true
    → IsShown (refresh m).conf (refresh m).cur_showpage
unfolding refresh is_current get_pagetype content_type same_type type_number
refresh-IsShown m e = ground arith

pub refresh-IsKept : (m : WindMgr) → IsKept m (refresh m)
unfolding refresh
refresh-IsKept m = ground arith

pub refresh-IsSound :
    (m : WindMgr)
    → IsNumbered m.conf
    → is_current m page_water_mode_layout ≡ true
    → m.cur_show_poppage ≡ none
    → m.is_page_visible ≡ true
    → IsSound (refresh m)
refresh-IsSound m v t e b =
    let (c, p, d) = refresh-IsKept m in
    closed-IsSound (refresh m) (rw c v) (refresh-IsShown m t) (p ∙ e) (d ∙ b)

-- The pop-up's deletion.
pub enter_pop-IsSound :
    (m : WindMgr) (q : PopPage) → m.cur_show_poppage ≡ some q → IsSound m → IsSound (enter_pop m q)
unfolding enter_pop deal_close_pop_page is_current
enter_pop-IsSound m q e i = go q.enter_callback refl
  where
    deleted : WindMgr
    deleted = record m { conf = delete_mode_data m.conf q.position }

    renumbered : IsNumbered deleted.conf
    renumbered =
        number-IsNumbered deleted.conf (erase_at m.conf.mode_data_list q.position)
          (delete_mode_data-number m.conf q.position i.numbered)

    current : is_current m page_water_mode_layout ≡ from_list q.enter_callback
    current = (subst (IsPop m) e i.asks).1

    go : (k : PopCallback) → q.enter_callback ≡ k → IsSound (enter_pop m q)
    go delete_from_list f =
        rw (enter_pop, f)
          (closed-IsSound (deal_close_pop_page (refresh deleted))
            (rw ((refresh-IsKept deleted).0) renumbered)
            (refresh-IsShown deleted (current ∙ ap from_list f)) refl refl)
    go delete_from_page f =
        rw (enter_pop, f)
          (closed-IsSound (deal_close_pop_page (show_page deleted page_water_mode_layout 1 none))
            (rw ((show_page-IsKept deleted page_water_mode_layout 1 none).0) renumbered)
            (to_list-IsShown deleted renumbered (current ∙ ap from_list f)) refl refl)
