-- ===== src/Windows/Unique.antt =====
-- One page of each type, and one page in the window.
use cdroid_demo.Common.{
  ℕ, ◌+◌, ◌≤◌, ◌≡◌, refl, ap, true, false, List, [], ◌∷◌, ◌++◌, Option, none, some, arith,
  if◌then◌else◌, All, All-append, Bool-cases, Option-cases, inl, inr,
}
use cdroid_demo.ConfMgr.{ConfMgr}
use cdroid_demo.Windows.{
  PageType, same_type, content_type, Page, get_pagetype, stopped, start_page, new_page, WindMgr,
  find_page, erase_page, recycled,
}

-- How many pages of a type there are.
abbrev pub is_type : PageType → Page → ℕ
is_type t p = if same_type (get_pagetype p) t then 1 else 0

abbrev pub type_count : PageType → List Page → ℕ
type_count t [] = 0
type_count t (p ∷ ps) = is_type t p + type_count t ps

abbrev pub current_count : PageType → Option Page → ℕ
current_count t none = 0
current_count t (some p) = is_type t p

-- A page that is out of the window, with its clock stopped.
abbrev pub IsAway : Page → Type 0
IsAway p = (p.is_added ≡ false) × (p.is_timed ≡ false)

abbrev pub IsThere : Option Page → Type 0
IsThere none = Unit
IsThere (some p) = p.is_added ≡ true

pub record IsTidy (m : WindMgr) : Type 0 where
  pub unique :
      (t : PageType) → current_count t m.cur_showpage + type_count t m.page_recycle_list ≤ 1
  pub away : All IsAway m.page_recycle_list
  pub there : IsThere m.cur_showpage

type_count-append :
    (t : PageType) (ps qs : List Page) → type_count t (ps ++ qs) ≡ type_count t ps + type_count t qs
type_count-append t [] qs = omega arith
type_count-append t (p ∷ ps) qs = omega (arith, type_count-append t ps qs)

pub type_count-none : (t : PageType) (ps : List Page) → find_page t ps ≡ none → type_count t ps ≡ 0
unfolding find_page
type_count-none t [] e = refl
type_count-none t (p ∷ ps) e = ground (arith, type_count-none t ps)

pub type_count-erase :
    (t type : PageType) (ps : List Page) (p : Page)
    → find_page type ps ≡ some p
    → type_count t ps ≡ is_type t p + type_count t (erase_page type ps)
unfolding find_page erase_page
type_count-erase t type [] p e = cc
type_count-erase t type (q ∷ ps) p e = elim (Bool-cases (same_type (get_pagetype q) type)) [
  | inl s ↦
      (let q-is-p : q ≡ p = ground (arith, s) in
        rw (erase_page, s) (ap (λ r. is_type t r + type_count t ps) q-is-p))
  | inr s ↦ rw (erase_page, s) (omega (arith, type_count-erase t type ps p (ground (arith, s))))
]

pub erase_page-All :
    (P : Page → Type 0) (type : PageType) (ps : List Page) → All P ps → All P (erase_page type ps)
unfolding erase_page
erase_page-All P type [] h = tt
erase_page-All P type (p ∷ ps) h = elim (Bool-cases (same_type (get_pagetype p) type)) [
  | inl s ↦ rw (erase_page, s) h.1
  | inr s ↦ rw (erase_page, s) (h.0, erase_page-All P type ps h.1)
]

-- Stopping and starting a page leave its type, and a new page has the type that is asked for.
pub start_page-type :
    (c : ConfMgr) (position : Option ℕ) (p : Page)
    → get_pagetype (start_page c position p) ≡ get_pagetype p
unfolding start_page get_pagetype content_type
start_page-type c position p = ground arith

pub start_page-added :
    (c : ConfMgr) (position : Option ℕ) (p : Page) → (start_page c position p).is_added ≡ p.is_added
unfolding start_page
start_page-added c position p = ground arith

pub new_page-count :
    (c : ConfMgr) (t type : PageType) (mode : ℕ) (position : Option ℕ)
    → (current_count t (new_page c type mode position) ≤ (if same_type type t then 1 else 0))
      × IsThere (new_page c type mode position)
unfolding new_page get_pagetype content_type
new_page-count c t type mode position = ground arith

pub recycled-count :
    (t : PageType) (m : WindMgr)
    → type_count t (recycled m) ≡ current_count t m.cur_showpage + type_count t m.page_recycle_list
unfolding recycled stopped get_pagetype
recycled-count t m = elim (Option-cases m.cur_showpage) [
  | inl e ↦ rw (recycled, e) (omega arith)
  | inr (p, e) ↦
      rw (recycled, e) (omega (arith, type_count-append t m.page_recycle_list (stopped p ∷ [])))
]

pub recycled-IsAway : (m : WindMgr) → All IsAway m.page_recycle_list → All IsAway (recycled m)
unfolding recycled stopped
recycled-IsAway m h = elim (Option-cases m.cur_showpage) [
  | inl e ↦ rw (recycled, e) h
  | inr (p, e) ↦
      rw (recycled, e) (All-append IsAway m.page_recycle_list (stopped p ∷ []) h ((refl, refl), tt))
]
