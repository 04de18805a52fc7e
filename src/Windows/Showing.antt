-- ===== src/Windows/Showing.antt =====
-- What Show_Page shows.
use cdroid_demo.Common.{
  ℕ, ◌+◌, ◌≤◌, ◌≡◌, refl, sym, ◌∙◌, ap, true, Option, none, some, arith, if◌then◌else◌, Bool-cases,
  Option-cases, inl, inr,
}
use cdroid_demo.ConfMgr.{ConfMgr}
use cdroid_demo.Windows.{
  PageType, page_none, page_home, page_steam_barbecue, page_water_mode_layout, page_water_modify,
  page_water_add, same_type, content_type, Page, get_pagetype, start_page, new_page, WindMgr,
  find_page, recycled, is_current, change_page, show_page,
}
use cdroid_demo.Windows.Sound.{same_type-eq, find_page-type}
use cdroid_demo.Windows.Unique.{
  type_count, IsAway, IsTidy, type_count-none, type_count-erase, erase_page-All, start_page-type,
  start_page-added, new_page-count, recycled-count, recycled-IsAway,
}

module _ (m : WindMgr) (type : PageType) (mode : ℕ) (position : Option ℕ) where
  found-IsTidy :
      (p : Page)
      → find_page type (recycled m) ≡ some p
      → IsTidy m
      → IsTidy (change_page m type mode position)
  unfolding change_page
  found-IsTidy p e i =
      rw (change_page, e)
        (record {
          unique = λ t. omega (
            arith,
            i.unique t,
            recycled-count t m,
            type_count-erase t type (recycled m) p e,
            ap {B = ℕ} (λ (k : PageType). if same_type k t then 1 else 0)
                (start_page-type m.conf position (record p { is_added = true })),
          );
          away = erase_page-All IsAway type (recycled m) (recycled-IsAway m i.away);
          there = start_page-added m.conf position (record p { is_added = true });
        })

  missing_unique :
      (t : PageType)
      → find_page type (recycled m) ≡ none
      → IsTidy m
      → (if same_type type t then 1 else 0) + type_count t (recycled m) ≤ 1
  missing_unique t e i = elim (Bool-cases (same_type type t)) [
    | inl s ↦ rw s (
        omega (
          arith,
          ap (λ k. type_count k (recycled m)) (sym (same_type-eq type t s)),
          type_count-none type (recycled m) e,
        ))
    | inr s ↦ rw s (omega (arith, i.unique t, recycled-count t m))
  ]

  missing-IsTidy :
      find_page type (recycled m) ≡ none → IsTidy m → IsTidy (change_page m type mode position)
  unfolding change_page
  missing-IsTidy e i =
      rw (change_page, e)
        (record {
          unique = λ t.
              omega (arith, missing_unique t e i, (new_page-count m.conf t type mode position).0);
          away = recycled-IsAway m i.away;
          there = (new_page-count m.conf type type mode position).1;
        })

  pub show_page-IsTidy : IsTidy m → IsTidy (show_page m type mode position)
  unfolding show_page
  show_page-IsTidy i = elim (Bool-cases (is_current m type)) [
    | inl c ↦ rw (show_page, c) i
    | inr c ↦
        rw (show_page, c)
          (elim (Option-cases (find_page type (recycled m))) [
            | inl e ↦ missing-IsTidy e i
            | inr (p, e) ↦ found-IsTidy p e i
          ])
  ]

-- A page that can be built.
abbrev pub IsBuilt : PageType → Option ℕ → Type 0
IsBuilt page_none position = ⊥
IsBuilt page_water_modify none = ⊥
IsBuilt _ position = Unit

new_page-some :
    (c : ConfMgr) (type : PageType) (mode : ℕ) (position : Option ℕ)
    → IsBuilt type position
    → (p : Page) × (new_page c type mode position ≡ some p) × (get_pagetype p ≡ type)
unfolding new_page get_pagetype content_type
new_page-some c page_none mode position b = absurd b
new_page-some c page_home mode position b = (_, refl, refl)
new_page-some c page_steam_barbecue mode position b = (_, refl, refl)
new_page-some c page_water_mode_layout mode position b = (_, refl, refl)
new_page-some c page_water_modify mode none b = absurd b
new_page-some c page_water_modify mode (some i) b = (_, refl, refl)
new_page-some c page_water_add mode position b = (_, refl, refl)

-- What is shown has the type.
abbrev pub Shows : WindMgr → PageType → Type 0
Shows m type = (p : Page) × (m.cur_showpage ≡ some p) × (get_pagetype p ≡ type)

change_page-Shows :
    (m : WindMgr) (type : PageType) (mode : ℕ) (position : Option ℕ)
    → IsBuilt type position
    → Shows (change_page m type mode position) type
unfolding change_page
change_page-Shows m type mode position b = elim (Option-cases (find_page type (recycled m))) [
  | inl e ↦
      (let (p, f, g) = new_page-some m.conf type mode position b in (p, rw (change_page, e) f, g))
  | inr (p, e) ↦ (
    start_page m.conf position (record p { is_added = true }),
    rw (change_page, e) refl,
    start_page-type m.conf position (record p { is_added = true })
        ∙ find_page-type type (recycled m) p e,
  )
]

current-Shows : (m : WindMgr) (type : PageType) → is_current m type ≡ true → Shows m type
unfolding is_current
current-Shows m type c = elim (Option-cases m.cur_showpage) [
  | inl e ↦ absurd (ground (arith, c, e))
  | inr (p, e) ↦ (p, e, same_type-eq (get_pagetype p) type (ground (arith, c, e)))
]

-- Show_Page for one of the five pages, with a position where a mode is to be changed, leaves that page
-- in the window; all other pages are out of it with their clocks stopped, and there are never two
-- pages of one type.
pub show_page-Shows :
    (m : WindMgr) (type : PageType) (mode : ℕ) (position : Option ℕ)
    → IsBuilt type position
    → IsTidy m
    → Shows (show_page m type mode position) type × IsTidy (show_page m type mode position)
unfolding show_page
show_page-Shows m type mode position b i = (shows, show_page-IsTidy m type mode position i)
  where
    shows : Shows (show_page m type mode position) type
    shows = elim (Bool-cases (is_current m type)) [
      | inl c ↦ (let (p, e, f) = current-Shows m type c in (p, rw (show_page, c) e, f))
      | inr c ↦
          (let (p, e, f) = change_page-Shows m type mode position b in (p, rw (show_page, c) e, f))
    ]
