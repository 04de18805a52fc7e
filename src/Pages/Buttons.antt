-- ===== src/Pages/Buttons.antt =====
-- What the buttons of the page that edits a mode do.
use cdroid_demo.Common.{
  ℕ, ◌≡◌, refl, sym, ◌∙◌, ap, subst, List, ◌++◌, some, ℤ, pos, ◌+ℤ◌, ◌-ℤ◌, +ℤ-ℤ_cancel,
}
use cdroid_demo.ConfMgr.{std_to_string_int}
use cdroid_demo.Pages.{
  WaterModify, degrees, millilitres, std_stoi, Item, temperature_item, water_item, Direction, minus,
  add, shift, set_item, item_text, item_offset, press_button,
}
use cdroid_demo.Pages.Numerals.{IsInt, IsEnd, std_stoi-std_to_string_int, to_int-int}

abbrev pub unit_text : Item → List ℕ
unit_text temperature_item = degrees
unit_text water_item = millilitres

-- The text of a number with the unit of the item.
abbrev pub shows : Item → ℤ → List ℕ
shows item z = std_to_string_int z ++ unit_text item

-- What the page would write into the mode.
abbrev pub kept : WaterModify → Item → List ℕ
kept w temperature_item = w.tmp_if_set.temperature
kept w water_item = std_to_string_int w.tmp_if_set.chu_shui_liang

abbrev pub other : Item → Item
other temperature_item = water_item
other water_item = temperature_item

unit_text-IsEnd : (item : Item) → IsEnd (unit_text item)
unit_text-IsEnd temperature_item = refl
unit_text-IsEnd water_item = refl

press_button-some :
    (w : WaterModify) (item : Item) (d : Direction) (z : ℤ)
    → IsInt z
    → item_text w item ≡ shows item z
    → press_button w item d ≡ some (set_item w item (shift d z (item_offset item)))
unfolding press_button
press_button-some w item d z h e =
    let read : std_stoi (item_text w item) ≡ some z =
      ap std_stoi e ∙ std_stoi-std_to_string_int z (unit_text item) h (unit_text-IsEnd item) in
    rw (press_button, read) refl

set_item-shows :
    (w : WaterModify) (item : Item) (z : ℤ)
    → (item_text (set_item w item z) item ≡ shows item z)
      × (kept (set_item w item z) item ≡ std_to_string_int z)
      × (item_text (set_item w item z) (other item) ≡ item_text w (other item))
      × (kept (set_item w item z) (other item) ≡ kept w (other item))
unfolding set_item
set_item-shows w temperature_item z = (refl, refl, refl, refl)
set_item-shows w water_item z = (refl, refl, refl, refl)

-- The number that a button leads to.
abbrev pub moved : Direction → ℤ → Item → ℤ
moved minus z item = z -ℤ pos (item_offset item)
moved add z item = z +ℤ pos (item_offset item)

shift-moved :
    (d : Direction) (z : ℤ) (item : Item)
    → IsInt (moved d z item)
    → shift d z (item_offset item) ≡ moved d z item
unfolding shift
shift-moved minus z item h = to_int-int (moved minus z item) h
shift-moved add z item h = to_int-int (moved add z item) h

press_button-moved :
    (w : WaterModify) (item : Item) (d : Direction) (z : ℤ)
    → IsInt z
    → IsInt (moved d z item)
    → item_text w item ≡ shows item z
    → press_button w item d ≡ some (set_item w item (moved d z item))
press_button-moved w item d z h k e =
    press_button-some w item d z h e
    ∙ ap (λ (r : ℤ). some (set_item w item r)) (shift-moved d z item k)

-- On a page that shows a number of an item with its unit, where this number and the one that is 1 degree
-- or 50 mL less or more are ints, a button of the item reads that number, takes 1 degree or 50 mL
-- away or adds it, shows the result with the unit, and keeps it for the mode; what the page shows and
-- keeps of the other item does not change.
pub press_button_lem :
    (w : WaterModify) (item : Item) (d : Direction) (z : ℤ)
    → IsInt z
    → IsInt (moved d z item)
    → item_text w item ≡ shows item z
    → (v : WaterModify) × (press_button w item d ≡ some v)
      × (item_text v item ≡ shows item (moved d z item))
      × (kept v item ≡ std_to_string_int (moved d z item))
      × (item_text v (other item) ≡ item_text w (other item))
      × (kept v (other item) ≡ kept w (other item))
press_button_lem w item d z h k e =
    let (a, b, c, f) = set_item-shows w item (moved d z item) in
    (_, press_button-moved w item d z h k e, a, b, c, f)

-- On a page that shows a number of an item with its unit, where 1 or 50 more is an int too, the
-- button that adds and then the one that takes away lead to the text that was shown.
pub press_button-press_button :
    (w : WaterModify) (item : Item) (z : ℤ)
    → IsInt z
    → IsInt (moved add z item)
    → item_text w item ≡ shows item z
    → (v u : WaterModify) × (press_button w item add ≡ some v)
      × (press_button v item minus ≡ some u)
      × (item_text u item ≡ item_text w item)
press_button-press_button w item z h k e =
    let more = moved add z item in
    let v = set_item w item more in
    let back = +ℤ-ℤ_cancel z (pos (item_offset item)) in
    (
      v,
      set_item v item (more -ℤ pos (item_offset item)),
      press_button-moved w item add z h k e,
      press_button-moved v item minus more k (subst IsInt (sym back) h)
          (set_item-shows w item more).0,
      (set_item-shows v item (more -ℤ pos (item_offset item))).0 ∙ ap (shows item) back ∙ sym e,
    )
