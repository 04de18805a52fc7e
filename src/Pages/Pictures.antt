-- ===== src/Pages/Pictures.antt =====
-- The pictures of a mode.
use cdroid_demo.Common.{
  ℕ, zero, suc, ◌+◌, ◌%◌, ◌<◌, ◌≡◌, refl, ◌∙◌, ap, List, [], some, arith, get_or,
}
use cdroid_demo.Pages.{WaterModify, image_dirs, next_dir, first_dir, same_text, change_picture}

abbrev pub picture : ℕ → List ℕ
picture i = get_or image_dirs i []

next_dir_all :
    (i : ℕ)
    → i < 11
    → next_dir (first_dir image_dirs) image_dirs (picture i) ≡ some (picture ((i + 1) % 11))
unfolding next_dir first_dir same_text
next_dir_all zero h = refl
next_dir_all (suc zero) h = refl
next_dir_all (suc (suc zero)) h = refl
next_dir_all (suc (suc (suc zero))) h = refl
next_dir_all (suc (suc (suc (suc zero)))) h = refl
next_dir_all (suc (suc (suc (suc (suc zero))))) h = refl
next_dir_all (suc (suc (suc (suc (suc (suc zero)))))) h = refl
next_dir_all (suc (suc (suc (suc (suc (suc (suc zero))))))) h = refl
next_dir_all (suc (suc (suc (suc (suc (suc (suc (suc zero)))))))) h = refl
next_dir_all (suc (suc (suc (suc (suc (suc (suc (suc (suc zero))))))))) h = refl
next_dir_all (suc (suc (suc (suc (suc (suc (suc (suc (suc (suc zero)))))))))) h = refl
next_dir_all (suc (suc (suc (suc (suc (suc (suc (suc (suc (suc (suc i))))))))))) h =
    absurd (omega arith)

unfoldable pub change_pictures : ℕ → WaterModify → WaterModify
change_pictures zero w = w
change_pictures (suc n) w = change_picture (change_pictures n w)

-- From a page with one of the 11 pictures, `n` presses of the picture's button lead `n` places on in
-- the list, which goes round, and the page shows the picture that it keeps for the mode after
-- every press.
pub change_pictures_lem :
    (w : WaterModify) (i n : ℕ)
    → i < 11
    → w.tmp_if_set.image_dir ≡ picture i
    → w.display_picture ≡ picture i
    → ((change_pictures n w).tmp_if_set.image_dir ≡ picture ((i + n) % 11))
      × ((change_pictures n w).display_picture ≡ picture ((i + n) % 11))
unfolding change_pictures change_picture
change_pictures_lem w i zero h e f =
    let same : i ≡ (i + 0) % 11 = omega arith in (e ∙ ap picture same, f ∙ ap picture same)
change_pictures_lem w i (suc n) h e f =
    let before = (change_pictures_lem w i n h e f).0 in
    let found =
      ap (next_dir (first_dir image_dirs) image_dirs) before
      ∙ next_dir_all ((i + n) % 11) (omega arith) in
    let place : ((i + n) % 11 + 1) % 11 ≡ (i + suc n) % 11 = omega arith in
    rw (change_picture, found) (ap picture place, ap picture place)
