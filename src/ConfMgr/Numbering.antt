-- ===== src/ConfMgr/Numbering.antt =====
-- The positions of the modes count from 1, whatever is done to the list.
use cdroid_demo.Common.{
  ℕ, zero, suc, ◌+◌, ◌-◌, ◌≤◌, ◌<◌, ◌≡◌, ◌≢◌, refl, sym, ap, ap₂, ◌∙◌, List, [], ◌∷◌, ◌++◌, none,
  some, length, set, set-set_self, set-set_ne, length-set, true, false, get_or-set_self,
  get_or-set_ne, arith, leb,
}
use cdroid_demo.ConfMgr.{
  insert_by_pos, sort_by_pos, compare_by_pos, init, ConfMgr, ModeData, update_mode_data_by_pos,
  erase_at, renumber_from, delete_mode_data, mode_at, swap_modes, swap_positions, moved_mode, save,
}

-- The modes with their positions counted from `k`.
unfoldable pub number : ℕ → List ModeData → List ModeData
number k [] = []
number k (m ∷ ms) = record m { data_pos = k } ∷ number (suc k) ms

abbrev pub IsNumbered : ConfMgr → Type 0
IsNumbered c = number 1 c.mode_data_list ≡ c.mode_data_list

number-number : (j k : ℕ) (ms : List ModeData) → number j (number k ms) ≡ number j ms
unfolding number
number-number j k [] = refl
number-number j k (m ∷ ms) = ap (◌∷◌ (record m { data_pos = j })) (number-number (suc j) (suc k) ms)

number-append :
    (k : ℕ) (ms : List ModeData) (m : ModeData)
    → number k (ms ++ m ∷ []) ≡ number k ms ++ record m { data_pos = k + length ms } ∷ []
unfolding number
number-append k [] m = ap (λ n. record m { data_pos = n } ∷ []) (omega arith)
number-append k (n ∷ ms) m = ap (◌∷◌ (record n { data_pos = k })) (
    number-append (suc k) ms m
    ∙ ap (λ i. number (suc k) ms ++ record m { data_pos = i } ∷ []) (omega arith))

number-set :
    (k : ℕ) (ms : List ModeData) (i : ℕ) (m : ModeData)
    → number k (set ms i m) ≡ set (number k ms) i (record m { data_pos = k + i })
unfolding number
number-set k [] i m = refl
number-set k (n ∷ ms) zero m = ap (λ j. record m { data_pos = j } ∷ number (suc k) ms) (omega arith)
number-set k (n ∷ ms) (suc i) m = ap (◌∷◌ (record n { data_pos = k })) (
    number-set (suc k) ms i m
    ∙ ap (λ j. set (number (suc k) ms) i (record m { data_pos = j })) (omega arith))

-- Entries from the position on move down by one, those before it stay.
renumber_behind :
    (i position k : ℕ) (ms : List ModeData)
    → position ≤ i
    → renumber_from i position (number (suc k) ms) ≡ number k ms
unfolding number renumber_from
renumber_behind i position k [] h = refl
renumber_behind i position k (m ∷ ms) h =
    let first : leb position i ≡ true = ground arith in
    rw first (
      ap₂ (λ (p : ℕ) r. record m { data_pos = p } ∷ r) {x = suc k - 1} {y = k} (omega arith)
        (renumber_behind (i + 1) position (suc k) ms (omega arith)))

renumber-erase_at :
    (i j position k : ℕ) (ms : List ModeData)
    → position ≡ i + j
    → renumber_from i position (erase_at (number k ms) j) ≡ number k (erase_at ms j)
unfolding number renumber_from erase_at
renumber-erase_at i j position k [] e = refl
renumber-erase_at i zero position k (m ∷ ms) e = renumber_behind i position k ms (omega arith)
renumber-erase_at i (suc j) position k (m ∷ ms) e =
    let first : leb position i ≡ false = ground arith in
    rw first (
      ap (◌∷◌ (record m { data_pos = k }))
        (renumber-erase_at (i + 1) j position (suc k) ms (omega arith)))

-- Deleting a mode closes the gap: the others follow each other in the same order, numbered from 1.
pub delete_mode_data-number :
    (c : ConfMgr) (position : ℕ)
    → IsNumbered c
    → (delete_mode_data c position).mode_data_list ≡ number 1 (erase_at c.mode_data_list position)
unfolding delete_mode_data save
delete_mode_data-number c position v =
    ap (λ ms. renumber_from 0 position (erase_at ms position)) (sym v)
    ∙ renumber-erase_at 0 position position 1 c.mode_data_list (omega arith)

number-mode_at :
    (k : ℕ) (ms : List ModeData) (i : ℕ)
    → i < length ms
    → (mode_at (number k ms) i).data_pos ≡ k + i
unfolding number
number-mode_at k [] i h = absurd (omega arith)
number-mode_at k (m ∷ ms) zero h = omega arith
number-mode_at k (m ∷ ms) (suc i) h = omega (arith, number-mode_at (suc k) ms i (omega arith))

pub add_mode_data-number :
    (c : ConfMgr) (m : ModeData)
    → IsNumbered c
    → (update_mode_data_by_pos c m none).mode_data_list ≡ number 1 (c.mode_data_list ++ m ∷ [])
unfolding update_mode_data_by_pos save
add_mode_data-number c m v =
    ap₂ (λ ms (n : ℕ). ms ++ record m { data_pos = n } ∷ []) (sym v) (omega arith)
    ∙ sym (number-append 1 c.mode_data_list m)

-- A mode that is added stands last, and one that is written over with its own position stays
-- where it is; the numbers count from 1 in both cases.
pub update_mode_data-number :
    (c : ConfMgr) (m : ModeData) (position : ℕ)
    → IsNumbered c
    → m.data_pos ≡ position + 1
    → ((update_mode_data_by_pos c m none).mode_data_list ≡ number 1 (c.mode_data_list ++ m ∷ []))
      × ((update_mode_data_by_pos c m (some position)).mode_data_list
          ≡ number 1 (set c.mode_data_list position m))
unfolding update_mode_data_by_pos save
update_mode_data-number c m position v e = (
  add_mode_data-number c m v,
  ap₂ (λ ms (n : ℕ). set ms position (record m { data_pos = n })) (sym v) (e ∙ omega arith)
      ∙ sym (number-set 1 c.mode_data_list position m),
)

-- Of four writes to two places, the later two stay.
set_twice :
    (ms : List ModeData) (i j : ℕ) (a b c d : ModeData)
    → i ≢ j
    → set (set (set (set ms i a) j b) i c) j d ≡ set (set ms i c) j d
set_twice ms i j a b c d ne =
    ap (λ l. set l j d)
      (set-set_ne (set ms i a) j i b c (λ e. ne (sym e))
        ∙ ap (λ l. set l j b) (set-set_self ms i a c))
    ∙ set-set_self (set ms i c) j b d

-- Moving a mode exchanges two modes, but not their numbers.
pub moved_mode-number :
    (c : ConfMgr) (from to : ℕ)
    → IsNumbered c
    → from < length c.mode_data_list
    → to < length c.mode_data_list
    → from ≢ to
    → (moved_mode c from to).mode_data_list ≡ number 1 (swap_modes c.mode_data_list from to)
unfolding moved_mode save swap_modes swap_positions
moved_mode-number c from to v h k ne =
    ap₂ (λ x y. set (set w from x) to y) first second
    ∙ set_twice c.mode_data_list from to b a b' a' ne
    ∙ sym (
        number-set 1 (set c.mode_data_list from b) to a
        ∙ ap (λ l. set l to a') (number-set 1 c.mode_data_list from b ∙ ap (λ l. set l from b') v))
  where
    a : ModeData
    a = mode_at c.mode_data_list from

    b : ModeData
    b = mode_at c.mode_data_list to

    a' : ModeData
    a' = record a { data_pos = 1 + to }

    b' : ModeData
    b' = record b { data_pos = 1 + from }

    w : List ModeData
    w = swap_modes c.mode_data_list from to

    at_from : mode_at w from ≡ b
    at_from =
        get_or-set_ne (set c.mode_data_list from b) to from a _ (λ e. ne (sym e))
        ∙ get_or-set_self c.mode_data_list from b _ h

    at_to : mode_at w to ≡ a
    at_to =
        get_or-set_self (set c.mode_data_list from b) to a _
          (omega (arith, k, length-set c.mode_data_list from b))

    position : (i : ℕ) → i < length c.mode_data_list → (mode_at c.mode_data_list i).data_pos ≡ 1 + i
    position i l =
        ap (λ ms. (mode_at ms i).data_pos) (sym v) ∙ number-mode_at 1 c.mode_data_list i l

    first : record (mode_at w from) { data_pos = (mode_at w to).data_pos } ≡ b'
    first =
        ap₂ (λ (m n : ModeData). record m { data_pos = n.data_pos }) at_from at_to
        ∙ ap (λ (n : ℕ). record b { data_pos = n }) (position from h)

    second :
        record (mode_at
          (set w from (record (mode_at w from) { data_pos = (mode_at w to).data_pos }))
          to) { data_pos = (mode_at w from).data_pos }
        ≡ a'
    second =
        ap₂ (λ (m n : ModeData). record m { data_pos = n.data_pos })
          (get_or-set_ne w from to _ _ ne ∙ at_to) at_from
        ∙ ap (λ (n : ℕ). record a { data_pos = n }) (position to k)

-- What is a numbered list is numbered.
pub number-IsNumbered :
    (c : ConfMgr) (ms : List ModeData) → c.mode_data_list ≡ number 1 ms → IsNumbered c
number-IsNumbered c ms e = ap (number 1) e ∙ number-number 1 1 ms ∙ sym e

pub mode_at-data_pos :
    (c : ConfMgr) (i : ℕ)
    → IsNumbered c
    → i < length c.mode_data_list
    → (mode_at c.mode_data_list i).data_pos ≡ i + 1
mode_at-data_pos c i v h =
    ap (λ ms. (mode_at ms i).data_pos) (sym v) ∙ number-mode_at 1 c.mode_data_list i h ∙ omega arith

insert_by_pos-number :
    (k : ℕ) (m : ModeData) (ms : List ModeData)
    → insert_by_pos (record m { data_pos = k }) (number (suc k) ms)
      ≡ record m { data_pos = k } ∷ number (suc k) ms
unfolding insert_by_pos number compare_by_pos
insert_by_pos-number k m [] = refl
insert_by_pos-number k m (n ∷ ms) = ground arith

sort_by_pos-number : (k : ℕ) (ms : List ModeData) → sort_by_pos (number k ms) ≡ number k ms
unfolding sort_by_pos number
sort_by_pos-number k [] = refl
sort_by_pos-number k (m ∷ ms) =
    ap (insert_by_pos (record m { data_pos = k })) (sort_by_pos-number (suc k) ms)
    ∙ insert_by_pos-number k m ms

-- A numbered list is in the order of its positions already.
pub init-IsNumbered :
    (c : ConfMgr) → IsNumbered c → (init c.mode_data_list).mode_data_list ≡ c.mode_data_list
unfolding init
init-IsNumbered c v = ap sort_by_pos (sym v) ∙ sort_by_pos-number 1 c.mode_data_list ∙ v
