-- ===== src/Text/Replacing.antt =====
-- replace_all and stristr of src/common/comm_func.cc.
use cdroid_demo.Common.{
  ℕ, zero, suc, ◌+◌, ◌<◌, ◌≤◌, ◌≡◌, refl, sym, ◌∙◌, ap, Bool, true, false, ◌&&◌, List, [], ◌∷◌,
  ◌++◌, Option, none, some, arith, leb, ◌==◌, if◌then◌else◌, length, take, drop, length-append,
  length-drop, append_assoc, Bool-cases, Option-cases, inl, inr, length-take,
}
use cdroid_demo.Text.{upper, to_upper}

unfoldable pub is_prefix : List ℕ → List ℕ → Bool
is_prefix [] text = true
is_prefix (x ∷ xs) [] = false
is_prefix (x ∷ xs) (c ∷ cs) = x == c && is_prefix xs cs

-- The first place of a text within another.
unfoldable pub find_text : List ℕ → List ℕ → Option ℕ
unfolding is_prefix
find_text old [] = if is_prefix old [] then some 0 else none
find_text old (c ∷ cs) =
    let rest = find_text old cs in
    if is_prefix old (c ∷ cs) then some 0 else elim rest [ none ↦ none | some n ↦ some (suc n) ]

-- src.find(old_value, pos).
unfoldable pub find_from : List ℕ → List ℕ → ℕ → Option ℕ
unfolding find_text
find_from src old pos =
    if leb pos (length src)
    then elim (find_text old (drop pos src)) [ none ↦ none | some n ↦ some (pos + n) ]
    else none

-- src.replace(pos, old_value.length(), new_value).
unfoldable pub replace_at : List ℕ → List ℕ → List ℕ → ℕ → List ℕ
replace_at src old new pos = take pos src ++ new ++ drop (pos + length old) src

-- The loop from `pos`; `none` when the fuel runs out.
unfoldable pub replace_loop : ℕ → List ℕ → List ℕ → List ℕ → ℕ → Option (List ℕ)
unfolding find_from replace_at
replace_loop zero src old new pos = none
replace_loop (suc fuel) src old new pos = elim (find_from src old pos) [
  | none ↦ some src
  | some n ↦ replace_loop fuel (replace_at src old new n) old new (n + length new)
]

-- With a text to look for, each round takes a part of the source that is not looked at again.
unfoldable pub replace_all : List ℕ → List ℕ → List ℕ → Option (List ℕ)
unfolding replace_loop
replace_all src old new = replace_loop (suc (length src)) src old new 0

-- What the loop makes of the text behind `pos`.
unfoldable pub replaced : ℕ → List ℕ → List ℕ → List ℕ → List ℕ
unfolding find_text
replaced zero rest old new = rest
replaced (suc fuel) rest old new = elim (find_text old rest) [
  | none ↦ rest
  | some n ↦ take n rest ++ new ++ replaced fuel (drop (n + length old) rest) old new
]

is_prefix-length : (xs text : List ℕ) → is_prefix xs text ≡ true → length xs ≤ length text
unfolding is_prefix
is_prefix-length [] text h = omega arith
is_prefix-length (x ∷ xs) [] h = absurd (ground (arith, h))
is_prefix-length (x ∷ xs) (c ∷ cs) h = ground (arith, is_prefix-length xs cs)

-- What is found fits behind its place.
find_text-length :
    (old rest : List ℕ) (n : ℕ) → find_text old rest ≡ some n → n + length old ≤ length rest
unfolding find_text
find_text-length old [] n h = ground (arith, is_prefix-length old [])
find_text-length old (c ∷ cs) n h = elim (Bool-cases (is_prefix old (c ∷ cs))) [
  | inl e ↦ ground (arith, is_prefix-length old (c ∷ cs) e)
  | inr e ↦ elim (Option-cases (find_text old cs)) [
    | inl f ↦ absurd (ground (arith, h, e, f))
    | inr (m, f) ↦ ground (arith, find_text-length old cs m f)
  ]
]

drop-append_length : (xs ys : List ℕ) → drop (length xs) (xs ++ ys) ≡ ys
drop-append_length [] ys = refl
drop-append_length (x ∷ xs) ys = drop-append_length xs ys

drop-append_more : (xs ys : List ℕ) (n : ℕ) → drop (length xs + n) (xs ++ ys) ≡ drop n ys
drop-append_more [] ys n = ap (λ (m : ℕ). drop m ys) {x = 0 + n} {y = n} (omega arith)
drop-append_more (x ∷ xs) ys n =
    ap (λ (m : ℕ). drop m (x ∷ xs ++ ys)) {x = length (x ∷ xs) + n} {y = suc (length xs + n)}
      (omega arith)
    ∙ drop-append_more xs ys n

take-append_more : (xs ys : List ℕ) (n : ℕ) → take (length xs + n) (xs ++ ys) ≡ xs ++ take n ys
take-append_more [] ys n = ap (λ (m : ℕ). take m ys) {x = 0 + n} {y = n} (omega arith)
take-append_more (x ∷ xs) ys n =
    ap (λ (m : ℕ). take m (x ∷ xs ++ ys)) {x = length (x ∷ xs) + n} {y = suc (length xs + n)}
      (omega arith)
    ∙ ap (◌∷◌ x) (take-append_more xs ys n)

-- The search from the end of a text that is done is that of the rest.
find_from-append :
    (done rest old : List ℕ)
    → find_from (done ++ rest) old (length done)
      ≡ elim (find_text old rest) [ none ↦ none | some n ↦ some (length done + n) ]
unfolding find_from
find_from-append done rest old =
    let inside : leb (length done) (length (done ++ rest)) ≡ true =
      ground (arith, length-append done rest) in
    rw (inside, drop-append_length done rest) refl

-- Where a round goes on: behind what it put in.
replace_at-append :
    (done rest old new : List ℕ) (n : ℕ)
    → replace_at (done ++ rest) old new (length done + n)
      ≡ (done ++ take n rest ++ new) ++ drop (n + length old) rest
unfolding replace_at
replace_at-append done rest old new n =
    ap (λ t. t ++ new ++ drop (length done + n + length old) (done ++ rest))
      (take-append_more done rest n)
    ∙ ap (λ (m : ℕ). done ++ take n rest ++ new ++ drop m (done ++ rest))
        {x = length done + n + length old} {y = length done + (n + length old)} (omega arith)
    ∙ ap (λ t. done ++ take n rest ++ new ++ t) (drop-append_more done rest (n + length old))

-- The end of what a round is done with.
done_length :
    (done rest old new : List ℕ) (n : ℕ)
    → find_text old rest ≡ some n
    → length (done ++ take n rest ++ new) ≡ length done + n + length new
done_length done rest old new n e =
    length-append (done ++ take n rest) new
    ∙ ap (λ (m : ℕ). m + length new)
        (length-append done (take n rest)
          ∙ ap (λ (m : ℕ). length done + m)
              (omega (arith, length-take n rest, find_text-length old rest n e)))

replace_loop-replaced :
    (fuel : ℕ) (done rest old new : List ℕ)
    → 0 < length old
    → length rest < fuel
    → replace_loop fuel (done ++ rest) old new (length done)
      ≡ some (done ++ replaced fuel rest old new)
unfolding replaced replace_loop
replace_loop-replaced zero done rest old new p h = absurd (omega arith)
replace_loop-replaced (suc fuel) done rest old new p h = elim (Option-cases (find_text old rest)) [
  | inl e ↦ rw (replace_loop, find_from-append done rest old, e) (rw (replaced, e) refl)
  | inr (n, e) ↦
      rw (replace_loop, find_from-append done rest old, e)
        (ap (λ t. replace_loop fuel t old new (length done + n + length new))
            (replace_at-append done rest old new n)
          ∙ ap
              (λ (m : ℕ).
                replace_loop fuel ((done ++ take n rest ++ new) ++ drop (n + length old) rest) old
                  new m)
              {x = length done + n + length new} {y = length (done ++ take n rest ++ new)}
              (sym (done_length done rest old new n e))
          ∙ replace_loop-replaced fuel (done ++ take n rest ++ new) (drop (n + length old) rest) old
              new p
              (omega (arith, length-drop (n + length old) rest, find_text-length old rest n e))
          ∙ ap some (
              ap (λ t. t ++ replaced fuel (drop (n + length old) rest) old new)
                (append_assoc done (take n rest) new)
              ∙ append_assoc done (take n rest ++ new)
                  (replaced fuel (drop (n + length old) rest) old new)
              ∙ rw (replaced, e) refl))
]

-- With a text to look for that is not empty, replace_all ends within one round more than the text has
-- bytes, and the result is the text with each place where the old one stands, taken from the front and
-- behind the place before, given the new one; what was put in is not looked at again.
pub replace_all_lem :
    (src old new : List ℕ)
    → 0 < length old
    → replace_all src old new ≡ some (replaced (suc (length src)) src old new)
unfolding replace_all
replace_all_lem src old new h =
    replace_loop-replaced (suc (length src)) [] src old new h (omega arith)

find_text_empty : (text : List ℕ) → find_text [] text ≡ some 0
unfolding find_text is_prefix
find_text_empty [] = refl
find_text_empty (c ∷ cs) = refl

find_from_empty :
    (src : List ℕ) (pos : ℕ) → pos ≤ length src → find_from src [] pos ≡ some (pos + 0)
unfolding find_from
find_from_empty src pos h =
    let inside : leb pos (length src) ≡ true = ground (arith, h) in
    rw (inside, find_text_empty (drop pos src)) refl

length-replace_at :
    (src new : List ℕ) (pos : ℕ)
    → pos ≤ length src
    → pos + 0 + length new ≤ length (replace_at src [] new (pos + 0))
unfolding replace_at
length-replace_at src new pos h = omega (
  arith,
  length-append (take (pos + 0) src ++ new) (drop (pos + 0 + length {A = ℕ} []) src),
  length-append (take (pos + 0) src) new,
  length-take (pos + 0) src,
)

-- Looking for nothing, every round finds it where it stands and puts the new text in, without end.
pub replace_loop_empty :
    (fuel : ℕ) (src new : List ℕ) (pos : ℕ)
    → pos ≤ length src
    → replace_loop fuel src [] new pos ≡ none
unfolding replace_loop
replace_loop_empty zero src new pos h = refl
replace_loop_empty (suc fuel) src new pos h =
    rw (replace_loop, find_from_empty src pos h)
      (replace_loop_empty fuel (replace_at src [] new (pos + 0)) new (pos + 0 + length new)
        (length-replace_at src new pos h))

-- The inner loop of stristr.
unfoldable pub match_letters : List ℕ → List ℕ → Bool
match_letters str [] = true
match_letters [] (c ∷ cs) = false
match_letters (s ∷ str) (c ∷ cs) = upper s == upper c && match_letters str cs

-- The outer loop, which does not look at the end of the text.
unfoldable pub search_letters : List ℕ → List ℕ → Option ℕ
unfolding match_letters
search_letters [] str2 = none
search_letters (s ∷ str1) str2 =
    let rest = search_letters str1 str2 in
    if match_letters (s ∷ str1) str2
    then some 0
    else elim rest [ none ↦ none | some n ↦ some (suc n) ]

-- The place of the second text in the first; `none` is the null pointer. The texts are the bytes before
-- the ending zero.
unfoldable pub stristr : List ℕ → List ℕ → Option ℕ
unfolding search_letters
stristr str1 [] = some 0
stristr str1 (c ∷ cs) = search_letters str1 (c ∷ cs)

==-sym : (m n : ℕ) → (m == n) ≡ (n == m)
==-sym m n = ground arith

match_letters-is_prefix :
    (str cs : List ℕ) → match_letters str cs ≡ is_prefix (to_upper cs) (to_upper str)
unfolding match_letters is_prefix to_upper
match_letters-is_prefix str [] = refl
match_letters-is_prefix [] (c ∷ cs) = refl
match_letters-is_prefix (s ∷ str) (c ∷ cs) =
    ap (λ (b : Bool). (upper s == upper c) && b) (match_letters-is_prefix str cs)
    ∙ ap (λ (b : Bool). b && is_prefix (to_upper cs) (to_upper str)) (==-sym (upper s) (upper c))

search_letters-find_text :
    (str1 cs : List ℕ) (c : ℕ)
    → search_letters str1 (c ∷ cs) ≡ find_text (to_upper (c ∷ cs)) (to_upper str1)
unfolding search_letters find_text to_upper
search_letters-find_text [] cs c = refl
search_letters-find_text (s ∷ str1) cs c =
    rw (match_letters-is_prefix (s ∷ str1) (c ∷ cs), search_letters-find_text str1 cs c) refl

-- stristr gives the first place of the second text in the first one where both are read in upper case,
-- 0 when the second text is empty, and the null pointer when there is no such place.
pub stristr_lem :
    (str1 str2 : List ℕ) → stristr str1 str2 ≡ find_text (to_upper str2) (to_upper str1)
unfolding stristr to_upper
stristr_lem str1 [] = sym (find_text_empty (to_upper str1))
stristr_lem str1 (c ∷ cs) = search_letters-find_text str1 cs c
