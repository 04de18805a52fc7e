-- ===== src/Pages/Numerals.antt =====
-- Reading a number that was printed.
use cdroid_demo.Common.{
  ℕ, zero, suc, ◌+◌, ◌-◌, ◌*◌, ◌/◌, ◌%◌, ◌<◌, ◌≤◌, ◌≡◌, refl, sym, ◌∙◌, ap, Bool, true, false, List,
  [], ◌∷◌, ◌++◌, some, arith, ltb, append_assoc, ℤ, pos, negsuc, ◌-ℤ◌, Bool-cases, inl, inr,
}
use cdroid_demo.ConfMgr.{decimal, std_to_string, std_to_string_int}
use cdroid_demo.Pages.{
  is_digit, read_digits, drop_space, int_max, int_of_bits, to_int, stoi_digits, stoi_sign, std_stoi,
}

-- A text that is empty or does not go on with a digit.
abbrev pub IsEnd : List ℕ → Type 0
IsEnd [] = Unit
IsEnd (c ∷ cs) = is_digit c ≡ false

read_digits-end : (acc : ℕ) (rest : List ℕ) → IsEnd rest → read_digits acc rest ≡ acc
unfolding read_digits
read_digits-end acc [] h = refl
read_digits-end acc (c ∷ cs) h = rw h refl

read_digits-cons :
    (acc d : ℕ) (rest : List ℕ)
    → d < 10
    → read_digits acc ((48 + d) ∷ rest) ≡ read_digits (acc * 10 + d) rest
unfolding read_digits
read_digits-cons acc d rest h =
    let digit : is_digit (48 + d) ≡ true = ground arith in
    rw digit (
      ap (λ (n : ℕ). read_digits n rest) {x = acc * 10 + (48 + d - 48)} {y = acc * 10 + d}
        (omega arith))

-- The digits of a number are read as the number, and the reading goes on with what follows.
read_digits-decimal :
    (fuel n : ℕ) (rest : List ℕ)
    → n < fuel
    → read_digits 0 (decimal fuel n ++ rest) ≡ read_digits n rest
unfolding decimal
read_digits-decimal zero n rest h = absurd (omega arith)
read_digits-decimal (suc fuel) n rest h = elim (Bool-cases (ltb n 10)) [
  | inl e ↦
      rw (decimal, e)
        (read_digits-cons 0 n rest (ground (arith, e))
          ∙ ap (λ (m : ℕ). read_digits m rest) {x = 0 * 10 + n} {y = n} (omega arith))
  | inr e ↦
      rw (decimal, e)
        (ap (read_digits 0) (append_assoc (decimal fuel (n / 10)) ((48 + n % 10) ∷ []) rest)
          ∙ read_digits-decimal fuel (n / 10) ((48 + n % 10) ∷ rest) (ground (arith, e))
          ∙ read_digits-cons (n / 10) (n % 10) rest (omega arith)
          ∙ ap (λ (m : ℕ). read_digits m rest) {x = n / 10 * 10 + n % 10} {y = n} (omega arith))
]

-- A printed number starts with a digit.
decimal-digit :
    (fuel n : ℕ)
    → n < fuel
    → (c : ℕ) × (cs : List ℕ) × (decimal fuel n ≡ c ∷ cs) × (is_digit c ≡ true)
unfolding decimal
decimal-digit zero n h = absurd (omega arith)
decimal-digit (suc fuel) n h = elim (Bool-cases (ltb n 10)) [
  | inl e ↦ (48 + n, [], rw (decimal, e) refl, ground (arith, e))
  | inr e ↦
      (let (c, cs, p, q) = decimal-digit fuel (n / 10) (ground (arith, e)) in
        (c, cs ++ (48 + n % 10) ∷ [], rw (decimal, e, p) refl, q))
]

-- A minus, or none.
abbrev magnitude : Bool → ℕ → ℤ
magnitude true n = pos 0 -ℤ pos n
magnitude false n = pos n

stoi_digits_cons :
    (is_negative : Bool) (c : ℕ) (cs : List ℕ) (n : ℕ)
    → is_digit c ≡ true
    → read_digits 0 (c ∷ cs) ≡ n
    → n ≤ int_max
    → stoi_digits is_negative (c ∷ cs) ≡ some (magnitude is_negative n)
unfolding stoi_digits
stoi_digits_cons true c cs n d e h = ground arith
stoi_digits_cons false c cs n d e h = ground arith

-- The first character of a printed number, with the rest of the text.
pub printed :
    (n : ℕ) (rest : List ℕ)
    → (c : ℕ) × (cs : List ℕ) × (std_to_string n ++ rest ≡ c ∷ cs) × (is_digit c ≡ true)
unfolding std_to_string
printed n rest =
    let (c, cs, p, q) = decimal-digit (suc n) n (omega arith) in
    (c, cs ++ rest, ap (λ text. text ++ rest) p, q)

pub read_digits-std_to_string :
    (n : ℕ) (rest : List ℕ) → IsEnd rest → read_digits 0 (std_to_string n ++ rest) ≡ n
unfolding std_to_string
read_digits-std_to_string n rest e =
    read_digits-decimal (suc n) n rest (omega arith) ∙ read_digits-end n rest e

stoi_digits-std_to_string :
    (is_negative : Bool) (n : ℕ) (rest : List ℕ)
    → n ≤ int_max
    → IsEnd rest
    → stoi_digits is_negative (std_to_string n ++ rest) ≡ some (magnitude is_negative n)
stoi_digits-std_to_string is_negative n rest h e =
    let (c, cs, p, q) = printed n rest in
    ap (stoi_digits is_negative) p
    ∙ stoi_digits_cons is_negative c cs n q
        (ap (read_digits 0) (sym p) ∙ read_digits-std_to_string n rest e) h

std_stoi_digit :
    (c : ℕ) (cs : List ℕ) → is_digit c ≡ true → std_stoi (c ∷ cs) ≡ stoi_digits false (c ∷ cs)
unfolding std_stoi stoi_sign drop_space stoi_digits
std_stoi_digit c cs d = ground arith

std_stoi_minus : (cs : List ℕ) → std_stoi (45 ∷ cs) ≡ stoi_digits true cs
unfolding std_stoi stoi_sign drop_space
std_stoi_minus cs = refl

-- The numbers that an int holds, but for the least one.
abbrev pub IsInt : ℤ → Type 0
IsInt (pos n) = n ≤ int_max
IsInt (negsuc n) = suc n ≤ int_max

-- std::stoi reads what std::to_string printed, whatever follows it that is not a digit.
pub std_stoi-std_to_string_int :
    (z : ℤ) (rest : List ℕ) → IsInt z → IsEnd rest → std_stoi (std_to_string_int z ++ rest) ≡ some z
unfolding std_to_string_int ◌-ℤ◌
std_stoi-std_to_string_int (pos n) rest h e =
    let (c, cs, p, q) = printed n rest in
    ap std_stoi p
    ∙ std_stoi_digit c cs q
    ∙ ap (stoi_digits false) (sym p)
    ∙ stoi_digits-std_to_string false n rest h e
std_stoi-std_to_string_int (negsuc n) rest h e =
    std_stoi_minus (std_to_string (suc n) ++ rest)
    ∙ stoi_digits-std_to_string true (suc n) rest h e
    ∙ ap some negated
  where
    negated : pos 0 -ℤ pos (suc n) ≡ negsuc n
    negated = ground arith

-- An int is itself.
pub to_int-int : (z : ℤ) → IsInt z → to_int z ≡ z
unfolding to_int int_of_bits ◌-ℤ◌
to_int-int (pos n) h = ground arith
to_int-int (negsuc n) h = ground arith
