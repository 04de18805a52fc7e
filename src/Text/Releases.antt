-- ===== src/Text/Releases.antt =====
-- The versions of src/common/comm_func.cc as texts: getMCUVersion prints one and splitVersion reads one.
use cdroid_demo.Common.{
  ℕ, zero, suc, ◌+◌, ◌/◌, ◌%◌, ◌<◌, ◌≤◌, ◌≡◌, refl, sym, ap, ◌∙◌, false, List, [], ◌∷◌, ◌++◌,
  Option, none, some, All, arith, ltb, ◌==◌, length, length-append, drop, append_assoc, append-nil,
  map, ℤ, pos, Bool-cases, inl, inr,
}
use cdroid_demo.ConfMgr.{codes, decimal, std_to_string, std_to_string_int}
use cdroid_demo.Pages.{std_stoi, int_max}
use cdroid_demo.Pages.Numerals.{std_stoi-std_to_string_int}
use cdroid_demo.Text.{find_char}

unfoldable pub get_mcu_version : ℕ → List ℕ
get_mcu_version version =
    codes "MCU : V1."
    ++ std_to_string (version / 100)
    ++ codes "."
    ++ std_to_string (version % 100 / 10)
    ++ codes "."
    ++ std_to_string (version % 10)

-- std::getline up to the dots (46): the last piece is left out if it is empty.
unfoldable pub get_lines : ℕ → List ℕ → List (List ℕ)
get_lines zero text = []
get_lines (suc fuel) [] = []
get_lines (suc fuel) (c ∷ cs) = elim (find_char 46 (c ∷ cs)) [
  | none ↦ (c ∷ cs) ∷ []
  | some (before, behind) ↦ before ∷ get_lines fuel behind
]

-- std::stoi of each; `none` is the exception that splitVersion does not catch.
unfoldable pub stoi_all : List (List ℕ) → Option (List ℤ)
stoi_all [] = some []
stoi_all (part ∷ parts) =
    let rest = stoi_all parts in
    elim (std_stoi part) [
      | none ↦ none
      | some n ↦ elim rest [ none ↦ none | some ns ↦ some (n ∷ ns) ]
    ]

-- A round takes a byte at least.
unfoldable pub split_version : List ℕ → Option (List ℤ)
unfolding get_lines stoi_all
split_version version = stoi_all (get_lines (length version) version)

-- Numbers with dots between.
abbrev pub dotted : ℕ → List ℕ → List ℕ
dotted n [] = std_to_string n
dotted n (m ∷ ms) = std_to_string n ++ 46 ∷ dotted m ms

abbrev NoDot : ℕ → Type 0
NoDot c = (c == 46) ≡ false

append-NoDot : (xs ys : List ℕ) → All NoDot xs → All NoDot ys → All NoDot (xs ++ ys)
append-NoDot [] ys h k = k
append-NoDot (x ∷ xs) ys h k = (h.0, append-NoDot xs ys h.1 k)

decimal-NoDot : (fuel n : ℕ) → All NoDot (decimal fuel n)
unfolding decimal
decimal-NoDot zero n = tt
decimal-NoDot (suc fuel) n = elim (Bool-cases (ltb n 10)) [
  | inl e ↦ rw (decimal, e) (ground arith, tt)
  | inr e ↦
      rw (decimal, e)
        (append-NoDot (decimal fuel (n / 10)) ((48 + n % 10) ∷ []) (decimal-NoDot fuel (n / 10))
          (ground arith, tt))
]

std_to_string-NoDot : (n : ℕ) → All NoDot (std_to_string n)
unfolding std_to_string
std_to_string-NoDot n = decimal-NoDot (suc n) n

find_dot : (xs ys : List ℕ) → All NoDot xs → find_char 46 (xs ++ 46 ∷ ys) ≡ some (xs, ys)
unfolding find_char
find_dot [] ys h = refl
find_dot (x ∷ xs) ys h = rw (h.0, find_dot xs ys h.1) refl

find_dot_none : (xs : List ℕ) → All NoDot xs → find_char 46 xs ≡ none
unfolding find_char
find_dot_none [] h = refl
find_dot_none (x ∷ xs) h = rw (h.0, find_dot_none xs h.1) refl

get_lines-last :
    (fuel : ℕ) (xs : List ℕ)
    → 0 < length xs
    → length xs ≤ fuel
    → All NoDot xs
    → get_lines fuel xs ≡ xs ∷ []
unfolding get_lines
get_lines-last fuel [] p h k = absurd (omega arith)
get_lines-last zero (x ∷ xs) p h k = absurd (omega arith)
get_lines-last (suc fuel) (x ∷ xs) p h k = rw (get_lines, find_dot_none (x ∷ xs) k) refl

get_lines-dot :
    (fuel : ℕ) (xs ys : List ℕ)
    → 0 < length xs
    → All NoDot xs
    → get_lines (suc fuel) (xs ++ 46 ∷ ys) ≡ xs ∷ get_lines fuel ys
unfolding get_lines
get_lines-dot fuel [] ys p k = absurd (omega arith)
get_lines-dot fuel (x ∷ xs) ys p k = rw (get_lines, find_dot (x ∷ xs) ys k) refl

length-std_to_string : (n : ℕ) → 0 < length (std_to_string n)
unfolding std_to_string decimal
length-std_to_string n = elim (Bool-cases (ltb n 10)) [
  | inl e ↦ rw e (omega arith)
  | inr e ↦ rw e (omega (arith, length-append (decimal n (n / 10)) ((48 + n % 10) ∷ [])))
]

stoi-std_to_string : (n : ℕ) → n ≤ int_max → std_stoi (std_to_string n) ≡ some (pos n)
unfolding std_to_string_int
stoi-std_to_string n h =
    ap std_stoi (sym (append-nil (std_to_string n))) ∙ std_stoi-std_to_string_int (pos n) [] h tt

stoi_all-cons :
    (n : ℕ) (parts : List (List ℕ)) (ns : List ℤ)
    → n ≤ int_max
    → stoi_all parts ≡ some ns
    → stoi_all (std_to_string n ∷ parts) ≡ some (pos n ∷ ns)
unfolding stoi_all
stoi_all-cons n parts ns h e = rw (stoi_all, stoi-std_to_string n h, e) refl

abbrev FitsInt : ℕ → Type 0
FitsInt n = n ≤ int_max

lines-dotted :
    (fuel n : ℕ) (ms : List ℕ)
    → length (dotted n ms) ≤ fuel
    → FitsInt n
    → All FitsInt ms
    → stoi_all (get_lines fuel (dotted n ms)) ≡ some (pos n ∷ map pos ms)
unfolding stoi_all
lines-dotted fuel n [] f h k =
    ap stoi_all
      (get_lines-last fuel (std_to_string n) (length-std_to_string n) f (std_to_string-NoDot n))
    ∙ stoi_all-cons n [] [] h refl
lines-dotted zero n (m ∷ ms) f h k =
    absurd (omega (arith, length-append (std_to_string n) (46 ∷ dotted m ms)))
lines-dotted (suc fuel) n (m ∷ ms) f h k =
    ap stoi_all (
      get_lines-dot fuel (std_to_string n) (dotted m ms) (length-std_to_string n)
        (std_to_string-NoDot n))
    ∙ stoi_all-cons n (get_lines fuel (dotted m ms)) (pos m ∷ map pos ms) h (
        lines-dotted fuel m ms
          (omega
            (arith, length-append (std_to_string n) (46 ∷ dotted m ms), length-std_to_string n))
          k.0 k.1)

-- splitVersion reads numbers with dots between, each of them one that an int holds, as the numbers.
pub split_version-dotted :
    (n : ℕ) (ms : List ℕ)
    → FitsInt n
    → All FitsInt ms
    → split_version (dotted n ms) ≡ some (pos n ∷ map pos ms)
unfolding split_version
split_version-dotted n ms h k = lines-dotted (length (dotted n ms)) n ms (omega arith) h k

dots-append : (a b c : List ℕ) → a ++ 46 ∷ [] ++ b ++ 46 ∷ [] ++ c ≡ a ++ 46 ∷ (b ++ 46 ∷ c)
dots-append a b c =
    append_assoc (a ++ 46 ∷ [] ++ b) (46 ∷ []) c
    ∙ append_assoc (a ++ 46 ∷ []) b (46 ∷ c)
    ∙ append_assoc a (46 ∷ []) (b ++ 46 ∷ c)

-- The version of the mcu without "MCU : V".
get_mcu_version-dotted :
    (version : ℕ)
    → drop 7 (get_mcu_version version)
      ≡ dotted 1 (version / 100 ∷ version % 100 / 10 ∷ version % 10 ∷ [])
unfolding get_mcu_version std_to_string decimal
get_mcu_version-dotted version =
    ap (λ t. 49 ∷ 46 ∷ t)
      (dots-append (std_to_string (version / 100)) (std_to_string (version % 100 / 10))
        (std_to_string (version % 10)))

-- What getMCUVersion prints behind "MCU : V" is read by splitVersion as 1, the hundreds, the tens and
-- the ones of the version.
pub split_version-get_mcu_version :
    (version : ℕ)
    → version ≤ int_max
    → split_version (drop 7 (get_mcu_version version))
      ≡ some (pos 1 ∷ pos (version / 100) ∷ pos (version % 100 / 10) ∷ pos (version % 10) ∷ [])
split_version-get_mcu_version version h =
    ap split_version (get_mcu_version-dotted version)
    ∙ split_version-dotted 1 (version / 100 ∷ version % 100 / 10 ∷ version % 10 ∷ []) (omega arith)
        (omega arith, (omega arith, (omega arith, tt)))
