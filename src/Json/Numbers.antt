-- ===== src/Json/Numbers.antt =====
-- Numbers that were saved as texts, as ModeData::toString does, are read as numbers.
use cdroid_demo.Common.{
  ℕ, suc, ◌≡◌, refl, sym, ap, ◌∙◌, true, List, [], ◌∷◌, none, some, arith, append-nil, ℤ, pos,
  negsuc, ◌-ℤ◌,
}
use cdroid_demo.ConfMgr.{std_to_string, std_to_string_int}
use cdroid_demo.Pages.{to_int, is_digit, read_digits, drop_space}
use cdroid_demo.Pages.Numerals.{IsInt, printed, read_digits-std_to_string, to_int-int}
use cdroid_demo.Json.{Access, atoll_sign, atoll, json_to_int, get_json_int}

atoll_digit :
    (c : ℕ) (cs : List ℕ) → is_digit c ≡ true → atoll (c ∷ cs) ≡ pos (read_digits 0 (c ∷ cs))
unfolding atoll atoll_sign drop_space
atoll_digit c cs d = ground arith

atoll-std_to_string : (n : ℕ) → atoll (std_to_string n) ≡ pos n
atoll-std_to_string n =
    let (c, cs, p, q) = printed n [] in
    let whole = sym (append-nil (std_to_string n)) ∙ p in
    ap atoll whole
    ∙ atoll_digit c cs q
    ∙ ap (λ t. pos (read_digits 0 t)) (sym p)
    ∙ ap pos (read_digits-std_to_string n [] tt)

read_printed : (n : ℕ) → read_digits 0 (std_to_string n) ≡ n
read_printed n =
    ap (read_digits 0) (sym (append-nil (std_to_string n))) ∙ read_digits-std_to_string n [] tt

negated : (n : ℕ) → pos 0 -ℤ pos (suc n) ≡ negsuc n
unfolding ◌-ℤ◌
negated n = ground arith

atoll_minus : (cs : List ℕ) → atoll (45 ∷ cs) ≡ pos 0 -ℤ pos (read_digits 0 cs)
unfolding atoll atoll_sign drop_space
atoll_minus cs = refl

atoll-std_to_string_int : (z : ℤ) → atoll (std_to_string_int z) ≡ z
unfolding std_to_string_int
atoll-std_to_string_int (pos n) = atoll-std_to_string n
atoll-std_to_string_int (negsuc n) =
    atoll_minus (std_to_string (suc n))
    ∙ ap (λ (m : ℕ). pos 0 -ℤ pos m) (read_printed (suc n))
    ∙ negated n

-- A member that is no int but a text that std::to_string made of one, in the range of an int, is read
-- by getJsonInt as that int, whatever the default.
pub get_json_int-std_to_string_int :
    {Value : Type 0} (access : Access Value) (root value : Value) (key : List ℕ)
    (z default_value : ℤ)
    → access.member root key ≡ some value
    → access.as_int value ≡ none
    → access.as_string value ≡ some (std_to_string_int z)
    → IsInt z
    → get_json_int access root key default_value ≡ z
unfolding get_json_int json_to_int
get_json_int-std_to_string_int access root value key z default_value m i t h =
    rw (get_json_int, m, json_to_int, i, t) (ap to_int (atoll-std_to_string_int z) ∙ to_int-int z h)
