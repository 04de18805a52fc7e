-- ===== src/Json/Files.antt =====
-- What is saved is loaded.
use cdroid_demo.Common.{
  ℕ, zero, suc, ◌<◌, ◌≤◌, ◌≡◌, refl, ap, ◌∙◌, ◌⊎◌, inl, inr, Bool, true, false, List, [], ◌∷◌, ◌++◌,
  Option, some, arith, ltb, if◌then◌else◌, length, take, drop, length-take, length-drop,
  append_assoc, Bool-cases,
}
use cdroid_demo.Json.{
  Node, missing, file, directory, data_size, read_chunks, load_local_json, save_local_json,
}

take_short : (n : ℕ) (xs : List ℕ) → length xs ≤ n → take n xs ≡ xs
take_short zero [] h = refl
take_short zero (x ∷ xs) h = absurd (omega arith)
take_short (suc n) [] h = refl
take_short (suc n) (x ∷ xs) h = ap (◌∷◌ x) (take_short n xs (omega arith))

append-take-drop : (n : ℕ) (xs : List ℕ) → take n xs ++ drop n xs ≡ xs
append-take-drop zero xs = refl
append-take-drop (suc n) [] = refl
append-take-drop (suc n) (x ∷ xs) = ap (◌∷◌ x) (append-take-drop n xs)

-- The pieces are the whole file.
read_chunks-append :
    (fuel : ℕ) (rest content : List ℕ)
    → length rest < fuel
    → read_chunks fuel rest content ≡ content ++ rest
unfolding read_chunks
read_chunks-append zero rest content h = absurd (omega arith)
read_chunks-append (suc fuel) rest content h =
    elim (Bool-cases (ltb (length (take data_size rest)) data_size)) [
      | inl e ↦ rw e (
          ap (λ t. content ++ t)
            (take_short data_size rest (ground (arith, e, length-take data_size rest))))
      | inr e ↦ rw e (
          read_chunks-append fuel (drop data_size rest) (content ++ take data_size rest)
            (ground (arith, e, length-take data_size rest, length-drop data_size rest))
          ∙ append_assoc content (take data_size rest) (drop data_size rest)
          ∙ ap (λ t. content ++ t) (append-take-drop data_size rest))
    ]

-- A file that can be opened is given to the parser whole, whatever its length.
pub load-file :
    {Value : Type 0} (parse : List ℕ → Option Value) (content : List ℕ)
    → load_local_json parse true (file content) ≡ parse content
unfolding load_local_json
load-file parse content =
    ap parse (read_chunks-append (suc (length content)) content [] (omega arith))

pub load-taken :
    {Value : Type 0} (parse : List ℕ → Option Value) (write : Value → List ℕ) (room : ℕ)
    (root : Value)
    → parse (write root) ≡ some root
    → length (write root) ≤ room
    → load_local_json parse true (file (take room (write root))) ≡ some root
load-taken parse write room root law fits =
    load-file parse (take room (write root)) ∙ ap parse (take_short room (write root) fits) ∙ law

-- Where the parser reads what the printer wrote of this value, and there is room for all of it: if saving
-- succeeds, loading what is there then gives the value back; if it fails, there is a directory, which
-- stays, or the file could not be opened, and then there is none any more, the old one neither.
pub save_local_json_lem :
    {Value : Type 0} (parse : List ℕ → Option Value) (write : Value → List ℕ) (opens : Bool)
    (room : ℕ) (node : Node) (root : Value)
    → parse (write root) ≡ some root
    → length (write root) ≤ room
    → let (saved, done) = save_local_json write opens room node root in
      if done
      then load_local_json parse true saved ≡ some root
      else (node ≡ directory) × (saved ≡ directory)
      ⊎ (opens ≡ false) × (saved ≡ missing)
unfolding save_local_json
save_local_json_lem parse write opens room directory root law fits = inl (refl, refl)
save_local_json_lem parse write true room missing root law fits =
    load-taken parse write room root law fits
save_local_json_lem parse write false room missing root law fits = inr (refl, refl)
save_local_json_lem parse write true room (file content) root law fits =
    load-taken parse write room root law fits
save_local_json_lem parse write false room (file content) root law fits = inr (refl, refl)
