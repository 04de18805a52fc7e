-- ===== src/Text/Splitting.antt =====
-- stringSplit: the pieces between the separators.
use cdroid_demo.Common.{
  ℕ, zero, suc, ◌<◌, ◌≡◌, ◌≢◌, refl, sym, ap, ap₂, ◌∙◌, List, [], ◌∷◌, ◌++◌, Option, none, some,
  ◌==◌, length, length-append, append-nil, All, arith, if◌then◌else◌, Bool-cases, inl, inr,
}
use cdroid_demo.Text.{find_char, split_loop, string_split, push_piece}

-- A piece: not empty, and without the separator.
abbrev pub IsPiece : ℕ → List ℕ → Type 0
IsPiece ch piece = (0 < length piece) × All (λ c. c ≢ ch) piece

-- A text without its separators.
pub without_char : ℕ → List ℕ → List ℕ
without_char ch [] = []
without_char ch (c ∷ cs) = let rest = without_char ch cs in if c == ch then rest else c ∷ rest

-- All pieces one after the other.
pub joined : List (List ℕ) → List ℕ
joined [] = []
joined (p ∷ ps) = p ++ joined ps

-- What `find` promises.
abbrev Finds : ℕ → List ℕ → Option (List ℕ × List ℕ) → Type 0
Finds ch str none = All (λ c. c ≢ ch) str
Finds ch str (some (before, behind)) = (str ≡ before ++ ch ∷ behind) × All (λ c. c ≢ ch) before

Finds-cons :
    (ch c : ℕ) (cs : List ℕ) (r : Option (List ℕ × List ℕ))
    → c ≢ ch
    → Finds ch cs r
    → Finds ch (c ∷ cs) (elim r [ none ↦ none | some (before, behind) ↦ some (c ∷ before, behind) ])
Finds-cons ch c cs none ne f = (ne, f)
Finds-cons ch c cs (some (before, behind)) ne f = (ap (◌∷◌ c) f.0, (ne, f.1))

find_char-Finds : (ch : ℕ) (str : List ℕ) → Finds ch str (find_char ch str)
unfolding find_char
find_char-Finds ch [] = tt
find_char-Finds ch (c ∷ cs) = elim (Bool-cases (c == ch)) [
  | inl same ↦ rw same (ground arith, tt)
  | inr other ↦
      rw other (Finds-cons ch c cs (find_char ch cs) (ground arith) (find_char-Finds ch cs))
]

without_char_clean : (ch : ℕ) (str : List ℕ) → All (λ c. c ≢ ch) str → without_char ch str ≡ str
unfolding without_char
without_char_clean ch [] h = refl
without_char_clean ch (c ∷ cs) h = ground (arith, h.0, without_char_clean ch cs h.1)

without_char-append :
    (ch : ℕ) (xs ys : List ℕ)
    → without_char ch (xs ++ ys) ≡ without_char ch xs ++ without_char ch ys
unfolding without_char
without_char-append ch [] ys = refl
without_char-append ch (x ∷ xs) ys = ground (arith, without_char-append ch xs ys)

without_char_self : (ch : ℕ) (cs : List ℕ) → without_char ch (ch ∷ cs) ≡ without_char ch cs
unfolding without_char
without_char_self ch cs = ground arith

push_piece-Pieces :
    (ch : ℕ) (piece : List ℕ) (out : List (List ℕ))
    → All (λ c. c ≢ ch) piece
    → All (IsPiece ch) out
    → All (IsPiece ch) (push_piece piece out)
      × (joined (push_piece piece out) ≡ piece ++ joined out)
unfolding joined
push_piece-Pieces ch [] out h k = (k, refl)
push_piece-Pieces ch (c ∷ cs) out h k = (((omega arith, h), k), refl)

split_loop-Pieces :
    (fuel ch : ℕ) (str : List ℕ)
    → length str < fuel
    → All (IsPiece ch) (split_loop fuel ch str)
      × (joined (split_loop fuel ch str) ≡ without_char ch str)
unfolding split_loop joined without_char
split_loop-Pieces zero ch str h = absurd (omega arith)
split_loop-Pieces (suc fuel) ch str h =
    after (find_char ch str) (find_char-Finds ch str) (split_loop-Pieces fuel ch)
  where
    after :
        (r : Option (List ℕ × List ℕ))
        → Finds ch str r
        → ((rest : List ℕ)
            → length rest < fuel
            → All (IsPiece ch) (split_loop fuel ch rest)
              × (joined (split_loop fuel ch rest) ≡ without_char ch rest))
        → let out : List (List ℕ) = elim r [
          | none ↦ push_piece str []
          | some (before, behind) ↦ push_piece before (split_loop fuel ch behind)
        ] in
          All (IsPiece ch) out × (joined out ≡ without_char ch str)
    after none f ih =
        let p = push_piece-Pieces ch str [] f tt in
        (p.0, p.1 ∙ append-nil str ∙ sym (without_char_clean ch str f))
    after (some (before, behind)) f ih =
        let rest =
          ih behind (omega (arith, ap length f.0, length-append before (ch ∷ behind), h)) in
        let p = push_piece-Pieces ch before (split_loop fuel ch behind) f.1 rest.0 in
        (
          p.0,
          p.1
              ∙ ap (λ l. before ++ l) rest.1
              ∙ sym (
                  ap (without_char ch) f.0
                  ∙ without_char-append ch before (ch ∷ behind)
                  ∙ ap₂ (λ xs ys. xs ++ ys) (without_char_clean ch before f.1)
                      (without_char_self ch behind)),
        )

-- Every piece that stringSplit puts out is not empty and has no separator, and one after the
-- other they are the text without its separators.
pub string_split-Pieces :
    (str : List ℕ) (ch : ℕ)
    → All (IsPiece ch) (string_split str ch) × (joined (string_split str ch) ≡ without_char ch str)
unfolding string_split
string_split-Pieces str ch = split_loop-Pieces (suc (length str)) ch str (omega arith)
