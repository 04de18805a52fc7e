-- ===== src/Text/Versions.antt =====
-- checkVersion is a total order of versions.
use cdroid_demo.Common.{ℕ, ◌≡◌, refl, ap, ap₂, ◌∙◌, sym, List, [], ◌∷◌, arith, ◌↔◌}
use cdroid_demo.Text.{check_version, Newer, older, same_version, newer}

-- The answer with the versions exchanged.
abbrev pub flip : Newer → Newer
flip older = newer
flip same_version = same_version
flip newer = older

check_version_self : (o : List ℕ) → check_version o o ≡ same_version
unfolding check_version
check_version_self [] = refl
check_version_self (o ∷ ota) = ground (arith, check_version_self ota)

check_version-eq : (o l : List ℕ) → check_version o l ≡ same_version → o ≡ l
unfolding check_version
check_version-eq [] [] e = refl
check_version-eq [] (l ∷ local) e = ground arith
check_version-eq (o ∷ ota) [] e = ground arith
check_version-eq (o ∷ ota) (l ∷ local) e =
    ap₂ (λ (x : ℕ) xs. x ∷ xs) (ground arith) (check_version-eq ota local (ground arith))

check_version_same : (o l : List ℕ) → (check_version o l ≡ same_version) ↔ (o ≡ l)
check_version_same o l =
    (check_version-eq o l, λ e. ap (check_version o) (sym e) ∙ check_version_self o)

check_version-flip : (o l : List ℕ) → check_version l o ≡ flip (check_version o l)
unfolding check_version
check_version-flip [] [] = refl
check_version-flip [] (l ∷ local) = refl
check_version-flip (o ∷ ota) [] = refl
check_version-flip (o ∷ ota) (l ∷ local) = ground (arith, check_version-flip ota local)

-- A version newer than one that is newer than a third is newer than the third.
pub check_version_trans :
    (a b c : List ℕ)
    → check_version a b ≡ newer
    → check_version b c ≡ newer
    → check_version a c ≡ newer
unfolding check_version
check_version_trans [] [] c p q = ground arith
check_version_trans [] (y ∷ ys) c p q = ground arith
check_version_trans (x ∷ xs) [] [] p q = refl
check_version_trans (x ∷ xs) [] (z ∷ zs) p q = ground arith
check_version_trans (x ∷ xs) (y ∷ ys) [] p q = refl
check_version_trans (x ∷ xs) (y ∷ ys) (z ∷ zs) p q = ground (arith, check_version_trans xs ys zs)

-- checkVersion answers 0 for the same version alone, and exchanging the versions turns the answer
-- round.
pub check_version_order :
    (a b : List ℕ)
    → ((check_version a b ≡ same_version) ↔ (a ≡ b))
      × (check_version b a ≡ flip (check_version a b))
check_version_order a b = (check_version_same a b, check_version-flip a b)
