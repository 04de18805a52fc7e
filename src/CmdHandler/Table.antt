-- ===== src/CmdHandler/Table.antt =====
-- The table of handlers as what it promises: for each type, the handlers that receive it.
use cdroid_demo.Common.{
  ℕ, ◌≡◌, ◌≢◌, refl, sym, ap, ◌∙◌, subst, inl, inr, true, false, ◌&&◌, ◌||◌, not, List, [], ◌∷◌,
  ◌++◌, none, some, arith, ◌==◌, ==_iff, if◌then◌else◌, Bool-cases,
}
use cdroid_demo.CmdHandler.{
  Handlers, find_handlers, contains, push_handler, erase_first, remove_entries, is_empty,
}

-- The abstract view: who receives a type.
unfoldable pub recipients : Handlers → ℕ → List ℕ
recipients m type = elim (find_handlers type m) [ none ↦ [] | some hs ↦ hs ]

-- A list without `hd`.
pub without : ℕ → List ℕ → List ℕ
without hd [] = []
without hd (h ∷ hs) = let rest = without hd hs in if h == hd then rest else h ∷ rest

-- No handler stands twice.
abbrev pub NoTwice : List ℕ → Type 0
NoTwice [] = Unit
NoTwice (h ∷ hs) = (contains h hs ≡ false) × NoTwice hs

-- No type has two entries, and each entry has handlers, of which none stands twice.
abbrev pub IsTable : Handlers → Type 0
IsTable [] = Unit
IsTable ((key, hs) ∷ m) =
    (find_handlers key m ≡ none) × (is_empty hs ≡ false) × NoTwice hs × IsTable m

pub recipients-push :
    (cmd hd type : ℕ) (m : Handlers)
    → recipients (push_handler cmd hd m) type
      ≡ (if type == cmd then recipients m type ++ hd ∷ [] else recipients m type)
unfolding recipients push_handler find_handlers
recipients-push cmd hd type [] = ground arith
recipients-push cmd hd type ((key, hs) ∷ m) = ground (arith, recipients-push cmd hd type m)

find-push :
    (cmd hd type : ℕ) (m : Handlers)
    → type ≢ cmd
    → find_handlers type (push_handler cmd hd m) ≡ find_handlers type m
unfolding push_handler find_handlers
find-push cmd hd type [] ne = ground arith
find-push cmd hd type ((key, hs) ∷ m) ne = ground (arith, find-push cmd hd type m ne)

contains-snoc : (x hd : ℕ) (hs : List ℕ) → contains x (hs ++ hd ∷ []) ≡ (contains x hs || (hd == x))
unfolding contains
contains-snoc x hd [] = ground arith
contains-snoc x hd (h ∷ hs) = ground (arith, contains-snoc x hd hs)

NoTwice-snoc :
    (hd : ℕ) (hs : List ℕ) → contains hd hs ≡ false → NoTwice hs → NoTwice (hs ++ hd ∷ [])
unfolding contains
NoTwice-snoc hd [] c n = (refl, tt)
NoTwice-snoc hd (h ∷ hs) c n =
    (ground (arith, contains-snoc h hd hs, n.0), NoTwice-snoc hd hs (ground arith) n.1)

snoc-is_empty : (hd : ℕ) (hs : List ℕ) → is_empty (hs ++ hd ∷ []) ≡ false
snoc-is_empty hd [] = refl
snoc-is_empty hd (h ∷ hs) = refl

pub push-IsTable :
    (cmd hd : ℕ) (m : Handlers)
    → contains hd (recipients m cmd) ≡ false
    → IsTable m
    → IsTable (push_handler cmd hd m)
unfolding recipients push_handler find_handlers contains
push-IsTable cmd hd [] c v = (refl, refl, (refl, tt), tt)
push-IsTable cmd hd ((key, hs) ∷ m) c v = elim (Bool-cases (key == cmd)) [
  | inl same ↦ rw same (v.0, snoc-is_empty hd hs, NoTwice-snoc hd hs (ground arith) v.2, v.3)
  | inr other ↦ rw other (
    find-push cmd hd key m (ground arith) ∙ v.0,
    v.1,
    v.2,
    push-IsTable cmd hd m (ground arith) v.3,
  )
]

without_absent : (hd : ℕ) (hs : List ℕ) → contains hd hs ≡ false → without hd hs ≡ hs
unfolding without contains
without_absent hd [] c = refl
without_absent hd (h ∷ hs) c = ground (arith, without_absent hd hs)

erase_first-without : (hd : ℕ) (hs : List ℕ) → NoTwice hs → erase_first hd hs ≡ without hd hs
unfolding erase_first without
erase_first-without hd [] n = refl
erase_first-without hd (h ∷ hs) n = elim (Bool-cases (h == hd)) [
  | inl same ↦
      rw same
        (sym (without_absent hd hs (subst (λ x. contains x hs ≡ false) ((==_iff h hd).0 same) n.0)))
  | inr other ↦ rw other (ap (◌∷◌ h) (erase_first-without hd hs n.1))
]

pub contains-without :
    (x hd : ℕ) (hs : List ℕ) → contains x (without hd hs) ≡ (contains x hs && not (x == hd))
unfolding contains without
contains-without x hd [] = ground arith
contains-without x hd (h ∷ hs) = ground (arith, contains-without x hd hs)

without-NoTwice : (hd : ℕ) (hs : List ℕ) → NoTwice hs → NoTwice (without hd hs)
unfolding without
without-NoTwice hd [] n = tt
without-NoTwice hd (h ∷ hs) n =
    ground (arith, n, without-NoTwice hd hs n.1, contains-without h hd hs)

find-remove :
    (hd type : ℕ) (m : Handlers)
    → find_handlers type m ≡ none
    → find_handlers type (remove_entries hd m) ≡ none
unfolding find_handlers remove_entries
find-remove hd type [] e = refl
find-remove hd type ((key, hs) ∷ m) e = ground (arith, find-remove hd type m)

pub remove-IsTable : (hd : ℕ) (m : Handlers) → IsTable m → IsTable (remove_entries hd m)
unfolding remove_entries
remove-IsTable hd [] v = tt
remove-IsTable hd ((key, hs) ∷ m) v = elim (Bool-cases (contains hd hs)) [
  | inr absent ↦ rw absent (find-remove hd key m v.0, v.1, v.2, remove-IsTable hd m v.3)
  | inl present ↦ elim (Bool-cases (is_empty (erase_first hd hs))) [
    | inl gone ↦ rw (present, gone) (remove-IsTable hd m v.3)
    | inr left ↦
        rw (present, left)
          (
            find-remove hd key m v.0,
            left,
            subst NoTwice (sym (erase_first-without hd hs v.2)) (without-NoTwice hd hs v.2),
            remove-IsTable hd m v.3,
          )
  ]
]

empty_nil : (hs : List ℕ) → is_empty hs ≡ true → hs ≡ []
empty_nil [] e = refl
empty_nil (h ∷ hs) e = cc

pub recipients-remove :
    (hd type : ℕ) (m : Handlers)
    → IsTable m
    → recipients (remove_entries hd m) type ≡ without hd (recipients m type)
unfolding recipients remove_entries find_handlers without
recipients-remove hd type [] v = refl
recipients-remove hd type ((key, hs) ∷ m) v = elim (Bool-cases (key == type)) [
  | inr other ↦ ground (arith, other, recipients-remove hd type m v.3)
  | inl same ↦ ground (
    arith,
    same,
    find-remove hd type m (subst (λ k. find_handlers k m ≡ none) ((==_iff key type).0 same) v.0),
    erase_first-without hd hs v.2,
    without_absent hd hs,
    empty_nil (erase_first hd hs),
  )
]
