-- ===== src/AssocRules/Sides.antt =====
-- The two sides of one rule.
use mathlib.Core.List.{append_assoc, append-nil}
use madlibport.Base.{
  ℕ, suc, ◌+◌, ◌*◌, ◌^◌, ◌<◌, ◌≡◌, refl, sym, ◌∙◌, ap, Bool, true, false, some, arith, List, [],
  ◌∷◌, ◌++◌, length, length-append,
}
use madlibport.AssocRules.{comma, remove_comma, cut_last}
use madlibport.AssocRules.Counter.{value}
use madlibport.AssocRules.Split.{Item, terminated, text, select, part, last_comma}

pub cut_last-append : (u : List ℕ) (c : ℕ) → cut_last (u ++ (c ∷ [])) ≡ some u
unfolding cut_last
cut_last-append [] c = refl
cut_last-append (x ∷ []) c = refl
cut_last-append (x ∷ y ∷ u) c = rw (cut_last-append (y ∷ u) c)

pub ends_in_comma :
    (xs : List Item)
    → 0 < length (terminated xs)
    → (u : List ℕ) × (u ++ (comma ∷ []) ≡ terminated xs)
ends_in_comma [] h = absurd (omega arith)
ends_in_comma (x ∷ []) h = (x, sym (append-nil (x ++ (comma ∷ []))))
ends_in_comma (x ∷ y ∷ xs) h =
    let (u, e) = ends_in_comma (y ∷ xs) (
      omega
        (arith, length-append (y ++ (comma ∷ [])) (terminated xs), length-append y (comma ∷ []))) in
    (
      (x ++ (comma ∷ [])) ++ u,
      append_assoc (x ++ (comma ∷ [])) u (comma ∷ []) ∙ ap (λ v. (x ++ (comma ∷ [])) ++ v) e,
    )

pub length-text :
    (ys : List Item) (x : Item) → suc (length (text x ys)) ≡ length (terminated (x ∷ ys))
length-text [] x = omega (arith, length-append (x ++ (comma ∷ [])) [], length-append x (comma ∷ []))
length-text (y ∷ ys) x = omega (
  arith,
  length-append x (comma ∷ text y ys),
  length-text ys y,
  length-append (x ++ (comma ∷ [])) (terminated (y ∷ ys)),
  length-append x (comma ∷ []),
)

pub length-select :
    (flags : List Bool) (xs : List Item)
    → length flags ≡ length xs
    → length (terminated (select true flags xs)) + length (terminated (select false flags xs))
      ≡ length (terminated xs)
length-select [] [] h = omega arith
length-select [] (x ∷ xs) h = absurd (omega arith)
length-select (f ∷ flags) [] h = absurd (omega arith)
length-select (true ∷ flags) (x ∷ xs) h = omega (
  arith,
  length-select flags xs (omega arith),
  length-append (x ++ (comma ∷ [])) (terminated (select true flags xs)),
  length-append (x ++ (comma ∷ [])) (terminated xs),
)
length-select (false ∷ flags) (x ∷ xs) h = omega (
  arith,
  length-select flags xs (omega arith),
  length-append (x ++ (comma ∷ [])) (terminated (select false flags xs)),
  length-append (x ++ (comma ∷ [])) (terminated xs),
)

pub some_selected :
    (flags : List Bool) (xs : List Item)
    → length flags ≡ length xs
    → 0 < value flags
    → 0 < length (terminated (select true flags xs))
some_selected [] xs e h = absurd (omega arith)
some_selected (f ∷ flags) [] e h = absurd (omega arith)
some_selected (true ∷ flags) (x ∷ xs) e h = omega (
  arith,
  length-append (x ++ (comma ∷ [])) (terminated (select true flags xs)),
  length-append x (comma ∷ []),
)
some_selected (false ∷ flags) (x ∷ xs) e h = some_selected flags xs (omega arith) (omega arith)

pub some_left :
    (flags : List Bool) (xs : List Item)
    → length flags ≡ length xs
    → suc (value flags) < 2 ^ length flags
    → 0 < length (terminated (select false flags xs))
some_left [] xs e h = absurd (omega arith)
some_left (f ∷ flags) [] e h = absurd (omega arith)
some_left (false ∷ flags) (x ∷ xs) e h = omega (
  arith,
  length-append (x ++ (comma ∷ [])) (terminated (select false flags xs)),
  length-append x (comma ∷ []),
)
some_left (true ∷ flags) (x ∷ xs) e h =
    let twice : 2 ^ suc (length flags) ≡ 2 * 2 ^ length flags = grind arith in
    some_left flags xs (omega arith) (omega arith)

-- The left side has the items with a flag and the right side the others, in the order of the
-- pattern: a comma behind a side makes it each of its items with a comma behind it.
pub record IsRule (items : List Item) (flags : List Bool) (rule : List ℕ × List ℕ) : Type 0 where
  pub left : rule.0 ++ (comma ∷ []) ≡ terminated (select true flags items)
  pub right : rule.1 ++ (comma ∷ []) ≡ terminated (select false flags items)

-- The two texts that the loop left, without the last comma.
pub remove_comma-IsRule :
    (items : List Item) (flags : List Bool) (r : Bool × (List ℕ × List ℕ))
    → 0 < length (terminated (select true flags items))
    → 0 < length (terminated (select false flags items))
    → ((b : Bool) → part b r.1 ++ last_comma b r.0 ≡ terminated (select b flags items))
    → (rule : List ℕ × List ℕ) × (remove_comma r ≡ some rule) × IsRule items flags rule
remove_comma-IsRule items flags (true, (pre, post)) h₁ h₂ w =
    let (u, e) = ends_in_comma (select false flags items) h₂ in
    let same : post ≡ u ++ (comma ∷ []) = sym (append-nil post) ∙ w false ∙ sym e in
    ((pre, u), rw (same, cut_last-append u comma), record { left = w true; right = e })
remove_comma-IsRule items flags (false, (pre, post)) h₁ h₂ w =
    let (u, e) = ends_in_comma (select true flags items) h₁ in
    let same : pre ≡ u ++ (comma ∷ []) = sym (append-nil pre) ∙ w true ∙ sym e in
    ((u, post), rw (same, cut_last-append u comma), record { left = e; right = w false })
