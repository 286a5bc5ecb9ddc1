-- ===== src/AssocRules/Split.antt =====
-- The two texts of a rule, the items with a flag and those without.
use mathlib.Core.List.{append_assoc, append-nil}
use madlibport.Base.{
  ℕ, ◌≡◌, ◌≢◌, refl, sym, ◌∙◌, ap, Bool, true, false, not, some, arith, List, [], ◌∷◌, ◌++◌, length,
  All, ◌==◌, if◌then◌else◌,
}
use madlibport.AssocRules.{comma, to_comma, copy_to, same, split_parts}

abbrev pub Item : Type 0
Item = List ℕ

abbrev pub IsItem : Item → Type 0
IsItem item = All (λ c. c ≢ comma) item

-- Each item with a comma behind it.
abbrev pub terminated : List Item → List ℕ
terminated [] = []
terminated (x ∷ xs) = (x ++ (comma ∷ [])) ++ terminated xs

-- The items with commas in between.
abbrev pub text : Item → List Item → List ℕ
text x [] = x
text x (y ∷ ys) = x ++ (comma ∷ text y ys)

-- The items whose flag is `b`.
abbrev pub select : Bool → List Bool → List Item → List Item
select b (f ∷ flags) (x ∷ xs) = if same f b then x ∷ select b flags xs else select b flags xs
select b flags xs = []

to_comma_lem :
    (x : Item) (seg rest : List ℕ)
    → IsItem x
    → to_comma seg (x ++ (comma ∷ rest)) ≡ some (seg ++ (x ++ (comma ∷ [])), rest)
unfolding to_comma
to_comma_lem [] seg rest h = refl
to_comma_lem (c ∷ x) seg rest (h, hs) =
    let off : (c == comma) ≡ false = ground arith in
    rw off (
      to_comma_lem x (seg ++ (c ∷ [])) rest hs
      ∙ ap (λ s. some (s, rest)) (append_assoc seg (c ∷ []) (x ++ (comma ∷ []))))

-- What is written to the text of the items with flag `b` from here on.
abbrev pub pending : Bool → Bool → List ℕ → List ℕ
pending b is_cont seg = if same b is_cont then seg else []

abbrev pub part : Bool → List ℕ × List ℕ → List ℕ
part true parts = parts.0
part false parts = parts.1

abbrev pub last_comma : Bool → Bool → List ℕ
last_comma b last = if same b last then comma ∷ [] else []

-- Each text in the end, with a comma for the last item, is the text so far, what is pending, and
-- the selected items.
abbrev pub Writes :
    Bool → List ℕ → List ℕ × List ℕ → List Bool → List Item → Bool × (List ℕ × List ℕ) → Type 0
Writes is_cont seg parts flags items r =
    (b : Bool)
    → part b r.1 ++ last_comma b r.0
      ≡ part b parts ++ (pending b is_cont seg ++ terminated (select b flags items))

joined : (p seg z t : List ℕ) → (p ++ (seg ++ z)) ++ t ≡ p ++ (seg ++ (z ++ t))
joined p seg z t = append_assoc p (seg ++ z) t ∙ ap (λ u. p ++ u) (append_assoc seg z t)

-- The last item.
Writes-last :
    (x : Item) (b : Bool) (seg : List ℕ) (parts : List ℕ × List ℕ)
    → Writes b seg parts (b ∷ []) (x ∷ []) (b, copy_to b (seg ++ x) parts)
Writes-last x true seg parts true =
    joined parts.0 seg x (comma ∷ [])
    ∙ ap (λ u. parts.0 ++ (seg ++ u)) (sym (append-nil (x ++ (comma ∷ []))))
Writes-last x true seg parts false = refl
Writes-last x false seg parts true = refl
Writes-last x false seg parts false =
    joined parts.1 seg x (comma ∷ [])
    ∙ ap (λ u. parts.1 ++ (seg ++ u)) (sym (append-nil (x ++ (comma ∷ []))))

-- An item whose flag is that of the next: it stays pending.
Writes-same :
    (x y : Item) (ys : List Item) (flags : List Bool) (b : Bool) (seg : List ℕ)
    (parts : List ℕ × List ℕ) (r : Bool × (List ℕ × List ℕ))
    → Writes b (seg ++ (x ++ (comma ∷ []))) parts (b ∷ flags) (y ∷ ys) r
    → Writes b seg parts (b ∷ b ∷ flags) (x ∷ y ∷ ys) r
Writes-same x y ys flags true seg parts r w true =
    w true ∙ ap (λ u. parts.0 ++ u) (append_assoc seg (x ++ (comma ∷ [])) _)
Writes-same x y ys flags true seg parts r w false = w false
Writes-same x y ys flags false seg parts r w true = w true
Writes-same x y ys flags false seg parts r w false =
    w false ∙ ap (λ u. parts.1 ++ u) (append_assoc seg (x ++ (comma ∷ [])) _)

-- An item whose flag is not that of the next: it is copied with what is pending.
Writes-other :
    (x y : Item) (ys : List Item) (flags : List Bool) (b : Bool) (seg : List ℕ)
    (parts : List ℕ × List ℕ) (r : Bool × (List ℕ × List ℕ))
    → Writes (not b) [] (copy_to b (seg ++ (x ++ (comma ∷ []))) parts) (not b ∷ flags) (y ∷ ys) r
    → Writes b seg parts (b ∷ not b ∷ flags) (x ∷ y ∷ ys) r
Writes-other x y ys flags true seg parts r w true =
    w true ∙ joined parts.0 seg (x ++ (comma ∷ [])) _
Writes-other x y ys flags true seg parts r w false = w false
Writes-other x y ys flags false seg parts r w true = w true
Writes-other x y ys flags false seg parts r w false =
    w false ∙ joined parts.1 seg (x ++ (comma ∷ [])) _

pub split_parts-Writes :
    (ys : List Item) (flags : List Bool) (x : Item) (b : Bool) (seg : List ℕ)
    (parts : List ℕ × List ℕ)
    → length flags ≡ length ys
    → IsItem x
    → All IsItem ys
    → (r : Bool × (List ℕ × List ℕ)) × (split_parts flags b seg (text x ys) parts ≡ some r)
      × Writes b seg parts (b ∷ flags) (x ∷ ys) r
unfolding split_parts
split_parts-Writes [] [] x b seg parts h ix iy = (_, refl, Writes-last x b seg parts)
split_parts-Writes [] (f ∷ flags) x b seg parts h ix iy = absurd (omega arith)
split_parts-Writes (y ∷ ys) [] x b seg parts h ix iy = absurd (omega arith)
split_parts-Writes (y ∷ ys) (true ∷ flags) x true seg parts h ix (iy, iys) =
    let e = to_comma_lem x seg (text y ys) ix in
    let (r, er, w) =
      split_parts-Writes ys flags y true (seg ++ (x ++ (comma ∷ []))) parts (omega arith) iy iys in
    (r, rw e er, Writes-same x y ys flags true seg parts r w)
split_parts-Writes (y ∷ ys) (false ∷ flags) x false seg parts h ix (iy, iys) =
    let e = to_comma_lem x seg (text y ys) ix in
    let (r, er, w) =
      split_parts-Writes ys flags y false (seg ++ (x ++ (comma ∷ []))) parts (omega arith) iy iys in
    (r, rw e er, Writes-same x y ys flags false seg parts r w)
split_parts-Writes (y ∷ ys) (false ∷ flags) x true seg parts h ix (iy, iys) =
    let e = to_comma_lem x seg (text y ys) ix in
    let (r, er, w) =
      split_parts-Writes ys flags y false [] (copy_to true (seg ++ (x ++ (comma ∷ []))) parts)
        (omega arith) iy iys in
    (r, rw e er, Writes-other x y ys flags true seg parts r w)
split_parts-Writes (y ∷ ys) (true ∷ flags) x false seg parts h ix (iy, iys) =
    let e = to_comma_lem x seg (text y ys) ix in
    let (r, er, w) =
      split_parts-Writes ys flags y true [] (copy_to false (seg ++ (x ++ (comma ∷ []))) parts)
        (omega arith) iy iys in
    (r, rw e er, Writes-other x y ys flags false seg parts r w)

-- From the start of the text nothing is pending.
pub Writes-start :
    (f : Bool) (flags : List Bool) (items : List Item) (r : Bool × (List ℕ × List ℕ))
    → Writes f [] ([], []) flags items r
    → (b : Bool) → part b r.1 ++ last_comma b r.0 ≡ terminated (select b flags items)
Writes-start true flags items r w true = w true
Writes-start true flags items r w false = w false
Writes-start false flags items r w true = w true
Writes-start false flags items r w false = w false
