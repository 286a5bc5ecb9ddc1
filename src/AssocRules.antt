-- ===== src/AssocRules.antt =====
-- modules/assoc_rules/assoc_rules.cpp: the association rules of a closed frequent pattern, which is
-- a text of items with commas in between.
pub mod Counter
pub mod Split
pub mod Sides
pub mod Rules
pub mod Tests
use madlibport.Base.{
  ℕ, zero, suc, ◌+◌, ◌-◌, ◌^◌, Bool, true, false, not, Option, none, some, List, [], ◌∷◌, ◌++◌,
  length, replicate, ltb, ◌==◌, ◌>>=◌, if◌then◌else◌,
}
use madlibport.Base.Int.{ℤ, pos, negsuc, pos_part, dec, sub_ℕ, le_ℤ}

abbrev pub comma : ℕ
comma = 44

-- `num_elems` stands for the length of `flags`, `pos_len` for that of `positions`.
pub record PermFctx : Type 0 where
  pub flags : List Bool
  pub positions : List ℕ
  pub num_calls : ℤ

-- `(1 << num_elems) - 2` is computed as an `int32_t`; where it does not fit, it has no defined value.
unfoldable pub rules_init : List ℕ → ℕ → Option PermFctx
rules_init positions num_elems =
    if ltb num_elems 31
    then some (record {
      flags = replicate num_elems false;
      positions = positions;
      num_calls = sub_ℕ (2 ^ num_elems) 2;
    })
    else none

-- The loop that finds the next permutation.
unfoldable pub next_flags : List Bool → List Bool
next_flags [] = []
next_flags (false ∷ flags) = true ∷ flags
next_flags (true ∷ flags) = false ∷ next_flags flags

-- The move to the next comma and behind it, with the text from `p_begin` on in `seg`: a text without
-- a comma is left.
unfoldable pub to_comma : List ℕ → List ℕ → Option (List ℕ × List ℕ)
to_comma seg [] = none
to_comma seg (c ∷ cs) =
    let rest = to_comma (seg ++ (c ∷ [])) cs in
    if c == comma then some (seg ++ (c ∷ []), cs) else rest

-- A text that was copied to one of the two buffers.
abbrev pub copy_to : Bool → List ℕ → List ℕ × List ℕ → List ℕ × List ℕ
copy_to true seg parts = (parts.0 ++ seg, parts.1)
copy_to false seg parts = (parts.0, parts.1 ++ seg)

abbrev pub same : Bool → Bool → Bool
same true b = b
same false b = not b

-- The loop over the flags behind the first, then the copy of the remaining text: the two texts, and
-- to which of them the last was copied.
unfoldable pub split_parts :
    List Bool → Bool → List ℕ → List ℕ → List ℕ × List ℕ → Option (Bool × (List ℕ × List ℕ))
split_parts [] is_cont seg cur parts = some (is_cont, copy_to is_cont (seg ++ cur) parts)
split_parts (f ∷ flags) is_cont seg cur parts = to_comma seg cur >>= λ r.
    if same f is_cont
    then split_parts flags is_cont r.0 r.1 parts
    else split_parts flags (not is_cont) [] r.1 (copy_to is_cont r.0 parts)

-- `*(p - 1) = '\0'` for a text that ends at `p`.
unfoldable pub cut_last : List ℕ → Option (List ℕ)
cut_last [] = none
cut_last (c ∷ []) = some []
cut_last (c ∷ d ∷ cs) = cut_last (d ∷ cs) >>= λ r. some (c ∷ r)

-- A buffer of `pos_len` zeros with a text in it is read as a string: there must be room for a zero.
abbrev pub as_string : ℕ → List ℕ → Option (List ℕ)
as_string pos_len s = if ltb (length s) pos_len then some s else none

abbrev pub remove_comma : Bool × (List ℕ × List ℕ) → Option (List ℕ × List ℕ)
remove_comma (true, (pre, post)) = cut_last post >>= λ p. some (pre, p)
remove_comma (false, (pre, post)) = cut_last pre >>= λ p. some (p, post)

abbrev pub first_flag : List Bool → Option (Bool × List Bool)
first_flag [] = none
first_flag (f ∷ flags) = some (f, flags)

-- `none` for a call behind the last.
unfoldable pub rules_next : PermFctx → Option (Option ((List ℕ × List ℕ) × PermFctx))
rules_next ctx = if le_ℤ ctx.num_calls (pos 0) then some none else (do
  let flags = next_flags ctx.flags
  ff ← first_flag flags
  r ← split_parts ff.1 ff.0 [] ctx.positions ([], [])
  parts ← remove_comma r
  pre ← as_string (length ctx.positions) parts.0
  post ← as_string (length ctx.positions) parts.1
  some (
      some (
        (pre, post),
        record { flags = flags; positions = ctx.positions; num_calls = dec ctx.num_calls },
      )))

-- The database calls until there is no rule any more.
unfoldable pub all_rules : ℕ → PermFctx → Option (List (List ℕ × List ℕ))
all_rules zero ctx = none
all_rules (suc fuel) ctx = rules_next ctx >>= λ r. elim r [
  | none ↦ some []
  | some (rule, ctx') ↦ all_rules fuel ctx' >>= λ rules. some (rule ∷ rules)
]
