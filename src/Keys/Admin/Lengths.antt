-- ===== src/Keys/Admin/Lengths.antt =====
-- Lengths of what the sanitizers of src/store.ts give.
use text.Mathlib.TextEquality.{eq_iff}
use paygate_mcp.Base.{
  ℕ, zero, suc, ◌+◌, ◌≤◌, String, ◌≡◌, Option, none, some, List, [], ◌∷◌, arith, length,
  if◌then◌else◌, Option-cases, Bool-cases, inl, inr, true, not, filter, length-filter-le,
}
use paygate_mcp.Base.Dict
use paygate_mcp.Base.Dict.{Dict, get-set}
use paygate_mcp.Base.Text.{take_chars, text_length}
use paygate_mcp.Keys.Admin.{
  trim, is_empty, is_inherited, assign_tag, take_first, sanitize_list, sanitize_name, sanitize_tags,
  add_tags,
}
use paygate_mcp.Keys.Admin.Edits.{list_or, set_tag, merge_tags}

pub text_length-take_chars : (n : ℕ) (s : String) → text_length (take_chars n s) ≤ n
unfolding text_length take_chars
text_length-take_chars zero s = omega arith
text_length-take_chars (suc n) String.[] = omega arith
text_length-take_chars (suc n) (String.◌∷◌ c s) = omega (arith, text_length-take_chars n s)

pub length-take_first {ℓ} : {A : Type ℓ} (n : ℕ) (xs : List A) → length (take_first n xs) ≤ n
unfolding take_first
length-take_first zero xs = omega arith
length-take_first (suc n) [] = omega arith
length-take_first (suc n) (x ∷ xs) = omega (arith, length-take_first n xs)

pub length-set : (k v : String) (m : Dict String) → length (Dict.set k v m) ≤ suc (length m)
unfolding Dict.set
length-set k v [] = omega arith
length-set k v ((j, w) ∷ m) = ground (arith, length-set k v m)

pub length-assign_tag :
    (k v : String) (m : Dict String) → length (assign_tag k v m) ≤ suc (length m)
unfolding assign_tag
length-assign_tag k v m = elim (Option-cases (Dict.get k m)) [
  | inl e ↦ ground (arith, length-set k v m)
  | inr (w, e) ↦ ground (arith, length-set k v m)
]

-- The tags with names that are not inherited.
abbrev pub ordinary_tags : Dict String → Dict String
ordinary_tags m = filter (λ (t : String × String). not (is_inherited t.0)) m

ordinary-set :
    (k v : String) (m : Dict String)
    → length (ordinary_tags (Dict.set k v m)) ≤ suc (length (ordinary_tags m))
unfolding Dict.set
ordinary-set k v [] = ground arith
ordinary-set k v ((j, w) ∷ m) = ground (arith, ordinary-set k v m, eq_iff j k)

ordinary-set_inherited :
    (k v : String) (m : Dict String)
    → is_inherited k ≡ true
    → length (ordinary_tags (Dict.set k v m)) ≡ length (ordinary_tags m)
unfolding Dict.set
ordinary-set_inherited k v [] h = ground arith
ordinary-set_inherited k v ((j, w) ∷ m) h =
    ground (arith, ordinary-set_inherited k v m h, eq_iff j k)

ordinary-set_known :
    (k v w : String) (m : Dict String)
    → Dict.get k m ≡ some w
    → length (ordinary_tags (Dict.set k v m)) ≡ length (ordinary_tags m)
unfolding Dict.set Dict.get
ordinary-set_known k v w [] e = ground arith
ordinary-set_known k v w ((j, x) ∷ m) e = ground (arith, ordinary-set_known k v w m, eq_iff j k)

ordinary-delete :
    (k : String) (m : Dict String)
    → length (ordinary_tags (Dict.delete k m)) ≤ length (ordinary_tags m)
unfolding Dict.delete
ordinary-delete k [] = omega arith
ordinary-delete k ((j, w) ∷ m) = ground (arith, ordinary-delete k m)

ordinary-tags : (m : Dict String) → length (ordinary_tags m) ≤ length m
ordinary-tags m = length-filter-le (λ (t : String × String). not (is_inherited t.0)) m

pub length-add_tags :
    (entries : List (String × String)) (tags : Dict String)
    → length (add_tags entries tags) ≤ length tags + length entries
unfolding add_tags
length-add_tags [] tags = omega arith
length-add_tags ((k, v) ∷ entries) tags = ground (
  arith,
  length-add_tags entries (
      if is_empty (take_chars 100 (trim k))
      then tags
      else assign_tag (take_chars 100 (trim k)) (take_chars 100 (trim v)) tags),
  length-assign_tag (take_chars 100 (trim k)) (take_chars 100 (trim v)) tags,
)

pub ordinary-set_tag :
    (k : String) (v : Option String) (tags : Dict String)
    → length (ordinary_tags tags) ≤ 50
    → length (ordinary_tags (set_tag k v tags)) ≤ 50
unfolding assign_tag
ordinary-set_tag k none tags h = omega (arith, ordinary-delete k tags)
ordinary-set_tag k (some v) tags h = elim (Option-cases (Dict.get k tags)) [
  | inl e ↦ ground (
    arith,
    ordinary-set k (take_chars 100 (trim v)) tags,
    ordinary-set_inherited k (take_chars 100 (trim v)) tags,
    ordinary-tags tags,
  )
  | inr (w, e) ↦ ground (arith, ordinary-set_known k (take_chars 100 (trim v)) w tags e)
]

pub ordinary-merge_tags :
    (entries : List (String × Option String)) (tags : Dict String)
    → length (ordinary_tags tags) ≤ 50
    → length (ordinary_tags (merge_tags entries tags)) ≤ 50
unfolding merge_tags
ordinary-merge_tags [] tags h = h
ordinary-merge_tags ((k, v) ∷ entries) tags h =
    ordinary-merge_tags entries
      (if is_empty (take_chars 100 (trim k))
        then tags
        else set_tag (take_chars 100 (trim k)) v tags)
      (elim (Bool-cases (is_empty (take_chars 100 (trim k)))) [
        | inl e ↦ rw e h
        | inr e ↦ rw e (ordinary-set_tag (take_chars 100 (trim k)) v tags h)
      ])

pub list_bound : (xs : List String) → length (sanitize_list xs) ≤ 100
unfolding sanitize_list
list_bound xs = length-take_first 100 _

pub list_or_bound :
    (o : Option (List String)) (xs : List String) → length xs ≤ 100 → length (list_or o xs) ≤ 100
list_or_bound none xs h = h
list_or_bound (some ys) xs h = list_bound ys

pub name_bound : (name : String) → text_length (sanitize_name name) ≤ 200
unfolding sanitize_name
name_bound name = text_length-take_chars 200 (trim name)

pub tags_bound : (tags : Dict String) → length (ordinary_tags (sanitize_tags tags)) ≤ 50
unfolding sanitize_tags
tags_bound tags = omega (
  arith,
  ordinary-tags (sanitize_tags tags),
  length-add_tags (take_first 50 tags) [],
  length-take_first 50 tags,
)
