-- ===== src/Base/Texts.antt =====
-- Python's sets of texts as lists without repeats, and texts in order.
use Prim.Native.String.{String, ◌++◌ as concat}
use mathlib.Core.Bool.{Bool}
use mathlib.Core.List.{List, [], ◌∷◌}
use retail_intelligence.Base.Equality.{string_eq, ◌==◌}
use retail_intelligence.Base.Lists.{any}
use retail_intelligence.Base.Sort.{cmp_text, not_gt, sort_by}
use retail_intelligence.Base.Tests.{if◌then◌else◌}

abbrev pub text_le : String → String → Bool
text_le a b = not_gt (cmp_text a b)

-- `text in texts`
abbrev pub member : String → List String → Bool
member text texts = any (λ t. t == text) texts

-- the distinct texts of a list
unfoldable pub distinct : List String → List String
distinct [] = []
distinct (a ∷ texts) = let rest = distinct texts in if member a rest then rest else a ∷ rest

-- `sorted(set(texts))`
unfoldable pub sorted_set : List String → List String
sorted_set texts = sort_by text_le (distinct texts)

-- `"|".join(parts)`
abbrev pub join_parts : List String → String
join_parts [] = ""
join_parts (p ∷ []) = p
join_parts (p ∷ q ∷ ps) = concat p (concat "|" (join_parts (q ∷ ps)))
