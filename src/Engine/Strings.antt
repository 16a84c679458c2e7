-- ===== src/Engine/Strings.antt =====
-- The helpers on lists of texts: `firstNonEmpty` and `uniqueStrings` of internal/engine/pipeline.go
-- and `appendUnique` of internal/engine/recommend.go. A set of texts is the list of what was put in.
pub mod Unique
use mirador_rca.Prelude.{
  Bool, true, false, not, ◌||◌, ◌≡◌, ◌↔◌, String, List, [], ◌∷◌, ◌++◌, str_eq, if◌then◌else◌,
}

-- `_, ok := set[x]`
unfoldable pub in_set : String → List String → Bool
in_set x [] = false
in_set x (y ∷ ys) = str_eq x y || in_set x ys

unfoldable pub first_non_empty : List String → String
first_non_empty [] = ""
first_non_empty (v ∷ vs) = if str_eq v "" then first_non_empty vs else v

-- The loop of `uniqueStrings`: the set of what was seen, and the result so far.
pub unique_from : List String → List String → List String → List String
unique_from seen result [] = result
unique_from seen result (v ∷ vs) =
    let skip = unique_from seen result vs in
    let take = unique_from (v ∷ seen) (result ++ v ∷ []) vs in
    if str_eq v "" then skip else if in_set v seen then skip else take

pub unique_strings : List String → List String
unique_strings values = unique_from [] [] values

-- The loop of `appendUnique` over the additions.
pub append_from : List String → List String → List String → List String
append_from seen existing [] = existing
append_from seen existing (item ∷ items) =
    let skip = append_from seen existing items in
    let take = append_from (item ∷ seen) (existing ++ item ∷ []) items in
    if str_eq item "" then skip else if in_set item seen then skip else take

pub append_unique : List String → List String → List String
append_unique existing additions = append_from existing existing additions
