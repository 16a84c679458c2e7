-- ===== src/Json/Reading.antt =====
-- encoding/json as internal/repo/weaviate_repo.go uses it: slices are read back.
use mirador_rca.Prelude.{◌≡◌, refl, Option, some, String, List, [], ◌∷◌, map, All}
use mirador_rca.Json.{Json, text, items_of, read_items, read_text}

module _ {F A B : Type 0} (read : Json F → Option B) (write : A → Json F) (g : A → B) where
  pub read_items-items_of :
      (l : List A)
      → All (λ a. read (write a) ≡ some (g a)) l
      → read_items read (items_of write l) ≡ some (map g l)
  read_items-items_of [] h = refl
  read_items-items_of (a ∷ l) (h, hs) = rw (h, read_items-items_of l hs) refl

pub read_items-texts :
    (F : Type 0) (l : List String) → read_items {F = F} read_text (items_of text l) ≡ some l
read_items-texts F [] = refl
read_items-texts F (s ∷ l) = rw (read_items-texts F l) refl
