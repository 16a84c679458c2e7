-- ===== src/Weaviate/Keys.antt =====
-- internal/repo/weaviate_repo.go: the key of a question about similar incidents does not depend on the
-- order of the symptoms.
use Prim.Native.Char.{code}
use text.Mathlib.TextEquality.{Char-path, IsScalar-prop}
use mathlib.Core.List.{Perm}
use mirador_rca.Prelude.{ℕ, ◌≡◌, refl, ap, true, false, String, List, [], ◌∷◌, arith}
use mirador_rca.Prelude.Int.{ℤ}
use mirador_rca.Prelude.Text.{codes}
use mirador_rca.Prelude.Sort.{IsWeakOrder}
use mirador_rca.Prelude.Canonical.{sort_stable-same}
use mirador_rca.Weaviate.Queries.{codes_less, text_less, sort_strings, cache_similar_incidents_key}

codes_less-asym : (s t : List ℕ) → codes_less s t ≡ true → codes_less t s ≡ false
unfolding codes_less
codes_less-asym [] [] h = ground arith
codes_less-asym [] (d ∷ t) h = refl
codes_less-asym (c ∷ s) [] h = ground arith
codes_less-asym (c ∷ s) (d ∷ t) h = ground (arith, codes_less-asym s t)

codes_less-not_trans :
    (s t u : List ℕ) → codes_less s t ≡ false → codes_less t u ≡ false → codes_less s u ≡ false
unfolding codes_less
codes_less-not_trans s t [] h k = ground arith
codes_less-not_trans [] [] (e ∷ u) h k = ground arith
codes_less-not_trans [] (d ∷ t) (e ∷ u) h k = ground arith
codes_less-not_trans (c ∷ s) [] (e ∷ u) h k = ground arith
codes_less-not_trans (c ∷ s) (d ∷ t) (e ∷ u) h k = ground (arith, codes_less-not_trans s t u)

codes_less-antisym : (s t : List ℕ) → codes_less s t ≡ false → codes_less t s ≡ false → s ≡ t
unfolding codes_less
codes_less-antisym [] [] h k = refl
codes_less-antisym [] (d ∷ t) h k = ground arith
codes_less-antisym (c ∷ s) [] h k = ground arith
codes_less-antisym (c ∷ s) (d ∷ t) h k = ground (arith, codes_less-antisym s t)

codes-injective : (s t : String) → codes s ≡ codes t → s ≡ t
codes-injective String.[] String.[] h = refl
codes-injective String.[] (String.◌∷◌ d t) h = ground arith
codes-injective (String.◌∷◌ c s) String.[] h = ground arith
codes-injective (String.◌∷◌ c s) (String.◌∷◌ d t) h =
    let same : code c ≡ code d = ground arith in
    let rest : codes s ≡ codes t = ground arith in
    λ i. String.◌∷◌ (Char-path c d same i) (codes-injective s t rest i)

text_less-IsWeakOrder : IsWeakOrder text_less (λ _. Unit {0})
text_less-IsWeakOrder = record {
  prop = λ a. hlevel;
  asym = λ a b p q h. codes_less-asym (codes a) (codes b) h;
  not_trans = λ a b c p q r h k. codes_less-not_trans (codes a) (codes b) (codes c) h k;
}

List_String-set : IsSet (List String)
List_String-set = hlevel (IsScalar-prop)

pub cache_similar_incidents_key-perm :
    (tenant_id : String) (limit : ℤ) {xs ys : List String}
    → Perm xs ys
    → cache_similar_incidents_key tenant_id (sort_strings xs) limit
      ≡ cache_similar_incidents_key tenant_id (sort_strings ys) limit
cache_similar_incidents_key-perm tenant_id limit p =
    ap (λ l. cache_similar_incidents_key tenant_id l limit)
      (sort_stable-same text_less text_less-IsWeakOrder
        (λ a b h k. codes-injective a b (codes_less-antisym (codes a) (codes b) h k))
        List_String-set p)
