-- ===== src/Weaviate/Tokens.antt =====
-- internal/repo/weaviate_repo.go, `ListCorrelations`: the token of the next page gives its offset back.
use Prim.Native.Char.{code}
use text.Mathlib.TextLemmas.{nil-append, cons-append}
use mirador_rca.Prelude.{
  ℕ, zero, suc, ◌+◌, ◌/◌, ◌%◌, ◌≤◌, ◌<◌, ◌≡◌, refl, sym, ap, ◌∙◌, false, String, [], ◌∷◌, ◌++◌,
  length, ltb, arith, Bool-cases, inl, inr, str_eq, str_eq_iff,
}
use mirador_rca.Prelude.Int.{pos}
use mirador_rca.Prelude.Text.{◌<>◌, codes, digit, digits, format_int}
use mirador_rca.Cache.Resp.{decimal, itoa, int_limit}
use mirador_rca.Cache.Resp.Decimal.{atoi-itoa, length-itoa_pos}
use mirador_rca.Weaviate.Listing.{page_offset}

codes-append : (s t : String) → codes (s <> t) ≡ codes s ++ codes t
codes-append String.[] t = ap codes (nil-append t)
codes-append (String.◌∷◌ c s) t =
    ap codes (cons-append c s t) ∙ ap (◌∷◌ (code c)) (codes-append s t)

codes-digit : (n : ℕ) → n < 10 → codes (digit n) ≡ (b'0' + n) ∷ []
unfolding digit
codes-digit zero h = refl
codes-digit (suc zero) h = refl
codes-digit (suc (suc zero)) h = refl
codes-digit (suc (suc (suc zero))) h = refl
codes-digit (suc (suc (suc (suc zero)))) h = refl
codes-digit (suc (suc (suc (suc (suc zero))))) h = refl
codes-digit (suc (suc (suc (suc (suc (suc zero)))))) h = refl
codes-digit (suc (suc (suc (suc (suc (suc (suc zero))))))) h = refl
codes-digit (suc (suc (suc (suc (suc (suc (suc (suc zero)))))))) h = refl
codes-digit (suc (suc (suc (suc (suc (suc (suc (suc (suc zero))))))))) h = refl
codes-digit (suc (suc (suc (suc (suc (suc (suc (suc (suc (suc n)))))))))) h = absurd (omega arith)

codes-digits : (fuel n : ℕ) → n ≤ fuel → codes (digits fuel n) ≡ decimal fuel n
unfolding digits decimal
codes-digits zero n h = codes-digit n (omega arith)
codes-digits (suc fuel) n h = elim (Bool-cases (ltb n 10)) [
  | inl small ↦ rw small (codes-digit n (ground arith))
  | inr large ↦
      rw
        (
          large,
          codes-append (digits fuel (n / 10)) (digit (n % 10)),
          codes-digits fuel (n / 10) (ground arith),
          codes-digit (n % 10) (omega arith),
        )
        refl
]

-- The two ways of printing a number agree: `%d` and `strconv.Itoa`.
pub codes-format_int : (n : ℕ) → codes (format_int (pos n)) ≡ itoa n
unfolding format_int itoa
codes-format_int n = codes-digits n n (omega arith)

pub format_int-not_empty : (n : ℕ) → str_eq (format_int (pos n)) "" ≡ false
format_int-not_empty n = elim (Bool-cases (str_eq (format_int (pos n)) "")) [
  | inr h ↦ h
  | inl h ↦
      let empty = ap codes ((str_eq_iff (format_int (pos n)) "").0 h) in
      absurd (omega (arith, length-itoa_pos n, ap length (sym (codes-format_int n) ∙ empty)))
]

pub page_offset-format_int : (n : ℕ) → n < int_limit → page_offset (format_int (pos n)) ≡ n
unfolding page_offset
page_offset-format_int n h = rw (format_int-not_empty n, codes-format_int n, atoi-itoa n h) refl
