-- ===== src/Cache/Resp/Decimal.antt =====
-- internal/cache/valkey.go: decimal numbers are written and read back.
use mirador_rca.Prelude.{
  ℕ, zero, suc, ◌+◌, ◌/◌, ◌%◌, ◌≤◌, ◌<◌, ◌≡◌, refl, ◌∙◌, true, false, ◌&&◌, some, List, [], ◌∷◌,
  ◌++◌, foldl, length, length-append, ltb, ◌==◌, arith, Bool-cases, inl, inr,
}
use mirador_rca.Prelude.Int.{pos}
use mirador_rca.Cache.Resp.{Bytes, decimal, itoa, add_digit, all_digits, unsigned, atoi, int_limit}

foldl-append {ℓ κ} :
    {A : Type ℓ} {B : Type κ} (f : B → A → B) (z : B) (xs ys : List A)
    → foldl f z (xs ++ ys) ≡ foldl f (foldl f z xs) ys
foldl-append f z [] ys = refl
foldl-append f z (x ∷ xs) ys = foldl-append f (f z x) xs ys

all_digits-append : (a b : Bytes) → all_digits (a ++ b) ≡ (all_digits a && all_digits b)
unfolding all_digits
all_digits-append [] b = refl
all_digits-append (c ∷ l) b = ground (arith, all_digits-append l b)

decimal-all_digits : (fuel n : ℕ) → n ≤ fuel → all_digits (decimal fuel n) ≡ true
unfolding decimal all_digits
decimal-all_digits zero n h = ground arith
decimal-all_digits (suc fuel) n h = elim (Bool-cases (ltb n 10)) [
  | inl small ↦ rw small (ground arith)
  | inr large ↦
      let rest = decimal-all_digits fuel (n / 10) (ground arith) in
      rw (large, all_digits-append (decimal fuel (n / 10)) ((b'0' + n % 10) ∷ []), rest)
        (ground arith)
]

decimal-value : (fuel n : ℕ) → n ≤ fuel → foldl add_digit 0 (decimal fuel n) ≡ n
unfolding decimal
decimal-value zero n h = ground arith
decimal-value (suc fuel) n h = elim (Bool-cases (ltb n 10)) [
  | inl small ↦ rw small (ground arith)
  | inr large ↦
      rw
        (
          large,
          foldl-append add_digit 0 (decimal fuel (n / 10)) ((b'0' + n % 10) ∷ []),
          decimal-value fuel (n / 10) (ground arith),
        )
        (ground arith)
]

length-decimal_pos : (fuel n : ℕ) → 1 ≤ length (decimal fuel n)
unfolding decimal
length-decimal_pos zero n = omega arith
length-decimal_pos (suc fuel) n = elim (Bool-cases (ltb n 10)) [
  | inl small ↦ rw small (omega arith)
  | inr large ↦
      rw large (omega (arith, length-append (decimal fuel (n / 10)) ((b'0' + n % 10) ∷ [])))
]

atoi-digits :
    (l : Bytes)
    → 1 ≤ length l
    → all_digits l ≡ true
    → foldl add_digit 0 l < int_limit
    → atoi l ≡ some (pos (foldl add_digit 0 l))
unfolding atoi unsigned all_digits
atoi-digits [] n h b = absurd (omega arith)
atoi-digits (c ∷ l) n h b =
    let not_minus : (c == b'-') ≡ false = ground arith in
    let not_plus : (c == b'+') ≡ false = ground arith in rw (not_minus, not_plus, h) (ground arith)

-- A number of fewer than 64 bits is read back from its digits.
pub atoi-itoa : (n : ℕ) → n < int_limit → atoi (itoa n) ≡ some (pos n)
unfolding itoa
atoi-itoa n h =
    let value = decimal-value n n (omega arith) in
    atoi-digits (decimal n n) (length-decimal_pos n n) (decimal-all_digits n n (omega arith))
      (rw value h)
    ∙ rw value

pub itoa-all_digits : (n : ℕ) → all_digits (itoa n) ≡ true
unfolding itoa
itoa-all_digits n = decimal-all_digits n n (omega arith)

pub length-itoa_pos : (n : ℕ) → 1 ≤ length (itoa n)
unfolding itoa
length-itoa_pos n = length-decimal_pos n n
