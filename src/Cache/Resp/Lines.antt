-- ===== src/Cache/Resp/Lines.antt =====
-- internal/cache/valkey.go, `readLine`: a line is read up to its end.
use mirador_rca.Prelude.{
  ℕ, ◌≡◌, refl, ap, Bool, true, false, not, ◌&&◌, some, [], ◌∷◌, ◌++◌, ◌==◌, arith,
}
use mirador_rca.Cache.Resp.{
  Bytes, done, ValkeyError, cr, lf, split_line, trim_cr, read_line, itoa, all_digits,
}
use mirador_rca.Cache.Resp.Decimal.{itoa-all_digits}

-- A text that stays on its line.
unfoldable pub is_line : Bytes → Bool
is_line [] = true
is_line (c ∷ l) = not (c == lf) && is_line l

split_line-line :
    (l rest : Bytes)
    → is_line l ≡ true
    → split_line (l ++ cr ∷ lf ∷ rest) ≡ some (l ++ cr ∷ [], rest)
unfolding is_line split_line
split_line-line [] rest h = refl
split_line-line (c ∷ l) rest h =
    let other : (c == lf) ≡ false = ground arith in
    rw (other, split_line-line l rest (ground arith))

trim_cr-append : (l : Bytes) → trim_cr (l ++ cr ∷ []) ≡ l
unfolding trim_cr
trim_cr-append [] = refl
trim_cr-append (c ∷ []) = refl
trim_cr-append (c ∷ d ∷ l) = ap (λ x. c ∷ x) (trim_cr-append (d ∷ l))

pub read_line-line :
    (ending : ValkeyError) (l rest : Bytes)
    → is_line l ≡ true
    → read_line ending (l ++ cr ∷ lf ∷ rest) ≡ (done l, rest)
unfolding read_line
read_line-line ending l rest h = rw (read_line, split_line-line l rest h, trim_cr-append l)

digits-is_line : (l : Bytes) → all_digits l ≡ true → is_line l ≡ true
unfolding is_line all_digits
digits-is_line [] h = refl
digits-is_line (c ∷ l) h = ground (arith, digits-is_line l)

pub itoa-is_line : (n : ℕ) → is_line (itoa n) ≡ true
itoa-is_line n = digits-is_line (itoa n) (itoa-all_digits n)
