-- ===== src/Cache/Resp/Server.antt =====
-- internal/cache/valkey.go: what a server reads of a command, and what the client reads of a reply.
use mathlib.Core.List.{append_assoc}
use mirador_rca.Prelude.{
  ℕ, zero, suc, ◌<◌, ◌≤◌, ◌≡◌, refl, ap, ◌∙◌, true, false, Option, some, none, List, [], ◌∷◌, ◌++◌,
  ◌==◌, length, length-append, take, drop, ltb, if◌then◌else◌, arith, All,
}
use mirador_rca.Prelude.Int.{ℤ, pos, negsuc}
use mirador_rca.Cache.Resp.{
  Bytes, Result, done, unsigned, all_digits, failed, ValkeyError, ReplyType, simple_string,
  bulk_string, integer, nil_reply, RespReply, cr, lf, read_line, itoa, atoi, int_limit, encode_part,
  encode_parts, encode, read_full, read_sized, read_bulk, read_text, simple_of, integer_of,
  and_then, expect_crlf, read_reply,
}
use mirador_rca.Cache.Resp.Decimal.{atoi-itoa}
use mirador_rca.Cache.Resp.Lines.{is_line, read_line-line, itoa-is_line}

-- The bytes of a reply.
abbrev pub server_reply : RespReply → Bytes
server_reply r = elim r.typ [
  | simple_string ↦ b'+' ∷ r.data_bytes ++ cr ∷ lf ∷ []
  | integer ↦ b':' ∷ r.data_bytes ++ cr ∷ lf ∷ []
  | bulk_string ↦ b'$' ∷ itoa (length r.data_bytes) ++ (cr ∷ lf ∷ r.data_bytes ++ cr ∷ lf ∷ [])
  | nil_reply ↦ b'$' ∷ b'-' ∷ b'1' ∷ cr ∷ lf ∷ []
]

-- A reply that the protocol can carry: a line for the first two, a size that an integer holds.
abbrev pub IsCarried : RespReply → Type 0
IsCarried r = elim r.typ [
  | simple_string ↦ is_line r.data_bytes ≡ true
  | integer ↦ is_line r.data_bytes ≡ true
  | bulk_string ↦ length r.data_bytes < int_limit
  | nil_reply ↦ r.data_bytes ≡ []
]

pub length-encode : (parts : List Bytes) → 1 ≤ length (encode parts)
unfolding encode
length-encode parts = omega arith

take-append : (a b : Bytes) → take (length a) (a ++ b) ≡ a
take-append [] b = refl
take-append (x ∷ a) b = ap (λ l. x ∷ l) (take-append a b)

drop-append : (a b : Bytes) → drop (length a) (a ++ b) ≡ b
drop-append [] b = refl
drop-append (x ∷ a) b = drop-append a b

module _ (ending : ValkeyError) where
  read_full-data :
      (part rest : Bytes)
      → read_full ending (length part) (part ++ cr ∷ lf ∷ rest)
        ≡ (done (record { typ = bulk_string; data_bytes = part }), rest)
  unfolding read_full expect_crlf
  read_full-data part rest =
      let fits : ltb (length (part ++ cr ∷ lf ∷ rest)) (length part) ≡ false =
        ground (arith, length-append part (cr ∷ lf ∷ rest)) in
      rw (fits, drop-append part (cr ∷ lf ∷ rest), take-append part (cr ∷ lf ∷ rest))

  read_bulk-data :
      (part rest : Bytes)
      → length part < int_limit
      → read_bulk ending (itoa (length part) ++ (cr ∷ lf ∷ part ++ cr ∷ lf ∷ rest))
        ≡ (done (record { typ = bulk_string; data_bytes = part }), rest)
  unfolding read_bulk read_sized
  read_bulk-data part rest h =
      ap (λ x. and_then x (read_sized ending))
        (read_line-line ending (itoa (length part)) (part ++ cr ∷ lf ∷ rest)
          (itoa-is_line (length part)))
      ∙ rw (read_sized, atoi-itoa (length part) h) (read_full-data part rest)

  read_nil :
      (rest : Bytes)
      → read_bulk ending (b'-' ∷ b'1' ∷ cr ∷ lf ∷ rest)
        ≡ (done (record { typ = nil_reply; data_bytes = [] }), rest)
  unfolding read_bulk read_sized atoi unsigned all_digits is_line
  read_nil rest =
      ap (λ x. and_then x (read_sized ending)) (read_line-line ending (b'-' ∷ b'1' ∷ []) rest refl)

  read_text-line :
      (make : Bytes → Result RespReply) (l rest : Bytes)
      → is_line l ≡ true
      → read_text ending make (l ++ cr ∷ lf ∷ rest) ≡ (make l, rest)
  unfolding read_text
  read_text-line make l rest h =
      ap (λ x. and_then x λ l' rest'. (make l', rest')) (read_line-line ending l rest h)

  read_reply-typ :
      (t : ReplyType) (l rest : Bytes)
      → IsCarried (record { typ = t; data_bytes = l })
      → read_reply ending (server_reply (record { typ = t; data_bytes = l }) ++ rest)
        ≡ (done (record { typ = t; data_bytes = l }), rest)
  unfolding read_reply
  read_reply-typ simple_string l rest h =
      rw (append_assoc l (cr ∷ lf ∷ []) rest) (read_text-line simple_of l rest h)
  read_reply-typ integer l rest h =
      rw (append_assoc l (cr ∷ lf ∷ []) rest) (read_text-line integer_of l rest h)
  read_reply-typ bulk_string l rest h =
      rw
        (
          append_assoc (itoa (length l)) (cr ∷ lf ∷ l ++ cr ∷ lf ∷ []) rest,
          append_assoc l (cr ∷ lf ∷ []) rest,
        )
        (read_bulk-data l rest h)
  read_reply-typ nil_reply l rest h = rw h (read_nil rest)

  -- The client reads back every reply that the protocol can carry, whatever bytes its data holds, and
  -- leaves the bytes behind it.
  pub read_reply-server_reply :
      (r : RespReply) (rest : Bytes)
      → IsCarried r
      → read_reply ending (server_reply r ++ rest) ≡ (done r, rest)
  read_reply-server_reply r rest h = read_reply-typ r.typ r.data_bytes rest h

  -- A server reads so many parts, each by its size.
  abbrev parts_from : ℕ → Bytes → Result (List Bytes) × Bytes
  parts_from zero input = (done [], input)
  parts_from (suc n) [] = (failed ending, [])
  parts_from (suc n) (c ∷ input) =
      if c == b'$'
      then (and_then (read_bulk ending input) λ part rest.
          and_then (parts_from n rest) λ parts rest'. (done (part.data_bytes ∷ parts), rest'))
      else (failed ending, input)

  abbrev counted_parts : Option ℤ → Bytes → Result (List Bytes) × Bytes
  counted_parts none input = (failed ending, input)
  counted_parts (some (pos n)) input = parts_from n input
  counted_parts (some (negsuc n)) input = (failed ending, input)

  -- A server that reads a command: the count of its parts, then the parts.
  abbrev pub server_command : Bytes → Result (List Bytes) × Bytes
  server_command [] = (failed ending, [])
  server_command (c ∷ input) =
      if c == b'*'
      then and_then (read_line ending input) (λ line rest. counted_parts (atoi line) rest)
      else (failed ending, input)

  parts_from-encode_parts :
      (parts : List Bytes) (rest : Bytes)
      → All (λ part. length part < int_limit) parts
      → parts_from (length parts) (encode_parts parts ++ rest) ≡ (done parts, rest)
  unfolding encode_parts encode_part
  parts_from-encode_parts [] rest h = refl
  parts_from-encode_parts (part ∷ parts) rest (h, hs) = simp append_assoc (
      rw
        (read_bulk-data part (encode_parts parts ++ rest) h, parts_from-encode_parts parts rest hs))

  -- Whatever bytes the parts of a command hold, a server that goes by the sizes reads exactly these
  -- parts: no key or value can end a part early or add a command.
  pub server_command-encode :
      (parts : List Bytes) (rest : Bytes)
      → length parts < int_limit
      → All (λ part. length part < int_limit) parts
      → server_command (encode parts ++ rest) ≡ (done parts, rest)
  unfolding encode
  server_command-encode parts rest n h = simp append_assoc (
      ap (λ x. and_then x λ line rest'. counted_parts (atoi line) rest')
        (read_line-line ending (itoa (length parts)) (encode_parts parts ++ rest)
          (itoa-is_line (length parts)))
      ∙ ap (λ z. counted_parts z (encode_parts parts ++ rest)) (atoi-itoa (length parts) n)
      ∙ parts_from-encode_parts parts rest h)
