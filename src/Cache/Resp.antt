-- ===== src/Cache/Resp.antt =====
-- internal/cache/valkey.go: the protocol, RESP. A connection is the bytes that are still to be read and
-- those that were sent; how the server goes on after what it was sent, what reading says at the end of the
-- input, and what a write says that fails, are parameters of it. Deadlines are left out: a call that runs out of time is a connection that ends.
pub mod Decimal
pub mod Lines
pub mod Server
use mirador_rca.Prelude.{
  ℕ, zero, suc, ◌+◌, ◌-◌, ◌*◌, ◌/◌, ◌%◌, ◌^◌, Bool, true, false, not, ◌&&◌, ◌||◌, Option, none,
  some, String, List, [], ◌∷◌, ◌++◌, foldl, length, take, drop, ltb, leb, ◌==◌, if◌then◌else◌,
}
use mirador_rca.Prelude.Int.{ℤ, pos, negsuc}
use mirador_rca.Prelude.Text.{codes}

abbrev pub Bytes : Type 0
Bytes = List ℕ

abbrev pub cr : ℕ
cr = 13

abbrev pub lf : ℕ
lf = 10

-- An error of the connection, with `shouldRetry` of it, the reply "-", and the errors that the client
-- makes up: a miss, and the text of a reply that it did not expect.
pub data ValkeyError : Type 0 where
  broken : Bool → ValkeyError
  cache_miss : ValkeyError
  server_error : Bytes → ValkeyError
  bad_size : Bytes → ValkeyError
  unexpected : String → Bytes → ValkeyError

-- What a call comes to; a crash is a panic.
pub data Result (A : Type 0) : Type 0 where
  done : A → Result A
  failed : ValkeyError → Result A
  crash : Result A

-- `if err != nil { return err }` after a call that changes the state `S`.
abbrev pub and_then : {S A B : Type 0} → Result A × S → (A → S → Result B × S) → Result B × S
and_then (done a, s) f = f a s
and_then (failed e, s) f = (failed e, s)
and_then (crash, s) f = (crash, s)

pub data ReplyType : Type 0 where
  simple_string : ReplyType
  bulk_string : ReplyType
  integer : ReplyType
  nil_reply : ReplyType

pub record RespReply : Type 0 where
  pub typ : ReplyType
  pub data_bytes : Bytes

-- `fmt.Sprintf("%d", n)`: each round takes one digit off.
unfoldable pub decimal : ℕ → ℕ → Bytes
decimal zero n = (b'0' + n) ∷ []
decimal (suc fuel) n =
    let rest = decimal fuel (n / 10) in
    if ltb n 10 then (b'0' + n) ∷ [] else rest ++ (b'0' + n % 10) ∷ []

-- A number has no more digits than its value, so `n` rounds are enough.
unfoldable pub itoa : ℕ → Bytes
itoa n = decimal n n

abbrev pub is_digit : ℕ → Bool
is_digit c = leb b'0' c && leb c b'9'

abbrev pub add_digit : ℕ → ℕ → ℕ
add_digit n c = n * 10 + (c - b'0')

unfoldable pub all_digits : Bytes → Bool
all_digits [] = true
all_digits (c ∷ l) = is_digit c && all_digits l

-- Digits, at least one.
unfoldable pub unsigned : Bytes → Option ℕ
unsigned [] = none
unsigned (c ∷ l) = if all_digits (c ∷ l) then some (foldl add_digit 0 (c ∷ l)) else none

abbrev pub int_limit : ℕ
int_limit = 2 ^ 63

abbrev pub positive : Option ℕ → Option ℤ
positive none = none
positive (some n) = if ltb n int_limit then some (pos n) else none

abbrev pub negated : ℕ → ℤ
negated zero = pos 0
negated (suc n) = negsuc n

abbrev pub negative : Option ℕ → Option ℤ
negative none = none
negative (some n) = if leb n int_limit then some (negated n) else none

-- `strconv.Atoi`: a sign, digits, and the range of a 64-bit integer.
unfoldable pub atoi : Bytes → Option ℤ
atoi [] = none
atoi (c ∷ l) =
    if c == b'-'
    then negative (unsigned l)
    else if c == b'+'
    then positive (unsigned l)
    else positive (unsigned (c ∷ l))

-- What is read up to the next line feed, and what is left.
pub split_line : Bytes → Option (Bytes × Bytes)
split_line [] = none
split_line (c ∷ input) =
    if c == lf
    then some ([], input)
    else elim (split_line input) [ none ↦ none | some p ↦ some (c ∷ p.0, p.1) ]

-- `strings.TrimSuffix(line, "\r")`
pub trim_cr : Bytes → Bytes
trim_cr [] = []
trim_cr (c ∷ []) = if c == cr then [] else c ∷ []
trim_cr (c ∷ d ∷ l) = c ∷ trim_cr (d ∷ l)

-- A part of a reply, with what the connection says at the end of its input.
abbrev pub Read : Type 0 → Type 0
Read A = Bytes → Result A × Bytes

-- What a line is after the prefixes "+" and ":".
abbrev pub simple_of : Bytes → Result RespReply
simple_of l = done (record { typ = simple_string; data_bytes = l })

abbrev pub integer_of : Bytes → Result RespReply
integer_of l = done (record { typ = integer; data_bytes = l })

module _ (ending : ValkeyError) where
  -- `readLine`
  pub read_line : Read Bytes
  read_line input = elim (split_line input) [
    | none ↦ (failed ending, [])
    | some p ↦ (done (trim_cr p.0), p.1)
  ]

  -- `expectCRLF`
  pub expect_crlf : Read (Unit {0})
  expect_crlf [] = (failed ending, [])
  expect_crlf (b1 ∷ []) = (failed ending, [])
  expect_crlf (b1 ∷ b2 ∷ input) =
      if b1 == cr && b2 == lf
      then (done tt, input)
      else (failed (unexpected "invalid line termination" []), input)

  -- A line after the prefix, made into a reply.
  pub read_text : (Bytes → Result RespReply) → Read RespReply
  read_text make input = and_then (read_line input) λ l rest. (make l, rest)

  -- `ioReadFull` into a buffer of the given size, and the line's end behind it. There is memory for the
  -- buffer: a size for which `make` panics is read here as any other that the input does not reach.
  pub read_full : ℕ → Read RespReply
  read_full size input =
      if ltb (length input) size
      then (failed ending, [])
      else and_then (expect_crlf (drop size input))
          λ u rest. (done (record { typ = bulk_string; data_bytes = take size input }), rest)

  -- A size of -1 is nil; a buffer of another negative size is a panic.
  pub read_sized : Bytes → Read RespReply
  read_sized line input = elim (atoi line) [
    | none ↦ (failed (bad_size line), input)
    | some size ↦ elim size [
      | pos n ↦ read_full n input
      | negsuc n ↦
          if n == 0
          then (done (record { typ = nil_reply; data_bytes = [] }), input)
          else (crash, input)
    ]
  ]

  pub read_bulk : Read RespReply
  read_bulk input = and_then (read_line input) read_sized

  -- `readReply`
  pub read_reply : Read RespReply
  read_reply [] = (failed ending, [])
  read_reply (prefix ∷ input) =
      if prefix == b'+'
      then read_text simple_of input
      else if prefix == b'-'
      then read_text (λ l. failed (server_error l)) input
      else if prefix == b':'
      then read_text integer_of input
      else if prefix == b'$'
      then read_bulk input
      else (failed (unexpected "unexpected RESP prefix" (prefix ∷ [])), input)

-- What `write` sends for one part, and for a command.
pub encode_part : Bytes → Bytes
encode_part part = b'$' ∷ itoa (length part) ++ (cr ∷ lf ∷ part ++ cr ∷ lf ∷ [])

pub encode_parts : List Bytes → Bytes
encode_parts [] = []
encode_parts (part ∷ parts) = encode_part part ++ encode_parts parts

pub encode : List Bytes → Bytes
encode parts = b'*' ∷ itoa (length parts) ++ (cr ∷ lf ∷ encode_parts parts)

pub record ValkeyConn : Type 0 where
  pub input : Bytes
  pub output : Bytes
  -- What the server adds to the input once it has all these bytes.
  pub peer : Bytes → Bytes
  -- What reading past the input says, and what writing says, if it fails.
  pub ending : ValkeyError
  pub write_error : Option ValkeyError

abbrev pub OnConn : Type 0 → Type 0
OnConn A = ValkeyConn → Result A × ValkeyConn

-- `write`
unfoldable pub write : List Bytes → OnConn (Unit {0})
write parts vc = elim vc.write_error [
  | some e ↦ (failed e, vc)
  | none ↦
      let sent = vc.output ++ encode parts in
      (done tt, record vc { output = sent; input = vc.input ++ vc.peer sent })
]

-- `writeCommand`, and `writeStrings` of the same parts.
unfoldable pub write_command : String → List Bytes → OnConn (Unit {0})
write_command command args = write (codes command ∷ args)

-- `readReply`
unfoldable pub read : OnConn RespReply
read vc = let (reply, rest) = read_reply vc.ending vc.input in (reply, record vc { input = rest })

-- A command, and what is made of its reply.
unfoldable pub exchange : {A : Type 0} → String → List Bytes → (RespReply → Result A) → OnConn A
exchange command args answer vc =
    and_then (write_command command args vc)
      λ u vc1. and_then (read vc1) λ reply vc2. (answer reply, vc2)
