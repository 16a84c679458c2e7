-- ===== src/Cache/Valkey/Served.antt =====
-- What a server of the protocol does with the bytes that internal/cache/valkey.go sends: it reads them as
-- commands, runs these in their order, and replies to each. What a command does is a parameter.
use mathlib.Core.List.{append-nil, append_assoc}
use mirador_rca.Prelude.{
  ℕ, zero, suc, ◌≤◌, ◌<◌, ◌≡◌, refl, sym, ap, ◌∙◌, false, List, [], ◌∷◌, ◌++◌, length,
  length-append, All, arith,
}
use mirador_rca.Cache.Resp.{
  Bytes, Result, done, failed, crash, broken, RespReply, encode, int_limit,
}
use mirador_rca.Cache.Resp.Server.{
  length-encode, server_reply, server_command, server_command-encode,
}

-- A command that a server can count, with parts that it can count.
abbrev pub IsSmall : List Bytes → Type 0
IsSmall parts = (length parts < int_limit) × All (λ part. length part < int_limit) parts

abbrev next_command : (Bytes → List (List Bytes)) → Result (List Bytes) × Bytes → List (List Bytes)
next_command more (done parts, rest) = parts ∷ more rest
next_command more (failed e, rest) = []
next_command more (crash, rest) = []

pub commands_from : ℕ → Bytes → List (List Bytes)
commands_from zero input = []
commands_from (suc fuel) input =
    next_command (commands_from fuel) (server_command (broken false) input)

-- The commands in these bytes; each takes at least one byte.
pub commands_of : Bytes → List (List Bytes)
commands_of input = commands_from (length input) input

unfoldable pub encode_all : List (List Bytes) → Bytes
encode_all [] = []
encode_all (parts ∷ commands) = encode parts ++ encode_all commands

commands_from-encode_all :
    (commands : List (List Bytes)) (fuel : ℕ)
    → All IsSmall commands
    → length commands ≤ fuel
    → commands_from fuel (encode_all commands) ≡ commands
unfolding commands_from encode_all
commands_from-encode_all [] zero h n = refl
commands_from-encode_all [] (suc fuel) h n = refl
commands_from-encode_all (parts ∷ commands) zero h n = absurd (omega arith)
commands_from-encode_all (parts ∷ commands) (suc fuel) ((few, small), h) n =
    ap (next_command (commands_from fuel))
      (server_command-encode (broken false) parts (encode_all commands) few small)
    ∙ ap (λ l. parts ∷ l) (commands_from-encode_all commands fuel h (omega arith))

length-encode_all : (commands : List (List Bytes)) → length commands ≤ length (encode_all commands)
unfolding encode_all
length-encode_all [] = omega arith
length-encode_all (parts ∷ commands) = omega (
  arith,
  length-append (encode parts) (encode_all commands),
  length-encode parts,
  length-encode_all commands,
)

pub commands_of-encode_all :
    (commands : List (List Bytes))
    → All IsSmall commands
    → commands_of (encode_all commands) ≡ commands
unfolding commands_of
commands_of-encode_all commands h =
    commands_from-encode_all commands (length (encode_all commands)) h (length-encode_all commands)

pub encode_all-append :
    (commands : List (List Bytes)) (parts : List Bytes)
    → encode_all (commands ++ parts ∷ []) ≡ encode_all commands ++ encode parts
unfolding encode_all
encode_all-append [] parts = append-nil (encode parts)
encode_all-append (c ∷ commands) parts =
    ap (λ l. encode c ++ l) (encode_all-append commands parts)
    ∙ sym (append_assoc (encode c) (encode_all commands) (encode parts))

module _ {S : Type 0} (run : List Bytes → S → RespReply × S) where
  -- The state after these commands.
  abbrev pub after : List (List Bytes) → S → S
  after [] s = s
  after (c ∷ commands) s = after commands (run c s).1

  abbrev reply_to : List (List Bytes) → S → Bytes
  reply_to [] s = []
  reply_to (c ∷ []) s = server_reply (run c s).0
  reply_to (c ∷ d ∷ commands) s = reply_to (d ∷ commands) (run c s).1

  -- What the server sends once it has all these bytes: its reply to the last command.
  pub peer_of : S → Bytes → Bytes
  peer_of s sent = reply_to (commands_of sent) s

  reply_to-append :
      (commands : List (List Bytes)) (parts : List Bytes) (s : S)
      → reply_to (commands ++ parts ∷ []) s ≡ server_reply (run parts (after commands s)).0
  reply_to-append [] parts s = refl
  reply_to-append (c ∷ []) parts s = refl
  reply_to-append (c ∷ d ∷ commands) parts s = reply_to-append (d ∷ commands) parts (run c s).1

  pub after-append :
      (commands : List (List Bytes)) (parts : List Bytes) (s : S)
      → after (commands ++ parts ∷ []) s ≡ (run parts (after commands s)).1
  after-append [] parts s = refl
  after-append (c ∷ commands) parts s = after-append commands parts (run c s).1

  pub peer_of-append :
      (commands : List (List Bytes)) (parts : List Bytes) (s : S)
      → All IsSmall (commands ++ parts ∷ [])
      → peer_of s (encode_all commands ++ encode parts)
        ≡ server_reply (run parts (after commands s)).0
  unfolding peer_of
  peer_of-append commands parts s h =
      ap (λ l. reply_to (commands_of l) s) (sym (encode_all-append commands parts))
      ∙ ap (λ l. reply_to l s) (commands_of-encode_all (commands ++ parts ∷ []) h)
      ∙ reply_to-append commands parts s
