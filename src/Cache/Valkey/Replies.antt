-- ===== src/Cache/Valkey/Replies.antt =====
-- internal/cache/valkey.go: one exchange with a server, from the command to the answer.
use mathlib.Core.List.{append-nil}
use mirador_rca.Prelude.{◌≡◌, ap, ◌∙◌, sym, none, String, List, [], ◌∷◌, ◌++◌}
use mirador_rca.Prelude.Text.{codes}
use mirador_rca.Cache.Resp.{
  Bytes, ValkeyError, Result, and_then, RespReply, ValkeyConn, encode, write, write_command, read,
  exchange, read_reply,
}
use mirador_rca.Cache.Resp.Server.{server_reply, IsCarried, read_reply-server_reply}

-- A connection on which these bytes were sent, and everything that came back was read.
abbrev pub talking : (Bytes → Bytes) → ValkeyError → Bytes → ValkeyConn
talking peer ending sent = record {
  input = [];
  output = sent;
  peer = peer;
  ending = ending;
  write_error = none;
}

-- On a connection that can be written to, a command sends exactly its encoding, and where the server then
-- sends a reply it is answered by what is made of that reply, with nothing left to read.
pub exchange_lem :
    {A : Type 0} (command : String) (args : List Bytes) (answer : RespReply → Result A)
    (reply : RespReply) (peer : Bytes → Bytes) (ending : ValkeyError) (sent : Bytes)
    → peer (sent ++ encode (codes command ∷ args)) ≡ server_reply reply
    → IsCarried reply
    → exchange command args answer (talking peer ending sent)
      ≡ (answer reply, talking peer ending (sent ++ encode (codes command ∷ args)))
unfolding exchange write_command write read
exchange_lem command args answer reply peer ending sent replied h =
    ap
      (λ x.
        (and_then
          (
            x.0,
            record (talking peer ending (sent ++ encode (codes command ∷ args))) { input = x.1 },
          )
          λ r vc. (answer r, vc)))
      (ap (read_reply ending) (replied ∙ sym (append-nil (server_reply reply)))
        ∙ read_reply-server_reply ending reply [] h)
