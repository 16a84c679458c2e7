-- ===== src/Tests/Caching.antt =====
-- The cache's client, on a network whose state counts the calls of `dial`.
use mirador_rca.Prelude.{
  ℕ, ◌+◌, ◌≤◌, ◌≡◌, none, true, List, [], ◌∷◌, ◌++◌, ◌==◌, if◌then◌else◌, arith,
}
use mirador_rca.Prelude.Int.{pos}
use mirador_rca.Prelude.Text.{codes}
use mirador_rca.Cache.Resp.{
  Bytes, broken, done, failed, RespReply, bulk_string, read_reply, encode, exchange,
}
use mirador_rca.Cache.Resp.Server.{
  server_reply, server_command, read_reply-server_reply, server_command-encode,
}
use mirador_rca.Cache.Valkey.{ValkeyConfig, Network, rounds, with_conn, get_answer}
use mirador_rca.Cache.Valkey.Attempts.{Rounds, with_conn_lem}
use mirador_rca.Cache.Valkey.Replies.{talking}

abbrev pub config : ValkeyConfig
config = record {
  addr = codes "cache:6379";
  username = [];
  password = [];
  db = pos 0;
  dial_timeout = pos 0;
  read_timeout = pos 5;
  write_timeout = pos 0;
  max_retries = pos 2;
  tls = true;
}

abbrev stored_value : RespReply
stored_value = record { typ = bulk_string; data_bytes = codes "a\r\nb" }

-- The first call fails for a while, the next one answers.
abbrev network : Network ℕ
network = record {
  expired = λ w. none;
  dial = λ cfg w. (
    if w == 0
        then failed (broken true)
        else done (talking (λ sent. server_reply stored_value) (broken true) []),
    w + 1,
  );
  close = λ vc w. w;
  sleep = λ d w. w;
}

abbrev parts : List Bytes
parts = codes "SET" ∷ codes "k\r\n*1" ∷ codes "v" ∷ []

read_reply-server_reply_example :
    read_reply (broken true) (server_reply stored_value ++ codes "+OK")
    ≡ (done stored_value, codes "+OK")
read_reply-server_reply_example =
    read_reply-server_reply (broken true) stored_value (codes "+OK") (omega arith)

server_command-encode_example :
    server_command (broken true) (encode parts ++ codes "*") ≡ (done parts, codes "*")
server_command-encode_example =
    server_command-encode (broken true) parts (codes "*") (omega arith)
      (omega arith, (omega arith, (omega arith, tt)))

with_conn_lem_example :
    (n : ℕ) × Rounds network config
      (exchange "GET" (codes "k" ∷ []) get_answer)
      (rounds (pos 2))
      0
      n
      0
      (with_conn network config (exchange "GET" (codes "k" ∷ []) get_answer) 0).0
      (with_conn network config (exchange "GET" (codes "k" ∷ []) get_answer) 0).1
    × (n ≤ rounds (pos 2))
with_conn_lem_example = with_conn_lem network config (exchange "GET" (codes "k" ∷ []) get_answer) 0
