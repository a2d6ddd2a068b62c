-- ===== src/Redis/Tests.antt =====
-- The parser of Redis replies (agents/redis.c:69-147) on concrete bytes.
use lancet_tool.Base.{pos, some, none, ◌+◌, ◌≡◌, refl, List, [], ◌∷◌, ◌++◌, ok, arith, length, take}
use lancet_tool.Libc.{decimal}
use lancet_tool.Redis.{redis_kv_consume_response}
use lancet_tool.Redis.Replies.{Reply, status, bulk, nil, encode}
use lancet_tool.AppProto.Replies.{encode_all}
use lancet_tool.AppProto.{Iovec, Request, payload}
use lancet_tool.Libc.Strings.{codes}
use lancet_tool.Libc.{decimal}
use lancet_tool.Redis.Requests.{redis_kv_request, redis_kv_request_lem}
use lancet_tool.Redis.Whole.{redis_kv_consume_response_lem}

-- `+OK`, the value `hi`, no value.
abbrev replies : List Reply
replies = status (b'O' ∷ b'K' ∷ []) ∷ bulk (b'h' ∷ b'i' ∷ []) ∷ nil ∷ []

-- The first 5 bytes of the value `x`, which has 7, and two bytes of an older response.
redis_kv_consume_response_lem_example :
    redis_kv_consume_response 10 (record {
      iov_base = encode_all encode replies ++ (take 5 (encode (bulk (b'x' ∷ []))) ++ 7 ∷ 7 ∷ []);
      iov_len = length (encode_all encode replies) + 5;
    })
    ≡ ok (record { bytes = 18; reqs = 3 })
unfolding decimal
redis_kv_consume_response_lem_example =
    redis_kv_consume_response_lem replies (bulk (b'x' ∷ [])) 5 (7 ∷ 7 ∷ []) 10
      ((omega arith, (omega arith, tt)), (tt, (tt, tt))) tt (omega arith) (omega arith)
      (omega arith)

replies_bytes :
    encode_all encode replies
    ≡ b'+' ∷ b'O' ∷ b'K' ∷ 13 ∷ 10 ∷ b'$' ∷ b'2' ∷ 13 ∷ 10 ∷ b'h' ∷ b'i' ∷ 13 ∷ 10 ∷ b'$' ∷ b'-'
      ∷ b'1' ∷ 13 ∷ 10 ∷ []
unfolding decimal
replies_bytes = refl

-- A key of three bytes, and a request that was never filled in.
abbrev short_key : Iovec
short_key = record { iov_base = codes "042" ++ 0 ∷ []; iov_len = 3 }

abbrev unused : Request
unused = record { meta = 0; iov_cnt = 0; iovs = [] }

redis_kv_request_lem_example :
    (payload (redis_kv_request short_key none unused) ≡ codes "*2\r\n$3\r\nGET\r\n$3\r\n042\r\n")
    × (payload (redis_kv_request short_key (some (pos 2)) unused)
        ≡ codes "*3\r\n$3\r\nSET\r\n$3\r\n042\r\n$2\r\nxx\r\n")
unfolding decimal
redis_kv_request_lem_example = redis_kv_request_lem short_key 2 unused (omega arith) (omega arith)
