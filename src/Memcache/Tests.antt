-- ===== src/Memcache/Tests.antt =====
-- The parser of binary memcached responses (agents/memcache.c:158-202) on concrete bytes.
use lancet_tool.Base.{
  ℕ, pos, some, none, drop, ◌≡◌, refl, List, [], ◌∷◌, ◌++◌, ok, arith, length, replicate,
}
use lancet_tool.AppProto.Framing.{decode, scan}
use lancet_tool.AppProto.{Iovec, Request, payload}
use lancet_tool.Libc.Strings.{codes}
use lancet_tool.Memcache.Requests.{memcache_bin_request, memcache_bin_request_lem}
use lancet_tool.Memcache.{memcache_bin_consume_response, read_be}
use lancet_tool.Memcache.Bin.{frame, memcache_bin_consume_response-decode}

-- A response with a body of two bytes, and the header of one whose body is not there yet.
abbrev reply : List ℕ
reply = replicate 8 0 ++ (0 ∷ 0 ∷ 0 ∷ 2 ∷ replicate 12 0)

abbrev stream : List ℕ
stream = reply ++ (b'h' ∷ b'i' ∷ reply)

memcache_bin_consume_response-decode_example :
    memcache_bin_consume_response
      (record { iov_base = stream ++ 9 ∷ 9 ∷ 9 ∷ []; iov_len = length stream })
    ≡ ok (decode frame stream)
memcache_bin_consume_response-decode_example =
    memcache_bin_consume_response-decode stream (9 ∷ 9 ∷ 9 ∷ []) (omega arith)

stream_counted : decode frame stream ≡ record { bytes = 26; reqs = 1 }
unfolding scan frame read_be
stream_counted = refl

-- A key of three bytes, and a request that was never filled in.
abbrev short_key : Iovec
short_key = record { iov_base = codes "042" ++ 0 ∷ []; iov_len = 3 }

abbrev unused : Request
unused = record { meta = 0; iov_cnt = 0; iovs = [] }

memcache_bin_request_lem_example :
    (frame (payload (memcache_bin_request short_key none unused))
      ≡ some (length (payload (memcache_bin_request short_key none unused))))
    × (drop 24 (payload (memcache_bin_request short_key none unused)) ≡ codes "042")
    × (frame (payload (memcache_bin_request short_key (some (pos 2)) unused))
        ≡ some (length (payload (memcache_bin_request short_key (some (pos 2)) unused))))
    × (drop 24 (payload (memcache_bin_request short_key (some (pos 2)) unused))
        ≡ replicate 8 0 ++ codes "042xx")
memcache_bin_request_lem_example =
    memcache_bin_request_lem short_key 2 unused (omega arith) (omega arith) (omega arith)
