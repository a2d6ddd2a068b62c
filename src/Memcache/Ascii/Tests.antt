-- ===== src/Memcache/Ascii/Tests.antt =====
-- The parser of text memcached responses (agents/memcache.c:61-107) on concrete bytes.
use lancet_tool.Base.{run_loop, ◌-ℤ◌, ◌+◌, ◌≡◌, refl, List, [], ◌∷◌, ◌++◌, ok, arith, length, take}
use lancet_tool.Libc.Strings.{codes, is_prefix}
use lancet_tool.AppProto.Replies.{encode_all}
use lancet_tool.Memcache.Ascii.{memcache_ascii_consume_response, strchnth, strchr}
use lancet_tool.Memcache.Ascii.Replies.{Reply, not_found, stored, value, encode}
use lancet_tool.Memcache.Ascii.Whole.{memcache_ascii_consume_response_lem}

abbrev one_value : Reply
one_value = value (codes "key 0 2\r") (codes "hi\r")

abbrev replies : List Reply
replies = stored ∷ one_value ∷ not_found ∷ []

memcache_ascii_consume_response_lem_example :
    memcache_ascii_consume_response (record {
      iov_base = encode_all encode replies ++ (take 12 (encode one_value) ++ 0 ∷ b'\n' ∷ []);
      iov_len = length (encode_all encode replies) + 12;
    })
    ≡ ok (record { bytes = length (encode_all encode replies); reqs = 3 })
memcache_ascii_consume_response_lem_example =
    memcache_ascii_consume_response_lem replies one_value 12 (b'\n' ∷ [])
      (tt, (omega arith, (tt, tt))) (omega arith) (omega arith) (omega arith)

-- Twelve bytes of a value, with newlines of an older response behind them: a reply of 15 bytes is
-- counted.
stale_test :
    memcache_ascii_consume_response
      (record { iov_base = codes "VALUE k 0 2\r\n\n\n"; iov_len = 12 })
    ≡ ok (record { bytes = 15; reqs = 1 })
unfolding memcache_ascii_consume_response run_loop ◌-ℤ◌ is_prefix strchnth strchr
stale_test = refl
