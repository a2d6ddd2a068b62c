-- ===== src/Tcp/Parsers.antt =====
-- The parsers of agents/app_proto.c and agents/memcache.c that keep the contract of `Buffer.Parses`
-- on every input.
use lancet_tool.Base.{◌<◌, arith}
use lancet_tool.AppProto.{Iovec, echo_consume_response, synthetic_consume_response}
use lancet_tool.AppProto.Simple.{
  fixed_frame, fixed_frame-IsFraming, echo_consume_response-decode,
  synthetic_consume_response-decode,
}
use lancet_tool.Memcache.{memcache_bin_consume_response}
use lancet_tool.Memcache.Bin.{frame, frame-IsFraming, memcache_bin_consume_response-decode}
use lancet_tool.Tcp.Buffer.{Parses}

pub echo-Parses :
    (msg : Iovec) → 0 < msg.iov_len → Parses (echo_consume_response msg) (fixed_frame msg.iov_len)
echo-Parses msg h = record {
  framing = fixed_frame-IsFraming msg.iov_len h;
  counts = λ xs stale fits. echo_consume_response-decode msg xs stale h (omega arith);
}

pub synthetic-Parses : Parses synthetic_consume_response (fixed_frame 8)
synthetic-Parses = record {
  framing = fixed_frame-IsFraming 8 (omega arith);
  counts = λ xs stale fits. synthetic_consume_response-decode xs stale (omega arith);
}

pub memcache_bin-Parses : Parses memcache_bin_consume_response frame
memcache_bin-Parses = record {
  framing = frame-IsFraming;
  counts = λ xs stale fits. memcache_bin_consume_response-decode xs stale (omega arith);
}
