-- ===== src/AppProto/Tests.antt =====
-- The echo and synthetic protocols (agents/app_proto.c) on concrete requests and responses.
use lancet_tool.Base.{some, length, ℕ, ◌≡◌, refl, List, [], ◌∷◌, arith}
use lancet_tool.AppProto.Requests.{synthetic_create_request_lem}
use lancet_tool.AppProto.{Request, payload, read_le, synthetic_create_request, Iovec}
use lancet_tool.AppProto.Framing.{decode, scan}
use lancet_tool.AppProto.Simple.{fixed_frame}

abbrev message : Iovec
message = record { iov_base = b'a' ∷ b'b' ∷ b'c' ∷ []; iov_len = 3 }

abbrev echoed : List ℕ
echoed = b'a' ∷ b'b' ∷ b'c' ∷ b'a' ∷ b'b' ∷ b'c' ∷ b'a' ∷ []

echoed_counted : decode (fixed_frame 3) echoed ≡ record { bytes = 6; reqs = 2 }
unfolding scan
echoed_counted = refl

-- A request with room for two iovecs.
abbrev blank : Request
blank = record { meta = 5; iov_cnt = 0; iovs = message ∷ message ∷ [] }

synthetic_create_request_lem_example :
    (length (payload (synthetic_create_request 1000 blank)) ≡ 8)
    × (read_le 8 (payload (synthetic_create_request 1000 blank)) 0 ≡ some 1000)
synthetic_create_request_lem_example =
    synthetic_create_request_lem 1000 blank (omega arith) (omega arith)
