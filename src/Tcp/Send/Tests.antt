-- ===== src/Tcp/Send/Tests.antt =====
-- Partial writes (agents/tp_tcp.c) on a concrete request.
use lancet_tool.Base.{◌≡◌, refl, List, [], ◌∷◌, ok, true, some, inl, inr, arith}
use lancet_tool.AppProto.{Iovec}
use lancet_tool.Tcp.Send.{SendResult, sent, would_block, total_len, send_request, write_loop}
use lancet_tool.Tcp.Send.Complete.{Drains, send_request_lem, write_loop_lem}

-- A header of two bytes, an empty key and a value of three bytes.
abbrev request : List Iovec
request =
    record { iov_base = b'G' ∷ b' ' ∷ []; iov_len = 2 }
    ∷ record { iov_base = []; iov_len = 0 }
    ∷ record { iov_base = b'x' ∷ b'y' ∷ b'z' ∷ []; iov_len = 3 }
    ∷ []

abbrev cut : List SendResult
cut = sent 1 ∷ would_block ∷ sent 2 ∷ sent 2 ∷ []

cut-Drains : Drains cut (total_len request)
cut-Drains = inr (omega arith, inr (omega arith, inl refl))

send_request_lem_example :
    send_request cut request ≡ ok (b'G' ∷ b' ' ∷ b'x' ∷ b'y' ∷ b'z' ∷ [], true)
send_request_lem_example =
    send_request_lem cut request (omega arith, (omega arith, (omega arith, tt))) cut-Drains

-- Two of the five bytes are left to be counted.
write_loop_lem_example :
    write_loop cut 5 request ≡ ok (b'G' ∷ b' ' ∷ b'x' ∷ b'y' ∷ b'z' ∷ [], some 2)
write_loop_lem_example =
    write_loop_lem cut request (omega arith, (omega arith, (omega arith, tt))) cut-Drains
