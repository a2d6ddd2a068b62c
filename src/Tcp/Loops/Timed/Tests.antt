-- ===== src/Tcp/Loops/Timed/Tests.antt =====
-- symmetric_nic_tcp_main (agents/tp_tcp.c:415-548) on a concrete round.
use lancet_tool.Base.{◌≡◌, ◌<◌, ◌^◌, arith, refl, [], ◌∷◌, some, ok, true, pos, ◌+ℤ◌, length}
use lancet_tool.Base.Each.{All, Each-ok}
use lancet_tool.AppProto.{zero_pair}
use lancet_tool.Tcp.Bounds.{Counts64}
use lancet_tool.Tcp.Symmetric.Bounds.{IsPaired}
use lancet_tool.Stats.{add_throughput_tx_sample}
use lancet_tool.EventLoop.{Thread, main_loop}
use lancet_tool.Timestamping.{PendingTx, no_info, add_pending_tx_timestamp}
use lancet_tool.Tcp.{Connection, pick_conn, handle_response, received}
use lancet_tool.Tcp.Symmetric.{on_symmetric_readable}
use lancet_tool.Tcp.Send.{written}
use lancet_tool.Tcp.Loops.Timed.{Link, symmetric_nic_tcp_main}
use lancet_tool.Tcp.Loops.Timed.Safe.{ValidLink, symmetric_nic_tcp_main-IsValid}
use lancet_tool.Tcp.Loops.Tests.{
  counts_nothing, opened, opened-IsValid, exchange, answered, sent_once, chunk≢nothing, no_stats,
}

-- The same with the times of the network card, in a ring of two entries.
abbrev empty_ring : PendingTx
empty_ring = record {
  tx_byte_counter = 0;
  head = 0;
  tail = 0;
  consumed = 0;
  pending = no_info ∷ no_info ∷ [];
}

abbrev link : Connection → PendingTx → Link
link c ring = record { conn = c; ring = ring; draws = []; queue = []; arrivals = [] }

abbrev opened_links : Thread Link
opened_links = record {
  items = link opened empty_ring ∷ [];
  turn = 0;
  next_tx = pos 100;
  stats = no_stats;
  departures = [];
}

abbrev awaited : PendingTx
awaited = record empty_ring {
  tx_byte_counter = 3;
  head = 1;
  pending = record no_info { optid = 3 } ∷ no_info ∷ [];
}

abbrev answered_links : Thread Link
answered_links = record {
  items = link answered awaited ∷ [];
  turn = 1;
  next_tx = pos 150;
  stats = add_throughput_tx_sample true (record { bytes = 3; reqs = 1 }) no_stats;
  departures = sent_once;
}

nic_exchange_lem :
    main_loop (symmetric_nic_tcp_main counts_nothing 2 no_info) (exchange ∷ []) opened_links
    ≡ ok (some answered_links)
unfolding main_loop symmetric_nic_tcp_main on_symmetric_readable pick_conn ◌+ℤ◌ handle_response
    received written add_pending_tx_timestamp
nic_exchange_lem = refl

counts_nothing-Counts64 : Counts64 counts_nothing
counts_nothing-Counts64 v = Each-ok (λ b. b.reqs < 2 ^ 64) zero_pair (omega arith)

opened-IsPaired : IsPaired 2 opened empty_ring
opened-IsPaired = record { buffer = opened-IsValid; size = refl; under_way = refl }

symmetric_nic_tcp_main-IsValid_example :
    All (ValidLink 2) (link answered awaited ∷ []) × (length (link answered awaited ∷ []) ≡ 1)
symmetric_nic_tcp_main-IsValid_example =
    symmetric_nic_tcp_main-IsValid counts_nothing counts_nothing-Counts64 2 no_info (exchange ∷ [])
      1 opened_links answered_links
      (record { turns = (tt, (tt, tt)); events = (chunk≢nothing, tt) }, tt) nic_exchange_lem
      ((opened-IsPaired, tt), refl)
