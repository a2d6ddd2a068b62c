-- ===== src/Tcp/Loops/Tests.antt =====
-- The event loops of agents/tp_tcp.c on concrete rounds.
use lancet_tool.Base.{
  ℕ, ◌≡◌, ◌≢◌, refl, List, [], ◌∷◌, some, ok, arith, true, false, pos, ◌+ℤ◌, length, replicate,
  length-replicate, Outcome, drop,
}
use lancet_tool.Base.Each.{All}
use lancet_tool.AppProto.{ByteReqPair, Iovec, Request, zero_pair, synthetic_consume_response}
use lancet_tool.Timespec.{TimeSpec}
use lancet_tool.Stats.{ThreadStats, add_tx_timestamp, add_throughput_tx_sample}
use lancet_tool.EventLoop.{Thread, Round, Departure, main_loop}
use lancet_tool.EventLoop.Schedule.{FollowsSchedule, main_loop-FollowsSchedule}
use lancet_tool.Tcp.{Connection, max_payload, pick_conn, on_readable}
use lancet_tool.Tcp.Buffer.{IsValid}
use lancet_tool.Tcp.Send.{sent, would_block, write_loop}
use lancet_tool.Tcp.Throughput.{on_throughput_send, on_throughput_readable}
use lancet_tool.Tcp.Loops.{SendInput, TcpEvent, epollin, chunk, nothing_there, throughput_tcp_main}
use lancet_tool.Tcp.Loops.Safe.{throughput_tcp_main-IsValid}

abbrev pub at_sec : ℕ → TimeSpec
at_sec n = record { tv_sec = pos n; tv_nsec = pos 5 }

abbrev pub no_stats : ThreadStats
no_stats = record {
  th_s = record { rx = zero_pair; tx = zero_pair };
  inc_idx = 0;
  samples = [];
  tx_s = record { count = 0; samples = [] };
  prev_tx_timestamp = at_sec 0;
  tx_sample_selector = 0;
}

abbrev pub fresh : Connection
fresh = record { fd = 5; idx = 0; closed = false; pending_reqs = 0; buffer_idx = 0; buffer = [] }

-- A request of three bytes, in two writes.
abbrev pub request : Request
request = record {
  meta = 0;
  iov_cnt = 1;
  iovs = record { iov_base = 1 ∷ 2 ∷ 3 ∷ []; iov_len = 3 } ∷ [];
}

abbrev pub send_input : SendInput
send_input = record {
  request = request;
  results = would_block ∷ sent 2 ∷ sent 1 ∷ [];
  tx_timestamp = at_sec 1;
  sampled = false;
  should_measure = true;
}

-- Two requests are due when the clock is read, and the third is not.
abbrev busy_round : Round SendInput TcpEvent
busy_round = record {
  should_load = true;
  clock = pos 0;
  turns =
      record { clock = pos 130; ia = pos 20; input = send_input }
      ∷ record { clock = pos 131; ia = pos 40; input = send_input }
      ∷ record { clock = pos 132; ia = pos 0; input = send_input }
      ∷ [];
  events = [];
}

abbrev before : Thread Connection
before = record {
  items = fresh ∷ [];
  turn = 0;
  next_tx = pos 100;
  stats = no_stats;
  departures = [];
}

abbrev counted : ThreadStats → ThreadStats
counted s =
    add_throughput_tx_sample true (record { bytes = 1; reqs = 1 })
      (add_tx_timestamp false (at_sec 1) s)

abbrev departures : List Departure
departures =
    record { item = 0; bytes = 1 ∷ 2 ∷ 3 ∷ []; clock = pos 131; due = pos 120; ia = pos 40 }
    ∷ record { item = 0; bytes = 1 ∷ 2 ∷ 3 ∷ []; clock = pos 130; due = pos 100; ia = pos 20 }
    ∷ []

abbrev after : Thread Connection
after = record {
  items = record fresh { pending_reqs = 2 } ∷ [];
  turn = 2;
  next_tx = pos 160;
  stats = counted (counted no_stats);
  departures = departures;
}

busy_round_lem :
    main_loop (throughput_tcp_main synthetic_consume_response 4) (busy_round ∷ []) before
    ≡ ok (some after)
unfolding main_loop throughput_tcp_main on_throughput_send write_loop pick_conn ◌+ℤ◌
busy_round_lem = refl

main_loop-FollowsSchedule_example : FollowsSchedule (pos 100) departures (pos 160)
main_loop-FollowsSchedule_example =
    main_loop-FollowsSchedule (throughput_tcp_main synthetic_consume_response 4) (pos 100)
      (busy_round ∷ []) before after (refl, tt) busy_round_lem refl

-- A parser that never sees the end of a response.
abbrev pub counts_nothing : Iovec → Outcome ByteReqPair
counts_nothing v = ok zero_pair

pub blank : List ℕ
blank = replicate max_payload 0

blank-length : length blank ≡ max_payload
unfolding blank
blank-length = length-replicate {A = ℕ} max_payload 0

abbrev pub opened : Connection
opened = record fresh { buffer = blank }

pub opened-IsValid : IsValid opened
opened-IsValid = record { size = blank-length; index = omega arith }

-- One request goes out, and a part of the response comes back.
abbrev pub exchange : Round SendInput TcpEvent
exchange = record {
  should_load = true;
  clock = pos 0;
  turns =
      record { clock = pos 130; ia = pos 50; input = record send_input { results = sent 3 ∷ [] } }
      ∷ record { clock = pos 131; ia = pos 0; input = send_input }
      ∷ [];
  events =
      record {
        idx = 0;
        clock = pos 132;
        input = epollin (record {
          result = chunk (7 ∷ 8 ∷ []);
          time = at_sec 2;
          should_measure = true;
          period = 1;
        });
      }
      ∷ [];
}

abbrev pub answered : Connection
answered = record fresh { pending_reqs = 1; buffer_idx = 2; buffer = 7 ∷ 8 ∷ drop 2 blank }

abbrev pub sent_once : List Departure
sent_once =
    record { item = 0; bytes = 1 ∷ 2 ∷ 3 ∷ []; clock = pos 130; due = pos 100; ia = pos 50 } ∷ []

abbrev opened_thread : Thread Connection
opened_thread = record before { items = opened ∷ [] }

abbrev answered_thread : Thread Connection
answered_thread = record {
  items = answered ∷ [];
  turn = 1;
  next_tx = pos 150;
  stats =
      add_throughput_tx_sample true (record { bytes = 3; reqs = 1 })
        (add_tx_timestamp false (at_sec 1) no_stats);
  departures = sent_once;
}

exchange_lem :
    main_loop (throughput_tcp_main counts_nothing 4) (exchange ∷ []) opened_thread
    ≡ ok (some answered_thread)
unfolding main_loop throughput_tcp_main on_throughput_send on_throughput_readable write_loop
    pick_conn ◌+ℤ◌ on_readable
exchange_lem = refl

pub chunk≢nothing : chunk (7 ∷ 8 ∷ []) ≢ nothing_there
chunk≢nothing e = cc

throughput_tcp_main-IsValid_example : All IsValid (answered ∷ []) × (length (answered ∷ []) ≡ 1)
throughput_tcp_main-IsValid_example =
    throughput_tcp_main-IsValid counts_nothing 4 (exchange ∷ []) 1 opened_thread answered_thread
      (record { turns = (tt, (tt, tt)); events = (chunk≢nothing, tt) }, tt) exchange_lem
      ((opened-IsValid, tt), refl)
