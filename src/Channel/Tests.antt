-- ===== src/Channel/Tests.antt =====
-- Runs of small channels, and each theorem at an input that meets its hypotheses.
use crossbeam.Prelude.{ℕ, ◌^◌, ◌≡◌, refl, arith, true, false, some, List, [], ◌∷◌}
use crossbeam.ArrayQueue.Defs.{returned}
use crossbeam.Waker.Context.{World, new_cell}
use crossbeam.Waker.Sync
use crossbeam.Channel.Defs.{
  Channel, sent, full, send_disconnected, received, recv_disconnected, with_capacity,
}
use crossbeam.Channel.Calls.{try_send, try_recv, disconnect_senders, disconnect_receivers}
use crossbeam.Channel.Fifo
use crossbeam.Channel.Fifo.{Call, Answer, of_send, of_recv, of_disconnect}
use crossbeam.Channel.Marks.{IsMarkedLayout}
use crossbeam.Channel.Invariant.{Represents}
use crossbeam.Channel.Send.{with_message, with_message-Represents, try_send-appends}
use crossbeam.Channel.Recv.{without_message, try_recv-some}
use crossbeam.Channel.Disconnect.{cut, disconnect_receivers_lem}
use crossbeam.Channel.SendersGone.{Disconnects, disconnect_senders_lem}
use crossbeam.Channel.Refine.{run}
use crossbeam.Channel.New.{fresh, fresh-Represents, with_capacity-calls_refine}

two_layout : IsMarkedLayout 8 2 4 (2 ^ 61)
two_layout = record {
  layout = record { cap_pos = omega arith; fits = omega arith; whole = refl; many = omega arith };
  halves = refl;
  below = omega arith;
}

-- Every thread has the context of its own number; nobody was unparked.
abbrev start : World
start = record { cells = λ i. new_cell i; unparked = [] }

-- A channel that thread 3 waits to receive from and to send to.
abbrev two : Channel ℕ
two = record (fresh 2 8 4) {
  senders = Sync.register Sync.new 100 3;
  receivers = Sync.register Sync.new 200 3;
}

two-Represents : Represents (2 ^ 61) 0 [] false two
two-Represents = record {
  marks = two_layout;
  head_at = empty_one.head_at;
  tail_at = empty_one.tail_at;
  held = empty_one.held;
}
  where
    empty_one : Represents {A = ℕ} (2 ^ 61) 0 [] false (fresh 2 8 4)
    empty_one = fresh-Represents two_layout

abbrev with_seven : Channel ℕ
with_seven = with_message two-Represents 7 two.receivers

with_seven-Represents : Represents (2 ^ 61) 0 (7 ∷ []) false with_seven
with_seven-Represents = with_message-Represents two-Represents 7 two.receivers (omega arith)

-- A second message fills the channel; after the disconnection only receiving goes on.
abbrev script : List (Call ℕ)
script =
    Call.try_send 1 10 (false ∷ true ∷ [])
    ∷ Call.try_send 1 20 []
    ∷ Call.try_send 1 30 []
    ∷ Call.try_recv 2 (true ∷ [])
    ∷ Call.disconnect_senders
    ∷ Call.try_send 1 40 []
    ∷ Call.disconnect_senders
    ∷ Call.try_recv 2 []
    ∷ Call.try_recv 2 []
    ∷ []

abbrev answers : List (Answer ℕ)
answers =
    of_send sent
    ∷ of_send sent
    ∷ of_send (full 30)
    ∷ of_recv (received 10)
    ∷ of_disconnect true
    ∷ of_send (send_disconnected 40)
    ∷ of_disconnect false
    ∷ of_recv (received 20)
    ∷ of_recv recv_disconnected
    ∷ []

run-script : Fifo.run 2 script [] false ≡ answers
unfolding Fifo.run Fifo.step
run-script = refl

with_capacity-calls_refine_example :
    (q : Channel ℕ) × (with_capacity 2 ≡ some q)
    × (run 5 script start q ≡ returned (Fifo.run 2 script [] false))
with_capacity-calls_refine_example =
    with_capacity-calls_refine 2 5 script start (omega arith) (omega arith) (omega arith)

try_recv-some_example :
    let (senders, w') = Sync.notify 1 start with_seven.senders.is_empty with_seven.senders in
    try_recv 3 1 start with_seven []
    ≡ returned (received 7, without_message with_seven-Represents senders, w')
try_recv-some_example = try_recv-some with_seven-Represents 3 1 start [] (omega arith)

try_send-appends_example :
    let (receivers, w') = Sync.notify 1 start two.receivers.is_empty two.receivers in
    (q : Channel ℕ) × (try_send 2 1 start 9 two (false ∷ []) ≡ returned (sent, q, w'))
    × Represents (2 ^ 61) 0 (9 ∷ []) false q
    × (q.receivers ≡ receivers)
    × (q.senders ≡ two.senders)
try_send-appends_example =
    try_send-appends two-Represents 2 1 start 9 (false ∷ []) (omega arith) (omega arith)

disconnect_senders_lem_example :
    Disconnects (2 ^ 61) 0 (7 ∷ []) false start with_seven (disconnect_senders start with_seven)
disconnect_senders_lem_example = disconnect_senders_lem with_seven-Represents start

disconnect_receivers_lem_example :
    let (senders, w') = Sync.disconnect start with_seven.senders in
    disconnect_receivers 2 start with_seven
    ≡ returned (true, some 7 ∷ [], cut with_seven-Represents senders with_seven.receivers, w')
disconnect_receivers_lem_example =
    disconnect_receivers_lem with_seven-Represents 2 start (omega arith)
