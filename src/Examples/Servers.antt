-- ===== src/Examples/Servers.antt =====
-- The theorems on the thread of a server and on main, applied.
use virtio_forwarder.Prelude.{ℕ, ◌+◌, ◌≤◌, Bool, ◌≡◌, ◌∷◌, [], refl, true, false, arith, List}
use virtio_forwarder.Prelude.Int.{pos}
use virtio_forwarder.Messages.Server.{
  aborted, received, Service, Setup, Round, no_event, quit_event, message, no_message, request,
  recv_error, maxmsgsize, serve, zmq_thread_loop,
}
use virtio_forwarder.Messages.Server.Replies.{
  Replies, serve-Replies, long_request_aborts, EndsClosed, thread_loop-EndsClosed,
}
use virtio_forwarder.Main.{run_main}
use virtio_forwarder.Main.Order.{RunOutcome, run_main-RunOutcome}
use virtio_forwarder.Options.Table.{default_settings}
use virtio_forwarder.Main

-- A service that counts the requests and answers with their number.
abbrev counter : Service ℕ
counter = record {
  handle_request = λ n q. (n + 1, n ∷ []);
  max_request_cb = 1;
  max_response_cb = 2;
}

-- A round with a request, which is sent after one interrupt.
abbrev with_request : List ℕ → Round
with_request q = record {
  quit = no_event;
  poll = message;
  recv = request q;
  interrupts = 1;
  send_ok = true;
}

abbrev last_round : Round
last_round = record {
  quit = quit_event;
  poll = no_message;
  recv = recv_error;
  interrupts = 0;
  send_ok = true;
}

abbrev rounds : List Round
rounds = with_request (9 ∷ []) ∷ with_request (8 ∷ []) ∷ last_round ∷ []

serve-Replies_example : Replies counter 5 (serve counter rounds 5)
serve-Replies_example = serve-Replies counter rounds 5

long_request_aborts_example :
    (2 ≤ maxmsgsize counter)
    × (serve counter (with_request (9 ∷ 9 ∷ []) ∷ rounds) 5
        ≡ record { events = received (9 ∷ 9 ∷ []) ∷ []; state = 5; exit = aborted })
long_request_aborts_example =
    long_request_aborts counter (with_request (9 ∷ 9 ∷ [])) rounds 5 (9 ∷ 9 ∷ []) refl refl refl
      (omega arith) (omega arith)

abbrev a_setup : Setup
a_setup = record {
  ctx_new = true;
  socket_new = true;
  options_set = true;
  bound = true;
  event_sent = true;
}

thread_loop-EndsClosed_example :
    EndsClosed a_setup (zmq_thread_loop a_setup (λ x. true) counter rounds 5)
thread_loop-EndsClosed_example = thread_loop-EndsClosed a_setup (λ x. true) counter rounds 5

-- OVSDB is not there.
abbrev no_ovsdb : Main.Service → Bool
no_ovsdb Main.ovsdb_mon = false
no_ovsdb _ = true

run_main-RunOutcome_example :
    RunOutcome no_ovsdb
      (λ x. pos 0)
      (default_settings 64)
      (run_main no_ovsdb (λ x. pos 0) (default_settings 64))
run_main-RunOutcome_example = run_main-RunOutcome no_ovsdb (λ x. pos 0) (default_settings 64)
