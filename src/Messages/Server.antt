-- ===== src/Messages/Server.antt =====
-- The thread of a server (zmq_server.c): init_zmq and zmq_thread_loop. What the calls of ZeroMQ and
-- of the system answer is a parameter: for the set-up, for each round of the loop, and for the
-- closing.
pub mod Replies
use virtio_forwarder.Prelude.{
  ℕ, zero, suc, ◌+◌, ◌≤◌, Bool, true, false, not, ◌&&◌, Option, none, some, List, [], ◌∷◌, ◌++◌,
  ltb, max, if◌then◌else◌, and_then, Bytes, length,
}

-- What the thread has to close.
pub data Resource : Type 0 where
  zmq_socket zmq_ctx quit_fd send_ready_fd : Resource

-- What others see of the thread.
pub data Event : Type 0 where
  ready : Event
  received sent : Bytes → Event
  closed : Resource → Event

-- The set-up: whether the context and the socket are there, the options are set and the socket is
-- bound, and the event is sent to the main thread.
pub record Setup : Type 0 where
  pub ctx_new : Bool
  pub socket_new : Bool
  pub options_set : Bool
  pub bound : Bool
  pub event_sent : Bool

-- receive_event on quit_fd, as the loop distinguishes its results.
pub data Quit : Type 0 where
  quit_error quit_event no_event : Quit

pub data Poll : Type 0 where
  poll_interrupted poll_error no_message message : Poll

pub data Received : Type 0 where
  recv_interrupted recv_error : Received
  request : Bytes → Received

-- One round: zmq_send is interrupted `interrupts` times before it succeeds or fails.
pub record Round : Type 0 where
  pub quit : Quit
  pub poll : Poll
  pub recv : Received
  pub interrupts : ℕ
  pub send_ok : Bool

-- `struct zmq_service`: the handler on the state of the daemon, and the sizes of the buffers.
pub record Service (S : Type 0) : Type 0 where
  pub handle_request : S → Bytes → S × Bytes
  pub max_request_cb : ℕ
  pub max_response_cb : ℕ

-- ZMQ_MAXMSGSIZE of init_zmq: ZeroMQ delivers no longer message.
abbrev pub maxmsgsize : {S : Type 0} → Service S → ℕ
maxmsgsize service =
    if ltb service.max_request_cb service.max_response_cb
    then service.max_response_cb
    else service.max_request_cb

-- `for (;;) { zmq_send(...) }`: whether the response is sent.
unfoldable pub send_response : (interrupts : ℕ) → Bool → Bool
send_response zero ok = ok
send_response (suc n) ok = send_response n ok

-- How the loop is left, with what was seen and the state of the daemon: an assertion that fails
-- ends the daemon, and a list of rounds that ends first leaves the thread running.
pub data Exit : Type 0 where
  quit_exit error_exit aborted running : Exit

pub record Served (S : Type 0) : Type 0 where
  pub events : List Event
  pub state : S
  pub exit : Exit

module _ {S : Type 0} where
  abbrev pub left : S → Exit → Served S
  left s e = record { events = []; state = s; exit = e }

  abbrev pub seen : List Event → Served S → Served S
  seen es v = record v { events = es ++ v.events }

  -- From a request on; `next` is the rest of the loop. A request longer than the buffer fails an
  -- assertion.
  abbrev pub answer : Service S → Round → Bytes → (S → Served S) → S → Served S
  answer service r req next s =
      let (s', response) = service.handle_request s req in
      if ltb service.max_request_cb (length req)
      then seen (received req ∷ []) (left s aborted)
      else if send_response r.interrupts r.send_ok
      then seen (received req ∷ sent response ∷ []) (next s')
      else seen (received req ∷ []) (left s' error_exit)

  abbrev pub receive : Service S → Round → Received → (S → Served S) → S → Served S
  receive service r recv_interrupted next s = next s
  receive service r recv_error next s = left s error_exit
  receive service r (request req) next s = answer service r req next s

  abbrev pub poll_for : Service S → Round → Poll → (S → Served S) → S → Served S
  poll_for service r poll_interrupted next s = next s
  poll_for service r poll_error next s = left s error_exit
  poll_for service r no_message next s = next s
  poll_for service r message next s = receive service r r.recv next s

  abbrev pub one_round : Service S → Round → Quit → (S → Served S) → S → Served S
  one_round service r quit_error next s = left s error_exit
  one_round service r quit_event next s = left s quit_exit
  one_round service r no_event next s = poll_for service r r.poll next s

  -- `for (;;)` of zmq_thread_loop.
  unfoldable pub serve : Service S → List Round → S → Served S
  unfolding send_response
  serve service [] s = left s running
  serve service (r ∷ rs) s = one_round service r r.quit (λ t. serve service rs t) s

-- Which variables are not NULL and not -1.
pub record Open : Type 0 where
  pub socket : Bool
  pub ctx : Bool
  pub quit : Bool
  pub send_ready : Bool

abbrev pub close_if : Bool → Resource → List Event → List Event
close_if is_open x es = if is_open then closed x ∷ es else es

-- error_exit: close_zmq_socket, destroy_zmq_ctx and close_fd twice, whatever they return.
unfoldable pub error_close : Open → List Event
error_close o =
    close_if o.socket zmq_socket
      (close_if o.ctx zmq_ctx (close_if o.quit quit_fd (close_if o.send_ready send_ready_fd [])))

-- The events of the closing, and the code that the thread returns.
pub record Closing : Type 0 where
  pub events : List Event
  pub rc : ℕ

-- One call of the quit path: each sets its variable first, and a failure goes to error_exit.
abbrev pub close_step :
    (is_open ok : Bool) → Resource → (o : Open) → (next : Open → Closing) → Closing
close_step is_open ok x o next =
    if not is_open
    then next o
    else if ok
    then (let r = next o in record { events = closed x ∷ r.events; rc = r.rc })
    else record { events = closed x ∷ error_close o; rc = 1 }

unfoldable pub quit_close : (ok : Resource → Bool) → Open → Closing
unfolding error_close
quit_close ok o =
    close_step o.socket (ok zmq_socket) zmq_socket (record o { socket = false })
      λ o.
        close_step o.ctx (ok zmq_ctx) zmq_ctx (record o { ctx = false })
          λ o.
            close_step o.quit (ok quit_fd) quit_fd (record o { quit = false })
              λ o.
                close_step o.send_ready (ok send_ready_fd) send_ready_fd
                  (record o { send_ready = false }) λ o. record { events = []; rc = 0 }

-- The whole run of the thread; there is no code while it is running, or if an assertion has failed.
pub record Thread (S : Type 0) : Type 0 where
  pub events : List Event
  pub state : S
  pub rc : Option ℕ

-- What init_zmq has opened; the descriptors are open from the beginning.
unfoldable pub opened : Setup → Open
opened u = record {
  socket = u.ctx_new && u.socket_new;
  ctx = u.ctx_new;
  quit = true;
  send_ready = true;
}

unfoldable pub init_zmq : Setup → Bool
init_zmq u = u.ctx_new && u.socket_new && u.options_set && u.bound

module _ {S : Type 0} where
  abbrev pub leave : (ok : Resource → Bool) → Open → Exit → Served S → Thread S
  leave ok o running v = record { events = ready ∷ v.events; state = v.state; rc = none }
  leave ok o aborted v = record { events = ready ∷ v.events; state = v.state; rc = none }
  leave ok o error_exit v = record {
    events = ready ∷ v.events ++ error_close o;
    state = v.state;
    rc = some 1;
  }
  leave ok o quit_exit v =
      let r = quit_close ok o in
      record { events = ready ∷ v.events ++ r.events; state = v.state; rc = some r.rc }

  unfoldable pub zmq_thread_loop :
      Setup → (ok : Resource → Bool) → Service S → List Round → S → Thread S
  unfolding opened init_zmq quit_close error_close serve
  zmq_thread_loop u ok service rounds s =
      let v = serve service rounds s in
      if not (init_zmq u && u.event_sent)
      then record { events = error_close (opened u); state = s; rc = some 1 }
      else leave ok (opened u) v.exit v
