-- ===== src/Messages/Server/Replies.antt =====
-- What holds of every run of a server thread.
use virtio_forwarder.Prelude.{
  true, false, ◌++◌, append-nil, if_intro, some, none, ◌&&◌, if◌then◌else◌, sym, ◌∙◌, [], ℕ, zero,
  suc, ◌≤◌, Bool, ◌&&◌, none, some, List, [], ◌∷◌, ◌++◌, ltb, Bytes, length, All, ◌≡◌, refl, sym,
  ap, ◌∙◌, subst, arith, Bool-cases, inl, inr, lt→ltb, ◌<◌,
}
use virtio_forwarder.Messages.Server.{
  aborted, closed, seen, Exit, Event, Setup, zmq_socket, zmq_ctx, quit_fd, send_ready_fd, Resource,
  Event, ready, received, sent, Setup, Quit, no_event, Poll, message, maxmsgsize, Received,
  recv_interrupted, recv_error, request, Round, Service, send_response, Exit, quit_exit, error_exit,
  running, Served, left, answer, receive, poll_for, one_round, serve, Open, error_close, quit_close,
  Thread, opened, init_zmq, leave, zmq_thread_loop,
}

-- However the closing goes, everything that is open is closed once.
quit_close-error_close :
    (ok : Resource → Bool) (o : Open) → (quit_close ok o).events ≡ error_close o
unfolding quit_close
quit_close-error_close ok o = ground arith

send_response-ok : (n : ℕ) (ok : Bool) → send_response n ok ≡ ok
unfolding send_response
send_response-ok zero ok = refl
send_response-ok (suc n) ok = send_response-ok n ok

module _ {S : Type 0} (service : Service S) where
  -- The requests answered one after the other: each response stands behind its request.
  abbrev pub answered : S → List Bytes → List Event
  answered s [] = []
  answered s (q ∷ qs) =
      received q ∷ sent (service.handle_request s q).1 ∷ answered (service.handle_request s q).0 qs

  abbrev pub AllFit : List Bytes → Type 0
  AllFit = All (λ q. length q ≤ service.max_request_cb)

  -- What the loop has done, with the requests that it received, `qs` with an answer.
  pub data Replies (s : S) (v : Served S) : Type 0 where
    all_answered : (qs : List Bytes) → AllFit qs → v.events ≡ answered s qs → Replies s v
    last_unsent :
        (qs : List Bytes) (q : Bytes)
        → AllFit qs
        → length q ≤ service.max_request_cb
        → v.exit ≡ error_exit
        → v.events ≡ answered s qs ++ received q ∷ []
        → Replies s v
    last_too_long :
        (qs : List Bytes) (q : Bytes)
        → AllFit qs
        → service.max_request_cb < length q
        → v.exit ≡ aborted
        → v.events ≡ answered s qs ++ received q ∷ []
        → Replies s v

  nothing : (s t : S) (e : Exit) → Replies s (left t e)
  nothing s t e = all_answered [] tt refl

  more :
      (s : S) (q : Bytes) (w : Served S)
      → length q ≤ service.max_request_cb
      → Replies (service.handle_request s q).0 w
      → Replies s (seen (received q ∷ sent (service.handle_request s q).1 ∷ []) w)
  more s q w l (all_answered qs h e) =
      all_answered (q ∷ qs) (l, h)
        (ap (λ es. received q ∷ sent (service.handle_request s q).1 ∷ es) e)
  more s q w l (last_unsent qs r h k y e) =
      last_unsent (q ∷ qs) r (l, h) k y
        (ap (λ es. received q ∷ sent (service.handle_request s q).1 ∷ es) e)
  more s q w l (last_too_long qs r h k y e) =
      last_too_long (q ∷ qs) r (l, h) k y
        (ap (λ es. received q ∷ sent (service.handle_request s q).1 ∷ es) e)

  module _ (r : Round) (next : S → Served S) (s : S) (k : (t : S) → Replies t (next t)) where
    answer-Replies : (q : Bytes) → Replies s (answer service r q next s)
    answer-Replies q = elim (Bool-cases (ltb service.max_request_cb (length q))) [
      | inl e ↦ rw e (last_too_long [] q tt (ground arith) refl refl)
      | inr e ↦ rw e (
          if_intro (Replies s) (send_response r.interrupts r.send_ok) _ _
            (more s q (next (service.handle_request s q).0) (ground arith)
              (k (service.handle_request s q).0))
            (last_unsent [] q tt (ground arith) refl refl))
    ]

    receive-Replies : (a : Received) → Replies s (receive service r a next s)
    receive-Replies recv_interrupted = k s
    receive-Replies recv_error = nothing s s error_exit
    receive-Replies (request q) = answer-Replies q

    poll_for-Replies : (a : Poll) → Replies s (poll_for service r a next s)
    poll_for-Replies Poll.poll_interrupted = k s
    poll_for-Replies Poll.poll_error = nothing s s error_exit
    poll_for-Replies Poll.no_message = k s
    poll_for-Replies Poll.message = receive-Replies r.recv

    one_round-Replies : (a : Quit) → Replies s (one_round service r a next s)
    one_round-Replies Quit.quit_error = nothing s s error_exit
    one_round-Replies Quit.quit_event = nothing s s quit_exit
    one_round-Replies Quit.no_event = poll_for-Replies r.poll

  -- In every run of the loop, each request but the last is answered once, before the next one is
  -- received, by the handler on the state that the requests before it left. The last one may be
  -- left without an answer, and the loop ends with it: with an error if the answer could not be
  -- sent, or with a failed assertion, which ends the daemon, if the request is longer than the
  -- buffer. Every other request fits the buffer.
  pub serve-Replies : (rounds : List Round) (s : S) → Replies s (serve service rounds s)
  unfolding serve
  serve-Replies [] s = nothing s s running
  serve-Replies (r ∷ rs) s =
      one_round-Replies r (λ t. serve service rs t) s (λ t. serve-Replies rs t) r.quit

  -- A message that is longer than the buffer for requests and not longer than the buffer for
  -- responses is one that ZeroMQ delivers, and the loop fails an assertion on it.
  pub long_request_aborts :
      (r : Round) (rs : List Round) (s : S) (q : Bytes)
      → r.quit ≡ no_event
      → r.poll ≡ message
      → r.recv ≡ request q
      → service.max_request_cb < length q
      → length q ≤ service.max_response_cb
      → (length q ≤ maxmsgsize service)
        × (serve service (r ∷ rs) s
            ≡ record { events = received q ∷ []; state = s; exit = aborted })
  unfolding serve
  long_request_aborts r rs s q a b c l m =
      (ground arith, rw (a, b, c) (rw (lt→ltb service.max_request_cb (length q) l) refl))

-- Nothing is closed.
abbrev is_closing : Event → Bool
is_closing (closed x) = true
is_closing _ = false

abbrev pub NoneClosed : List Event → Type 0
NoneClosed = All (λ e. is_closing e ≡ false)

-- What the set-up has opened, in the order in which it is to be closed, each once.
abbrev pub closings : Setup → List Event
closings u =
    (if u.ctx_new && u.socket_new then closed zmq_socket ∷ [] else [])
    ++ (if u.ctx_new then closed zmq_ctx ∷ [] else [])
    ++ (closed quit_fd ∷ closed send_ready_fd ∷ [])

error_close-closings : (u : Setup) → error_close (opened u) ≡ closings u
unfolding error_close opened
error_close-closings u = ground arith

-- A thread that has closed nothing and has no code, or whose last events are the closings.
pub data EndsClosed {S : Type 0} (u : Setup) (t : Thread S) : Type 0 where
  not_ended : t.rc ≡ none → NoneClosed t.events → EndsClosed u t
  ended :
      (log : List Event) (code : ℕ)
      → t.rc ≡ some code
      → NoneClosed log
      → t.events ≡ log ++ closings u
      → EndsClosed u t

answered-NoneClosed :
    {S : Type 0} (service : Service S) (s : S) (qs : List Bytes) (rest : List Event)
    → NoneClosed rest
    → NoneClosed (answered service s qs ++ rest)
answered-NoneClosed service s [] rest h = h
answered-NoneClosed service s (q ∷ qs) rest h =
    (refl, (refl, answered-NoneClosed service (service.handle_request s q).0 qs rest h))

Replies-NoneClosed :
    {S : Type 0} (service : Service S) (s : S) (v : Served S)
    → Replies service s v
    → NoneClosed v.events
Replies-NoneClosed service s v (all_answered qs h e) =
    subst NoneClosed (append-nil (answered service s qs) ∙ sym e)
      (answered-NoneClosed service s qs [] tt)
Replies-NoneClosed service s v (last_unsent qs q h l x e) =
    subst NoneClosed (sym e) (answered-NoneClosed service s qs (received q ∷ []) (refl, tt))
Replies-NoneClosed service s v (last_too_long qs q h l x e) =
    subst NoneClosed (sym e) (answered-NoneClosed service s qs (received q ∷ []) (refl, tt))

leave-EndsClosed :
    {S : Type 0} (u : Setup) (ok : Resource → Bool) (e : Exit) (v : Served S)
    → NoneClosed v.events
    → EndsClosed u (leave ok (opened u) e v)
leave-EndsClosed u ok running v h = not_ended refl (refl, h)
leave-EndsClosed u ok aborted v h = not_ended refl (refl, h)
leave-EndsClosed u ok error_exit v h =
    ended (ready ∷ v.events) 1 refl (refl, h)
      (ap (λ es. ready ∷ v.events ++ es) (error_close-closings u))
leave-EndsClosed u ok quit_exit v h =
    ended (ready ∷ v.events) _ refl (refl, h)
      (ap (λ es. ready ∷ v.events ++ es)
        (quit_close-error_close ok (opened u) ∙ error_close-closings u))

-- When the thread returns a code, everything that its set-up had opened has been closed once, in
-- the order socket, context, descriptors, as the last thing it did: on the way out, also where a
-- call fails, and on every error of the set-up and of the loop. Nothing is closed before, nor by a
-- thread that is running or has failed an assertion.
pub thread_loop-EndsClosed :
    {S : Type 0} (u : Setup) (ok : Resource → Bool) (service : Service S) (rounds : List Round)
    (s : S)
    → EndsClosed u (zmq_thread_loop u ok service rounds s)
unfolding zmq_thread_loop
thread_loop-EndsClosed u ok service rounds s = elim (Bool-cases (init_zmq u && u.event_sent)) [
  | inr e ↦ rw e (ended [] 1 refl tt (error_close-closings u))
  | inl e ↦ rw e (
      leave-EndsClosed u ok (serve service rounds s).exit (serve service rounds s)
        (Replies-NoneClosed service s _ (serve-Replies service rounds s)))
]
