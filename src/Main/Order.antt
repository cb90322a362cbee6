-- ===== src/Main/Order.antt =====
-- The services are stopped in the reverse order of their start.
use virtio_forwarder.Prelude.{
  zero, suc, Bool, true, false, List, [], ◌∷◌, ◌++◌, if◌then◌else◌, reverse, map, ◌≡◌, refl, ap,
  ap₂, arith, All, Bool-cases, inl, inr,
}
use virtio_forwarder.Prelude.Int.{ℤ, pos, negsuc, is_error}
use virtio_forwarder.Options.{Settings}
use virtio_forwarder.Main.{
  Service, config_server, stats_server, port_control_server, core_sched_server, start, stop,
  services, Starting, start_services, stop_services, main_rc, Run, run_main,
}

-- All services start, or one is the first that does not.
data Outcome (starts : Service → Bool) (ss : List Service) (up : Starting) : Type 0 where
  all_started :
      All (λ x. starts x ≡ true) ss
      → up.started ≡ true
      → up.events ≡ map start ss
      → Outcome starts ss up
  failed_at :
      (before : List Service) (x : Service) (after : List Service)
      → ss ≡ before ++ (x ∷ after)
      → All (λ y. starts y ≡ true) before
      → starts x ≡ false
      → up.started ≡ false
      → up.events ≡ map start (before ++ x ∷ [])
      → Outcome starts ss up

start_services-Outcome :
    (starts : Service → Bool) (ss : List Service) → Outcome starts ss (start_services starts ss)
unfolding start_services
start_services-Outcome starts [] = all_started tt refl refl
start_services-Outcome starts (s ∷ ss) = elim (Bool-cases (starts s)) [
  | inr e ↦ rw e (failed_at [] s ss refl tt e refl refl)
  | inl e ↦ rw e (further e (start_services-Outcome starts ss))
]
  where
    further :
        starts s ≡ true
        → Outcome starts ss (start_services starts ss)
        → Outcome starts (s ∷ ss) (record {
          events = start s ∷ (start_services starts ss).events;
          started = (start_services starts ss).started;
        })
    further e (all_started h k l) = all_started (e, h) k (ap (λ es. start s ∷ es) l)
    further e (failed_at before x after p h f k l) =
        failed_at (s ∷ before) x after (ap (λ xs. s ∷ xs) p) (e, h) f k (ap (λ es. start s ∷ es) l)

stop_services-reverse : (s : Settings) → stop_services s ≡ map stop (reverse (services s))
unfolding stop_services services
stop_services-reverse s = ground arith

-- The servers of ZeroMQ among the services; the other services give no code.
abbrev pub is_server : Service → Bool
is_server config_server = true
is_server stats_server = true
is_server port_control_server = true
is_server core_sched_server = true
is_server _ = false

abbrev pub code_of : (Service → ℤ) → Service → ℤ
code_of rc x = if is_server x then rc x else pos 0

-- The first code that is not 0, or 0.
abbrev pub first_code : (Service → ℤ) → List Service → ℤ
first_code rc [] = pos 0
first_code rc (x ∷ xs) = if is_error (code_of rc x) then code_of rc x else first_code rc xs

not_error : (z : ℤ) → (if is_error z then z else pos 0) ≡ z
not_error (pos zero) = refl
not_error (pos (suc n)) = refl
not_error (negsuc n) = refl

main_rc-first :
    (rc : Service → ℤ) (s : Settings) → main_rc rc s ≡ first_code rc (reverse (services s))
unfolding main_rc services
main_rc-first rc s = ground (arith, not_error (rc config_server))

-- How a run of main goes.
pub data RunOutcome (starts : Service → Bool) (rc : Service → ℤ) (s : Settings) (r : Run)
    : Type 0 where
  stopped :
      All (λ x. starts x ≡ true) (services s)
      → r.events ≡ map start (services s) ++ map stop (reverse (services s))
      → r.code ≡ first_code rc (reverse (services s))
      → RunOutcome starts rc s r
  aborted :
      (before : List Service) (x : Service) (after : List Service)
      → services s ≡ before ++ (x ∷ after)
      → All (λ y. starts y ≡ true) before
      → starts x ≡ false
      → r.events ≡ map start (before ++ x ∷ [])
      → r.code ≡ negsuc 0
      → RunOutcome starts rc s r

-- Either every service starts, and main stops all of them in the reverse order of their start and
-- returns the first code that is not 0 among those of the servers of ZeroMQ, in the order of the
-- stops, or 0; or there is a first service that does not start, and main exits with -1 after it,
-- without a start or a stop behind it.
pub run_main-RunOutcome :
    (starts : Service → Bool) (rc : Service → ℤ) (s : Settings)
    → RunOutcome starts rc s (run_main starts rc s)
unfolding run_main
run_main-RunOutcome starts rc s =
    go (start_services starts (services s)) (start_services-Outcome starts (services s))
  where
    go :
        (up : Starting)
        → Outcome starts (services s) up
        → RunOutcome starts rc s (
            if up.started
            then record { events = up.events ++ stop_services s; code = main_rc rc s }
            else record { events = up.events; code = negsuc 0 })
    go up (all_started h k l) =
        rw k (stopped h (ap₂ ◌++◌ l (stop_services-reverse s)) (main_rc-first rc s))
    go up (failed_at before x after p h f k l) = rw k (aborted before x after p h f l refl)
