-- ===== src/Messages/CoreSched.antt =====
-- Core scheduler requests (zmq_core_sched.c): handle_CoreSchedRequest, which moves relays to other
-- CPUs or tells the worker CPUs.
pub mod Outcome
use virtio_forwarder.Prelude.{
  ℕ, zero, suc, ◌+◌, ◌<◌, Bool, true, false, not, ◌&&◌, Option, none, some, List, [], ◌∷◌, ◌++◌,
  ltb, if◌then◌else◌, length, Bytes, codes,
}
use virtio_forwarder.Prelude.Int.{ℤ, pos, negsuc, is_error}
use virtio_forwarder.Relay.{Relay}
use virtio_forwarder.Bits.{drain}
use virtio_forwarder.World.{World, M, ◌>>=◌, pure, fault}
use virtio_forwarder.Cpu.{migrate_relay_cpus}

-- CoreSchedRequest.Op and CoreSchedRequest.RelayCPU
pub data Op : Type 0 where
  op_update op_get_eal_cores : Op
  other_op : ℕ → Op

pub record RelayCpu : Type 0 where
  pub relay_number : ℤ
  pub virtio2vf_cpu : ℤ
  pub vf2virtio_cpu : ℤ

pub record CoreSchedRequest : Type 0 where
  pub op : Op
  pub relay_cpu_map : List RelayCpu

-- CoreSchedResponse; `ok` is the status.
pub record CoreSchedResponse : Type 0 where
  pub ok : Bool
  pub error_code_source : Option Bytes
  pub error_code : Option ℤ
  pub eal_cores : List ℕ

abbrev pub error_response : CoreSchedResponse
error_response = record { ok = false; error_code_source = none; error_code = none; eal_cores = [] }

-- `relay_number > MAX_RELAYS`
abbrev pub above : ℕ → ℤ → Bool
above max_relays (pos n) = ltb max_relays n
above max_relays (negsuc n) = false

-- validate_CoreSchedRequest, for a table of `max_relays` relays.
unfoldable pub validate_CoreSchedRequest : ℕ → List RelayCpu → Bool
validate_CoreSchedRequest max_relays [] = true
validate_CoreSchedRequest max_relays (cpu ∷ cpus) =
    let rest = validate_CoreSchedRequest max_relays cpus in
    if above max_relays cpu.relay_number then false else rest

-- handle_CoreSchedRequest_set_error_code, with its assertion.
unfoldable pub set_error_code : CoreSchedResponse → Bytes → ℤ → M CoreSchedResponse
set_error_code response source code =
    if is_error code
    then (if response.ok
        then fault
        else pure (record response { error_code_source = some source; error_code = some code }))
    else pure (record response { ok = true })

-- The call of migrate_relay_cpus: a negative number is an index outside the tables.
abbrev pub migrate : ℤ → ℤ → ℤ → M ℤ
migrate (pos relay) (pos virtio2vf_cpu) (pos vf2virtio_cpu) =
    migrate_relay_cpus relay virtio2vf_cpu vf2virtio_cpu
migrate _ _ _ = fault

-- The loop of UPDATE.
unfoldable pub update_cpus : List RelayCpu → CoreSchedResponse → M CoreSchedResponse
update_cpus [] response = pure response
update_cpus (cpu ∷ cpus) response = do
  code ← migrate cpu.relay_number cpu.virtio2vf_cpu cpu.vf2virtio_cpu
  next ← set_error_code response (codes "migrate_relay_cpus()") code
  update_cpus cpus next

-- GET_EAL_CORES: the loop over the mask, of 64 bits, and the reply, which needs a core.
abbrev pub cores_reply : List ℕ → M CoreSchedResponse
cores_reply [] = set_error_code error_response (codes "worker core request") (pos 1)
cores_reply (c ∷ cs) = pure (record error_response { ok = true; eal_cores = c ∷ cs })

unfoldable pub get_eal_cores : M CoreSchedResponse
get_eal_cores w = cores_reply (drain 64 w.worker_core_bitmap) w

abbrev pub dispatch : Op → List RelayCpu → M CoreSchedResponse
dispatch op_update cpus = update_cpus cpus error_response
dispatch op_get_eal_cores cpus = get_eal_cores
dispatch (other_op n) cpus = pure error_response

-- handle_CoreSchedRequest
unfoldable pub handle_CoreSchedRequest : Option CoreSchedRequest → M CoreSchedResponse
handle_CoreSchedRequest none w = some (error_response, w)
handle_CoreSchedRequest (some pc) w =
    (if validate_CoreSchedRequest (length w.relays) pc.relay_cpu_map
        then dispatch pc.op pc.relay_cpu_map
        else pure error_response)
      w
