-- ===== src/Messages/Stats.antt =====
-- Statistics requests: virtio_forwarder_get_stats of virtio_worker.c, and relay_query and
-- handle_StatsRequest of zmq_stats.c. The rates, which are floating-point quotients over the time
-- that has passed, are left out.
pub mod Outcome
use virtio_forwarder.Prelude.{
  ℕ, zero, suc, ◌+◌, ◌^◌, ◌%◌, ◌<◌, Bool, true, false, not, ◌&&◌, ◌||◌, Option, none, some, List,
  [], ◌∷◌, ◌++◌, ltb, leb, ◌==◌, if◌then◌else◌, get_elem?, length, take, ◌>>=◌, Bytes, codes,
}
use virtio_forwarder.Relay.{
  Relay, VioState, virtio_uninit, virtio_ready, virtio_removing1, virtio_removing2, DpdkState,
  dpdk_uninit, dpdk_added, dpdk_ready, dpdk_removing1, dpdk_removing2, is_virtio_ready,
  is_dpdk_ready,
}
use virtio_forwarder.Cpu.{is_added_or_ready}
use virtio_forwarder.Sockets.{Server}

abbrev pub virtio_state_to_str : VioState → Bytes
virtio_state_to_str virtio_uninit = codes "VIRTIO_UNINIT"
virtio_state_to_str virtio_ready = codes "VIRTIO_READY"
virtio_state_to_str virtio_removing1 = codes "VIRTIO_REMOVING1"
virtio_state_to_str virtio_removing2 = codes "VIRTIO_REMOVING2"

abbrev pub dpdk_state_to_str : DpdkState → Bytes
dpdk_state_to_str dpdk_uninit = codes "DPDK_UNINIT"
dpdk_state_to_str dpdk_added = codes "DPDK_ADDED"
dpdk_state_to_str dpdk_ready = codes "DPDK_READY"
dpdk_state_to_str dpdk_removing1 = codes "DPDK_REMOVING1"
dpdk_state_to_str dpdk_removing2 = codes "DPDK_REMOVING2"

-- The statistics of the direction from the VM to the VF, valid in VIRTIO_READY.
pub record DownStats : Type 0 where
  pub virtio2vf_cpu : Option ℕ
  pub virtio_rx : ℕ
  pub virtio_rx_bytes : ℕ
  pub dpdk_tx : ℕ
  pub dpdk_tx_bytes : ℕ
  pub dpdk_drop_full : ℕ
  pub dpdk_drop_unavail : ℕ

-- Those of the other direction, valid in DPDK_ADDED and DPDK_READY.
pub record UpStats : Type 0 where
  pub pci_dbdf : Bytes
  pub vf2virtio_cpu : Option ℕ
  pub dpdk_rx : ℕ
  pub dpdk_rx_bytes : ℕ
  pub virtio_tx : ℕ
  pub virtio_tx_bytes : ℕ
  pub virtio_drop_full : ℕ
  pub virtio_drop_unavail : ℕ

-- `struct virtio_worker_stats`; `virtio2vf_active` and `vf2virtio_active` say that the fields of
-- their direction are there.
pub record WorkerStats : Type 0 where
  pub virtio_internal_state : Bytes
  pub vhost_socket_name : Bytes
  pub down : Option DownStats
  pub dpdk_internal_state : Bytes
  pub up : Option UpStats
  pub active : Bool
  pub socket_id : Option ℕ

-- strlcpy into 128 bytes.
abbrev pub socket_name : Option Bytes → Bytes
socket_name none = codes "NONE"
socket_name (some path) = take 127 path

abbrev pub down_stats : Relay → DownStats
down_stats r = record {
  virtio2vf_cpu = r.vio.vio2vf_cpu;
  virtio_rx = r.stats.vio_rx;
  virtio_rx_bytes = r.stats.vio_rx_bytes;
  dpdk_tx = r.stats.dpdk_tx;
  dpdk_tx_bytes = r.stats.dpdk_tx_bytes;
  dpdk_drop_full = r.stats.dpdk_drop_full;
  dpdk_drop_unavail = r.stats.dpdk_drop_unavail;
}

abbrev pub up_stats : Relay → UpStats
up_stats r = record {
  pci_dbdf = r.dpdk.pci_dbdf;
  vf2virtio_cpu = r.dpdk.vf2vio_cpu;
  dpdk_rx = r.stats.dpdk_rx;
  dpdk_rx_bytes = r.stats.dpdk_rx_bytes;
  virtio_tx = r.stats.vio_tx;
  virtio_tx_bytes = r.stats.vio_tx_bytes;
  virtio_drop_full = r.stats.vio_drop_full;
  virtio_drop_unavail = r.stats.vio_drop_unavail;
}

-- The body of virtio_forwarder_get_stats, for a relay and its entry of `relay_ifname_map`.
unfoldable pub stats_of : Relay → Option Bytes → WorkerStats
stats_of r name = record {
  virtio_internal_state = virtio_state_to_str r.vio.state;
  vhost_socket_name = socket_name name;
  down = if is_virtio_ready r.vio.state then some (down_stats r) else none;
  dpdk_internal_state = dpdk_state_to_str r.dpdk.state;
  up = if is_added_or_ready r.dpdk.state then some (up_stats r) else none;
  active = is_virtio_ready r.vio.state && is_dpdk_ready r.dpdk.state;
  socket_id = r.vio.mempool_socket_id;
}

-- virtio_forwarder_get_stats
unfoldable pub virtio_forwarder_get_stats : Server → ℕ → Option WorkerStats
virtio_forwarder_get_stats s virtio_id = get_elem? s.world.relays virtio_id >>= λ r.
    get_elem? s.relay_ifname_map virtio_id >>= λ name. some (stats_of r name)

-- Virtioforwarder__RelayState: `vm_to_vf` and `vf_to_vm` with their flag `active`, their state and
-- their counters, which are there if it is set; the CPUs and the VF are there with the direction
-- that they belong to.
pub record RelayState : Type 0 where
  pub id : ℕ
  pub active : Bool
  pub socket_id : Option ℕ
  pub vm_to_vf_state : Bytes
  pub vm_to_vf : Option DownStats
  pub vf_to_vm_state : Bytes
  pub vf_to_vm : Option UpStats
  pub cpu_vm_to_vf : Option (Option ℕ)
  pub cpu_vf_to_vm : Option (Option ℕ)
  pub vf_pci_addr_str : Option Bytes
  pub vhost_socket_name : Bytes

-- The part of relay_query that fills an entry.
abbrev pub present : ℕ → WorkerStats → RelayState
present relay st = record {
  id = relay;
  active = st.active;
  socket_id = st.socket_id;
  vm_to_vf_state = st.virtio_internal_state;
  vm_to_vf = st.down;
  vf_to_vm_state = st.dpdk_internal_state;
  vf_to_vm = st.up;
  cpu_vm_to_vf = st.down >>= λ d. some (d.virtio2vf_cpu);
  cpu_vf_to_vm = st.up >>= λ u. some (u.vf2virtio_cpu);
  vf_pci_addr_str = st.up >>= λ u. some (u.pci_dbdf);
  vhost_socket_name = st.vhost_socket_name;
}

-- relay_query: `out` are the entries that are filled, of which there is room for MAX_RELAYS.
unfoldable pub relay_query :
    Server → (relay : ℕ) → (include_inactive : Bool) → List RelayState → Option (List RelayState)
relay_query s relay include_inactive out =
    if leb (length s.world.relays) relay
    then some out
    else if not (ltb (length out) (length s.world.relays))
    then none
    else (virtio_forwarder_get_stats s relay >>= λ st.
        if not include_inactive && not st.active
        then some out
        else some (out ++ present relay st ∷ []))

-- The loop over the relays of a request.
unfoldable pub query_relays : Server → List ℕ → Bool → List RelayState → Option (List RelayState)
query_relays s [] include_inactive out = some out
query_relays s (relay ∷ relays) include_inactive out =
    relay_query s relay include_inactive out >>= λ next. query_relays s relays include_inactive next

pub data StatsStatus : Type 0 where
  stats_ok stats_ebadr stats_e2big : StatsStatus

pub record StatsRequest : Type 0 where
  pub relay : List ℕ
  pub include_inactive : Option Bool

pub record StatsResponse : Type 0 where
  pub status : StatsStatus
  pub relay : List RelayState

-- The relays 0 .. n - 1.
unfoldable pub count_from : ℕ → ℕ → List ℕ
count_from i zero = []
count_from i (suc n) = i ∷ count_from (i + 1) n

abbrev pub includes_inactive : Option Bool → Bool
includes_inactive none = true
includes_inactive (some b) = b

-- With no relays named, all are asked for; the assertion counts them.
unfoldable pub query_all : Server → Bool → Option (List RelayState)
query_all s include_inactive =
    query_relays s (count_from 0 (length s.world.relays)) include_inactive [] >>= λ out.
    if include_inactive && not (length out == length s.world.relays) then none else some out

abbrev pub query_named : Server → List ℕ → Bool → Option (List RelayState)
query_named s [] include_inactive = query_all s include_inactive
query_named s (r ∷ rs) include_inactive = query_relays s (r ∷ rs) include_inactive []

-- `max_response_cb` of stats_setup: sizeof(struct stats_response_buffer) in 16 bits.
unfoldable pub max_response_cb : (sizeof_buffer : ℕ) → ℕ
max_response_cb sizeof_buffer = sizeof_buffer % 2 ^ 16

-- `assert(cb_response <= cb_response_buffer)` in front of the encoding.
abbrev pub packed :
    (packed_size : StatsResponse → ℕ)
    → (cb_response_buffer : ℕ) → StatsResponse
    → Option StatsResponse
packed packed_size cb_response_buffer r =
    if leb (packed_size r) cb_response_buffer then some r else none

-- handle_StatsRequest; `none` is a failed assertion or a write outside the response. The size of an
-- encoded response is what the generated code computes.
unfoldable pub handle_StatsRequest :
    (packed_size : StatsResponse → ℕ)
    → (cb_response_buffer : ℕ) → Server
    → Option StatsRequest
    → Option StatsResponse
handle_StatsRequest packed_size cb s none =
    packed packed_size cb (record { status = stats_ebadr; relay = [] })
handle_StatsRequest packed_size cb s (some pc) =
    if ltb (length s.world.relays) (length pc.relay)
    then packed packed_size cb (record { status = stats_e2big; relay = [] })
    else (query_named s pc.relay (includes_inactive pc.include_inactive) >>= λ out.
        packed packed_size cb (record { status = stats_ok; relay = out }))
