-- ===== src/Control/Setup.antt =====
-- Setting up a port leaves every relay but one alone, and of that one all but its memory pool.
use virtio_forwarder.Prelude.{ℕ, Bool, true, false, Option, none, some, List, ◌-◌, ◌==◌}
use virtio_forwarder.Prelude.Int.{pos, negsuc, is_error}
use virtio_forwarder.Relay.{Relay}
use virtio_forwarder.World.{
  World, M, ◌>>=◌, ◌>>◌, pure, update_relay, Eth, record_call, dev_probe, dev_info_get, dev_stop,
  dev_close, dev_remove, set_mtu, promiscuous_enable,
}
use virtio_forwarder.Control.{
  stop_close_remove_dev, cleanup_eth_dev, alloc_mempool, ensure_mempool, setup_queues,
  dev_queue_configure, init_port, init_vf, num_pktmbuf_pool,
}
use virtio_forwarder.Control.Steps.{
  IsFrame, Steps, Steps-pure, Steps-bind, Steps-if, Steps-check, Steps-get_relay, Steps-ask,
  Steps-record_call,
}

module _ (R : World → World → Type 0) (frame : IsFrame R) (eth : Eth) where
  pub Steps-stop_close_remove : (port_id : ℕ) → Steps R (stop_close_remove_dev eth port_id)
  unfolding stop_close_remove_dev
  Steps-stop_close_remove p = Steps-bind R frame _ _ (Steps-ask R frame eth (dev_stop p)) λ stopped.
      Steps-check R frame stopped stopped _ (
        Steps-bind R frame _ _ (Steps-ask R frame eth (dev_close p))
          λ closed. Steps-check R frame closed closed _ (Steps-ask R frame eth (dev_remove p)))

  pub Steps-cleanup : (port_id : ℕ) → Steps R (cleanup_eth_dev eth port_id)
  unfolding cleanup_eth_dev
  Steps-cleanup p =
      Steps-bind R frame _ _ (Steps-ask R frame eth (dev_info_get p))
        λ info. Steps-check R frame info info _ (Steps-stop_close_remove p)

  pub Steps-alloc_mempool :
      (id : ℕ) (socket : Option ℕ) (n : ℕ) → Steps R (alloc_mempool eth id socket n)
  unfolding alloc_mempool
  Steps-alloc_mempool id socket n w a w' e =
      Steps-bind R frame (record_call _) _ (Steps-record_call R frame _)
        (λ done. Steps-pure R frame _) w a w' e

  -- With the update of the pool of relay `id`.
  module _ (id : ℕ)
      (pools : (pool : ℕ)
        → Steps R
            (update_relay id λ r. record r { vio = record (r.vio) { mempool = some pool } })) where
    Steps-given :
        (o : Option ℕ)
        → Steps R (elim o as (λ _. M Bool) [
          | none ↦ pure false
          | some pool ↦ do
            update_relay id λ r. record r { vio = record (r.vio) { mempool = some pool } }
            pure true
        ])
    Steps-given none = Steps-pure R frame false
    Steps-given (some pool) = Steps-bind R frame _ _ (pools pool) λ done. Steps-pure R frame true

    pub Steps-ensure_mempool : (r : Relay) → Steps R (ensure_mempool eth id r)
    unfolding ensure_mempool
    Steps-ensure_mempool r = go r.vio.mempool
      where
        go :
            (o : Option ℕ)
            → Steps R (elim o as (λ _. M Bool) [
              | some pool ↦ pure true
              | none ↦ do
                mpool ← alloc_mempool eth r.id r.vio.mempool_socket_id (num_pktmbuf_pool - 1)
                elim mpool [
                  | none ↦ pure false
                  | some pool ↦ do
                    update_relay id λ r. record r { vio = record (r.vio) { mempool = some pool } }
                    pure true
                ]
            ])
        go (some pool) = Steps-pure R frame true
        go none =
            Steps-bind R frame _ _
              (Steps-alloc_mempool r.id r.vio.mempool_socket_id (num_pktmbuf_pool - 1)) Steps-given

    pub Steps-setup_queues : (port_id : ℕ) → Steps R (setup_queues eth port_id id)
    unfolding setup_queues
    Steps-setup_queues p = Steps-bind R frame _ _ (Steps-get_relay R frame id) λ r.
        Steps-bind R frame _ _ (Steps-ask R frame eth _) λ info. Steps-check R frame info info _ (
          Steps-bind R frame _ _ (Steps-ask R frame eth _) λ tx. Steps-check R frame tx (pos 6) _ (
            Steps-bind R frame _ _ (Steps-ask R frame eth _)
              λ rx. Steps-check R frame rx (pos 5) _ (Steps-pure R frame (pos 0))))

    pub Steps-dev_queue_configure :
        (port_id : ℕ) (is_bond : Bool) → Steps R (dev_queue_configure eth port_id id is_bond)
    unfolding dev_queue_configure
    Steps-dev_queue_configure p is_bond = Steps-bind R frame _ _ (Steps-get_relay R frame id) λ r.
        Steps-bind R frame _ _ (Steps-ask R frame eth _) λ info. Steps-check R frame info info _ (
          Steps-bind R frame _ _ (Steps-ask R frame eth _) λ conf.
            Steps-check R frame conf (pos 4) _ (
              Steps-bind R frame _ _
                (Steps-if R frame is_bond _ _ (Steps-pure R frame (pos 0))
                  (Steps-ask R frame eth (set_mtu p r.use_jumbo)))
                λ mtu. Steps-check R frame mtu (pos 4) _ (
                  Steps-bind R frame _ _ (Steps-ensure_mempool r) λ have.
                    Steps-if R frame have _ _ (Steps-setup_queues p)
                      (Steps-pure R frame (negsuc 0)))))

    pub Steps-init_port : (port_id : ℕ) → Steps R (init_port eth id port_id)
    unfolding init_port
    Steps-init_port p = Steps-bind R frame _ _ (Steps-dev_queue_configure p false) λ err.
        Steps-if R frame (is_error err) _ _
          (Steps-bind R frame _ _ (Steps-cleanup p) λ code. Steps-pure R frame err)
          (Steps-bind R frame _ _ (Steps-ask R frame eth (promiscuous_enable p))
            λ code. Steps-pure R frame (pos 0))

    pub Steps-init_vf : (pci_dbdf : List ℕ) (old : ℕ) → Steps R (init_vf eth pci_dbdf id old)
    unfolding init_vf
    Steps-init_vf dbdf old = Steps-bind R frame _ _ (Steps-ask R frame eth (dev_probe dbdf)) λ err.
        Steps-if R frame (is_error err) _ _ (Steps-pure R frame _) λ w a w' e.
          let port_id = eth.matching w.calls dbdf in
          Steps-if R frame (port_id == eth.max_ethports) _ _ (Steps-pure R frame _)
            (Steps-bind R frame _ _ (Steps-init_port port_id) λ code. Steps-pure R frame _) w a w' e
