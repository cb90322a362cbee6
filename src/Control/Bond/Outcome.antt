-- ===== src/Control/Bond/Outcome.antt =====
-- The error paths of virtio_forwarder_bond_add.
use virtio_forwarder.Prelude.{
  ℕ, ◌≡◌, refl, ◌∙◌, true, false, not, ◌||◌, ◌==◌, Option, none, some, List, [], ◌∷◌, length,
  get_elem?,
}
use virtio_forwarder.Prelude.Int.{ℤ, pos, negsuc, is_error}
use virtio_forwarder.Relay.{Relay, is_dpdk_ready}
use virtio_forwarder.World.{
  World, update_relay, Eth, mempool_free, port_by_name, bond_slave_add, bond_free,
}
use virtio_forwarder.Cpu.{is_dpdk_uninit}
use virtio_forwarder.Control.Add.Outcome.{
  SameDpdk, Fails, Fails-bind, Fails-if, Fails-Steps, Fails-retry, Fails-configure, Zero-pure,
}
use virtio_forwarder.Control.Remove.{cleanup_slaves}
use virtio_forwarder.Control.Guest.{
  free_pool, exchange_with, migrate_mempool, exchange_mempool, reconfigure_vf, close_and_fail,
  is_dpdk_added, short_port,
}
use virtio_forwarder.Control.Bond.{
  Slave, slave_in_use, add_slaves, free_bond, free_slaves, fill_bond, build_bond, with_port,
  bond_add_at, bond_add, bond_socket,
}
use virtio_forwarder.Control.Steps.{
  IsFrame, Steps, Steps-pure, Steps-bind, Steps-if, Steps-check, Steps-get_relay, Steps-ask,
  Steps-record_call,
}
use virtio_forwarder.Control.Keeps.{Keeps, Keeps-IsFrame, Steps-update}
use virtio_forwarder.Control.Setup.{
  Steps-cleanup, Steps-init_vf, Steps-alloc_mempool, Steps-dev_queue_configure,
}

module _ (id : ℕ) (eth : Eth) where
  abbrev R : World → World → Type 0
  R = Keeps id SameDpdk

  abbrev frame : IsFrame R
  frame = Keeps-IsFrame id SameDpdk (λ r. refl) (λ a b c p q. q ∙ p)

  updates : (f : Relay → Relay) → ((r : Relay) → SameDpdk r (f r)) → Steps R (update_relay id f)
  updates f h = Steps-update id SameDpdk (λ r. refl) (λ a b c p q. q ∙ p) f h

  Steps-close : (port_id : ℕ) → Steps R (close_and_fail eth port_id)
  unfolding close_and_fail
  Steps-close p =
      Steps-bind R frame _ _ (Steps-ask R frame eth _) λ closed. Steps-pure R frame (negsuc 0)

  Steps-reconfigure : (r : Relay) → Steps R (reconfigure_vf eth r)
  unfolding reconfigure_vf
  Steps-reconfigure r = Steps-bind R frame _ _ (Steps-ask R frame eth _) λ info.
      Steps-check R frame info info _ (
        Steps-bind R frame _ _ (Steps-ask R frame eth _) λ tx.
          Steps-if R frame (is_error tx) _ _ (Steps-close (short_port r)) (
            Steps-bind R frame _ _ (Steps-ask R frame eth _) λ rx.
              Steps-if R frame (is_error rx) _ _ (Steps-close (short_port r))
                (Steps-pure R frame (pos 0))))

  Steps-free_pool : (o : Option ℕ) → Steps R (free_pool o)
  Steps-free_pool none = Steps-pure R frame tt
  Steps-free_pool (some pool) = Steps-record_call R frame (mempool_free (some pool))

  Steps-exchange : (newnode : Option ℕ) (pool : ℕ) → Steps R (exchange_mempool eth id newnode pool)
  unfolding exchange_mempool
  Steps-exchange newnode pool = Steps-bind R frame _ _ (Steps-get_relay R frame id) λ r.
      Steps-if R frame (is_dpdk_ready r.dpdk.state || not (r.dpdk.rx_pkts_avail == 0)) _ _
        (λ w a w' e. cc)
        (Steps-bind R frame _ _
          (Steps-if R frame (is_dpdk_added r.dpdk.state) _ _ (Steps-ask R frame eth _)
            (Steps-pure R frame (pos 0)))
          λ stopped. Steps-bind R frame _ _ (Steps-free_pool r.vio.mempool) λ freed.
            Steps-bind R frame _ _ (updates _ λ r. refl) λ changed.
              Steps-bind R frame _ _ (Steps-get_relay R frame id) λ r'.
                Steps-if R frame (is_dpdk_added r'.dpdk.state) _ _ (Steps-reconfigure r')
                  (Steps-pure R frame (pos 0)))

  Steps-with_pool : (newnode o : Option ℕ) → Steps R (exchange_with eth id newnode o)
  Steps-with_pool newnode none = Steps-pure R frame (negsuc 0)
  Steps-with_pool newnode (some pool) = Steps-exchange newnode pool

  Steps-migrate : (newnode : Option ℕ) (n : ℕ) → Steps R (migrate_mempool eth id newnode n)
  unfolding migrate_mempool
  Steps-migrate newnode n = Steps-bind R frame _ _ (Steps-get_relay R frame id) λ r.
      Steps-bind R frame _ _ (Steps-alloc_mempool R frame eth r.id newnode n)
        (Steps-with_pool newnode)

  Steps-in_use : (slaves : List Slave) → Steps R (slave_in_use eth slaves)
  unfolding slave_in_use
  Steps-in_use [] = Steps-pure R frame false
  Steps-in_use (s ∷ slaves) =
      Steps-bind R frame _ _ (Steps-ask R frame eth (port_by_name s.0))
        λ err. Steps-if R frame (is_error err) _ _ (Steps-in_use slaves) (Steps-pure R frame true)

  Steps-add_slaves :
      (port_id : ℕ) (slaves : List Slave) → Steps R (add_slaves eth port_id id slaves)
  unfolding add_slaves
  Steps-add_slaves p [] = Steps-pure R frame (pos 0, [])
  Steps-add_slaves p (s ∷ slaves) =
      Steps-bind R frame _ _ (Steps-init_vf R frame eth id (λ pool. updates _ λ r. refl) s.0 s.1)
        λ answer. Steps-if R frame (is_error answer.0) _ _ (Steps-pure R frame _) (
          Steps-bind R frame _ _ (Steps-ask R frame eth (bond_slave_add p answer.1))
            λ done. Steps-bind R frame _ _ (Steps-add_slaves p slaves) λ rest. Steps-pure R frame _)

  Steps-cleanup_slaves : (ports : List ℕ) → Steps R (cleanup_slaves eth ports)
  unfolding cleanup_slaves
  Steps-cleanup_slaves [] = Steps-pure R frame tt
  Steps-cleanup_slaves (p ∷ ports) =
      Steps-bind R frame _ _ (Steps-cleanup R frame eth p) λ err. Steps-cleanup_slaves ports

  Steps-free_bond : (name : List ℕ) (rc : ℤ) → Steps R (free_bond eth name rc)
  unfolding free_bond
  Steps-free_bond name rc =
      Steps-bind R frame _ _ (Steps-ask R frame eth (bond_free name)) λ err. Steps-pure R frame rc

  Steps-free_slaves : (ports name : List ℕ) (rc : ℤ) → Steps R (free_slaves eth ports name rc)
  unfolding free_slaves
  Steps-free_slaves ports name rc =
      Steps-bind R frame _ _ (Steps-cleanup_slaves ports) λ done. Steps-free_bond name rc

  Fails-fill :
      (slaves : List Slave) (name : List ℕ) (port_id : ℕ)
      → Fails R (fill_bond eth slaves name port_id id)
  unfolding fill_bond
  Fails-fill slaves name p = Fails-bind id _ _ (Steps-add_slaves p slaves) λ answer.
      Fails-if id (is_error answer.0) _ _
        (Fails-Steps id _ (Steps-free_slaves answer.1 name answer.0))
        (Fails-retry id _ _ (Fails-configure id eth name p true (length slaves))
          (λ err.
            Steps-if R frame (is_error err) _ _ (Steps-free_slaves answer.1 name (pos 6))
              (Steps-pure R frame (pos 0)))
          (λ err ok. rw ok (Zero-pure (pos 0) refl)))

  Fails-build :
      (slaves : List Slave) (name : List ℕ) (socket_id port_id : ℕ)
      → Fails R (build_bond eth slaves name socket_id port_id id)
  unfolding build_bond
  Fails-build slaves name socket_id p = Fails-bind id _ _ (Steps-in_use slaves) λ used.
      Fails-if id used _ _ (Fails-Steps id _ (Steps-free_bond name (pos 3))) (
        Fails-bind id _ _ (Steps-migrate (some socket_id) _) λ migrated.
          Fails-bind id _ _
            (Steps-dev_queue_configure R frame eth id (λ pool. updates _ λ r. refl) p true)
            λ err.
              Fails-if id (is_error err) _ _ (Fails-Steps id _ (Steps-free_bond name (pos 4)))
                (Fails-fill slaves name p))

  Fails-with_port :
      (slaves : List Slave) (name : List ℕ) (socket_id : ℕ) (created : ℤ)
      → Fails R (with_port eth slaves name socket_id id created)
  Fails-with_port slaves name socket_id (negsuc e) = Fails-Steps id _ (Steps-pure R frame (pos 2))
  Fails-with_port slaves name socket_id (pos p) = Fails-build slaves name socket_id p

  Fails-bond_add_at :
      (slaves : List Slave) (name : List ℕ) (mode : ℕ) (o : Option Relay)
      → Fails R (bond_add_at eth slaves name mode id o)
  Fails-bond_add_at slaves name mode none = Fails-Steps id _ (Steps-pure R frame (pos 1))
  Fails-bond_add_at slaves name mode (some r) =
      Fails-if id (not (is_dpdk_uninit r.dpdk.state)) _ _
        (Fails-Steps id _ (Steps-pure R frame (pos 8)))
        (Fails-bind id _ _ (Steps-ask R frame eth _)
          λ created. Fails-with_port slaves name (bond_socket r.vio.mempool_socket_id) created)

-- When virtio_forwarder_bond_add returns an error (the bond or a slave of it could not be set up,
-- or the bond not be started), the DPDK side of the relay is as it was before, and so are all other
-- relays.
pub bond_add-error :
    (eth : Eth) (slaves : List Slave) (name : List ℕ) (mode id : ℕ) (w : World) {code : ℤ}
    {w' : World}
    → bond_add eth slaves name mode id w ≡ some (code, w')
    → is_error code ≡ true
    → Keeps id SameDpdk w w'
unfolding bond_add
bond_add-error eth slaves name mode id w e bad =
    Fails-bond_add_at id eth slaves name mode (get_elem? w.relays id) w _ _ e bad
