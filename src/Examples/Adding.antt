-- ===== src/Examples/Adding.antt =====
-- The theorems on adding VFs and bonds, applied.
use virtio_forwarder.Prelude.{List, ◌≡◌, refl, true, false, some, [], ◌∷◌, replicate}
use virtio_forwarder.Prelude.Int.{ℤ, pos, negsuc}
use virtio_forwarder.Relay.{virtio_ready, dpdk_uninit}
use virtio_forwarder.World.{World, Eth, ask}
use virtio_forwarder.Control.{init_vf}
use virtio_forwarder.Control.Add.{add_vf2, add_new_vf}
use virtio_forwarder.Control.Add.Outcome.{add_vf2-error, SameDpdk}
use virtio_forwarder.Control.Bond.{Slave, bond_add, build_bond, slave_in_use, free_bond}
use virtio_forwarder.Control.Bond.Outcome.{bond_add-error}
use virtio_forwarder.Control.Keeps.{Keeps}
use virtio_forwarder.Examples.{mbuf, a_vio, a_dpdk, a_relay}
use virtio_forwarder.Examples.Cpus.{a_world}

-- A DPDK that answers every call with the same code, and finds every device as port 5.
abbrev pub a_dpdk_lib : ℤ → Eth
a_dpdk_lib code = record {
  answer = λ before c. code;
  lookup = λ before name. false;
  pool = λ before c. some 9;
  matching = λ before name. 5;
  max_ethports = 32;
  slaves = λ before port. some [];
  vring_num = λ dev. 2;
  numa_node = λ dev. some 0;
}

-- A relay with a guest and without a VF.
abbrev pub without_vf : World
without_vf = record a_world {
  relays =
      a_relay (a_vio virtio_ready 1 1 1 true (replicate 32 0))
        (a_dpdk dpdk_uninit [] (replicate 32 (mbuf 0)))
      ∷ [];
}

abbrev failed :
    (w : World) × (add_vf2 (a_dpdk_lib (negsuc 0)) (1 ∷ 2 ∷ []) 0 false without_vf
      ≡ some (pos 2, w))
unfolding add_vf2 add_new_vf init_vf ask
failed = (_, refl)

add_vf2-error_example : Keeps 0 SameDpdk without_vf failed.0
add_vf2-error_example =
    add_vf2-error (a_dpdk_lib (negsuc 0)) (1 ∷ 2 ∷ []) 0 false without_vf failed.1 refl

-- The first of two slaves is in use: the bond, port 0, is freed again.
abbrev two_slaves : List Slave
two_slaves = (1 ∷ [], 0) ∷ (2 ∷ [], 0) ∷ []

abbrev not_bonded :
    (w : World) × (bond_add (a_dpdk_lib (pos 0)) two_slaves (8 ∷ []) 1 0 without_vf
      ≡ some (pos 3, w))
unfolding bond_add build_bond slave_in_use free_bond ask
not_bonded = (_, refl)

bond_add-error_example : Keeps 0 SameDpdk without_vf not_bonded.0
bond_add-error_example =
    bond_add-error (a_dpdk_lib (pos 0)) two_slaves (8 ∷ []) 1 0 without_vf not_bonded.1 refl
