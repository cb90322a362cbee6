-- ===== src/FileMon.antt =====
-- scan_file of file_mon.c: a command in a text file adds or removes the VF of a netdev.
use virtio_forwarder.Prelude.{
  ℕ, ◌-◌, Bool, false, not, Option, none, some, ◌∷◌, ◌++◌, ◌==◌, if◌then◌else◌, Bytes, codes,
  length, take, drop, replicate,
}
use virtio_forwarder.Prelude.Int.{ℤ}
use virtio_forwarder.World.{World, M, ◌>>=◌, pure, fault, Eth}
use virtio_forwarder.Control.Add.{add_vf2}
use virtio_forwarder.Control.Remove.{remove_vf2}
use virtio_forwarder.Scan.{Scanned, scan_word, before, spans}
use virtio_forwarder.Sriov.{SriovInfo, get_vf_pcie_from_netdev}
use virtio_forwarder.Ovsdb.Client.{Host}

-- virtio_forwarder_add_vf and virtio_forwarder_remove_vf of virtio_worker.c.
unfoldable pub add_vf : Eth → Bytes → ℕ → M ℤ
add_vf eth pci_dbdf virtio_id = add_vf2 eth pci_dbdf virtio_id false

unfoldable pub remove_vf : Eth → (ℕ → World → World) → Bytes → ℕ → M ℤ
remove_vf eth sleep pci_dbdf virtio_id = remove_vf2 eth sleep pci_dbdf virtio_id false

-- The buffer of 128 characters behind fread.
unfoldable pub command_buf : Bytes → Bytes
command_buf file = take 128 file ++ replicate (128 - length (take 128 file)) 0

-- MATCH_TOKEN(test, keyword) compares sizeof(*keyword) characters, which is one.
unfoldable pub match_token : (test keyword : Bytes) → Bool
match_token (c ∷ test) (d ∷ keyword) = c == d
match_token _ _ = false

abbrev add_found : Host → Option SriovInfo → M (Unit {0})
add_found h none = pure tt
add_found h (some v) = do err ← add_vf h.eth v.dbdf v.vf; pure tt

abbrev remove_found : Host → Option SriovInfo → M (Unit {0})
remove_found h none = pure tt
remove_found h (some v) = do err ← remove_vf h.eth h.sleep v.dbdf v.vf; pure tt

abbrev look_up : Host → Bytes → M (Option SriovInfo)
look_up h name w = some (get_vf_pcie_from_netdev (h.shell w.calls) name, w)

-- sscanf(args, "%16s", netdev) and the action, if there is a name. A buffer with no terminator
-- behind `args` is a fault.
abbrev with_netdev :
    Host → (Option SriovInfo → M (Unit {0})) → Option (Scanned Bytes) → M (Unit {0})
with_netdev h action none = pure tt
with_netdev h action (some w) = look_up h w.value >>= action

abbrev act_on : Host → (Option SriovInfo → M (Unit {0})) → (args : Bytes) → M (Unit {0})
act_on h action args =
    if spans (λ c. not (c == 0)) args
    then fault
    else with_netdev h action (scan_word 16 (before 0 args))

unfoldable pub scan_file : Host → (file : Bytes) → M (Unit {0})
unfolding command_buf match_token add_vf remove_vf
scan_file h file =
    let buf = command_buf file in
    if length file == 0
    then pure tt
    else if match_token buf (codes "add_port ")
    then act_on h (add_found h) (drop 8 buf)
    else if match_token buf (codes "del_port ")
    then act_on h (remove_found h) (drop 8 buf)
    else pure tt
