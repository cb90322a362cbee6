-- ===== src/Sriov.antt =====
-- get_VF_PCIE_from_netdev of sriov.c: the VF of a netdev, from what ethtool prints. The output of a
-- command is a parameter. The model searches what has been read as a terminated string.
use virtio_forwarder.Prelude.{ℕ, ◌%◌, ◌^◌, Option, some, ◌>>=◌, ◌++◌, take, Bytes, codes}
use virtio_forwarder.Scan.{scan_unsigned, scan_char, scan_word, behind_text}

pub record SriovInfo : Type 0 where
  pub dbdf : Bytes
  pub vf : ℕ

-- The shell: what a command prints, if it can be run and prints something.
abbrev pub Shell : Type 0
Shell = Bytes → Option Bytes

-- sscanf(_vf, "VF%hhu.%hhu", ...), of which the second number is kept.
unfoldable pub scan_vf : Bytes → Option ℕ
scan_vf s = do
  s ← scan_char b'V' s
  s ← scan_char b'F' s
  nicbus ← scan_unsigned s
  s ← scan_char b'.' nicbus.rest
  vfnum ← scan_unsigned s
  some (vfnum.value % 2 ^ 8)

-- The text behind "bus-info: NFP 0 ".
unfoldable pub read_bus_info : Bytes → Option SriovInfo
unfolding scan_vf
read_bus_info bus = do
  vf ← scan_word 8 bus
  dbdf ← scan_word 20 (vf.rest)
  vfnum ← scan_vf vf.value
  some (record { dbdf = take 19 dbdf.value; vf = vfnum })

unfoldable pub get_vf_pcie_from_netdev : Shell → Bytes → Option SriovInfo
unfolding read_bus_info
get_vf_pcie_from_netdev shell netdev = do
  buf ← shell (take 127 (codes "/sbin/ethtool -i " ++ netdev))
  bus ← behind_text (codes "bus-info: NFP 0 ") (take 2048 buf)
  read_bus_info bus
