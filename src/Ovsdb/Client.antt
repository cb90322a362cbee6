-- ===== src/Ovsdb/Client.antt =====
-- process_external_ids and parse_ovsdb_client of ovsdb_mon.c: a row of ovsdb-client is read field
-- by field, and adds or removes the VF of the netdev that it names. `shell` answers ethtool, and
-- may depend on the calls made so far.
pub mod Print
pub mod Rows
pub mod Refines
pub mod Truncated
pub mod Changes
use virtio_forwarder.Prelude.{
  ℕ, zero, suc, ◌+◌, ◌-◌, ◌^◌, ◌%◌, ◌<◌, Bool, true, false, not, ◌&&◌, ◌||◌, Option, none, some,
  List, [], ◌∷◌, ◌++◌, ltb, ◌==◌, if◌then◌else◌, and_then, Bytes, codes, str_equal, length, take,
  drop, min, max,
}
use virtio_forwarder.Prelude.Int.{ℤ, pos, negsuc}
use virtio_forwarder.World.{World, M, ◌>>=◌, ◌>>◌, pure, fault, Eth, DevCall}
use virtio_forwarder.Control.Add.{add_vf2}
use virtio_forwarder.Control.Remove.{remove_vf2}
use virtio_forwarder.Sriov.{SriovInfo, Shell, get_vf_pcie_from_netdev}
use virtio_forwarder.Ovsdb.Buffer.{overwrite, c_string}
use virtio_forwarder.Ovsdb.Fields.{extract_field, unquote}
use virtio_forwarder.Ovsdb.Map.{PortConfig, Outcome, finished, parse_map}

abbrev pub tok_initial : Bytes
tok_initial = codes "initial"

abbrev pub tok_insert : Bytes
tok_insert = codes "insert"

abbrev pub tok_delete : Bytes
tok_delete = codes "delete"

abbrev pub tok_old : Bytes
tok_old = codes "old"

abbrev pub tok_new : Bytes
tok_new = codes "new"

-- A `long` stored in an `int`: the low 32 bits.
abbrev residue : ℤ → ℕ
residue (pos n) = n % 2 ^ 32
residue (negsuc n) = 2 ^ 32 - 1 - n % 2 ^ 32

unfoldable pub to_int : ℤ → ℤ
to_int z = if ltb (residue z) (2 ^ 31) then pos (residue z) else negsuc (2 ^ 32 - 1 - residue z)

abbrev pub is_minus_one : ℤ → Bool
is_minus_one (pos n) = false
is_minus_one (negsuc n) = n == 0

-- What the monitor acts on: DPDK, the workers during a wait, and ethtool.
pub record Host : Type 0 where
  pub eth : Eth
  pub sleep : ℕ → World → World
  pub shell : List DevCall → Shell

unfoldable pub look_up : Host → (name : Bytes) → M (Option SriovInfo)
look_up h name w =
    and_then (c_string name) λ s. some (get_vf_pcie_from_netdev (h.shell w.calls) s, w)

abbrev pub add_found : Host → Option SriovInfo → M (Unit {0})
add_found h none = pure tt
add_found h (some v) = do err ← add_vf2 h.eth v.dbdf v.vf true; pure tt

abbrev pub remove_found : Host → Option SriovInfo → M (Unit {0})
remove_found h none = pure tt
remove_found h (some v) = do err ← remove_vf2 h.eth h.sleep v.dbdf v.vf true; pure tt

-- The branch of the token `new`. The result is `*virtio_id_change`.
abbrev pub replace_found : Host → PortConfig → ℤ → Option SriovInfo → M ℤ
replace_found h config change none = pure change
replace_found h config change (some v) = do
  if is_minus_one change then pure tt else remove_found h (some v)
  if config.virtio_enabled then add_found h (some v) else pure tt
  pure (negsuc 0)

-- The branches on the token; `vf` looks the netdev up.
unfoldable pub act : Host → (action : Bytes) → (vf : M (Option SriovInfo)) → PortConfig → ℤ → M ℤ
unfolding to_int
act h action vf config change =
    if config.virtio_enabled && (str_equal action tok_insert || str_equal action tok_initial)
    then (do v ← vf; add_found h v; pure change)
    else if config.virtio_enabled && str_equal action tok_delete
    then (do v ← vf; remove_found h v; pure change)
    else if str_equal action tok_old
    then pure (if config.virtio_enabled then to_int config.virtio_id else negsuc 0)
    else if str_equal action tok_new
    then vf >>= replace_found h config change
    else pure change

-- `action` and `name` are arrays that the row has filled.
unfoldable pub process_external_ids : Host → (action name : Bytes) → PortConfig → ℤ → M ℤ
unfolding act look_up
process_external_ids h action name config change w =
    and_then (c_string action) λ token. act h token (look_up h name) config change w

-- The arrays of parse_ovsdb_client; the number of characters in `buf` that are not used yet; and
-- the virtio id that the last row with the token `old` has left.
pub record Client : Type 0 where
  pub buf : Bytes
  pub tmp : Bytes
  pub action : Bytes
  pub name : Bytes
  pub virtio_id_change : ℤ
  pub remain : ℕ

-- The fields of the row at the front of `buf`.
unfoldable pub row_fields : Client → Option Client
row_fields c = and_then (extract_field c.buf c.tmp) λ hash.
    and_then (extract_field hash.1 c.action) λ action.
      and_then (extract_field action.1 c.name) λ name. and_then (unquote name.0) λ unquoted.
        and_then (extract_field name.1 hash.0)
          λ ids. some (record c { tmp = ids.0; action = action.0; name = unquoted })

abbrev pub config_read : Outcome → Option PortConfig
config_read (finished p) = some p.port_config
config_read _ = none

unfoldable pub parse_row : Host → Client → M Client
unfolding row_fields process_external_ids
parse_row h c w = and_then (row_fields c) λ r. and_then (config_read (parse_map r.tmp)) λ config.
    (do
      change ← process_external_ids h r.action r.name config c.virtio_id_change
      pure (record r { virtio_id_change = change }))
      w

-- strchr(buf, '\n'): the line, and what is behind the newline; no line if the string has none.
pub record Split : Type 0 where
  pub line : Bytes
  pub behind : Bytes

unfoldable pub find_newline : Bytes → Option Split
find_newline [] = none
find_newline (c ∷ s) =
    let rest = and_then (find_newline s) (λ p. some (record p { line = c ∷ p.line })) in
    if c == 0 then none else if c == b'\n' then some (record { line = []; behind = s }) else rest

-- The row, unless the line is empty; then the next line is moved to the front of `buf`.
abbrev pub parse_line : Host → Client → Split → M Client
parse_line h c s = do
  r ←
      (let row = record c { buf = s.line ++ (0 ∷ s.behind) } in
        if length s.line == 0 then pure row else parse_row h row)
  (λ w.
      and_then (c_string s.behind)
        λ rest. some (record r { buf = overwrite (rest ++ 0 ∷ []) r.buf; remain = length rest }, w))

-- One line, and what `next` does with the lines behind it.
abbrev pub lines_from : (next : Client → M Client) → Host → Client → Option Split → M Client
lines_from next h c none = pure c
lines_from next h c (some s) = parse_line h c s >>= next

-- `while (nlpos)`: the rounds are the characters of the buffer, of which each line uses one at
-- least.
unfoldable pub parse_lines : (rounds : ℕ) → Host → Client → M Client
unfolding find_newline parse_row
parse_lines zero h c w = none
parse_lines (suc k) h c w = lines_from (λ r. parse_lines k h r) h c (find_newline c.buf) w

abbrev pub max_read : ℕ
max_read = 65535

-- `read(cmd_sock, p, n)` gives what is there and at most `n` characters; it gives none at the end
-- of the stream, or if `n` is 0. `avail` says how many characters are there.
abbrev pub read_count : (avail : Bytes → ℕ) → ℕ → Bytes → ℕ
read_count avail n stream = min (length stream) (min n (max 1 (avail stream)))

-- The characters read are put behind those that are left, with a terminator.
abbrev pub filled : Client → Bytes → Client
filled c chunk = record c {
  buf = take c.remain c.buf ++ overwrite (chunk ++ 0 ∷ []) (drop c.remain c.buf);
  remain = c.remain + length chunk;
}

-- The rest of a line that is too long is read and dropped; `none` is the end of the stream.
unfoldable pub skip_line : Bytes → Option Bytes
skip_line [] = none
skip_line (c ∷ s) = let rest = skip_line s in if c == b'\n' then some s else rest

abbrev pub read_on : (Bytes → Client → M Client) → Bytes → Client → M Client
read_on next stream c =
    if not (c.remain == max_read - 1) then next stream c else elim (skip_line stream) [
      | none ↦ pure c
      | some s ↦ next s (record c { buf = overwrite (b'\n' ∷ []) c.buf; remain = 0 })
    ]

-- The loop over the reads, each of which takes one character of the stream at least.
unfoldable pub read_loop :
    (rounds : ℕ) → (avail : Bytes → ℕ) → Host → (stream : Bytes) → Client → M Client
unfolding skip_line parse_lines
read_loop zero avail h stream c w = none
read_loop (suc k) avail h stream c w =
    let n = read_count avail (max_read - c.remain - 1) stream in
    let next =
      (parse_lines (length (filled c (take n stream)).buf) h (filled c (take n stream)) >>= λ r.
      read_on (λ s d. read_loop k avail h s d) (drop n stream) r)
        w in
    if n == 0 then some (c, w) else next

-- No array is initialised.
unfoldable pub parse_ovsdb_client : (avail : Bytes → ℕ) → Host → (stream : Bytes) → M Client
unfolding read_loop
parse_ovsdb_client avail h stream =
    read_loop (length stream + 1) avail h stream (record {
      buf = [];
      tmp = [];
      action = [];
      name = [];
      virtio_id_change = negsuc 0;
      remain = 0;
    })
