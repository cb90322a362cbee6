-- ===== src/Ovsdb/Client/Changes.antt =====
-- A changed row of OVSDB: the row that it was, with the token `old`, and the row that it is, with
-- `new`.
use virtio_forwarder.Prelude.{
  ℕ, ◌-◌, ◌^◌, ◌%◌, ◌==◌, arith, true, false, Bool, not, ◌&&◌, Option, none, some, ◌∷◌, [],
  if◌then◌else◌, Bool-cases, inl, inr, ◌≡◌, refl, and_then, str_equal, ◌∙◌,
}
use virtio_forwarder.Prelude.Int.{ℤ, pos, negsuc}
use virtio_forwarder.World.{World, M, ◌>>=◌, ◌>>◌, pure}
use virtio_forwarder.Control.Add.{add_vf2}
use virtio_forwarder.Control.Remove.{remove_vf2}
use virtio_forwarder.Sriov.{SriovInfo, get_vf_pcie_from_netdev}
use virtio_forwarder.Ovsdb.Map.{PortConfig}
use virtio_forwarder.Ovsdb.Map.Entries.{config_of}
use virtio_forwarder.Ovsdb.Client.Print.{Row}
use virtio_forwarder.Ovsdb.Client.Rows.{disabled}
use virtio_forwarder.Ovsdb.Client.Refines.{run_rows}
use virtio_forwarder.Ovsdb.Client.{Host, tok_old, tok_new, act, to_int, is_minus_one, replace_found}

act-old :
    (h : Host) (vf : M (Option SriovInfo)) (c : PortConfig) (change : ℤ)
    → act h tok_old vf c change ≡ pure (if c.virtio_enabled then to_int c.virtio_id else negsuc 0)
unfolding act str_equal
act-old h vf c change = elim (Bool-cases c.virtio_enabled) [ inl e ↦ rw e refl | inr e ↦ rw e refl ]

act-new :
    (h : Host) (vf : M (Option SriovInfo)) (c : PortConfig) (change : ℤ)
    → act h tok_new vf c change ≡ (vf >>= replace_found h c change)
unfolding act str_equal
act-new h vf c change = elim (Bool-cases c.virtio_enabled) [ inl e ↦ rw e refl | inr e ↦ rw e refl ]

-- Whether a row enables the forwarder, and whether the low 32 bits of its id are not all ones: that
-- id stands for no id.
abbrev pub is_enabled : Row → Bool
is_enabled r = (config_of r.external_ids disabled).virtio_enabled

abbrev pub low_bits : ℤ → ℕ
low_bits (pos n) = n % 2 ^ 32
low_bits (negsuc n) = 2 ^ 32 - 1 - n % 2 ^ 32

abbrev pub has_id : Row → Bool
has_id r = not (low_bits (config_of r.external_ids disabled).virtio_id == 2 ^ 32 - 1)

is_minus_one-to_int : (z : ℤ) → is_minus_one (to_int z) ≡ (low_bits z == 2 ^ 32 - 1)
unfolding to_int
is_minus_one-to_int (pos n) = ground arith
is_minus_one-to_int (negsuc n) = ground arith

-- A change for the VF v: it is removed and added on the relay with the number of the VF.
abbrev pub remove_when : Bool → Host → SriovInfo → M (Unit {0})
remove_when false h v = pure tt
remove_when true h v = do err ← remove_vf2 h.eth h.sleep v.dbdf v.vf true; pure tt

abbrev pub add_when : Bool → Host → SriovInfo → M (Unit {0})
add_when false h v = pure tt
add_when true h v = do err ← add_vf2 h.eth v.dbdf v.vf true; pure tt

abbrev pub changed : Host → SriovInfo → (o n : Row) → M ℤ
changed h v o n = do
  remove_when (is_enabled o && has_id o) h v
  add_when (is_enabled n) h v
  pure (negsuc 0)

kept_id : Row → ℤ
kept_id r =
    let c = config_of r.external_ids disabled in
    if c.virtio_enabled then to_int c.virtio_id else negsuc 0

and_then-pure : {A : Type 0} (x : Option (A × World)) → and_then x (λ p. some (p.0, p.1)) ≡ x
and_then-pure none = refl
and_then-pure (some p) = refl

replace-changed :
    (h : Host) (o n : Row) (v : SriovInfo) (w : World)
    → replace_found h (config_of n.external_ids disabled) (kept_id o) (some v) w ≡ changed h v o n w
unfolding kept_id
replace-changed h o n v w =
    let id = (config_of o.external_ids disabled).virtio_id in
    elim (Bool-cases (is_enabled n)) [
      | inl x ↦ rw x (elim (Bool-cases (is_enabled o)) [
        | inr e ↦ rw e refl
        | inl e ↦ rw e (elim (Bool-cases (low_bits id == 2 ^ 32 - 1)) [
          | inl m ↦ rw (is_minus_one-to_int id, m) refl
          | inr m ↦ rw (is_minus_one-to_int id, m) refl
        ])
      ])
      | inr x ↦ rw x (elim (Bool-cases (is_enabled o)) [
        | inr e ↦ rw e refl
        | inl e ↦ rw e (elim (Bool-cases (low_bits id == 2 ^ 32 - 1)) [
          | inl m ↦ rw (is_minus_one-to_int id, m) refl
          | inr m ↦ rw (is_minus_one-to_int id, m) refl
        ])
      ])
    ]

-- A row with the token `old` and a row with the token `new`, for a netdev with the VF v, whatever
-- id was kept before: virtio_forwarder_remove_vf2 is called for the VF if the old row enables the
-- forwarder with an id whose low 32 bits are not all ones, which C takes for no id; then
-- virtio_forwarder_add_vf2 is called for it if the new row enables the forwarder; neither is called
-- otherwise. Both calls are conditional and name the relay with the number of the VF, not the relay
-- with the id of the row. The kept id is -1 behind them.
pub update_rows :
    (h : Host) (o n : Row) (change : ℤ) (v : SriovInfo) (w : World)
    → o.action ≡ tok_old
    → n.action ≡ tok_new
    → get_vf_pcie_from_netdev (h.shell w.calls) n.name ≡ some v
    → run_rows h (o ∷ n ∷ []) change w ≡ changed h v o n w
unfolding kept_id
update_rows h o n change v w eo en ev =
    rw (eo, act-old h)
      (rw (en, act-new h)
        (rw (ev, and_then)
          (and_then-pure
              (replace_found h (config_of n.external_ids disabled) (kept_id o) (some v) w)
            ∙ replace-changed h o n v w)))
