-- ===== src/Messages/PortControl/Outcome.antt =====
-- What a port control request does: the table of sockets, the status of the reply, and the requests
-- that write behind the buffers.
use virtio_forwarder.Prelude.{
  ℕ, ◌+◌, ◌≤◌, ◌<◌, Bool, true, false, not, ◌&&◌, Option, none, some, List, [], ◌∷◌, ◌≡◌, refl, sym,
  ◌∙◌, ap, subst, arith, ltb, leb, length, set, Bytes, codes, Bool-cases, inl, inr,
}
use virtio_forwarder.Prelude.Int.{ℤ, is_error}
use virtio_forwarder.World.{World, Eth, M}
use virtio_forwarder.Control.Bond.{Slave}
use virtio_forwarder.Sockets.{Server, S, ◌>>=◌, Vhost, on_world, get_relay_for_sock}
use virtio_forwarder.Sockets.Runs.{
  Post, Post-bind, Post-if, Post-on_world, Post-pure, Post-fault, Post-weaken,
}
use virtio_forwarder.Sockets.Table.{Idle, Distinct, set-some-Distinct}
use virtio_forwarder.Sockets.Pairs.{virtio_add_sock_dev_pair, virtio_query_pci}
use virtio_forwarder.Sockets.Pairs.Outcome.{Added, refused, paired, add_sock_dev_pair-Added}
use virtio_forwarder.Sockets.Pairs.Leave.{remove_sock_dev_pair-Removed}
use virtio_forwarder.Sockets.Pairs.Inv.{Removed-Distinct}
use virtio_forwarder.Messages.PortRequest.{
  Op, op_add, op_remove, op_add_sock, op_remove_sock, op_query_pci, other_op, PciAddress,
  PortControlRequest, PortControlResponse, error_response, addresses_fit,
  validate_PortControlRequest, max_num_bond_slaves,
}
use virtio_forwarder.Messages.PortControl.{
  ReqBuffer, set_error_code, req_buffer, add_devices, dispatch, is_conditional,
  handle_PortControlRequest, removed_name,
}

-- The loop over eight addresses or more writes behind the string.
addresses_fit-false :
    (addrs : List PciAddress) (i : ℕ) → i < 8 → 8 ≤ i + length addrs → addresses_fit addrs i ≡ false
unfolding addresses_fit
addresses_fit-false [] i h g = absurd (omega (arith, h, g))
addresses_fit-false (a ∷ rest) i h g = elim (Bool-cases (ltb i 7)) [
  | inl lt ↦ grind (arith, addresses_fit-false rest (i + 1))
  | inr ge ↦ ground arith
]

-- A request that is found valid and names eight PCI addresses, the most that a bond may have, or
-- more, makes the handler write outside its buffers, whatever the operation.
pub eight_addresses_overflow :
    (eth : Eth) (sleep : ℕ → World → World) (vh : Vhost) (junk : ℕ → ℕ) (pc : PortControlRequest)
    (s : Server)
    → validate_PortControlRequest pc ≡ true
    → 8 ≤ length pc.pci_addrs
    → handle_PortControlRequest eth sleep vh junk (some pc) s ≡ none
unfolding handle_PortControlRequest
eight_addresses_overflow eth sleep vh junk pc s v h =
    rw (v, addresses_fit-false pc.pci_addrs 0 (omega arith) (omega (arith, h))) refl

-- The reply says OK if and only if the code is 0.
Post-set_error_code :
    (r : PortControlResponse) (source : Bytes) (code : ℤ) (s : Server)
    → r.ok ≡ false
    → Post (set_error_code r source code) s (λ r' s'. (r'.ok ≡ not (is_error code)) × (s' ≡ s))
unfolding set_error_code
Post-set_error_code r source code s h =
    Post-if (is_error code)
      (λ e. Post-if r.ok (λ k. Post-fault) (λ k. Post-pure _ (h ∙ sym (ap not e), refl)))
      (λ e. Post-pure _ (sym (ap not e), refl))

-- A chain of an operation and its reply.
Post-reply :
    (m : S ℤ) (source : Bytes) (s : Server) (Q : ℤ → Server → Type 0)
    → Post m s Q
    → Post
        (m >>= λ code. set_error_code error_response source code)
        s
        (λ r s'. (code : ℤ) × (r.ok ≡ not (is_error code)) × Q code s')
Post-reply m source s Q h = Post-bind h λ code t q.
    Post-weaken (Post-set_error_code error_response source code t refl)
      λ r u k. (code, k.0, subst (Q code) (sym k.1) q)

-- What a reply to a request to add a pair means: OK, and the path of the request is in the entry of
-- a relay that was idle, or an error, and the table is as before.
pub data AddReply (path : Option Bytes) (s : Server) (r : PortControlResponse) (s' : Server)
    : Type 0 where
  added_reply :
      (p : Bytes) (id : ℕ)
      → r.ok ≡ true
      → path ≡ some p
      → get_relay_for_sock s.relay_ifname_map p ≡ none
      → Idle s.world.relays s.relay_ifname_map id
      → s'.relay_ifname_map ≡ set s.relay_ifname_map id (some p)
      → AddReply path s r s'
  refused_reply : r.ok ≡ false → s'.relay_ifname_map ≡ s.relay_ifname_map → AddReply path s r s'

to_reply :
    {p : Bytes} {s s' : Server} {code : ℤ} {r : PortControlResponse}
    → r.ok ≡ not (is_error code)
    → Added s p code s'
    → AddReply (some p) s r s'
to_reply e (refused h m) = refused_reply (e ∙ ap not h) m
to_reply {p} e (paired id z new free m) =
    added_reply p id (e ∙ ap (λ c. not (is_error c)) z) refl new free m

AddReply-Distinct :
    (path : Option Bytes) (s : Server) (r : PortControlResponse) (s' : Server)
    → AddReply path s r s'
    → Distinct s.relay_ifname_map
    → Distinct s'.relay_ifname_map
AddReply-Distinct path s r s' (refused_reply e m) d = subst Distinct (sym m) d
AddReply-Distinct path s r s' (added_reply p id e k new free m) d =
    subst Distinct (sym m) (set-some-Distinct _ id p new d)

-- The table keeps its paths apart.
abbrev Apart : Server → PortControlResponse → Server → Type 0
Apart s r s' = Distinct s.relay_ifname_map → Distinct s'.relay_ifname_map

module _ (eth : Eth) (sleep : ℕ → World → World) (vh : Vhost) (junk : ℕ → ℕ) where
  Post-add_sock :
      (path : Option Bytes) (slaves : List Slave) (name : Option Bytes) (mode : ℕ)
      (conditional : Bool) (s : Server)
      → Post
          (virtio_add_sock_dev_pair eth sleep vh path slaves name mode conditional >>= λ code.
            set_error_code error_response (codes "virtio_add_sock_dev_pair()") code)
          s
          (AddReply path s)
  unfolding virtio_add_sock_dev_pair
  Post-add_sock none slaves name mode conditional s =
      Post-weaken
        (Post-reply _ _ s (λ c s'. (is_error c ≡ true) × (s' ≡ s)) (Post-pure _ (refl, refl)))
        λ r s' h. refused_reply (h.1 ∙ ap not h.2.0) (ap (λ u. u.relay_ifname_map) h.2.1)
  Post-add_sock (some p) slaves name mode conditional s =
      Post-weaken
        (Post-reply _ _ s (Added s p) (record {
          post = λ c s' h.
              add_sock_dev_pair-Added eth sleep vh p slaves name mode conditional s s' c h;
        }))
        λ r s' h. to_reply h.1 h.2

  -- A control function of the worker and its reply.
  Post-worker :
      (m : M ℤ) (source : Bytes) (s : Server)
      → Post (on_world m >>= λ code. set_error_code error_response source code) s (Apart s)
  Post-worker m source s =
      Post-weaken (Post-reply _ source s _ (Post-on_world m s))
        λ r s' h d. subst Distinct (sym h.2.map_same) d

  Post-add_devices :
      (ds : List Bytes) (name : Option Bytes) (b : ReqBuffer) (conditional : Bool) (s : Server)
      → Post (add_devices eth sleep vh junk ds name b conditional) s (Apart s)
  Post-add_devices [] name b conditional s = Post-pure _ (λ d. d)
  Post-add_devices (x ∷ []) name b conditional s = Post-worker _ _ s
  Post-add_devices (x ∷ y ∷ ds) none b conditional s = Post-fault
  Post-add_devices (x ∷ y ∷ ds) (some name) b conditional s = Post-worker _ _ s

  Post-dispatch :
      (op : Op) (b : ReqBuffer) (conditional : Bool) (s : Server)
      → Post (dispatch eth sleep vh junk op b conditional) s (Apart s)
  Post-dispatch op_add b conditional s = Post-add_devices b.dbdf_addrs b.name b conditional s
  Post-dispatch op_remove b conditional s = Post-worker _ _ s
  Post-dispatch op_add_sock b conditional s =
      Post-weaken (Post-add_sock b.vhost_path _ b.name b.mode conditional s)
        λ r s' h. AddReply-Distinct _ s r s' h
  Post-dispatch op_remove_sock b conditional s =
      Post-weaken
        (Post-reply _ _ s (λ c s'. Distinct s.relay_ifname_map → Distinct s'.relay_ifname_map)
          (record {
            post = λ c s' h. Removed-Distinct s _ c s' (
                remove_sock_dev_pair-Removed eth sleep vh b.vhost_path (removed_name b) conditional
                  s s' c h);
          }))
        λ r s' h. h.2
  Post-dispatch op_query_pci b conditional s =
      let answer = virtio_query_pci s b.vhost_path in
      record {
        post =
            (Post-weaken
              (Post-set_error_code (record error_response { query_string = answer.1 }) _ answer.0 s
                refl)
              λ r s' h d. subst (λ u. Distinct u.relay_ifname_map) (sym h.1) d).post;
      }
  Post-dispatch (other_op n) b conditional s = Post-pure _ (λ d. d)

  Post-handle :
      (request : Option PortControlRequest) (s : Server)
      → Post (handle_PortControlRequest eth sleep vh junk request) s (Apart s)
  unfolding handle_PortControlRequest
  Post-handle none s = Post-pure _ (λ d. d)
  Post-handle (some pc) s =
      Post-if (not (validate_PortControlRequest pc)) (λ h. Post-pure _ (λ d. d))
        λ h.
          Post-if (addresses_fit pc.pci_addrs 0 && leb (length pc.pci_addrs) max_num_bond_slaves)
            (λ h. Post-dispatch pc.op (req_buffer pc) (is_conditional pc.conditional) s)
            (λ h. Post-fault)

-- No request makes two relays have the same path: if none have before it, none have after it,
-- whatever the operation and its result.
pub handle_PortControlRequest-Distinct :
    (eth : Eth) (sleep : ℕ → World → World) (vh : Vhost) (junk : ℕ → ℕ)
    (request : Option PortControlRequest) (s s' : Server) (r : PortControlResponse)
    → Distinct s.relay_ifname_map
    → handle_PortControlRequest eth sleep vh junk request s ≡ some (r, s')
    → Distinct s'.relay_ifname_map
handle_PortControlRequest-Distinct eth sleep vh junk request s s' r d e =
    (Post-handle eth sleep vh junk request s).post r s' e d

-- A reply to a request to add a pair of a socket and a device says OK only if the path is given, no
-- relay had it and it is now in the entry of a relay that had no guest, no device and no path; with
-- any other reply the table is as before.
pub add_sock_request-AddReply :
    (eth : Eth) (sleep : ℕ → World → World) (vh : Vhost) (junk : ℕ → ℕ) (pc : PortControlRequest)
    (s s' : Server) (r : PortControlResponse)
    → pc.op ≡ op_add_sock
    → handle_PortControlRequest eth sleep vh junk (some pc) s ≡ some (r, s')
    → AddReply pc.vhost_path s r s'
unfolding handle_PortControlRequest req_buffer
add_sock_request-AddReply eth sleep vh junk pc s s' r is_add e =
    (Post-if (not (validate_PortControlRequest pc)) (λ h. Post-pure _ (refused_reply refl refl))
        (λ h.
          Post-if (addresses_fit pc.pci_addrs 0 && leb (length pc.pci_addrs) max_num_bond_slaves)
            (λ h.
              subst
                (λ op.
                  Post
                    (dispatch eth sleep vh junk op (req_buffer pc) (is_conditional pc.conditional))
                    s (AddReply pc.vhost_path s))
                (sym is_add) (Post-add_sock eth sleep vh junk pc.vhost_path _ pc.name _ _ s))
            (λ h. Post-fault))).post
      r s' e
