-- ===== src/Messages/Stats/Outcome.antt =====
-- The reply to a statistics request against its specification, which has no buffers.
use virtio_forwarder.Prelude.{
  ◌^◌, ◌%◌, ℕ, zero, suc, ◌+◌, ◌≤◌, ◌<◌, Bool, true, false, not, ◌&&◌, Option, none, some, List, [],
  ◌∷◌, ◌++◌, ltb, leb, ◌==◌, ==_iff, ◌≡◌, refl, sym, ◌∙◌, ap, arith, if◌then◌else◌, get_elem?,
  get_elem?-of_lt, lt-of_get_elem?, length, length-append, append-nil, append_assoc, Bool-cases,
  Option-cases, inl, inr, leb→le,
}
use virtio_forwarder.Sockets.{Server}
use virtio_forwarder.Messages.Stats.{
  WorkerStats, RelayState, present, StatsRequest, stats_ok, stats_of, virtio_forwarder_get_stats,
  relay_query, query_relays, count_from, query_all, query_named, includes_inactive,
  handle_StatsRequest, StatsResponse, max_response_cb,
}

-- The specification: the relays asked for that exist, in the order asked, without the inactive ones
-- unless they are wanted.
abbrev pub entry_of : Bool → ℕ → Option WorkerStats → List RelayState
entry_of include_inactive i none = []
entry_of include_inactive i (some st) =
    if not include_inactive && not st.active then [] else present i st ∷ []

unfoldable pub listed : Server → Bool → List ℕ → List RelayState
listed s include_inactive [] = []
listed s include_inactive (i ∷ is) =
    entry_of include_inactive i (virtio_forwarder_get_stats s i) ++ listed s include_inactive is

abbrev pub asked : Server → List ℕ → List ℕ
asked s [] = count_from 0 (length s.world.relays)
asked s (i ∷ is) = i ∷ is

length-entry_of :
    (include_inactive : Bool) (i : ℕ) (o : Option WorkerStats)
    → length (entry_of include_inactive i o) ≤ 1
length-entry_of include_inactive i none = omega arith
length-entry_of include_inactive i (some st) = ground arith

length-listed :
    (s : Server) (include_inactive : Bool) (is : List ℕ)
    → length (listed s include_inactive is) ≤ length is
unfolding listed
length-listed s include_inactive [] = omega arith
length-listed s include_inactive (i ∷ is) = omega (
  arith,
  length-append (entry_of include_inactive i (virtio_forwarder_get_stats s i))
      (listed s include_inactive is),
  length-entry_of include_inactive i (virtio_forwarder_get_stats s i),
  length-listed s include_inactive is,
)

length-count_from : (i n : ℕ) → length (count_from i n) ≡ n
unfolding count_from
length-count_from i zero = refl
length-count_from i (suc n) = ap suc (length-count_from (i + 1) n)

asked_le :
    (s : Server) (is : List ℕ)
    → length is ≤ length s.world.relays
    → length (asked s is) ≤ length s.world.relays
asked_le s [] h = omega (arith, length-count_from 0 (length s.world.relays))
asked_le s (i ∷ is) h = h

module _ (s : Server) (same : length s.relay_ifname_map ≡ length s.world.relays) where
  get_stats-none : (i : ℕ) → length s.world.relays ≤ i → virtio_forwarder_get_stats s i ≡ none
  unfolding virtio_forwarder_get_stats
  get_stats-none i h = elim (Option-cases (get_elem? s.world.relays i)) [
    | inl e ↦ rw e refl
    | inr (r, e) ↦ absurd (omega (arith, h, lt-of_get_elem? s.world.relays i e))
  ]

  get_stats-some :
      (i : ℕ)
      → i < length s.world.relays
      → (st : WorkerStats) × (virtio_forwarder_get_stats s i ≡ some st)
  unfolding virtio_forwarder_get_stats
  get_stats-some i h =
      let (r, e) = get_elem?-of_lt s.world.relays i h in
      let (name, e') = get_elem?-of_lt s.relay_ifname_map i (omega (arith, h, same)) in
      (stats_of r name, rw (e, e') refl)

  listed_one :
      (include_inactive : Bool) (i : ℕ) (st : WorkerStats) (out : List RelayState)
      → (if not include_inactive && not st.active
          then some out
          else some (out ++ present i st ∷ []))
        ≡ some (out ++ entry_of include_inactive i (some st))
  listed_one include_inactive i st out = elim (Bool-cases (not include_inactive && not st.active)) [
    | inl e ↦ rw e (ap (λ l. some l) (sym (append-nil out)))
    | inr e ↦ rw e refl
  ]

  relay_query_lem :
      (i : ℕ) (include_inactive : Bool) (out : List RelayState)
      → length out < length s.world.relays
      → relay_query s i include_inactive out
        ≡ some (out ++ entry_of include_inactive i (virtio_forwarder_get_stats s i))
  unfolding relay_query
  relay_query_lem i include_inactive out room = elim (Bool-cases (leb (length s.world.relays) i)) [
    | inl beyond ↦
        rw (beyond, get_stats-none i (leb→le _ i beyond)) (ap (λ l. some l) (sym (append-nil out)))
    | inr inside ↦
        let (st, e) = get_stats-some i (ground arith) in
        let free : ltb (length out) (length s.world.relays) ≡ true = ground arith in
        rw (inside, free, e) (listed_one include_inactive i st out)
  ]

  query_relays_lem :
      (is : List ℕ) (include_inactive : Bool) (out : List RelayState)
      → length out + length is ≤ length s.world.relays
      → query_relays s is include_inactive out ≡ some (out ++ listed s include_inactive is)
  unfolding query_relays listed
  query_relays_lem [] include_inactive out h = ap (λ l. some l) (sym (append-nil out))
  query_relays_lem (i ∷ is) include_inactive out h =
      rw (relay_query_lem i include_inactive out (omega (arith, h))) (
        query_relays_lem is include_inactive _ (
          omega (
            arith,
            h,
            length-append out (entry_of include_inactive i (virtio_forwarder_get_stats s i)),
            length-entry_of include_inactive i (virtio_forwarder_get_stats s i),
          ))
        ∙ ap (λ l. some l) (append_assoc out _ _))

  -- With the inactive relays, each relay of the table has its entry.
  listed-all :
      (i n : ℕ) → i + n ≤ length s.world.relays → length (listed s true (count_from i n)) ≡ n
  unfolding listed count_from
  listed-all i zero h = refl
  listed-all i (suc n) h =
      let (st, e) = get_stats-some i (omega (arith, h)) in
      rw e (ap suc (listed-all (i + 1) n (omega (arith, h))))

  query_all_lem :
      (include_inactive : Bool)
      → query_all s include_inactive
        ≡ some (listed s include_inactive (count_from 0 (length s.world.relays)))
  unfolding query_all
  query_all_lem include_inactive =
      rw
        (query_relays_lem (count_from 0 (length s.world.relays)) include_inactive []
          (omega (arith, length-count_from 0 (length s.world.relays))))
        (counted include_inactive)
    where
      counted :
          (b : Bool)
          → (if b
                && not (
                    length (listed s b (count_from 0 (length s.world.relays)))
                    == length s.world.relays)
              then none
              else some (listed s b (count_from 0 (length s.world.relays))))
            ≡ some (listed s b (count_from 0 (length s.world.relays)))
      counted false = refl
      counted true =
          let e : (length (listed s true (count_from 0 (length s.world.relays)))
                == length s.world.relays)
              ≡ true =
            (==_iff _ _).1 (listed-all 0 (length s.world.relays) (omega arith)) in
          rw e refl

  query_named_lem :
      (is : List ℕ) (include_inactive : Bool)
      → length is ≤ length s.world.relays
      → query_named s is include_inactive ≡ some (listed s include_inactive (asked s is))
  query_named_lem [] include_inactive h = query_all_lem include_inactive
  query_named_lem (i ∷ is) include_inactive h =
      query_relays_lem (i ∷ is) include_inactive [] (omega (arith, h))

abbrev pub stats_reply : Server → StatsRequest → StatsResponse
stats_reply s pc = record {
  status = stats_ok;
  relay = listed s (includes_inactive pc.include_inactive) (asked s pc.relay);
}

-- A request for no more relays than there are gets the reply of the specification if its encoding
-- fits the low 16 bits of the size of the buffer, and the handler fails the assertion on that size
-- if it does not. The reply is OK and lists the relays that exist among those asked for, all relays
-- if none are named, in that order, without the inactive ones unless they are wanted. Up to the
-- encoding no entry is written outside the buffers and no assertion fails, and there are at most as
-- many entries as relays. It needs a table of sockets as long as the table of relays.
pub handle_StatsRequest_lem :
    (packed_size : StatsResponse → ℕ) (sizeof_buffer : ℕ) (s : Server) (pc : StatsRequest)
    → length s.relay_ifname_map ≡ length s.world.relays
    → length pc.relay ≤ length s.world.relays
    → (handle_StatsRequest packed_size (max_response_cb sizeof_buffer) s (some pc) ≡ (
        if leb (packed_size (stats_reply s pc)) (sizeof_buffer % 2 ^ 16)
        then some (stats_reply s pc)
        else none))
      × (length (stats_reply s pc).relay ≤ length s.world.relays)
unfolding handle_StatsRequest max_response_cb
handle_StatsRequest_lem packed_size sizeof_buffer s pc same h =
    let fits : ltb (length s.world.relays) (length pc.relay) ≡ false = ground arith in
    (
      rw (fits, query_named_lem s same pc.relay (includes_inactive pc.include_inactive) h) refl,
      omega (
        arith,
        length-listed s (includes_inactive pc.include_inactive) (asked s pc.relay),
        asked_le s pc.relay h,
      ),
    )
