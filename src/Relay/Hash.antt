-- ===== src/Relay/Hash.antt =====
-- calc_eth_header_hash of virtio_worker.c: the words of a packet's headers that are hashed. The
-- hash of the words, `rte_jhash_32b`, is a parameter.
use virtio_forwarder.Prelude.{ℕ, ◌+◌, ◌*◌, ◌%◌, ◌^◌, Bool, List, [], ◌∷◌, ◌==◌, ◌||◌, if◌then◌else◌}

-- What the code reads of a packet, in the byte order in which it reads it. `ipv4` and `ipv6` are
-- the packets with these values of `ether_type`; the ports are the two 16-bit words that follow
-- the IP header (for IPv4 at the offset that `version_ihl` gives).
pub data EthHdr : Type 0 where
  ipv4 : (src_addr dst_addr next_proto_id dst_port src_port : ℕ) → EthHdr
  ipv6 : (src_addr dst_addr : ℕ × ℕ × ℕ × ℕ) (proto dst_port src_port : ℕ) → EthHdr
  other : (word0 word1 word2 ether_type : ℕ) → EthHdr

-- IPPROTO_TCP, IPPROTO_UDP, IPPROTO_SCTP.
abbrev pub has_ports : ℕ → Bool
has_ports proto = proto == 6 || proto == 17 || proto == 132

-- `(udp_h->dst_port<<16) + udp_h->src_port`
abbrev pub ports_word : ℕ → ℕ → ℕ
ports_word dst_port src_port = (dst_port * 2 ^ 16 + src_port) % 2 ^ 32

-- The array `buf[0 .. hashwords)`.
unfoldable pub hash_words : EthHdr → List ℕ
hash_words (ipv4 src dst proto dport sport) =
    src ∷ dst ∷ proto ∷ (if has_ports proto then ports_word dport sport ∷ [] else [])
hash_words (ipv6 (s0, s1, s2, s3) (d0, d1, d2, d3) proto dport sport) =
    s0
    ∷ s1
    ∷ s2
    ∷ s3
    ∷ d0
    ∷ d1
    ∷ d2
    ∷ d3
    ∷ proto
    ∷ (if has_ports proto then ports_word dport sport ∷ [] else [])
hash_words (other w0 w1 w2 ether_type) = w0 ∷ w1 ∷ w2 ∷ ether_type ∷ []

-- The first argument is `rte_jhash_32b`: the words and the initial value.
unfoldable pub calc_eth_header_hash : (List ℕ → ℕ → ℕ) → EthHdr → ℕ
calc_eth_header_hash jhash h = jhash (hash_words h) 0xdeadbee5
