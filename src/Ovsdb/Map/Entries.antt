-- ===== src/Ovsdb/Map/Entries.antt =====
-- The maps that OVSDB prints, and the states of parse_map on one entry.
use virtio_forwarder.Prelude.{
  ℕ, suc, true, false, ◌||◌, some, List, [], ◌∷◌, ◌++◌, ◌==◌, if◌then◌else◌, All, Bytes, ◌≡◌, ◌≢◌,
  refl, arith, Bool-cases, ==_iff, inl, inr, and_then,
}
use virtio_forwarder.Sockets.Names.{skip_space}
use virtio_forwarder.Ovsdb.Buffer.{overwrite, c_string, c_string-overwrite}
use virtio_forwarder.Ovsdb.Quote.{escaped}
use virtio_forwarder.Ovsdb.Map.Strtol.{text_or, strtol_text}
use virtio_forwarder.Ovsdb.Map.{
  PortConfig, Parser, MapParseState, state_key, state_val, state_eq, state_sep, scan_word,
  word_chars, ends_key, ends_val, read_virtio_id, is_token, use_value, key_step, val_step, dispatch,
  map_step, is_done, map_loop, expect,
}
use virtio_forwarder.Ovsdb.Map.Words.{
  Atom, print_atom, is_plain, IsAtom, scan_word-atom, skip_space-atom,
}

pub record Pair : Type 0 where
  pub key : Atom
  pub val : Atom

abbrev pub print_pair : Pair → Bytes → Bytes
print_pair x rest = print_atom x.key (b'=' ∷ print_atom x.val rest)

abbrev pub print_more : List Pair → Bytes → Bytes
print_more [] rest = b'}' ∷ rest
print_more (x ∷ xs) rest = b',' ∷ b' ' ∷ print_pair x (print_more xs rest)

-- `{key=value, key=value}`
abbrev pub print_map : List Pair → Bytes → Bytes
print_map [] rest = b'{' ∷ b'}' ∷ rest
print_map (x ∷ xs) rest = b'{' ∷ print_pair x (print_more xs rest)

-- What a map says: the last entry for a relay or for the forwarder counts.
abbrev pub config_with : Pair → PortConfig → PortConfig
config_with x config = if is_token x.key.text then read_virtio_id x.val.text else config

abbrev pub config_of : List Pair → PortConfig → PortConfig
config_of [] config = config
config_of (x ∷ xs) config = config_of xs (config_with x config)

abbrev pub IsPair : Pair → Type 0
IsPair x = IsAtom x.key × IsAtom x.val

abbrev pub at : MapParseState → Bytes → Bytes → Bytes → PortConfig → Parser
at state map key val config = record {
  parser_state = state;
  map = map;
  key = key;
  val = val;
  port_config = config;
}

abbrev pub with_text : Atom → Bytes → Bytes
with_text a old = overwrite (a.text ++ 0 ∷ []) old

pub key-scanned :
    (a : Atom) (p : Parser) (c : ℕ) (t rest : Bytes)
    → scan_word ends_key (c ∷ t) ≡ some (record { text = a.text; closed = true; rest = rest })
    → c ≢ b'}'
    → key_step p (c ∷ t)
      ≡ some (record p { parser_state = state_eq; map = rest; key = with_text a p.key })
unfolding key_step word_chars
key-scanned a p c t rest h n = elim (Bool-cases (c == b'}')) [
  | inl e ↦ absurd (n ((==_iff c b'}').0 e))
  | inr e ↦ rw e (rw (h, and_then) refl)
]

pub plain-head :
    (s rest : Bytes)
    → All (λ d. is_plain d ≡ true) s
    → (c : ℕ) × (t : Bytes) × (s ++ (b'=' ∷ rest) ≡ c ∷ t) × (c ≢ b'}')
plain-head [] rest h = (b'=', rest, refl, λ e. ground arith)
plain-head (c ∷ s) rest h = (c, s ++ (b'=' ∷ rest), refl, λ e. ground arith)

pub key-head :
    (a : Atom) (rest : Bytes)
    → IsAtom a
    → (c : ℕ) × (t : Bytes) × (print_atom a (b'=' ∷ rest) ≡ c ∷ t) × (c ≢ b'}')
key-head a rest h = elim (Bool-cases a.quoted) [
  | inl q ↦ (b'"', escaped a.text (b'=' ∷ rest), rw q refl, λ e. ground arith)
  | inr q ↦ rw q (plain-head a.text rest (h.bare q))
]

pub key_step-atom :
    (a : Atom) (p : Parser) (rest : Bytes)
    → IsAtom a
    → key_step p (print_atom a (b'=' ∷ rest))
      ≡ some (record p { parser_state = state_eq; map = b'=' ∷ rest; key = with_text a p.key })
key_step-atom a p rest h =
    let (c, t, e, n) = key-head a rest h in
    rw e (
      key-scanned a p c t (b'=' ∷ rest)
        (rw e at (
          scan_word-atom ends_key a b'=' rest h (λ d k. ground arith) (ground arith)
            (λ k. ground arith)))
        n)

pub val_step-atom :
    (k a : Atom) (p : Parser) (c : ℕ) (rest : Bytes)
    → IsAtom k
    → IsAtom a
    → c_string p.key ≡ some k.text
    → (c == b',' || c == b'}') ≡ true
    → val_step p (print_atom a (c ∷ rest))
      ≡ some (record p {
        parser_state = state_sep;
        map = c ∷ rest;
        val = with_text a p.val;
        port_config = if is_token k.text then read_virtio_id a.text else p.port_config;
      })
unfolding val_step word_chars use_value strtol_text
val_step-atom k a p c rest hk h e n =
    rw (scan_word-atom ends_val a c rest h (λ d m. ground arith) n (λ m. ground arith), and_then)
      (rw (e, and_then)
        (elim (Bool-cases (is_token k.text)) [
          | inl f ↦ rw f (rw (c_string-overwrite a.text p.val h.text, text_or, and_then) refl)
          | inr f ↦ rw f refl
        ]))

pub map_loop-step :
    (k : ℕ) (p q : Parser)
    → is_done p.parser_state ≡ false
    → map_step p ≡ some q
    → map_loop (suc k) p ≡ map_loop k q
unfolding map_loop
map_loop-step k p q h e = rw h (rw e refl)

pub step_key :
    (x : Pair) (s rest key val : Bytes) (config : PortConfig)
    → IsPair x
    → skip_space s ≡ print_atom x.key (b'=' ∷ rest)
    → map_step (at state_key s key val config)
      ≡ some (at state_eq (b'=' ∷ rest) (with_text x.key key) val config)
unfolding map_step dispatch
step_key x s rest key val config h e =
    rw e (key_step-atom x.key (at state_key s key val config) rest h.0)

pub step_eq :
    (rest key val : Bytes) (config : PortConfig)
    → map_step (at state_eq (b'=' ∷ rest) key val config) ≡ some (at state_val rest key val config)
unfolding map_step dispatch skip_space expect
step_eq rest key val config = refl

pub step_val :
    (x : Pair) (c : ℕ) (rest key val : Bytes) (config : PortConfig)
    → IsPair x
    → c_string key ≡ some x.key.text
    → (c == b',' || c == b'}') ≡ true
    → map_step (at state_val (print_atom x.val (c ∷ rest)) key val config)
      ≡ some (at state_sep (c ∷ rest) key (with_text x.val val) (config_with x config))
unfolding map_step dispatch
step_val x c rest key val config h e n = rw (skip_space-atom x.val c rest h.1 (ground arith)) (
    val_step-atom x.key x.val (at state_val (print_atom x.val (c ∷ rest)) key val config) c rest h.0
      h.1 e n)
