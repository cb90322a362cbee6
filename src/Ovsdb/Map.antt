-- ===== src/Ovsdb/Map.antt =====
-- parse_map of ovsdb_mon.c, the state machine that reads the external_ids of a row. `map + srcptr`
-- is the part of the buffer from there on; `none` is a read behind what has been set of an array.
pub mod Strtol
pub mod Terminates
pub mod Words
pub mod Entries
pub mod RoundTrip
use virtio_forwarder.Prelude.{
  ℕ, zero, suc, ◌+◌, ◌*◌, Bool, true, false, not, ◌&&◌, ◌||◌, Option, none, some, List, [], ◌∷◌,
  ◌++◌, ◌==◌, if◌then◌else◌, and_then, Bytes, codes, str_equal, length,
}
use virtio_forwarder.Prelude.Int.{ℤ, pos}
use virtio_forwarder.Sockets.Names.{skip_space, is_space}
use virtio_forwarder.Ovsdb.Buffer.{overwrite, c_string}
use virtio_forwarder.Ovsdb.Map.Strtol.{Converted, strtol, is_range_error, strtol_text}

pub record PortConfig : Type 0 where
  pub virtio_enabled : Bool
  pub virtio_id : ℤ

pub data MapParseState : Type 0 where
  state_start state_key state_val state_eq state_sep state_done : MapParseState

pub record Parser : Type 0 where
  pub parser_state : MapParseState
  pub map : Bytes
  pub key : Bytes
  pub val : Bytes
  pub port_config : PortConfig

-- What the scan of a key or value copies, whether it ends the string, and where it goes on.
pub record Word : Type 0 where
  pub text : Bytes
  pub closed : Bool
  pub rest : Bytes

abbrev pub put : ℕ → Option Word → Option Word
put c w = and_then w λ r. some (record r { text = c ∷ r.text })

-- The loop over a quoted string, behind its first quote. The character behind a backslash is copied
-- whatever it is.
unfoldable pub quoted_word : Bytes → Option Word
quoted_word [] = none
quoted_word (c ∷ []) =
    if c == 0
    then some (record { text = []; closed = false; rest = c ∷ [] })
    else if c == b'"'
    then some (record { text = []; closed = true; rest = [] })
    else none
quoted_word (c ∷ d ∷ s) =
    let escaped = put d (quoted_word s) in
    let next = put c (quoted_word (d ∷ s)) in
    if c == 0
    then some (record { text = []; closed = false; rest = c ∷ d ∷ s })
    else if c == b'"'
    then some (record { text = []; closed = true; rest = d ∷ s })
    else if c == b'\\'
    then escaped
    else next

-- The loop over a string without quotes, up to a space, a terminator or a character in `ends`.
unfoldable pub bare_word : (ends : ℕ → Bool) → Bytes → Option Word
bare_word ends [] = none
bare_word ends (c ∷ s) =
    let next = put c (bare_word ends s) in
    if is_space c || c == 0 || ends c
    then some (record { text = []; closed = true; rest = c ∷ s })
    else next

abbrev pub ends_key : ℕ → Bool
ends_key c = c == b'='

abbrev pub ends_val : ℕ → Bool
ends_val c = c == b',' || c == b'}'

unfoldable pub scan_word : (ends : ℕ → Bool) → Bytes → Option Word
unfolding quoted_word bare_word
scan_word ends [] = none
scan_word ends (c ∷ s) = if c == b'"' then quoted_word s else bare_word ends (c ∷ s)

-- The array `key` or `val` after the scan; a quoted string that does not end is not terminated.
unfoldable pub word_chars : Word → Bytes → Bytes
word_chars w old =
    if w.closed then overwrite (w.text ++ 0 ∷ []) old else overwrite w.text (overwrite (0 ∷ []) old)

-- `while (map[srcptr] != wanted && map[srcptr] != '\0') srcptr++;`
unfoldable pub seek : (wanted : ℕ → Bool) → Bytes → Option Bytes
seek wanted [] = none
seek wanted (c ∷ s) = let rest = seek wanted s in if wanted c || c == 0 then some (c ∷ s) else rest

-- The character that the state expects: if it is not there, one character is left out and the next
-- such character is looked for.
unfoldable pub expect : (wanted : ℕ → Bool) → Bytes → Option Bytes
unfolding seek
expect wanted [] = none
expect wanted (c ∷ s) = if wanted c then some (c ∷ s) else seek wanted s

-- The state behind the expected character `c`, or the end.
abbrev pub behind : ℕ → MapParseState → Parser → Bytes → Option Parser
behind c next p [] = none
behind c next p (d ∷ s) =
    if d == c
    then some (record p { parser_state = next; map = s })
    else some (record p { parser_state = state_done; map = d ∷ s })

abbrev pub tok_forwarder : Bytes
tok_forwarder = codes "virtio_forwarder"

abbrev pub tok_relay_id : Bytes
tok_relay_id = codes "virtio_relay"

-- `virtio_id = strtol(val, &endptr, 0)` with the tests behind it.
unfoldable pub read_virtio_id : Bytes → PortConfig
unfolding is_range_error
read_virtio_id val =
    let r = strtol val in
    record { virtio_enabled = not (is_range_error r) && not r.no_digits; virtio_id = r.value }

unfoldable pub is_token : Bytes → Bool
is_token key = str_equal tok_forwarder key || str_equal tok_relay_id key

-- The tests on the key once the value has been scanned.
unfoldable pub use_value : Parser → Option Parser
unfolding read_virtio_id is_token strtol_text
use_value p = and_then (c_string p.key) λ key.
    if is_token key
    then and_then (strtol_text p.val) (λ val. some (record p { port_config = read_virtio_id val }))
    else some p

unfoldable pub key_step : Parser → Bytes → Option Parser
unfolding scan_word word_chars
key_step p [] = none
key_step p (c ∷ s) =
    if c == b'}'
    then some (record p { parser_state = state_done; map = c ∷ s })
    else and_then (scan_word ends_key (c ∷ s)) λ w. some (record p {
      parser_state = if w.closed then state_eq else state_done;
      map = w.rest;
      key = word_chars w p.key;
    })

unfoldable pub val_step : Parser → Bytes → Option Parser
unfolding scan_word word_chars use_value
val_step p at = and_then (scan_word ends_val at) λ w. use_value (record p {
  parser_state = if w.closed then state_sep else state_done;
  map = w.rest;
  val = word_chars w p.val;
})

abbrev pub is_char : ℕ → ℕ → Bool
is_char d c = c == d

-- The switch of the loop, `at` being the position behind the white space.
unfoldable pub dispatch : MapParseState → Parser → Bytes → Option Parser
unfolding key_step val_step expect
dispatch state_start p at = and_then (expect (is_char b'{') at) (behind b'{' state_key p)
dispatch state_key p at = key_step p at
dispatch state_val p at = val_step p at
dispatch state_eq p at = and_then (expect (is_char b'=') at) (behind b'=' state_val p)
dispatch state_sep p at = and_then (expect ends_val at) (behind b',' state_key p)
dispatch state_done p at = some p

unfoldable pub map_step : Parser → Option Parser
unfolding dispatch
map_step p = dispatch p.parser_state p (skip_space p.map)

-- How a run of the loop ends: with the parser, with a read outside the arrays, or not within the
-- rounds given.
pub data Outcome : Type 0 where
  finished : Parser → Outcome
  faulted unfinished : Outcome

abbrev pub is_done : MapParseState → Bool
is_done state_done = true
is_done _ = false

abbrev pub go_on : Option Parser → (Parser → Outcome) → Outcome
go_on none next = faulted
go_on (some p) next = next p

-- `while (parser_state != STATE_DONE)`
unfoldable pub map_loop : (rounds : ℕ) → Parser → Outcome
unfolding map_step
map_loop zero p = unfinished
map_loop (suc k) p =
    let rest = go_on (map_step p) (map_loop k) in
    if is_done p.parser_state then finished p else rest

-- `key` and `val` are not initialised.
abbrev pub initial : Bytes → Parser
initial map = record {
  parser_state = state_start;
  map = map;
  key = [];
  val = [];
  port_config = record { virtio_enabled = false; virtio_id = pos 0 };
}

unfoldable pub parse_map : Bytes → Outcome
unfolding map_loop
parse_map map = map_loop (2 * length map + 4) (initial map)
