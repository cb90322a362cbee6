-- ===== src/Ovsdb/Map/Terminates.antt =====
-- The state machine of parse_map ends: every round moves on in the buffer or in the order of
-- states.
use virtio_forwarder.Prelude.{
  ℕ, zero, suc, ◌+◌, ◌*◌, ◌≤◌, ◌<◌, Bool, true, false, ◌||◌, Option, none, some, [], ◌∷◌, ◌==◌,
  if◌then◌else◌, and_then, Bytes, length, ◌≡◌, ◌≢◌, refl, arith, if_intro, Bool-cases, inl, inr,
}
use virtio_forwarder.Sockets.Names.{skip_space, is_space}
use virtio_forwarder.Ovsdb.Buffer.{c_string}
use virtio_forwarder.Ovsdb.Map.Strtol.{strtol_text}
use virtio_forwarder.Ovsdb.Map.{
  is_token, Parser, MapParseState, state_start, state_key, state_val, state_eq, state_sep,
  state_done, Word, put, quoted_word, bare_word, scan_word, seek, expect, behind, use_value,
  key_step, val_step, ends_key, ends_val, is_char, dispatch, map_step, Outcome, unfinished, is_done,
  go_on, map_loop, parse_map, initial,
}

abbrev Within : ℕ → Option Word → Type 0
Within n none = Unit {0}
Within n (some w) = length w.rest ≤ n

put-Within : (c n m : ℕ) (w : Option Word) → Within n w → n ≤ m → Within m (put c w)
put-Within c n m none h k = tt
put-Within c n m (some w) h k = omega arith

quoted_word-Within : (s : Bytes) → Within (length s) (quoted_word s)
unfolding quoted_word
quoted_word-Within [] = tt
quoted_word-Within (c ∷ []) = ground arith
quoted_word-Within (c ∷ d ∷ s) = if_intro (Within _) (c == 0) _ _ (omega arith) (
    if_intro (Within _) (c == b'"') _ _ (omega arith) (
      if_intro (Within _) (c == b'\\') _ _
        (put-Within d (length s) _ (quoted_word s) (quoted_word-Within s) (omega arith))
        (put-Within c (suc (length s)) _ (quoted_word (d ∷ s)) (quoted_word-Within (d ∷ s))
          (omega arith))))

bare_word-Within : (ends : ℕ → Bool) (s : Bytes) → Within (length s) (bare_word ends s)
unfolding bare_word
bare_word-Within ends [] = tt
bare_word-Within ends (c ∷ s) =
    if_intro (Within _) (is_space c || c == 0 || ends c) _ _ (omega arith)
      (put-Within c (length s) _ (bare_word ends s) (bare_word-Within ends s) (omega arith))

Within-weaken : (n m : ℕ) (w : Option Word) → n ≤ m → Within n w → Within m w
Within-weaken n m none h k = tt
Within-weaken n m (some w) h k = omega arith

scan_word-Within : (ends : ℕ → Bool) (s : Bytes) → Within (length s) (scan_word ends s)
unfolding scan_word
scan_word-Within ends [] = tt
scan_word-Within ends (c ∷ s) =
    if_intro (Within _) (c == b'"') _ _
      (Within-weaken (length s) _ (quoted_word s) (omega arith) (quoted_word-Within s))
      (bare_word-Within ends (c ∷ s))

abbrev Shorter : ℕ → Option Bytes → Type 0
Shorter n none = Unit {0}
Shorter n (some s) = length s ≤ n

Shorter-weaken : (n m : ℕ) (w : Option Bytes) → n ≤ m → Shorter n w → Shorter m w
Shorter-weaken n m none h k = tt
Shorter-weaken n m (some w) h k = omega arith

seek-Shorter : (wanted : ℕ → Bool) (s : Bytes) → Shorter (length s) (seek wanted s)
unfolding seek
seek-Shorter wanted [] = tt
seek-Shorter wanted (c ∷ s) =
    if_intro (Shorter _) (wanted c || c == 0) _ _ (omega arith)
      (Shorter-weaken (length s) _ (seek wanted s) (omega arith) (seek-Shorter wanted s))

expect-Shorter : (wanted : ℕ → Bool) (s : Bytes) → Shorter (length s) (expect wanted s)
unfolding expect
expect-Shorter wanted [] = tt
expect-Shorter wanted (c ∷ s) =
    if_intro (Shorter _) (wanted c) _ _ (omega arith)
      (Shorter-weaken (length s) _ (seek wanted s) (omega arith) (seek-Shorter wanted s))

skip_space-le : (s : Bytes) → length (skip_space s) ≤ length s
unfolding skip_space
skip_space-le [] = omega arith
skip_space-le (c ∷ s) = ground (arith, skip_space-le s)

abbrev weight : MapParseState → ℕ
weight state_start = 2
weight state_key = 2
weight state_val = 2
weight state_eq = 1
weight state_sep = 1
weight state_done = 0

abbrev rank : Parser → ℕ
rank p = 2 * length p.map + weight p.parser_state

abbrev Below : ℕ → Option Parser → Type 0
Below n none = Unit {0}
Below n (some q) = rank q < n

behind-Below :
    (c : ℕ) (next : MapParseState) (p : Parser) (s : Option Bytes) (n : ℕ)
    → Shorter n s
    → weight next ≤ 2
    → Below (2 * n + 1) (and_then s (behind c next p))
behind-Below c next p none n h k = tt
behind-Below c next p (some []) n h k = tt
behind-Below c next p (some (d ∷ s)) n h k =
    if_intro (Below _) (d == c) _ _ (omega arith) (omega arith)

Below-weaken : (n m : ℕ) (o : Option Parser) → n ≤ m → Below n o → Below m o
Below-weaken n m none h k = tt
Below-weaken n m (some q) h k = omega arith

weight_if : (b : Bool) (s : MapParseState) → weight s ≤ 1 → weight (if b then s else state_done) ≤ 1
weight_if true s h = h
weight_if false s h = omega arith

word-Below :
    (s : MapParseState) (n : ℕ) (w : Option Word) (f : Word → Option Parser)
    → Within n w
    → weight s ≤ 1
    → ((v : Word) → length v.rest ≤ n → Below (2 * n + 2) (f v))
    → Below (2 * n + 2) (and_then w f)
word-Below s n none f h k step = tt
word-Below s n (some v) f h k step = step v h

key_step-Below : (p : Parser) (s : Bytes) → Below (2 * length s + 2) (key_step p s)
unfolding key_step
key_step-Below p [] = tt
key_step-Below p (c ∷ s) = if_intro (Below _) (c == b'}') _ _ (omega arith) (
    word-Below state_eq (suc (length s)) (scan_word ends_key (c ∷ s)) _
      (scan_word-Within ends_key (c ∷ s)) (omega arith)
      (λ v h. omega (arith, weight_if v.closed state_eq (omega arith))))

-- What follows a read of a string.
string-Below :
    (n : ℕ) (s : Option Bytes) (f : Bytes → Option Parser)
    → ((t : Bytes) → Below n (f t))
    → Below n (and_then s f)
string-Below n none f h = tt
string-Below n (some t) f h = h t

use_value-Below : (n : ℕ) (p : Parser) → rank p < n → Below n (use_value p)
unfolding use_value
use_value-Below n p h =
    string-Below n (c_string p.key) _ λ key.
      if_intro (Below n) (is_token key) _ _ (string-Below n (strtol_text p.val) _ (λ val. h)) h

val_step-Below : (p : Parser) (s : Bytes) → Below (2 * length s + 2) (val_step p s)
unfolding val_step
val_step-Below p s =
    word-Below state_sep (length s) (scan_word ends_val s) _ (scan_word-Within ends_val s)
      (omega arith)
      (λ v h. use_value-Below _ _ (omega (arith, weight_if v.closed state_sep (omega arith))))

expected-Below :
    (wanted : ℕ → Bool) (c : ℕ) (next : MapParseState) (p : Parser) (s : Bytes)
    → weight next ≤ 2
    → Below (2 * length s + 1) (and_then (expect wanted s) (behind c next p))
expected-Below wanted c next p s h =
    behind-Below c next p (expect wanted s) (length s) (expect-Shorter wanted s) h

dispatch-Below :
    (state : MapParseState) (p : Parser) (s : Bytes)
    → is_done state ≡ false
    → Below (2 * length s + weight state) (dispatch state p s)
unfolding dispatch
dispatch-Below state_start p s h =
    Below-weaken (2 * length s + 1) _ _ (omega arith)
      (expected-Below (is_char b'{') b'{' state_key p s (omega arith))
dispatch-Below state_key p s h = key_step-Below p s
dispatch-Below state_val p s h = val_step-Below p s
dispatch-Below state_eq p s h = expected-Below (is_char b'=') b'=' state_val p s (omega arith)
dispatch-Below state_sep p s h = expected-Below ends_val b',' state_key p s (omega arith)
dispatch-Below state_done p s h = cc

map_step-Below : (p : Parser) → is_done p.parser_state ≡ false → Below (rank p) (map_step p)
unfolding map_step
map_step-Below p h =
    Below-weaken (2 * length (skip_space p.map) + weight p.parser_state) _ _
      (omega (arith, skip_space-le p.map)) (dispatch-Below p.parser_state p (skip_space p.map) h)

go_on-ends :
    (n : ℕ) (o : Option Parser) (next : Parser → Outcome)
    → Below n o
    → ((q : Parser) → rank q < n → next q ≢ unfinished)
    → go_on o next ≢ unfinished
go_on-ends n none next h k = λ e. cc
go_on-ends n (some q) next h k = k q h

pub map_loop-ends : (rounds : ℕ) (p : Parser) → rank p < rounds → map_loop rounds p ≢ unfinished
unfolding map_loop
map_loop-ends zero p h = elim h [ ]
map_loop-ends (suc k) p h = elim (Bool-cases (is_done p.parser_state)) [
  | inl e ↦ rw e (λ x. cc)
  | inr e ↦ rw e (
      go_on-ends (rank p) (map_step p) (map_loop k) (map_step-Below p e)
        (λ q l. map_loop-ends k q (omega arith)))
]

-- The state machine of parse_map ends on every buffer: it gives a configuration or reads outside
-- the arrays within 2 * length map + 4 rounds.
pub parse_map-ends : (map : Bytes) → parse_map map ≢ unfinished
unfolding parse_map
parse_map-ends map = map_loop-ends (2 * length map + 4) (initial map) (omega arith)

agree :
    (o : Option Parser) (f g : Parser → Outcome)
    → ((q : Parser) → f q ≢ unfinished → g q ≢ unfinished → f q ≡ g q)
    → go_on o f ≢ unfinished
    → go_on o g ≢ unfinished
    → go_on o f ≡ go_on o g
agree none f g h k l = refl
agree (some q) f g h k l = h q k l

-- Runs that end give the same, whatever rounds they were given.
pub map_loop-agree :
    (j k : ℕ) (p : Parser)
    → map_loop j p ≢ unfinished
    → map_loop k p ≢ unfinished
    → map_loop j p ≡ map_loop k p
unfolding map_loop
map_loop-agree zero k p = λ h l. absurd (h refl)
map_loop-agree (suc j) zero p = λ h l. absurd (l refl)
map_loop-agree (suc j) (suc k) p = elim (Bool-cases (is_done p.parser_state)) [
  | inl e ↦ rw e (λ h l. refl)
  | inr e ↦ rw e (agree (map_step p) (map_loop j) (map_loop k) (λ q. map_loop-agree j k q))
]
