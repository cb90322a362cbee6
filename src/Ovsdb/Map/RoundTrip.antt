-- ===== src/Ovsdb/Map/RoundTrip.antt =====
-- parse_map reads the maps that OVSDB prints.
use virtio_forwarder.Prelude.{
  ℕ, suc, true, false, ◌||◌, some, List, [], ◌∷◌, ◌==◌, All, Bytes, ◌≡◌, ◌≢◌, refl, sym, ◌∙◌, subst,
}
use virtio_forwarder.Prelude.Int.{pos}
use virtio_forwarder.Sockets.Names.{skip_space}
use virtio_forwarder.Ovsdb.Buffer.{c_string-overwrite}
use virtio_forwarder.Ovsdb.Map.{
  PortConfig, Parser, state_start, state_key, state_sep, state_done, key_step, dispatch, map_step,
  Outcome, finished, unfinished, is_done, map_loop, parse_map, initial, expect,
}
use virtio_forwarder.Ovsdb.Map.Words.{print_atom, skip_space-atom}
use virtio_forwarder.Ovsdb.Map.Terminates.{parse_map-ends, map_loop-agree}
use virtio_forwarder.Ovsdb.Map.Entries.{
  Pair, print_pair, print_more, print_map, config_with, config_of, IsPair, at, with_text,
  map_loop-step, step_key, step_eq, step_val,
}

-- Key, equals sign and value of one entry.
pair_run :
    (k : ℕ) (x : Pair) (c : ℕ) (s rest key val : Bytes) (config : PortConfig)
    → IsPair x
    → (c == b',' || c == b'}') ≡ true
    → skip_space s ≡ print_pair x (c ∷ rest)
    → map_loop (suc (suc (suc k))) (at state_key s key val config)
      ≡ map_loop k (
          at state_sep
            (c ∷ rest)
            (with_text x.key key)
            (with_text x.val val)
            (config_with x config))
pair_run k x c s rest key val config h n e =
    map_loop-step (suc (suc k)) _ _ refl (step_key x s _ key val config h e)
    ∙ map_loop-step (suc k) _ _ refl (step_eq _ (with_text x.key key) val config)
    ∙ map_loop-step k _ _ refl
        (step_val x c rest _ val config h (c_string-overwrite x.key.text key h.0.text) n)

step_sep :
    (rest key val : Bytes) (config : PortConfig)
    → map_step (at state_sep (b',' ∷ rest) key val config) ≡ some (at state_key rest key val config)
unfolding map_step dispatch skip_space expect
step_sep rest key val config = refl

step_end :
    (rest key val : Bytes) (config : PortConfig)
    → map_step (at state_sep (b'}' ∷ rest) key val config)
      ≡ some (at state_done (b'}' ∷ rest) key val config)
unfolding map_step dispatch skip_space expect
step_end rest key val config = refl

-- The run has ended, and has read this configuration.
abbrev pub Reads : PortConfig → Outcome → Type 0
Reads config (finished p) = p.port_config ≡ config
Reads config _ = ⊥

done_run : (k : ℕ) (p : Parser) → is_done p.parser_state ≡ true → map_loop (suc k) p ≡ finished p
unfolding map_loop
done_run k p e = rw e refl

abbrev rounds : List Pair → ℕ
rounds [] = 2
rounds (x ∷ xs) = suc (suc (suc (suc (rounds xs))))

skip_space-pair :
    (x : Pair) (rest : Bytes) → IsPair x → skip_space (b' ' ∷ print_pair x rest) ≡ print_pair x rest
unfolding skip_space
skip_space-pair x rest h = skip_space-atom x.key b'=' (print_atom x.val rest) h.0 refl

more_run :
    (xs : List Pair) (rest key val : Bytes) (config : PortConfig)
    → All IsPair xs
    → Reads
        (config_of xs config)
        (map_loop (rounds xs) (at state_sep (print_more xs rest) key val config))
more_run [] rest key val config h =
    rw (map_loop-step 1 _ _ refl (step_end rest key val config))
      (rw (done_run 0 (at state_done (b'}' ∷ rest) key val config) refl) refl)
more_run (x ∷ []) rest key val config h =
    rw (map_loop-step _ _ _ refl (step_sep _ key val config)) (
      rw (pair_run _ x b'}' _ rest key val config h.0 refl (skip_space-pair x _ h.0))
        (more_run [] rest _ _ (config_with x config) h.1))
more_run (x ∷ y ∷ xs) rest key val config h =
    rw (map_loop-step _ _ _ refl (step_sep _ key val config)) (
      rw (pair_run _ x b',' _ _ key val config h.0 refl (skip_space-pair x _ h.0))
        (more_run (y ∷ xs) rest _ _ (config_with x config) h.1))

step_start :
    (rest key val : Bytes) (config : PortConfig)
    → map_step (at state_start (b'{' ∷ rest) key val config)
      ≡ some (at state_key rest key val config)
unfolding map_step dispatch skip_space expect
step_start rest key val config = refl

step_empty :
    (rest key val : Bytes) (config : PortConfig)
    → map_step (at state_key (b'}' ∷ rest) key val config)
      ≡ some (at state_done (b'}' ∷ rest) key val config)
unfolding map_step dispatch skip_space key_step
step_empty rest key val config = refl

abbrev map_rounds : List Pair → ℕ
map_rounds [] = 3
map_rounds (x ∷ xs) = suc (suc (suc (suc (rounds xs))))

-- The first entry, with no space in front of it.
first_run :
    (x : Pair) (c : ℕ) (rest key val : Bytes) (config : PortConfig)
    → IsPair x
    → (c == b',' || c == b'}') ≡ true
    → (k : ℕ) (end : PortConfig)
    → Reads end (
        map_loop k (
          at state_sep
            (c ∷ rest)
            (with_text x.key key)
            (with_text x.val val)
            (config_with x config)))
    → Reads end
        (map_loop (suc (suc (suc k))) (at state_key (print_pair x (c ∷ rest)) key val config))
first_run x c rest key val config h n k end r =
    subst (Reads end)
      (sym (
        pair_run k x c (print_pair x (c ∷ rest)) rest key val config h n
          (skip_space-atom x.key b'=' (print_atom x.val (c ∷ rest)) h.0 refl)))
      r

map_run :
    (xs : List Pair) (rest key val : Bytes) (config : PortConfig)
    → All IsPair xs
    → Reads
        (config_of xs config)
        (map_loop (map_rounds xs) (at state_start (print_map xs rest) key val config))
map_run [] rest key val config h =
    rw (map_loop-step 2 _ _ refl (step_start (b'}' ∷ rest) key val config)) (
      rw (map_loop-step 1 _ _ refl (step_empty rest key val config))
        (rw (done_run 0 (at state_done (b'}' ∷ rest) key val config) refl) refl))
map_run (x ∷ []) rest key val config h =
    rw (map_loop-step _ _ _ refl (step_start (print_pair x (b'}' ∷ rest)) key val config)) (
      first_run x b'}' rest key val config h.0 refl 2 _
        (more_run [] rest _ _ (config_with x config) h.1))
map_run (x ∷ y ∷ xs) rest key val config h =
    rw
      (map_loop-step _ _ _ refl
        (step_start (print_pair x (print_more (y ∷ xs) rest)) key val config))
      (first_run x b',' (b' ' ∷ print_pair y (print_more xs rest)) key val config h.0 refl _ _
        (more_run (y ∷ xs) rest _ _ (config_with x config) h.1))

Reads-ends : (config : PortConfig) (o : Outcome) → Reads config o → o ≢ unfinished
Reads-ends config (finished p) h e = cc
Reads-ends config Outcome.faulted h e = absurd h
Reads-ends config unfinished h e = absurd h

-- A map as OVSDB prints it, with quoted and bare keys and values and anything behind it in the
-- buffer, is read without an access outside the arrays, and the configuration is that of its last
-- entry for `virtio_forwarder` or `virtio_relay`, or a disabled one if it has none.
pub parse_map-print_map :
    (xs : List Pair) (rest : Bytes)
    → All IsPair xs
    → Reads
        (config_of xs (record { virtio_enabled = false; virtio_id = pos 0 }))
        (parse_map (print_map xs rest))
unfolding parse_map
parse_map-print_map xs rest h =
    let run = map_run xs rest [] [] (record { virtio_enabled = false; virtio_id = pos 0 }) h in
    subst (Reads (config_of xs (record { virtio_enabled = false; virtio_id = pos 0 })))
      (map_loop-agree (map_rounds xs) _ (initial (print_map xs rest)) (Reads-ends _ _ run)
        (parse_map-ends (print_map xs rest)))
      run
