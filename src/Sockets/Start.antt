-- ===== src/Sockets/Start.antt =====
-- The start of the sockets (virtio_vhostuser.c): the template of the names of the default sockets,
-- the loop of virtio_vhostuser_start that registers them, and the loop of virtio_vhostuser_stop.
use virtio_forwarder.Prelude.{
  ℕ, zero, suc, ◌+◌, Bool, true, false, ◌&&◌, ◌||◌, Option, none, some, [], ◌∷◌, ◌++◌, ◌==◌,
  if◌then◌else◌, take, Bytes,
}
use virtio_forwarder.Prelude.Int.{ℤ, pos, is_error}
use virtio_forwarder.Sockets.{
  S, ◌>>=◌, ◌>>◌, pure, Vhost, get_entry, register_relay_socket, deregister_socket,
}
use virtio_forwarder.Sockets.Names.{is_digit, virtio_vhostuser_id_to_name}

-- strstr(s, "%u"): what is in front of the first "%u" and what is behind it.
abbrev pub in_front : ℕ → Option (Bytes × Bytes) → Option (Bytes × Bytes)
in_front c none = none
in_front c (some (a, b)) = some (c ∷ a, b)

unfoldable pub split_u : Bytes → Option (Bytes × Bytes)
split_u [] = none
split_u (c ∷ []) = none
split_u (c ∷ d ∷ s) =
    let rest = split_u (d ∷ s) in if c == 37 && d == 117 then some ([], s) else in_front c rest

-- strchr(s, '/') != NULL
unfoldable pub has_slash : Bytes → Bool
has_slash [] = false
has_slash (c ∷ s) = c == 47 || has_slash s

abbrev pub has_u : Bytes → Bool
has_u s = elim (split_u s) [ none ↦ false | some p ↦ true ]

abbrev pub digit_first : Bytes → Bool
digit_first [] = false
digit_first (c ∷ s) = is_digit c

-- The prefix and the suffix, which buffers of 128 bytes keep. A suffix that begins with a digit is
-- refused.
abbrev pub template_parts : (socket_path before after : Bytes) → Option (Bytes × Bytes)
template_parts socket_path before after =
    if digit_first after
    then none
    else some (take 127 (take 127 (socket_path ++ 47 ∷ []) ++ before), take 127 after)

-- The part of prep_default_sockets that checks the template of the names and splits it: `some none`
-- is a refusal. The name is copied into a buffer of 128 bytes, in which "%u" is looked for again:
-- it may be cut off.
unfoldable pub socket_template : (socket_path socket_name : Bytes) → Option (Option (Bytes × Bytes))
socket_template socket_path socket_name = elim (split_u socket_name) [
  | none ↦ some none
  | some (before, after) ↦
      if has_u after || has_slash socket_name
      then some none
      else elim (split_u (take 127 socket_name)) [
        | none ↦ none
        | some (front, behind) ↦ some (template_parts socket_path front behind)
      ]
]

-- The loop of virtio_vhostuser_start, from relay `id` on: the default sockets.
unfoldable pub register_default_sockets : Vhost → (prefix suffix : Bytes) → (n id : ℕ) → S ℤ
register_default_sockets vh prefix suffix zero id = pure (pos 0)
register_default_sockets vh prefix suffix (suc n) id = do
  err ← register_relay_socket vh (virtio_vhostuser_id_to_name prefix suffix id 266) id
  if is_error err then pure err else register_default_sockets vh prefix suffix n (id + 1)

-- The loop of virtio_vhostuser_stop, from relay `id` on.
abbrev pub release_entry : Vhost → Option Bytes → S (Unit {0})
release_entry vh none = pure tt
release_entry vh (some path) = do err ← deregister_socket vh path; pure tt

unfoldable pub deregister_sockets : Vhost → (n id : ℕ) → S (Unit {0})
deregister_sockets vh zero id = pure tt
deregister_sockets vh (suc n) id = do
  entry ← get_entry id
  release_entry vh entry
  deregister_sockets vh n (id + 1)
