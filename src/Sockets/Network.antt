-- ===== src/Sockets/Network.antt =====
-- libsrc/libcutils/socket_network_client_unix.cpp.
--
-- `getaddrinfo` is an argument: its error, or the list of addresses, each with its family and its
-- protocol. The sets of `select` hold the one socket: its reply is 0 on a timeout, 1 where the socket
-- is in a set, and another number where it is in none.
use cpp_temp_learn.Prelude.{
  ℕ, ◌+◌, ◌-◌, ◌/◌, ◌%◌, List, [], ◌∷◌, Option, none, some, Bytes, ◌==◌, if◌then◌else◌,
}
use cpp_temp_learn.Sockets.{
  resolved_address, connect, select, get_option, get_flags, set_flags, CallReply, done, failed,
  SocketCalls, or_close,
}

-- O_NONBLOCK, EINPROGRESS and SO_ERROR
abbrev pub nonblock : ℕ
nonblock = 2048

abbrev pub in_progress : ℕ
in_progress = 115

abbrev pub socket_error : ℕ
socket_error = 4

pub record AddressInfo : Type 0 where
  pub family : ℕ
  pub protocol : ℕ
  pub address : Bytes

-- `flags ^ O_NONBLOCK`
unfoldable pub toggle : ℕ → ℕ
toggle flags = if flags / nonblock % 2 == 0 then flags + nonblock else flags - nonblock

-- How a round of the loop ends: with the next address, or with a result.
pub data Round : Type 0 where
  continues : Round
  breaks : Option ℕ → Round

module _ {World : Type 0} (os : SocketCalls World) where
  open os use {socket, close, invoke}

  -- `toggle_O_NONBLOCK` behind F_GETFL
  unfoldable pub store_flags : ℕ → World → CallReply → World × Option ℕ
  unfolding toggle or_close
  store_flags s w (failed e) = (close w s, none)
  store_flags s w (done flags) = or_close os s (set_flags s (toggle flags)) w

  -- `toggle_O_NONBLOCK`
  unfoldable pub toggle_nonblock : ℕ → World → World × Option ℕ
  unfolding store_flags
  toggle_nonblock s w = let (w', r) = invoke w (get_flags s) in store_flags s w' r

  -- The end of a round, from `result = toggle_O_NONBLOCK(s)` on.
  unfoldable pub finish_round : ℕ → World → World × Round
  unfolding toggle_nonblock
  finish_round s w = let (w', r) = toggle_nonblock s w in (w', breaks r)

  -- A round behind `getsockopt`.
  unfoldable pub judge_error : ℕ → World → CallReply → World × Round
  unfolding finish_round
  judge_error s w (failed e) = (close w s, breaks none)
  judge_error s w (done e) = if e == 0 then finish_round s w else (close w s, continues)

  -- A round behind `select`.
  unfoldable pub judge_select : ℕ → World → CallReply → World × Round
  unfolding judge_error
  judge_select s w (failed e) = (close w s, breaks none)
  judge_select s w (done n) =
      let (w', r) = invoke w (get_option s socket_error) in
      if n == 0
      then (close w s, breaks none)
      else if n == 1
      then judge_error s w' r
      else (close w s, breaks none)

  -- A round behind `connect`.
  unfoldable pub judge_connect : ℕ → ℕ → World → CallReply → World × Round
  unfolding finish_round judge_select
  judge_connect s timeout w (done n) = finish_round s w
  judge_connect s timeout w (failed e) =
      let (w', r) = invoke w (select s (if timeout == 0 then none else some timeout)) in
      if e == in_progress then judge_select s w' r else (close w s, continues)

  -- A round behind the first call of `toggle_O_NONBLOCK`.
  unfoldable pub connect_toggled : ℕ → ℕ → Bytes → World → Option ℕ → World × Round
  unfolding judge_connect
  connect_toggled s timeout address w none = (w, breaks none)
  connect_toggled s timeout address w (some s') =
      let (w', r) = invoke w (connect s (resolved_address address)) in judge_connect s timeout w' r

  -- A round behind `socket`.
  unfoldable pub toggle_opened : ℕ → Bytes → World → Option ℕ → World × Round
  unfolding toggle_nonblock connect_toggled
  toggle_opened timeout address w none = (w, breaks none)
  toggle_opened timeout address w (some s) =
      let (w', r) = toggle_nonblock s w in connect_toggled s timeout address w' r

  -- One round of the loop over the addresses.
  unfoldable pub try_address : ℕ → ℕ → AddressInfo → World → World × Round
  unfolding toggle_opened
  try_address type timeout a w =
      let (w', s) = socket w a.family type a.protocol in toggle_opened timeout a.address w' s

  -- The loop over the addresses.
  unfoldable pub try_addresses : ℕ → ℕ → List AddressInfo → World → World × Option ℕ
  unfolding try_address
  try_addresses type timeout [] w = (w, none)
  try_addresses type timeout (a ∷ rest) w =
      let (w', r) = try_address type timeout a w in
      elim r [ breaks result ↦ (w', result) | continues ↦ try_addresses type timeout rest w' ]

  -- `socket_network_client_timeout`, and `*getaddrinfo_error`
  unfoldable pub socket_network_client_timeout :
      (Bytes → ℕ → ℕ → ℕ × List AddressInfo) → Bytes → ℕ → ℕ → ℕ → World → World × Option ℕ × ℕ
  unfolding try_addresses
  socket_network_client_timeout getaddrinfo host port type timeout w =
      let (error, addrs) = getaddrinfo host port type in
      let (w', result) = try_addresses type timeout addrs w in
      if error == 0 then (w', result, 0) else (w, none, error)

  -- `socket_network_client`
  unfoldable pub socket_network_client :
      (Bytes → ℕ → ℕ → ℕ × List AddressInfo) → Bytes → ℕ → ℕ → World → World × Option ℕ
  unfolding socket_network_client_timeout
  socket_network_client getaddrinfo host port type w =
      let (w', result, error) = socket_network_client_timeout getaddrinfo host port type 0 w in
      (w', result)
