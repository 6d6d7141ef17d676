-- ===== src/Sockets.antt =====
-- libsrc/libcutils: sockets.cpp, sockets_unix.cpp, the clients and the servers, with
-- libsrc/libcutils/cutils/sockets.h and libsrc/libcutils/socket_local_unix.h.
--
-- A descriptor is an option, with none for -1, and is never negative otherwise. The calls that give no
-- descriptor are one operation of the system, by the call; a `CallReply` has the result or `errno`.
-- `opened` has the descriptors that are open, the newest one first.
pub mod Local
pub mod Network
pub mod Address
pub mod Ledger
pub mod Servers
mod Tests
use cpp_temp_learn.Prelude.{
  ℕ, ◌+◌, ◌-◌, ◌*◌, ◌/◌, ◌%◌, ◌^◌, Bool, true, false, List, [], ◌∷◌, ◌++◌, Option, none, some, ◌≡◌,
  Bytes, codes, length, leb, ltb, if◌then◌else◌, ◌==◌,
}

-- What a socket is bound or connected to: a `sockaddr_un` with its length, a port of any interface,
-- the kernel's events, or an address that `getaddrinfo` gave.
pub data SocketAddress : Type 0 where
  local_address : Bytes → ℕ → SocketAddress
  any_interface : ℕ → SocketAddress
  kernel_events : SocketAddress
  resolved_address : Bytes → SocketAddress

pub data Call : Type 0 where
  connect bind : ℕ → SocketAddress → Call
  listen : ℕ → ℕ → Call
  unlink : Bytes → Call
  set_option : ℕ → ℕ → ℕ → Call
  get_option : ℕ → ℕ → Call
  set_receive_timeout : ℕ → ℕ → ℕ → Call
  get_flags : ℕ → Call
  set_flags : ℕ → ℕ → Call
  select : ℕ → Option ℕ → Call
  get_socket_name : ℕ → Call
  write_vector : ℕ → List Bytes → Call

pub data CallReply : Type 0 where
  done failed : ℕ → CallReply

-- `socket` takes the family, the type and the protocol.
pub record SocketCalls (World : Type 0) : Type 0 where
  pub opened : World → List ℕ
  pub socket : World → ℕ → ℕ → ℕ → World × Option ℕ
  pub close : World → ℕ → World
  pub invoke : World → Call → World × CallReply
  pub socket_opens :
      (w w' : World) (family type protocol fd : ℕ)
      → socket w family type protocol ≡ (w', some fd)
      → opened w' ≡ fd ∷ opened w
  pub socket_fails :
      (w w' : World) (family type protocol : ℕ)
      → socket w family type protocol ≡ (w', none)
      → opened w' ≡ opened w
  pub close_closes :
      (w : World) (fd : ℕ) (rest : List ℕ) → opened w ≡ fd ∷ rest → opened (close w fd) ≡ rest
  pub invoke_keeps : (w : World) (c : Call) → opened (invoke w c).0 ≡ opened w

-- SO_REUSEADDR, LISTEN_BACKLOG and SOCK_STREAM
abbrev pub reuse_address : ℕ
reuse_address = 2

abbrev pub listen_backlog : ℕ
listen_backlog = 4

abbrev pub sock_stream : ℕ
sock_stream = 1

-- AF_LOCAL and AF_INET6
abbrev pub family_local : ℕ
family_local = 1

abbrev pub family_inet6 : ℕ
family_inet6 = 10

-- SOCKET_SEND_BUFFERS_MAX_BUFFERS
abbrev pub max_buffers : ℕ
max_buffers = 16

module _ {World : Type 0} (os : SocketCalls World) where
  open os use {socket, close, invoke}

  -- `socket_close`
  unfoldable pub socket_close : ℕ → World → World
  socket_close sock w = close w sock

  -- `socket_set_receive_timeout`, on a time that is not negative
  unfoldable pub socket_set_receive_timeout : ℕ → ℕ → World → World × CallReply
  socket_set_receive_timeout sock timeout_ms w =
      invoke w (set_receive_timeout sock (timeout_ms / 1000) ((timeout_ms % 1000) * 1000))

  -- `socket_send_buffers`: none is -1 without a call
  unfoldable pub socket_send_buffers : ℕ → List Bytes → World → World × Option CallReply
  socket_send_buffers sock buffers w =
      let (w', r) = invoke w (write_vector sock buffers) in
      if ltb max_buffers (length buffers) then (w, none) else (w', some r)

  -- `socket_get_local_port`: the reply of `getsockname` has the port as it stands in memory
  unfoldable pub socket_get_local_port : ℕ → World → World × Option ℕ
  socket_get_local_port sock w =
      let (w', r) = invoke w (get_socket_name sock) in
      elim r [ done p ↦ (w', some ((p % 256) * 256 + p / 256 % 256)) | failed e ↦ (w', none) ]

  -- The socket, or -1 with the socket closed where the call on it failed.
  unfoldable pub keep_or_close : ℕ → World → CallReply → World × Option ℕ
  keep_or_close s w (done n) = (w, some s)
  keep_or_close s w (failed e) = (close w s, none)

  unfoldable pub or_close : ℕ → Call → World → World × Option ℕ
  unfolding keep_or_close
  or_close s c w = let (w', r) = invoke w c in keep_or_close s w' r

  -- `socket_inaddr_any_server` behind `bind`
  unfoldable pub listen_any : ℕ → ℕ → World → Option ℕ → World × Option ℕ
  unfolding or_close
  listen_any s type w none = (w, none)
  listen_any s type w (some s') =
      if type == sock_stream then or_close s (listen s listen_backlog) w else (w, some s)

  -- `socket_inaddr_any_server` behind `socket`
  unfoldable pub bind_any : ℕ → ℕ → World → Option ℕ → World × Option ℕ
  unfolding or_close listen_any
  bind_any port type w none = (w, none)
  bind_any port type w (some s) =
      let w1 = (invoke w (set_option s reuse_address 1)).0 in
      let (w2, bound) = or_close s (bind s (any_interface (port % 2 ^ 16))) w1 in
      listen_any s type w2 bound

  -- `socket_inaddr_any_server`
  unfoldable pub socket_inaddr_any_server : ℕ → ℕ → World → World × Option ℕ
  unfolding bind_any
  socket_inaddr_any_server port type w =
      let (w', s) = socket w family_inet6 type 0 in bind_any port type w' s
