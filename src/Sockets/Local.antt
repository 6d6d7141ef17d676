-- ===== src/Sockets/Local.antt =====
-- libsrc/libcutils/socket_local_client_unix.cpp and socket_local_server_unix.cpp.
use cpp_temp_learn.Prelude.{
  ℕ, zero, suc, ◌+◌, ◌-◌, ◌%◌, ◌||◌, [], ◌∷◌, ◌++◌, Option, none, some, Bytes, codes, length, ltb,
  ◌==◌, if◌then◌else◌,
}
use cpp_temp_learn.Sockets.{
  local_address, connect, bind, listen, unlink, set_option, SocketCalls, CallReply, done, failed,
  reuse_address, listen_backlog, sock_stream, family_local, or_close,
}

-- UNIX_SOCKET_NAMESPACE_ABSTRACT, RESERVED and FILESYSTEM
abbrev pub abstract_space : ℕ
abstract_space = 0

abbrev pub reserved_space : ℕ
reserved_space = 1

abbrev pub filesystem_space : ℕ
filesystem_space = 2

-- UNIX_RESERVED_SOCKET_PREFIX
abbrev pub reserved_prefix : Bytes
reserved_prefix = codes "/dev/socket/"

-- `sizeof(sun_path)` and `offsetof(struct sockaddr_un, sun_path)`
abbrev pub path_size : ℕ
path_size = 108

abbrev pub path_offset : ℕ
path_offset = 2

-- What `memset` leaves.
unfoldable pub zeros : ℕ → Bytes
zeros zero = []
zeros (suc n) = 0 ∷ zeros n

-- `sun_path` with a text in front, and `*alen`
unfoldable pub sun_address : Bytes → ℕ → Bytes × ℕ
unfolding zeros
sun_address text namelen = (text ++ zeros (path_size - length text), namelen + path_offset + 1)

-- `strcpy` and `strcat` of a name, with the test in front of it, which leaves room for the NUL byte
unfoldable pub copy_name : Bytes → Option (Bytes × ℕ)
unfolding sun_address
copy_name text =
    if ltb (path_size - 1) (length text) then none else some (sun_address text (length text))

-- `socket_make_sockaddr_un` on Linux: `sun_path` and `*alen`
unfoldable pub make_sockaddr_un : Bytes → ℕ → Option (Bytes × ℕ)
unfolding sun_address copy_name
make_sockaddr_un name namespace =
    if namespace == abstract_space
    then if ltb path_size (length name + 1)
      then none
      else some (sun_address (0 ∷ name) (length name))
    else if namespace == reserved_space
    then copy_name (reserved_prefix ++ name)
    else if namespace == filesystem_space
    then copy_name name
    else none

module _ {World : Type 0} (os : SocketCalls World) where
  open os use {socket, close, invoke}

  -- The descriptor where a call was done, and -1 where it failed.
  unfoldable pub if_done : ℕ → World → CallReply → World × Option ℕ
  if_done fd w (done n) = (w, some fd)
  if_done fd w (failed e) = (w, none)

  -- The descriptor where there is a result, and -1 with the descriptor closed where there is none.
  unfoldable pub close_if_none : ℕ → World → Option ℕ → World × Option ℕ
  close_if_none s w none = (close w s, none)
  close_if_none s w (some s') = (w, some s)

  -- `socket_local_client_connect` behind `socket_make_sockaddr_un`
  unfoldable pub connect_address : ℕ → Option (Bytes × ℕ) → World → World × Option ℕ
  unfolding if_done
  connect_address fd none w = (w, none)
  connect_address fd (some (path, alen)) w =
      let (w', r) = invoke w (connect fd (local_address path alen)) in if_done fd w' r

  -- `socket_local_client_connect`
  unfoldable pub socket_local_client_connect : ℕ → Bytes → ℕ → World → World × Option ℕ
  unfolding make_sockaddr_un connect_address
  socket_local_client_connect fd name namespace w =
      connect_address fd (make_sockaddr_un name namespace) w

  -- `socket_local_client` behind `socket`
  unfoldable pub connect_opened : Bytes → ℕ → World → Option ℕ → World × Option ℕ
  unfolding socket_local_client_connect close_if_none
  connect_opened name namespace w none = (w, none)
  connect_opened name namespace w (some s) =
      let (w', r) = socket_local_client_connect s name namespace w in close_if_none s w' r

  -- `socket_local_client`
  unfoldable pub socket_local_client : Bytes → ℕ → ℕ → World → World × Option ℕ
  unfolding connect_opened
  socket_local_client name namespace type w =
      let (w', s) = socket w family_local type 0 in connect_opened name namespace w' s

  -- `socket_local_server_bind` behind `socket_make_sockaddr_un`
  unfoldable pub bind_address : ℕ → ℕ → Option (Bytes × ℕ) → World → World × Option ℕ
  unfolding if_done
  bind_address s namespace none w = (w, none)
  bind_address s namespace (some (path, alen)) w =
      let w1 =
        if namespace == reserved_space || namespace == filesystem_space
        then (invoke w (unlink path)).0
        else w in
      let w2 = (invoke w1 (set_option s reuse_address 1)).0 in
      let (w3, r) = invoke w2 (bind s (local_address path alen)) in if_done s w3 r

  -- `socket_local_server_bind`
  unfoldable pub socket_local_server_bind : ℕ → Bytes → ℕ → World → World × Option ℕ
  unfolding make_sockaddr_un bind_address
  socket_local_server_bind s name namespace w =
      bind_address s namespace (make_sockaddr_un name namespace) w

  -- `socket_local_server` behind `socket_local_server_bind`
  unfoldable pub listen_local : ℕ → ℕ → World → Option ℕ → World × Option ℕ
  unfolding or_close
  listen_local s type w none = (close w s, none)
  listen_local s type w (some s') =
      if type % 16 == sock_stream then or_close os s (listen s listen_backlog) w else (w, some s)

  -- `socket_local_server` behind `socket`
  unfoldable pub serve_opened : Bytes → ℕ → ℕ → World → Option ℕ → World × Option ℕ
  unfolding socket_local_server_bind listen_local
  serve_opened name namespace type w none = (w, none)
  serve_opened name namespace type w (some s) =
      let (w', bound) = socket_local_server_bind s name namespace w in listen_local s type w' bound

  -- `socket_local_server`
  unfoldable pub socket_local_server : Bytes → ℕ → ℕ → World → World × Option ℕ
  unfolding serve_opened
  socket_local_server name namespace type w =
      let (w', s) = socket w family_local type 0 in serve_opened name namespace type w' s
