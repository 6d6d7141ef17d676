-- ===== src/Sockets/Servers.antt =====
-- libsrc/libcutils: what the local client and the servers leave open.
use cpp_temp_learn.Prelude.{
  if-both, ℕ, ◌%◌, ◌^◌, ◌||◌, List, Option, none, some, refl, Bytes, if◌then◌else◌, ◌==◌,
}
use cpp_temp_learn.Sockets.{
  Call, connect, bind, listen, unlink, set_option, CallReply, done, failed, SocketCalls, or_close,
  listen_any, bind_any, socket_inaddr_any_server, reuse_address, listen_backlog, sock_stream,
  family_local, family_inet6, any_interface, local_address,
}
use cpp_temp_learn.Sockets.Local.{
  make_sockaddr_un, if_done, close_if_none, connect_address, socket_local_client_connect,
  connect_opened, socket_local_client, bind_address, socket_local_server_bind, listen_local,
  serve_opened, socket_local_server, reserved_space, filesystem_space,
}
use cpp_temp_learn.Sockets.Ledger.{
  Balanced, Holds, Kept, Kept→Balanced, keeps, or_close-Kept, socket-Balanced,
}

module _ {World : Type 0} (os : SocketCalls World) (base : List ℕ) where
  open os use {opened, socket, close, invoke, close_closes}

  or_close-Balanced :
      (s : ℕ) (c : Call) (w : World) → Holds os base s w → Balanced os base (or_close os s c w)
  or_close-Balanced s c w h =
      Kept→Balanced os base s _ (or_close os s c w).1 (or_close-Kept os base s c w h)

  listen_any-Balanced :
      (s type : ℕ) (w : World) (r : Option ℕ)
      → Kept os base s (w, r)
      → Balanced os base (listen_any os s type w r)
  unfolding listen_any
  listen_any-Balanced s type w none h = h
  listen_any-Balanced s type w (some fd) (e, h) =
      if-both (Balanced os base) (type == sock_stream) _ _
        (or_close-Balanced s (listen s listen_backlog) w h) h

  bind_any-Balanced :
      (port type : ℕ) (w : World) (r : Option ℕ)
      → Balanced os base (w, r)
      → Balanced os base (bind_any os port type w r)
  unfolding bind_any
  bind_any-Balanced port type w none h = h
  bind_any-Balanced port type w (some s) h =
      let w1 = (invoke w (set_option s reuse_address 1)).0 in
      let c = bind s (any_interface (port % 2 ^ 16)) in
      listen_any-Balanced s type _ (or_close os s c w1).1
        (or_close-Kept os base s c w1 (keeps os base s w (set_option s reuse_address 1) h))

  -- Behind the local calls the socket is still open, and it is closed where they gave nothing.
  if_done-Holds :
      (s : ℕ) (w : World) (r : CallReply) → Holds os base s w → Holds os base s (if_done os s w r).0
  unfolding if_done
  if_done-Holds s w (done n) h = h
  if_done-Holds s w (failed e) h = h

  connect_address-Holds :
      (s : ℕ) (a : Option (Bytes × ℕ)) (w : World)
      → Holds os base s w
      → Holds os base s (connect_address os s a w).0
  unfolding connect_address
  connect_address-Holds s none w h = h
  connect_address-Holds s (some (path, alen)) w h =
      let c = connect s (local_address path alen) in
      if_done-Holds s _ (invoke w c).1 (keeps os base s w c h)

  close_if_none-Balanced :
      (s : ℕ) (w : World) (r : Option ℕ)
      → Holds os base s w
      → Balanced os base (close_if_none os s w r)
  unfolding close_if_none
  close_if_none-Balanced s w none h = close_closes w s base h
  close_if_none-Balanced s w (some fd) h = h

  connect_opened-Balanced :
      (name : Bytes) (namespace : ℕ) (w : World) (r : Option ℕ)
      → Balanced os base (w, r)
      → Balanced os base (connect_opened os name namespace w r)
  unfolding connect_opened socket_local_client_connect
  connect_opened-Balanced name namespace w none h = h
  connect_opened-Balanced name namespace w (some s) h =
      let a = make_sockaddr_un name namespace in
      close_if_none-Balanced s _ (connect_address os s a w).1 (connect_address-Holds s a w h)

  bind_address-Holds :
      (s namespace : ℕ) (a : Option (Bytes × ℕ)) (w : World)
      → Holds os base s w
      → Holds os base s (bind_address os s namespace a w).0
  unfolding bind_address
  bind_address-Holds s namespace none w h = h
  bind_address-Holds s namespace (some (path, alen)) w h =
      let c = bind s (local_address path alen) in
      let o = set_option s reuse_address 1 in
      let w1 =
        if namespace == reserved_space || namespace == filesystem_space
        then (invoke w (unlink path)).0
        else w in
      let h1 =
        if-both (Holds os base s) (namespace == reserved_space || namespace == filesystem_space) _ w
          (keeps os base s w (unlink path) h) h in
      if_done-Holds s _ (invoke (invoke w1 o).0 c).1
        (keeps os base s (invoke w1 o).0 c (keeps os base s w1 o h1))

  listen_local-Balanced :
      (s type : ℕ) (w : World) (r : Option ℕ)
      → Holds os base s w
      → Balanced os base (listen_local os s type w r)
  unfolding listen_local
  listen_local-Balanced s type w none h = close_closes w s base h
  listen_local-Balanced s type w (some fd) h =
      if-both (Balanced os base) (type % 16 == sock_stream) _ _
        (or_close-Balanced s (listen s listen_backlog) w h) h

  serve_opened-Balanced :
      (name : Bytes) (namespace type : ℕ) (w : World) (r : Option ℕ)
      → Balanced os base (w, r)
      → Balanced os base (serve_opened os name namespace type w r)
  unfolding serve_opened socket_local_server_bind
  serve_opened-Balanced name namespace type w none h = h
  serve_opened-Balanced name namespace type w (some s) h =
      let a = make_sockaddr_un name namespace in
      listen_local-Balanced s type _ (bind_address os s namespace a w).1
        (bind_address-Holds s namespace a w h)

-- However the local client, the local server and the server of any interface end, the socket that
-- they opened is closed again, or it is what they return.
pub local_client-local_server-any_server-Balanced :
    {World : Type 0}
    → (os : SocketCalls World) (name : Bytes) (namespace type port : ℕ) (w : World)
    → Balanced os (os.opened w) (socket_local_client os name namespace type w)
      × Balanced os (os.opened w) (socket_local_server os name namespace type w)
      × Balanced os (os.opened w) (socket_inaddr_any_server os port type w)
unfolding socket_local_client socket_local_server socket_inaddr_any_server
local_client-local_server-any_server-Balanced os name namespace type port w =
    let base = os.opened w in
    let local = os.socket w family_local type 0 in
    let any = os.socket w family_inet6 type 0 in
    (
      connect_opened-Balanced os base name namespace local.0 local.1
          (socket-Balanced os base family_local type 0 w refl),
      serve_opened-Balanced os base name namespace type local.0 local.1
          (socket-Balanced os base family_local type 0 w refl),
      bind_any-Balanced os base port type any.0 any.1
          (socket-Balanced os base family_inet6 type 0 w refl),
    )
