-- ===== src/Uevent/Opening.antt =====
-- libsrc/libcutils/uevent.cpp: what `uevent_open_socket` leaves open.
use cpp_temp_learn.Prelude.{
  if-both, ℕ, ◌*◌, Bool, List, Option, none, some, refl, ltb, if◌then◌else◌,
}
use cpp_temp_learn.Sockets.{
  kernel_events, bind, set_option, get_option, CallReply, done, failed, SocketCalls, or_close,
}
use cpp_temp_learn.Sockets.Ledger.{
  Balanced, Holds, Kept→Balanced, keeps, or_close-Kept, socket-Balanced,
}
use cpp_temp_learn.Uevent.{
  receive_buffer, receive_buffer_force, pass_credentials, family_netlink, datagram_cloexec,
  kobject_uevent, bind_events, judge_force, judge_size, read_back, configure_events,
  uevent_open_socket,
}

module _ {World : Type 0} (os : SocketCalls World) (base : List ℕ) where
  open os use {opened, socket, close, invoke, close_closes}

  bind_events-Balanced :
      (s : ℕ) (passcred : Bool) (w : World)
      → Holds os base s w
      → Balanced os base (bind_events os s passcred w)
  unfolding bind_events
  bind_events-Balanced s passcred w h =
      let c = set_option s pass_credentials (if passcred then 1 else 0) in
      let w' = (invoke w c).0 in
      Kept→Balanced os base s _ (or_close os s (bind s kernel_events) w').1
        (or_close-Kept os base s (bind s kernel_events) w' (keeps os base s w c h))

  judge_force-Balanced :
      (s : ℕ) (passcred : Bool) (w : World) (r : CallReply)
      → Holds os base s w
      → Balanced os base (judge_force os s passcred w r)
  unfolding judge_force
  judge_force-Balanced s passcred w (failed e) h = close_closes w s base h
  judge_force-Balanced s passcred w (done n) h = bind_events-Balanced s passcred w h

  judge_size-Balanced :
      (s buf_sz : ℕ) (passcred : Bool) (w : World) (r : CallReply)
      → Holds os base s w
      → Balanced os base (judge_size os s buf_sz passcred w r)
  unfolding judge_size
  judge_size-Balanced s buf_sz passcred w (failed e) h = close_closes w s base h
  judge_size-Balanced s buf_sz passcred w (done readback) h =
      let c = set_option s receive_buffer_force buf_sz in
      if-both (Balanced os base) (ltb readback (2 * buf_sz)) _ _
        (judge_force-Balanced s passcred _ (invoke w c).1 (keeps os base s w c h))
        (bind_events-Balanced s passcred w h)

  read_back-Balanced :
      (s buf_sz : ℕ) (passcred : Bool) (w : World) (r : CallReply)
      → Holds os base s w
      → Balanced os base (read_back os s buf_sz passcred w r)
  unfolding read_back
  read_back-Balanced s buf_sz passcred w (failed e) h = close_closes w s base h
  read_back-Balanced s buf_sz passcred w (done n) h =
      let c = get_option s receive_buffer in
      judge_size-Balanced s buf_sz passcred _ (invoke w c).1 (keeps os base s w c h)

  configure_events-Balanced :
      (buf_sz : ℕ) (passcred : Bool) (w : World) (r : Option ℕ)
      → Balanced os base (w, r)
      → Balanced os base (configure_events os buf_sz passcred w r)
  unfolding configure_events
  configure_events-Balanced buf_sz passcred w none h = h
  configure_events-Balanced buf_sz passcred w (some s) h =
      let c = set_option s receive_buffer buf_sz in
      read_back-Balanced s buf_sz passcred _ (invoke w c).1 (keeps os base s w c h)

-- However `uevent_open_socket` ends, the socket that it opened is closed again, or it is what it
-- returns.
pub uevent_open_socket-Balanced :
    {World : Type 0}
    → (os : SocketCalls World) (buf_sz : ℕ) (passcred : Bool) (w : World)
    → Balanced os (os.opened w) (uevent_open_socket os buf_sz passcred w)
unfolding uevent_open_socket
uevent_open_socket-Balanced os buf_sz passcred w =
    configure_events-Balanced os (os.opened w) buf_sz passcred _
      (os.socket w family_netlink datagram_cloexec kobject_uevent).1
      (socket-Balanced os (os.opened w) family_netlink datagram_cloexec kobject_uevent w refl)
