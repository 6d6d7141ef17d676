-- ===== src/Uevent.antt =====
-- libsrc/libcutils/uevent.cpp: the kernel's events.
--
-- The buffer is its bytes; `recvmsg` is an argument's result. A uid is an option, with none for -1. The
-- size of the receive buffer is not negative, and twice it is an `int`.
pub mod Kernel
pub mod Opening
mod Tests
use cpp_temp_learn.Prelude.{
  ℕ, zero, suc, ◌*◌, Bool, true, false, ◌&&◌, not, List, [], ◌∷◌, Option, none, some, Bytes, length,
  ltb, ◌==◌, if◌then◌else◌,
}
use cpp_temp_learn.Sockets.{
  kernel_events, Call, bind, set_option, get_option, CallReply, done, failed, SocketCalls,
  keep_or_close, or_close,
}
use cpp_temp_learn.Sockets.Local.{zeros}

-- SCM_CREDENTIALS and EIO
abbrev pub scm_credentials : ℕ
scm_credentials = 2

abbrev pub io_error : ℕ
io_error = 5

-- What `recvmsg` gives: the count, the first control message with its type and the uid in it, the
-- fields of the address, and the buffer as it is then.
pub record Message : Type 0 where
  pub count : ℕ
  pub control : Option (ℕ × ℕ)
  pub nl_pid : ℕ
  pub nl_groups : ℕ
  pub bytes : Bytes

-- The results: with none for -1, `errno` where the code sets it, `*uid`, and the buffer.
pub record Uevent : Type 0 where
  pub result : Option ℕ
  pub errno : Option ℕ
  pub uid : Option ℕ
  pub buffer : Bytes

-- The code at `out`.
unfoldable pub reject : Option ℕ → Message → Uevent
unfolding zeros
reject uid m = record {
  result = none;
  errno = some io_error;
  uid = uid;
  buffer = zeros (length m.bytes);
}

-- `uevent_kernel_recv` from the credentials on
unfoldable pub judge_sender : Bool → ℕ → Message → Uevent
unfolding reject
judge_sender require_group uid m =
    if not (m.nl_pid == 0)
    then reject (some uid) m
    else if require_group && m.nl_groups == 0
    then reject (some uid) m
    else record { result = some m.count; errno = none; uid = some uid; buffer = m.bytes }

-- `uevent_kernel_recv` from the control message on
unfoldable pub judge_control : Bool → Message → Option (ℕ × ℕ) → Uevent
unfolding reject judge_sender
judge_control require_group m none = reject none m
judge_control require_group m (some (kind, uid)) =
    if not (kind == scm_credentials) then reject none m else judge_sender require_group uid m

-- `uevent_kernel_recv`, on the buffer and on what `recvmsg` gives, with none for -1
unfoldable pub uevent_kernel_recv : Bytes → Option Message → Bool → Uevent
unfolding judge_control
uevent_kernel_recv buffer none require_group = record {
  result = none;
  errno = none;
  uid = none;
  buffer = buffer;
}
uevent_kernel_recv buffer (some m) require_group =
    if m.count == 0
    then record { result = some 0; errno = none; uid = none; buffer = m.bytes }
    else judge_control require_group m m.control

-- `uevent_kernel_multicast_uid_recv`, and `uevent_kernel_multicast_recv`, which drops the uid
unfoldable pub uevent_kernel_multicast_uid_recv : Bytes → Option Message → Uevent
unfolding uevent_kernel_recv
uevent_kernel_multicast_uid_recv buffer received = uevent_kernel_recv buffer received true

unfoldable pub uevent_kernel_multicast_recv : Bytes → Option Message → Option ℕ × Bytes
unfolding uevent_kernel_multicast_uid_recv
uevent_kernel_multicast_recv buffer received =
    let r = uevent_kernel_multicast_uid_recv buffer received in (r.result, r.buffer)

-- SO_RCVBUF, SO_RCVBUFFORCE and SO_PASSCRED; PF_NETLINK, SOCK_DGRAM | SOCK_CLOEXEC and
-- NETLINK_KOBJECT_UEVENT
abbrev pub receive_buffer : ℕ
receive_buffer = 8

abbrev pub receive_buffer_force : ℕ
receive_buffer_force = 33

abbrev pub pass_credentials : ℕ
pass_credentials = 16

abbrev pub family_netlink : ℕ
family_netlink = 16

abbrev pub datagram_cloexec : ℕ
datagram_cloexec = 0x80002

abbrev pub kobject_uevent : ℕ
kobject_uevent = 15

module _ {World : Type 0} (os : SocketCalls World) where
  open os use {socket, close, invoke}

  -- `uevent_open_socket` from SO_PASSCRED on
  unfoldable pub bind_events : ℕ → Bool → World → World × Option ℕ
  unfolding or_close
  bind_events s passcred w =
      or_close os s (bind s kernel_events)
        (invoke w (set_option s pass_credentials (if passcred then 1 else 0))).0

  -- `uevent_open_socket` behind SO_RCVBUFFORCE
  unfoldable pub judge_force : ℕ → Bool → World → CallReply → World × Option ℕ
  unfolding bind_events
  judge_force s passcred w (failed e) = (close w s, none)
  judge_force s passcred w (done n) = bind_events s passcred w

  -- `uevent_open_socket` behind the size that is read back
  unfoldable pub judge_size : ℕ → ℕ → Bool → World → CallReply → World × Option ℕ
  unfolding bind_events judge_force
  judge_size s buf_sz passcred w (failed e) = (close w s, none)
  judge_size s buf_sz passcred w (done readback) =
      let (w', r) = invoke w (set_option s receive_buffer_force buf_sz) in
      if ltb readback (2 * buf_sz) then judge_force s passcred w' r else bind_events s passcred w

  -- `uevent_open_socket` behind SO_RCVBUF
  unfoldable pub read_back : ℕ → ℕ → Bool → World → CallReply → World × Option ℕ
  unfolding judge_size
  read_back s buf_sz passcred w (failed e) = (close w s, none)
  read_back s buf_sz passcred w (done n) =
      let (w', r) = invoke w (get_option s receive_buffer) in judge_size s buf_sz passcred w' r

  -- `uevent_open_socket` behind `socket`
  unfoldable pub configure_events : ℕ → Bool → World → Option ℕ → World × Option ℕ
  unfolding read_back
  configure_events buf_sz passcred w none = (w, none)
  configure_events buf_sz passcred w (some s) =
      let (w', r) = invoke w (set_option s receive_buffer buf_sz) in
      read_back s buf_sz passcred w' r

  -- `uevent_open_socket`
  unfoldable pub uevent_open_socket : ℕ → Bool → World → World × Option ℕ
  unfolding configure_events
  uevent_open_socket buf_sz passcred w =
      let (w', s) = socket w family_netlink datagram_cloexec kobject_uevent in
      configure_events buf_sz passcred w' s
