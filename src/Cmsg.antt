-- ===== src/Cmsg.antt =====
-- libsrc/libcpputils/cmsg.cpp: descriptors that are sent over a socket.
--
-- The buffer for the control messages is shown by its size. `errno` is part of the result. The texts of
-- LOG(ERROR) are left out; LOG(FATAL) ends the program, which is none.
pub mod Receiving
pub mod Passing
mod Tests
use cpp_temp_learn.Prelude.{
  ℕ, ◌+◌, ◌-◌, ◌*◌, ◌/◌, ◌%◌, ◌^◌, ◌≤◌, Bool, true, false, not, ◌&&◌, ◌||◌, ◌==◌, List, [], ◌∷◌,
  ◌++◌, Option, none, some, ◌≡◌, map, Bytes, length, take, leb, ltb, if◌then◌else◌, size_mod,
}
use cpp_temp_learn.UniqueFd.{construct, destroy}

-- CMSG_ALIGN, CMSG_LEN and CMSG_SPACE of Linux on 64 bits
unfoldable pub cmsg_align : ℕ → ℕ
cmsg_align n = ((n + 7) / 8 * 8) % size_mod

unfoldable pub cmsg_len : ℕ → ℕ
cmsg_len n = (n + 16) % size_mod

unfoldable pub cmsg_space : ℕ → ℕ
unfolding cmsg_align
cmsg_space n = (cmsg_align n + 16) % size_mod

-- SOL_SOCKET, SCM_RIGHTS, ENOMEM, EMSGSIZE and EBADMSG
abbrev pub sol_socket : ℕ
sol_socket = 1

abbrev pub scm_rights : ℕ
scm_rights = 1

abbrev pub no_memory : ℕ
no_memory = 12

abbrev pub message_size : ℕ
message_size = 90

abbrev pub bad_message : ℕ
bad_message = 74

-- A control message, with the integers of its data.
pub record Control : Type 0 where
  pub level : ℕ
  pub kind : ℕ
  pub len : ℕ
  pub ints : List ℕ

-- What `recvmsg` gives: its result, MSG_TRUNC, MSG_CTRUNC and the control messages.
pub record Arrival : Type 0 where
  pub rc : ℕ
  pub truncated : Bool
  pub control_truncated : Bool
  pub controls : List Control

-- What `ReceiveFileDescriptorVector` leaves behind: its result, with none for -1, `errno` where it
-- was set, `*fds`, and the descriptors that were closed, the last one first.
pub record Received : Type 0 where
  pub result : Option ℕ
  pub errno : Option ℕ
  pub fds : List (Option ℕ)
  pub closed : List ℕ

-- Two lists have as many items as each other, in relation one by one.
abbrev pub Pairwise : (ℕ → ℕ → Type 0) → List ℕ → List ℕ → Type 0
Pairwise R [] [] = Unit
Pairwise R [] (y ∷ ys) = ⊥
Pairwise R (x ∷ xs) [] = ⊥
Pairwise R (x ∷ xs) (y ∷ ys) = R x y × Pairwise R xs ys

-- The sockets, with EINTR hidden. Where one that has nothing queued gets a message, with its data and
-- one control message, its peer gets it whole if there is room, with a number of its own for each
-- descriptor in it. `Refers` is that a descriptor of the sender, in a state, and one of the receiver,
-- in a later state, refer to the same open file; `IsFresh` that nothing is queued from a socket to
-- another, and that no limit of the receiver on its descriptors is in the way.
pub record SocketOs (World : Type 0) : Type 1 where
  pub page_size : ℕ
  pub sendmsg : World → ℕ → Bytes → Control → World × Option ℕ
  pub recvmsg : World → ℕ → ℕ → ℕ → World × Option Arrival
  pub Refers : World → ℕ → World → ℕ → Type 0
  pub IsFresh : World → ℕ → ℕ → Type 0
  pub sendmsg_recvmsg :
      (w w' : World) (here there : ℕ) (bytes : Bytes) (c : Control) (n len space : ℕ)
      → IsFresh w here there
      → sendmsg w here bytes c ≡ (w', some n)
      → length bytes ≤ len
      → c.len ≤ space
      → (w'' : World) × (ints : List ℕ) × Pairwise (λ sent got. Refers w sent w'' got) c.ints ints
        × (recvmsg w' there len space ≡ (
          w'',
          some (record {
            rc = n;
            truncated = false;
            control_truncated = false;
            controls = (record c { ints = ints }) ∷ [];
          }),
        ))

-- the destructor of a vector of owners
unfoldable pub destroy_all : List ℕ → List (Option ℕ) → List ℕ
unfolding destroy
destroy_all closed [] = closed
destroy_all closed (fd ∷ fds) = destroy_all (destroy closed fd) fds

-- `emplace_back` of each descriptor
unfoldable pub emplace_all : List ℕ → List ℕ → List (Option ℕ)
unfolding construct
emplace_all closed [] = []
emplace_all closed (fd ∷ fds) = (construct closed (some fd)).1 ∷ emplace_all closed fds

-- The error by the flags of the message.
unfoldable pub flag_error : Arrival → Option ℕ
flag_error a =
    if a.truncated
    then some message_size
    else if a.control_truncated
    then some message_size
    else none

unfoldable pub is_rights : Control → Bool
is_rights c = c.level == sol_socket && c.kind == scm_rights

-- The descriptors of a control message, or none where its length is not one of descriptors.
unfoldable pub control_fds : Control → Option (List ℕ)
unfolding cmsg_len
control_fds c =
    if not (c.len % 4 == 0)
    then none
    else if leb c.len (cmsg_len 0)
    then none
    else some (take ((c.len - cmsg_len 0) / 4) c.ints)

-- The loop over the control messages, on `error` and the descriptors received so far.
unfoldable pub collect_controls : List Control → Option ℕ → List ℕ → Option (Option ℕ × List ℕ)
unfolding is_rights control_fds
collect_controls [] error received = some (error, received)
collect_controls (c ∷ cs) error received = elim (is_rights c) [
  | false ↦ collect_controls cs (some bad_message) received
  | true ↦ elim (control_fds c) [
    | none ↦ none
    | some fds ↦ collect_controls cs error (received ++ fds)
  ]
]

-- The end of `ReceiveFileDescriptorVector`, behind the loop.
unfoldable pub hand_over : ℕ → ℕ → List ℕ → Option ℕ → List ℕ → Received
unfolding emplace_all destroy_all
hand_over rc max_fds closed error received =
    let owners = emplace_all closed received in
    elim error [
      | some e ↦ record {
        result = none;
        errno = some e;
        fds = [];
        closed = destroy_all closed owners;
      }
      | none ↦
          if ltb max_fds (length owners)
          then record {
            result = none;
            errno = some message_size;
            fds = [];
            closed = destroy_all closed owners;
          }
          else record { result = some rc; errno = none; fds = owners; closed = closed }
    ]

-- `ReceiveFileDescriptorVector` behind the call of `recvmsg`
unfoldable pub receive_arrival : ℕ → List ℕ → Option Arrival → Option Received
unfolding flag_error collect_controls hand_over
receive_arrival max_fds closed none =
    some (record { result = none; errno = none; fds = []; closed = closed })
receive_arrival max_fds closed (some a) = elim (collect_controls a.controls (flag_error a) []) [
  | none ↦ none
  | some (error, received) ↦ some (hand_over a.rc max_fds closed error received)
]

module _ {World : Type 0} (os : SocketOs World) where
  open os use {page_size, sendmsg, recvmsg}

  -- `SendFileDescriptorVector`: the result, with none for -1, and `errno` where the code sets it
  unfoldable pub send_file_descriptor_vector :
      ℕ → Bytes → List ℕ → World → World × Option ℕ × Option ℕ
  unfolding cmsg_space cmsg_len
  send_file_descriptor_vector sockfd bytes fds w =
      let size = (4 * length fds) % size_mod in
      let (w', sent) =
        sendmsg w sockfd bytes
          (record { level = sol_socket; kind = scm_rights; len = cmsg_len size; ints = fds }) in
      if leb page_size (cmsg_space size) then (w, none, some no_memory) else (w', sent, none)

  -- `ReceiveFileDescriptorVector`, on the `*fds` that it is called with and what was closed before
  unfoldable pub receive_file_descriptor_vector :
      ℕ → ℕ → ℕ → List (Option ℕ) → List ℕ → World → World × Option Received
  unfolding cmsg_space destroy_all receive_arrival
  receive_file_descriptor_vector sockfd len max_fds fds closed w =
      let cleared = destroy_all closed fds in
      let space = cmsg_space ((4 * max_fds) % size_mod) in
      let (w', arrival) = recvmsg w sockfd len space in
      if leb page_size space
      then (w, some (record { result = none; errno = some no_memory; fds = []; closed = cleared }))
      else (w', receive_arrival max_fds cleared arrival)
