-- ===== src/Cmsg/Passing.antt =====
-- libsrc/libcpputils/cmsg.cpp: descriptors that are sent are received.
use cpp_temp_learn.Prelude.{ℕ, ◌*◌, ◌%◌, List, none, some, map, length, size_mod}
use cpp_temp_learn.Cmsg.{cmsg_len, sol_socket, scm_rights, Control, Received}

-- The control message of some descriptors.
abbrev pub rights : List ℕ → Control
rights fds = record {
  level = sol_socket;
  kind = scm_rights;
  len = cmsg_len ((4 * length fds) % size_mod);
  ints = fds;
}

-- What `hand_over` gives the caller.
abbrev pub given : ℕ → List ℕ → List ℕ → Received
given rc closed fds = record { result = some rc; errno = none; fds = map some fds; closed = closed }
