-- ===== src/Sockets/Tests.antt =====
-- The theorems on sockets at a system that keeps the open sockets in a list, and refuses to connect.
use cpp_temp_learn.Prelude.{
  ℕ, zero, suc, List, [], ◌∷◌, ◌++◌, some, refl, sym, ap, ◌∙◌, Bytes, codes, length, some_inj,
}
use cpp_temp_learn.Sockets.{
  Call, connect, CallReply, done, failed, SocketCalls, socket_inaddr_any_server,
}
use cpp_temp_learn.Sockets.Local.{socket_local_client, socket_local_server, make_sockaddr_un}
use cpp_temp_learn.Sockets.Network.{AddressInfo, socket_network_client_timeout}
use cpp_temp_learn.Sockets.Address.{Spells, spelling, make_sockaddr_un-Spells}
use cpp_temp_learn.Sockets.Ledger.{Balanced, socket_network_client_timeout-Balanced}
use cpp_temp_learn.Sockets.Servers.{local_client-local_server-any_server-Balanced}

abbrev noughts : ℕ → Bytes
noughts zero = []
noughts (suc n) = 0 ∷ noughts n

abbrev reply : Call → CallReply
reply (connect s a) = failed 111
reply _ = done 0

abbrev tail : List ℕ → List ℕ
tail [] = []
tail (s ∷ w) = w

abbrev sockets : SocketCalls (List ℕ)
sockets = record {
  opened = λ w. w;
  socket = λ w family type protocol. (suc (length w) ∷ w, some (suc (length w)));
  close = λ w s. tail w;
  invoke = λ w c. (w, reply c);
  socket_opens = λ w w' family type protocol fd h.
      sym (ap (λ r. r.0) h) ∙ ap (λ (n : ℕ). n ∷ w) (some_inj (ap (λ r. r.1) h));
  socket_fails = λ w w' family type protocol h. absurd (cc (ap (λ r. r.1) h));
  close_closes = λ w s rest h. ap tail h;
  invoke_keeps = λ w c. refl;
}

abbrev resolve_host : Bytes → ℕ → ℕ → ℕ × List AddressInfo
resolve_host host port type = (
  0,
  (record { family = 10; protocol = 6; address = codes "::1" })
      ∷ (record { family = 2; protocol = 6; address = codes "127.0.0.1" })
      ∷ [],
)

socket_network_client_timeout-Balanced_example : Balanced sockets (9 ∷ []) (
  (socket_network_client_timeout sockets resolve_host (codes "localhost") 80 1 5 (9 ∷ [])).0,
  (socket_network_client_timeout sockets resolve_host (codes "localhost") 80 1 5 (9 ∷ [])).1,
)
socket_network_client_timeout-Balanced_example =
    socket_network_client_timeout-Balanced sockets resolve_host (codes "localhost") 80 1 5 (9 ∷ [])

local_client-local_server-any_server-Balanced_example :
    Balanced sockets [] (socket_local_client sockets (codes "logd") 1 1 [])
    × Balanced sockets [] (socket_local_server sockets (codes "logd") 1 1 [])
    × Balanced sockets [] (socket_inaddr_any_server sockets 8080 1 [])
local_client-local_server-any_server-Balanced_example =
    local_client-local_server-any_server-Balanced sockets (codes "logd") 1 1 8080 []

make_sockaddr_un-Spells_example :
    Spells (spelling (codes "logd") 0) (0 ∷ (codes "logd" ++ noughts 103), 7)
unfolding make_sockaddr_un
make_sockaddr_un-Spells_example =
    make_sockaddr_un-Spells (codes "logd") 0 (0 ∷ (codes "logd" ++ noughts 103), 7) refl
