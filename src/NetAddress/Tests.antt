-- ===== src/NetAddress/Tests.antt =====
-- The theorem on addresses at a host and a port.
use cpp_temp_learn.Prelude.{false, some, true, ◌≡◌, arith, codes}
use cpp_temp_learn.FsObject.{pos}
use cpp_temp_learn.NetAddress.{canonical, parse_net_address}
use cpp_temp_learn.NetAddress.HostPort.{parse_net_address-decimal_value}

parse_net_address-decimal_value_example :
    parse_net_address (codes "host:443") (pos 80)
    ≡ some (record {
      accepted = true;
      host = codes "host";
      port = pos 443;
      text = canonical false (codes "host") (pos 443);
    })
parse_net_address-decimal_value_example =
    parse_net_address-decimal_value b'h' (codes "ost") b'4' (codes "43")
      (λ e. absurd (omega (arith, e))) (ground arith) (ground arith) (ground arith) (pos 80)
      (omega arith) (omega arith)
