-- ===== src/PoolUri/Examples.antt =====
-- protocol/PoolURI.cpp on the text of an endpoint.
use gen2_energiminer.Common.{◌≡◌, refl, true, codes, arith}
use gen2_energiminer.PoolUri.Parse.{
  url_decode, decode_loop, span, any, scan_hex, hex_digits, skip_spaces, read_sign,
}
use gen2_energiminer.PoolUri.Reads.{IsPort}
use gen2_energiminer.PoolUri.Endpoint.{new_uri-written}
use gen2_energiminer.PoolUri.Constructor.{
  new_uri, blank, after_slashes, has_userpass, read_user, read_host, read_port, after_port,
  read_path, read_query, read_fragment, scan_port, decimal_digits,
}

new_uri_runs :
    new_uri 0 (codes "Stratum://wal%2elet.rig:x@pool.example:3033/p?q=1#f")
    ≡ record (blank (codes "Stratum://wal%2elet.rig:x@pool.example:3033/p?q=1#f")) {
      scheme = codes "stratum";
      username = codes "wal.let.rig";
      password = codes "x";
      host = codes "pool.example";
      port = 3033;
      path = codes "/p";
      query = codes "q=1";
      fragment = codes "f";
      valid = true;
    }
unfolding new_uri span any after_slashes has_userpass read_user read_host read_port after_port
    read_path read_query read_fragment scan_port decimal_digits url_decode decode_loop scan_hex
    hex_digits skip_spaces read_sign
new_uri_runs = refl

digits-IsPort : IsPort (codes "3033")
digits-IsPort = record {
  digits = (refl, (refl, (refl, (refl, tt))));
  some_digit = omega arith;
  small = omega arith;
}

new_uri-written_example :
    new_uri 5 (codes "stratum://rig:x@ab:3033") ≡ record (blank (codes "stratum://rig:x@ab:3033")) {
      scheme = codes "stratum";
      username = codes "rig";
      password = codes "x";
      host = codes "ab";
      port = 3033;
      valid = true;
    }
new_uri-written_example =
    new_uri-written 5 (codes "stratum") (codes "rig") (codes "x") (codes "ab") (codes "3033")
      (refl, (refl, (refl, (refl, (refl, (refl, (refl, tt))))))) (refl, (refl, (refl, tt)))
      (refl, tt) (refl, (refl, tt)) digits-IsPort
