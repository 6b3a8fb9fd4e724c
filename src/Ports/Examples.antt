-- ===== src/Ports/Examples.antt =====
-- Some port mappings, and the theorems at them.
use susun.Prelude.{◌≡◌, ◌↔◌, refl, some, text}
use susun.Model.{CanonicalPort, range, udp}
use susun.Ports.{
  ok, err, invalid_range, out_of_range, parse_port_entry, parse_short_str, parse_long, parse_u32,
  parse_digits, parse_port_num, parse_published, parse_protocol, split_last, split_protocol,
  splitn_3, parse_parts, short,
}
use susun.Ports.Bounds.{IsValid, parse_port_entry-IsValid}
use susun.Ports.Forms.{long_form, parse_short_str-parse_long}

abbrev local_port : CanonicalPort
local_port = record {
  host_ip = some (text "127.0.0.1");
  published = some (range 8080 8090);
  target = 80;
  protocol = udp;
}

local_port_test : parse_port_entry (short (text "127.0.0.1:8080-8090:80/udp")) ≡ ok local_port
unfolding parse_port_entry parse_short_str parse_parts parse_published parse_port_num parse_u32
    parse_digits split_protocol split_last parse_protocol splitn_3
local_port_test = refl

range_test : parse_port_entry (short (text "90-80:80")) ≡ err (invalid_range 90 80)
unfolding parse_port_entry parse_short_str parse_parts parse_published parse_port_num parse_u32
    parse_digits split_protocol split_last parse_protocol splitn_3
range_test = refl

bound_test : parse_port_entry (short (text "65536")) ≡ err (out_of_range (text "65536"))
unfolding parse_port_entry parse_short_str parse_parts parse_published parse_port_num parse_u32
    parse_digits split_protocol split_last parse_protocol splitn_3
bound_test = refl

parse_port_entry-IsValid_example : IsValid local_port
parse_port_entry-IsValid_example =
    parse_port_entry-IsValid (short (text "127.0.0.1:8080-8090:80/udp")) local_port local_port_test

parse_short_str-parse_long_example :
    (parse_short_str (text "127.0.0.1:8080-8090:80/udp") ≡ ok local_port) ↔ (
      parse_long (long_form (text "127.0.0.1") (text "8080-8090") (text "80") (text "udp"))
      ≡ ok local_port)
parse_short_str-parse_long_example =
    parse_short_str-parse_long (text "127.0.0.1") (text "8080-8090") (text "80") (text "udp") refl
      refl refl local_port
