-- ===== src/Socks/Const.antt =====
-- internal/socks5/const.go.
use session_proxy.Prelude.Bytes.{Byte}

abbrev pub version : Byte
version = 0x05

abbrev pub method_no_auth : Byte
method_no_auth = 0x00

abbrev pub method_user_pass : Byte
method_user_pass = 0x02

abbrev pub method_no_acceptable : Byte
method_no_acceptable = 0xff

abbrev pub cmd_connect : Byte
cmd_connect = 0x01

abbrev pub atyp_ipv4 : Byte
atyp_ipv4 = 0x01

abbrev pub atyp_domain : Byte
atyp_domain = 0x03

abbrev pub atyp_ipv6 : Byte
atyp_ipv6 = 0x04

abbrev pub rep_success : Byte
rep_success = 0x00

abbrev pub rep_general_failure : Byte
rep_general_failure = 0x01

abbrev pub rep_network_unreachable : Byte
rep_network_unreachable = 0x03

abbrev pub rep_host_unreachable : Byte
rep_host_unreachable = 0x04

abbrev pub rep_connection_refused : Byte
rep_connection_refused = 0x05

abbrev pub rep_ttl_expired : Byte
rep_ttl_expired = 0x06

abbrev pub rep_command_not_supported : Byte
rep_command_not_supported = 0x07

abbrev pub rep_address_not_supported : Byte
rep_address_not_supported = 0x08
