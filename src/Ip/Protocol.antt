-- ===== src/Ip/Protocol.antt =====
-- source/sio/ip/tcp.hpp and source/sio/ip/udp.hpp. The constants of the system's headers are
-- constructors here.
use senders_io.Prelude.{Bool, true, false, not}

pub data Family : Type 0 where
  af_unspec : Family
  af_inet : Family
  af_inet6 : Family

pub data SockType : Type 0 where
  any_type : SockType
  sock_stream : SockType
  sock_dgram : SockType

pub data ProtocolNumber : Type 0 where
  any_protocol : ProtocolNumber
  ipproto_tcp : ProtocolNumber
  ipproto_udp : ProtocolNumber

abbrev pub same_family : Family → Family → Bool
same_family af_unspec af_unspec = true
same_family af_inet af_inet = true
same_family af_inet6 af_inet6 = true
same_family f g = false

pub record Tcp : Type 0 where
  pub family_ : Family

pub record Udp : Type 0 where
  pub family_ : Family

abbrev pub tcp_v4 : Tcp
tcp_v4 = record { family_ = af_inet }

abbrev pub tcp_v6 : Tcp
tcp_v6 = record { family_ = af_inet6 }

abbrev pub udp_v4 : Udp
udp_v4 = record { family_ = af_inet }

abbrev pub udp_v6 : Udp
udp_v6 = record { family_ = af_inet6 }

unfoldable pub tcp_eq : Tcp → Tcp → Bool
tcp_eq p1 p2 = same_family p1.family_ p2.family_

unfoldable pub tcp_ne : Tcp → Tcp → Bool
tcp_ne p1 p2 = not (same_family p1.family_ p2.family_)

unfoldable pub udp_eq : Udp → Udp → Bool
udp_eq p1 p2 = same_family p1.family_ p2.family_

unfoldable pub udp_ne : Udp → Udp → Bool
udp_ne p1 p2 = not (same_family p1.family_ p2.family_)

-- the concept internet_protocol: family(), type() and protocol()
pub record InternetProtocol : Type 0 where
  pub family : Family
  pub type : SockType
  pub protocol : ProtocolNumber

abbrev pub of_tcp : Tcp → InternetProtocol
of_tcp p = record { family = p.family_; type = sock_stream; protocol = ipproto_tcp }

abbrev pub of_udp : Udp → InternetProtocol
of_udp p = record { family = p.family_; type = sock_dgram; protocol = ipproto_udp }
