-- ===== src/Ip/Resolve.antt =====
-- source/sio/ip/resolve.hpp: a query, and the results of getaddrinfo_a as a sequence of endpoints. The
-- values of the flags are those of netdb.h. The results come as the list of addrinfo that ai_next
-- links, and a receiver answers each item in one of three ways.
pub mod Walk
pub mod Port
pub mod Tests
use senders_io.Prelude.{
  ℕ, ◌+◌, ◌-◌, ◌^◌, Option, none, some, List, [], ◌∷◌, ◌++◌, ◌==◌, if◌then◌else◌, ◌>>=◌,
}
use Prim.Native.Nat.{bit_and, bit_or, bit_xor}
use senders_io.Ip.Protocol.{
  Family, af_unspec, af_inet, SockType, any_type, ProtocolNumber, any_protocol, InternetProtocol,
}
use senders_io.Ip.V4.{AddressV4}
use senders_io.Ip.V6.{address_v6}
use senders_io.Ip.Address.{v4, v6}
use senders_io.Ip.Endpoint.{Endpoint, from_address}

-- resolver_flags, and its operators on unsigned int
abbrev pub passive : ℕ
passive = 0x0001

abbrev pub address_configured : ℕ
address_configured = 0x0020

unfoldable pub flags_or : ℕ → ℕ → ℕ
flags_or lhs rhs = bit_or lhs rhs

unfoldable pub flags_and : ℕ → ℕ → ℕ
flags_and lhs rhs = bit_and lhs rhs

unfoldable pub flags_xor : ℕ → ℕ → ℕ
flags_xor lhs rhs = bit_xor lhs rhs

unfoldable pub flags_not : ℕ → ℕ
flags_not flags = 2 ^ 32 - 1 - flags

-- the fields of addrinfo that a query sets
pub record Hints : Type 0 where
  pub ai_family : Family
  pub ai_socktype : SockType
  pub ai_protocol : ProtocolNumber
  pub ai_flags : ℕ

-- The names are lists of bytes.
pub record ResolverQuery : Type 0 where
  pub hints : Hints
  pub host_name : List ℕ
  pub service_name : List ℕ

-- the constructors with a host name, without and with a protocol; the default of the flags is
-- address_configured
unfoldable pub query_host : List ℕ → List ℕ → ℕ → ResolverQuery
query_host host service flags = record {
  hints = record {
    ai_family = af_unspec;
    ai_socktype = any_type;
    ai_protocol = any_protocol;
    ai_flags = flags;
  };
  host_name = host;
  service_name = service;
}

unfoldable pub query_protocol_host : InternetProtocol → List ℕ → List ℕ → ℕ → ResolverQuery
query_protocol_host p host service flags = record {
  hints = record {
    ai_family = p.family;
    ai_socktype = p.type;
    ai_protocol = p.protocol;
    ai_flags = flags;
  };
  host_name = host;
  service_name = service;
}

-- the constructors without a host name; the default of the flags is passive | address_configured
unfoldable pub query_service : List ℕ → ℕ → ResolverQuery
unfolding query_host
query_service service flags = query_host [] service flags

unfoldable pub query_protocol_service : InternetProtocol → List ℕ → ℕ → ResolverQuery
unfolding query_protocol_host
query_protocol_service p service flags = query_protocol_host p [] service flags

-- the socket address of an addrinfo, its port in network byte order
pub data SockAddr : Type 0 where
  inet : ℕ → AddressV4 → SockAddr
  inet6 : ℕ → List ℕ → SockAddr
  other : SockAddr

pub record AddrInfo : Type 0 where
  pub ai_addr : SockAddr
  pub ai_addrlen : ℕ

pub record ResolverResult : Type 0 where
  pub host_name : List ℕ
  pub service_name : List ℕ
  pub endpoint : Endpoint

-- the constructor of resolver_result, where `none` is a failed assertion
unfoldable pub make_result : AddrInfo → List ℕ → List ℕ → Option ResolverResult
make_result info host service = elim info.ai_addr [
  | inet sin_port sin_addr ↦ some (record {
    host_name = host;
    service_name = service;
    endpoint = from_address (v4 sin_addr) sin_port;
  })
  | inet6 sin6_port sin6_addr ↦
      if info.ai_addrlen == 28
      then some (record {
        host_name = host;
        service_name = service;
        endpoint = from_address (v6 (address_v6 sin6_addr 0)) sin6_port;
      })
      else none
  | other ↦ none
]

-- What the receiver was told: set_value, set_stopped, an error code or an exception, or exec's
-- set_value_unless_stopped.
pub data Completion : Type 0 where
  set_value : Completion
  set_stopped : Completion
  set_error_code : ℕ → Completion
  set_exception : Completion
  value_unless_stopped : Completion

-- how the receiver of an item answers, where `throws` is an exception of set_next or connect
pub data Answer : Type 0 where
  goes_on : Answer
  stops : Answer
  throws : Answer

-- The items that were passed to set_next, how often the results were freed, and the completions.
pub record Operation : Type 0 where
  pub query : ResolverQuery
  pub items : List ResolverResult
  pub frees : ℕ
  pub completions : List Completion

abbrev pub complete : Operation → Completion → Operation
complete o c = record o { completions = c ∷ o.completions }

-- freeaddrinfo
abbrev pub free : Operation → Operation
free o = record o { frees = o.frees + 1 }

abbrev pub pass : Operation → ResolverResult → Operation
pass o r = record o { items = o.items ++ (r ∷ []) }

-- start_next at a result, and next_receiver::set_value and set_stopped after its item
unfoldable pub start_next :
    (ResolverResult → Answer) → AddrInfo → List AddrInfo → Operation → Option Operation
unfolding make_result
start_next answer info [] o = do
  r ← make_result info o.query.host_name o.query.service_name
  elim (answer r) [
    | goes_on ↦ some (complete (free (pass o r)) set_value)
    | stops ↦ some (complete (free (pass o r)) value_unless_stopped)
    | throws ↦ some (complete o set_exception)
  ]
start_next answer info (ai_next ∷ rest) o = do
  r ← make_result info o.query.host_name o.query.service_name
  let next = start_next answer ai_next rest (pass o r)
  elim (answer r) [
    | goes_on ↦ next
    | stops ↦ some (complete (free (pass o r)) value_unless_stopped)
    | throws ↦ some (complete o set_exception)
  ]

-- what gai_error says
pub data GaiError : Type 0 where
  success : GaiError
  eai_canceled : GaiError
  eai_inprogress : GaiError
  failure : ℕ → GaiError

unfoldable pub notify :
    (ResolverResult → Answer) → GaiError → List AddrInfo → Operation → Option Operation
unfolding start_next
notify answer success [] o = some (complete o set_value)
notify answer success (x ∷ xs) o = start_next answer x xs o
notify answer eai_canceled results o = some (complete o set_stopped)
notify answer eai_inprogress results o = some o
notify answer (failure rc) results o = some (complete o (set_error_code rc))
