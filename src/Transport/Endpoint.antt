-- ===== src/Transport/Endpoint.antt =====
-- src/daemon/transport/ip/IPInterfaceEndpoint.{h,cpp}, udp/UDPInterfaceEndpoint.{h,cpp},
-- InterfaceEndpoint.h and SocketEndpoint.{h,cpp}. Texts are lists of bytes. Asio's addresses with
-- their two conversions, the printing of a port and lexical_cast are parameters.
pub mod RoundTrip
mod Tests
use Prim.Native.Nat.{min}
use p2pnet.Base.{
  ℕ, zero, suc, ◌+◌, ◌-◌, ◌*◌, ◌%◌, ◌^◌, Bool, true, false, List, [], ◌∷◌, ◌++◌, Option, none, some,
  length, take, drop, ltb, ◌==◌, if◌then◌else◌,
}
use p2pnet.Base.Maps.{bytes_beq}
use p2pnet.Crypto.Hash.{Bytes, string_lt}
use p2pnet.Errors.{P2pError, no_such_interface}

-- The end of a call: a result, or one of the exceptions that reach the caller.
pub data Result {ℓ} (A : Type ℓ) : Type ℓ where
  returns : A → Result A
  throws : P2pError → Result A
  bad_address : Result A
  bad_port : Result A

-- ':' and '%'
abbrev pub colon : ℕ
colon = 58

abbrev pub percent : ℕ
percent = 37

-- std::string::npos, and the arithmetic of size_t.
abbrev pub npos : ℕ
npos = 2 ^ 64 - 1

abbrev pub after : ℕ → ℕ
after i = (i + 1) % 2 ^ 64

abbrev pub minus : ℕ → ℕ → ℕ
minus a b = (a + 2 ^ 64 - b) % 2 ^ 64

abbrev pub next : Option ℕ → Option ℕ
next none = none
next (some i) = some (suc i)

abbrev pub later : Option ℕ → Bool → Option ℕ
later none here = if here then some 0 else none
later (some i) here = some (suc i)

-- find, rfind and substr of std::string; no position is behind the end here.
abbrev pub find_char : ℕ → Bytes → Option ℕ
find_char c [] = none
find_char c (x ∷ xs) = let rest = find_char c xs in if x == c then some 0 else next rest

abbrev pub rfind_char : ℕ → Bytes → Option ℕ
rfind_char c [] = none
rfind_char c (x ∷ xs) = let rest = rfind_char c xs in later rest (x == c)

abbrev pub position : Option ℕ → ℕ
position none = npos
position (some i) = i

abbrev pub substr : Bytes → ℕ → ℕ → Bytes
substr s pos n = take n (drop pos s)

-- IPInterfaceEndpoint
pub record IpInterfaceEndpoint (Address : Type 0) : Type 0 where
  pub prefix : Bytes
  pub ip : Address
  pub port : ℕ

module _ {Address : Type 0} (to_text : Address → Bytes) (from_text : Bytes → Option Address)
    (print_port : ℕ → Bytes) (lexical_cast : Bytes → Option ℕ) where
  -- toString
  pub to_string : IpInterfaceEndpoint Address → Bytes
  to_string e = e.prefix ++ colon ∷ (to_text e.ip ++ colon ∷ print_port e.port)

  abbrev pub with_address :
      Option Address → IpInterfaceEndpoint Address → Result (IpInterfaceEndpoint Address)
  with_address none e = bad_address
  with_address (some ip) e = returns (record e { ip = ip })

  -- setIPString: the zone behind '%' is cut off.
  unfoldable pub set_ip_string :
      Bytes → IpInterfaceEndpoint Address → Result (IpInterfaceEndpoint Address)
  set_ip_string ip e = with_address (from_text (substr ip 0 (position (find_char percent ip)))) e

  -- The port is set before the address is read.
  abbrev pub with_port :
      Option ℕ → Bytes → IpInterfaceEndpoint Address → Result (IpInterfaceEndpoint Address)
  with_port none ip e = bad_port
  with_port (some port) ip e = set_ip_string ip (record e { port = port })

  -- fromString; the prefix in the text is not read.
  unfoldable pub from_string :
      Bytes → IpInterfaceEndpoint Address → Result (IpInterfaceEndpoint Address)
  from_string text e =
      let prefix_delim = position (find_char colon text) in
      let port_delim = position (rfind_char colon text) in
      with_port (lexical_cast (substr text (after port_delim) (minus (length text) port_delim)))
        (substr text (after prefix_delim) (minus (minus port_delim prefix_delim) 1)) e

  -- SocketEndpoint: the parent's interfaces are given by their prefixes, with the empty endpoint
  -- that createEndpoint of each makes.
  abbrev pub create_endpoint :
      Bytes → List (Bytes × IpInterfaceEndpoint Address) → Option (IpInterfaceEndpoint Address)
  create_endpoint name [] = none
  create_endpoint name ((prefix, e) ∷ rest) =
      if bytes_beq prefix name then some e else create_endpoint name rest

  -- resetEndpoint, then the endpoint's own fromString.
  abbrev pub from_string_with :
      Option (IpInterfaceEndpoint Address) → Bytes → Result (IpInterfaceEndpoint Address)
  from_string_with none text = throws no_such_interface
  from_string_with (some e) text = from_string text e

  -- SocketEndpoint::fromString
  unfoldable pub socket_from_string :
      List (Bytes × IpInterfaceEndpoint Address) → Bytes → Result (IpInterfaceEndpoint Address)
  socket_from_string interfaces text =
      from_string_with
        (create_endpoint (substr text 0 (position (find_char colon text))) interfaces) text

  -- operator== of SocketEndpoint: endpoints are cloned, so two different objects never share one.
  pub equals : (a b : Option (IpInterfaceEndpoint Address)) → Bool
  equals none none = true
  equals none (some b) = false
  equals (some a) none = false
  equals (some a) (some b) = bytes_beq (to_string a) (to_string b)

  -- operator<
  pub less : (a b : Option (IpInterfaceEndpoint Address)) → Bool
  less none b = false
  less (some a) none = false
  less (some a) (some b) = string_lt (to_string a) (to_string b)
