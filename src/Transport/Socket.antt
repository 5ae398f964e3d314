-- ===== src/Transport/Socket.antt =====
-- src/daemon/transport/Socket.{h,cpp} and Interface.h: the interfaces. The connection table stands with the
-- UDP transport, whose UDPInterface is the only interface there is; its calls go there.
use p2pnet.Base.{Bool, true, false, List, [], ◌∷◌, ◌++◌, Option, none, some, ℕ, codes}
use p2pnet.Base.Maps.{find, insert, bytes_eq}
use p2pnet.Crypto.Hash.{Bytes}
use p2pnet.Transport.Udp
use p2pnet.Transport.Udp.{Udp, Action, new_object}

-- The map `interfaces`: a pointer under each prefix, which is null (false) or the UDP interface (true).
-- `receiving` says that the interface waits for a datagram.
pub record Socket : Type 0 where
  pub interfaces : List (Bytes × Bool)
  pub udp : Udp
  pub receiving : Bool

-- A call ends, a null pointer is called, or an empty std::function is, or the UDP interface's call is
-- undefined.
pub data Outcome : Type 0 where
  done : Socket → List Action → Outcome
  null_dereferenced : Outcome
  bad_function_call : Outcome
  undefined : Outcome

abbrev pub then_do : (Socket → Outcome) → Outcome → Outcome
then_do next null_dereferenced = null_dereferenced
then_do next bad_function_call = bad_function_call
then_do next undefined = undefined
then_do next (done s did) = more did (next s)
  where
    more : List Action → Outcome → Outcome
    more did null_dereferenced = null_dereferenced
    more did bad_function_call = bad_function_call
    more did undefined = undefined
    more did (done s did') = done s (did ++ did')

-- UDPInterface::getPrefix
abbrev pub udp_prefix : Bytes
udp_prefix = codes "UDP"

-- Socket::Socket, with the setting of transport.udp.outgoing_only that the interface reads.
unfoldable pub new_socket : Bool → Socket
new_socket outgoing_only = record {
  interfaces = [];
  udp = record {
    objects = [];
    connections = [];
    next_object = 0;
    outgoing_only = outgoing_only;
    disconnect_callback = false;
  };
  receiving = false;
}

-- getInterface: whether the pointer is set.
abbrev pub is_set : Option Bool → Bool
is_set none = false
is_set (some pointer) = pointer

unfoldable pub get_interface : Bytes → Socket → Bool
get_interface prefix s = is_set (find prefix s.interfaces)

-- registerInterface, for the UDP interface.
unfoldable pub register_interface : Socket → Socket
register_interface s = record s { interfaces = insert udp_prefix true s.interfaces }

-- The calls of one method of every interface.
abbrev pub for_each : (Socket → Socket) → List (Bytes × Bool) → Socket → Outcome
for_each call [] s = done s []
for_each call ((prefix, true) ∷ rest) s = for_each call rest (call s)
for_each call ((prefix, false) ∷ rest) s = null_dereferenced

-- setReceiveCallback: UDPInterface starts to receive.
pub set_receive_callback : Socket → Outcome
set_receive_callback s = for_each (λ s'. record s' { receiving = true }) s.interfaces s

-- setDisconnectCallback
pub set_disconnect_callback : Socket → Outcome
set_disconnect_callback s =
    for_each (λ s'. record s' { udp = record s'.udp { disconnect_callback = true } }) s.interfaces s

-- The UDP interface's own end of a call.
abbrev pub of_udp : Socket → Udp.Outcome → Outcome
of_udp s (Udp.done u did) = done (record s { udp = u }) did
of_udp s Udp.bad_function_call = bad_function_call
of_udp s Udp.undefined = undefined

-- connect: interfaces[prefix] makes an entry with a null pointer where there is none, and calls it.
abbrev pub call_connect : Bool → (endpoint : Bytes) → (callback : ℕ) → Socket → Outcome
call_connect false endpoint callback s = null_dereferenced
call_connect true endpoint callback s = of_udp s (Udp.connect endpoint callback s.udp)

unfoldable pub connect : (prefix endpoint : Bytes) → (callback : ℕ) → Socket → Outcome
unfolding get_interface
connect prefix endpoint callback s = call_connect (get_interface prefix s) endpoint callback s
