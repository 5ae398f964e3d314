-- ===== src/Client/Peer/Tests.antt =====
-- A new client against a daemon that has just started.
use p2pnet.Base.{codes, ℕ, ◌<◌, List, [], ◌∷◌, Option, none, some, ◌≡◌, ◌≢◌, refl, inr, arith}
use p2pnet.Base.Maps.{find, nat_eq, bytes_eq}
use mathlib.Core.Option
use p2pnet.Crypto.Hash.{Bytes}
use p2pnet.Crypto.Base58.{decode_from_base58}
use p2pnet.P2p.NodeManager.{NodeManager, empty_manager, create_node, get_bound_node}
use p2pnet.Api.Message.{ApiMessage}
use p2pnet.Api.Session.{State, NodeEntry}
use p2pnet.Api.Session
use p2pnet.Api.Session.Requests.{IsAllocating}
use p2pnet.Client.Session.{new_session}
use p2pnet.Client.Node
use p2pnet.Client.Node.{
  World, Socket, new_node, destroy_node, accept, connect, listen, bind, destroy_socket, and_then,
}
use p2pnet.Client.Node.Answering.{Settles, calls_settle}
use p2pnet.Client.Peer.{serve, serve-Answering}
use p2pnet.Client.Peer.Nodes.{new_node_fresh, destroy-new_node}
use p2pnet.Client.Peer.Binding.{bind-new_node}
use p2pnet.Client.Peer.Waiting.{IsWaiting, never_answered, refused_waits}

abbrev daemon : State
daemon = record { session = Session.new_session; manager = empty_manager }

abbrev start : World State
start = record { session = new_session; daemon = daemon }

-- The parts of Botan: what they give does not matter here.
abbrev same : Bytes → Bytes
same b = b

abbrev number : Bytes → ℕ
number b = 0

abbrev text : ℕ → Bytes
text n = []

abbrev peer : ApiMessage → State → Option (List ApiMessage × State)
peer = serve same same number text 8

abbrev some_node : Node.Node
some_node = record { node_id = 1; bound_private_key = none }

abbrev some_socket : Socket
some_socket = record { parent_node = some_node; remote_sh = []; node_id = 1; socket_id = 1 }

daemon-IsAllocating : IsAllocating Session.new_session
unfolding find
daemon-IsAllocating =
    (tt, inr (omega arith, omega arith, refl, λ i le lt. absurd (omega (arith, le, lt))))

no_call : find 0 (World.session start).awaiting_receive ≡ none
unfolding find
no_call = refl

no_other_call : find 1 (World.session start).awaiting_receive ≡ none
unfolding find
no_other_call = refl

new_node_fresh_example :
    (w' : World State) × (new_node peer start
      ≡ Node.returned (record { node_id = 1; bound_private_key = none }) w')
    × ((i : ℕ) → 0 < i → i < 1 → find i daemon.session.nodes ≢ none)
    × (find 1 daemon.session.nodes ≡ none)
    × (Option.map (λ (e : NodeEntry). e.node) (find 1 w'.daemon.session.nodes)
        ≡ some (create_node (some 8) empty_manager).0)
    × ((j : ℕ) → j ≢ 1 → find j w'.daemon.session.nodes ≡ find j daemon.session.nodes)
    × ((j : ℕ) → find j w'.session.awaiting_receive ≡ find j start.session.awaiting_receive)
new_node_fresh_example =
    new_node_fresh same same number text 8 start no_call daemon-IsAllocating
      (λ e. absurd (omega (arith, e)))

destroy-new_node_example :
    (w'' : World State) × (and_then (λ node w'. destroy_node peer node w') (new_node peer start)
      ≡ Node.returned tt w'')
    × ((j : ℕ) → find j w''.daemon.session.nodes ≡ find j daemon.session.nodes)
    × (w''.daemon.session.next_node_id ≡ 1)
    × ((j : ℕ) → find j w''.session.awaiting_receive ≡ find j start.session.awaiting_receive)
destroy-new_node_example =
    destroy-new_node same same number text 8 start no_call daemon-IsAllocating
      (λ e. absurd (omega (arith, e))) no_other_call

calls_settle_example :
    Settles start.session (new_node peer start)
    × Settles start.session (destroy_node peer some_node start)
    × Settles start.session (accept peer some_node start)
    × Settles start.session (connect peer some_node (7 ∷ []) start)
    × Settles start.session (listen peer some_node 5 start)
    × Settles start.session (bind peer same number text some_node (7 ∷ []) start)
    × Settles start.session (destroy_socket peer some_socket start)
calls_settle_example =
    calls_settle peer (serve-Answering same same number text 8) start no_call same number text
      some_node some_socket (7 ∷ []) 5

never_answered_example :
    IsWaiting start (accept peer some_node start)
    × IsWaiting start (connect peer some_node (7 ∷ []) start)
    × IsWaiting start (destroy_socket peer some_socket start)
never_answered_example =
    never_answered same same number text 8 start no_call some_node (7 ∷ []) some_socket

no_node : find 1 daemon.session.nodes ≡ none
unfolding find
no_node = refl

refused_waits_example :
    IsWaiting start (destroy_node peer some_node start)
    × IsWaiting start (listen peer some_node 5 start)
    × IsWaiting start (bind peer same number text some_node (7 ∷ []) start)
refused_waits_example =
    refused_waits same same number text 8 start no_call some_node (7 ∷ []) 5 no_node

-- A number as one byte: the base58 text "2" is then the key 1.
abbrev byte : ℕ → Bytes
byte n = n ∷ []

-- The SH of a key, with a byte in front.
abbrev sh_of : Bytes → Bytes
sh_of key = 7 ∷ key

abbrev the_key : Bytes
the_key = same (decode_from_base58 number byte (codes "2"))

sh_free : find (sh_of the_key) (NodeManager.nodes_bound empty_manager) ≡ none
unfolding find
sh_free = refl

bind-new_node_example :
    (w'' : World State) × (and_then
        (λ node w'. bind (serve sh_of same number byte 8) same number byte node (codes "2") w')
        (new_node (serve sh_of same number byte 8) start)
      ≡ Node.returned (record { node_id = 1; bound_private_key = some the_key }) w'')
    × (get_bound_node (sh_of the_key) w''.daemon.manager
        ≡ some (create_node (some 8) empty_manager).0)
    × ((sh : Bytes)
        → sh ≢ sh_of the_key
        → get_bound_node sh w''.daemon.manager ≡ get_bound_node sh empty_manager)
bind-new_node_example =
    bind-new_node sh_of same number byte 8 start no_call no_other_call daemon-IsAllocating
      (λ e. absurd (omega (arith, e))) same (codes "2") sh_free
