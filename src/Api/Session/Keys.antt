-- ===== src/Api/Session/Keys.antt =====
-- A NodeBind request of src/daemon/api/APISession.cpp that succeeds.
use p2pnet.Base.{ℕ, none, some, ◌≡◌, refl}
use p2pnet.Base.Maps.{find, nat_eq}
use p2pnet.Crypto.Hash.{Bytes}
use p2pnet.Crypto.Base58.{decode_from_base58}
use p2pnet.P2p.NodeManager
use p2pnet.P2p.NodeManager.{NodeManager, bind}
use p2pnet.Api.Message.{ApiMessage, or_zero}
use p2pnet.Api.Session.{NodeEntry, State, returned, send, bind_node, bind_key}

module _ (derive_sh : Bytes → Bytes) (key_of_binary : Bytes → Bytes) (decode : Bytes → ℕ)
    (encode : ℕ → Bytes) (request : ApiMessage) where
  bind_key-base58 :
      (text : Bytes)
      → request.bind_binary_private_key ≡ none
      → request.bind_b58_private_key ≡ some text
      → bind_key derive_sh key_of_binary decode encode request
        ≡ some (key_of_binary (decode_from_base58 decode encode text))
  unfolding bind_key
  bind_key-base58 text binary b58 = rw (bind_key, binary, b58) refl

  -- A node that the session has, a base58 key and no binary one, and a binding that the node manager
  -- makes: the request is answered by itself.
  pub bind_node-done :
      (st : State) (entry : NodeEntry) (text : Bytes) (m : NodeManager)
      → find (or_zero request.bind_id) st.session.nodes ≡ some entry
      → request.bind_binary_private_key ≡ none
      → request.bind_b58_private_key ≡ some text
      → bind derive_sh entry.node (key_of_binary (decode_from_base58 decode encode text)) st.manager
        ≡ NodeManager.done m
      → bind_node derive_sh key_of_binary decode encode request st
        ≡ returned (record { session = send request st.session; manager = m })
  unfolding bind_node
  bind_node-done st entry text m found binary b58 bound =
      rw (bind_node, found, bind_key-base58 text binary b58, bound) refl
