-- ===== src/Overlay/Socket/Tests.antt =====
-- A socket whose own TH is one byte, and a message from another peer.
use p2pnet.Base.{ℕ, ◌≡◌, refl, false, [], ◌∷◌, Option, some, ap, arith}
use p2pnet.Crypto.Hash.{Bytes}
use p2pnet.Overlay.Message.{OverlayMessage}
use p2pnet.Overlay.KeyProvider.{KeyInfo, initialized, get_key_info}
use p2pnet.Overlay.Socket.{Socket, done, process}
use p2pnet.Overlay.Socket.Dispatch.{foreign_dropped}

abbrev own : KeyInfo
own = record {
  private_key = 8 ∷ [];
  public_key = 8 ∷ [];
  th = 8 ∷ [];
  expiration_time = 700;
  lose_time = 7000;
}

abbrev socket : Socket
socket = record {
  key_provider = record (initialized 10 600) { history = own ∷ [] };
  connections = [];
  processors = (3, 20) ∷ [];
}

-- The peer 5 sends a message to the own TH.
abbrev foreign : OverlayMessage
foreign = record {
  header = record { src_th = 5 ∷ []; dest_th = some (8 ∷ []) };
  body = record { open_multipayload = []; encrypted_multipayload = [] };
}

abbrev parse_foreign : Bytes → Option OverlayMessage
parse_foreign text = some foreign

abbrev first_byte : Bytes → ℕ
first_byte [] = 0
first_byte (b ∷ bs) = b

foreign_dropped_example :
    process (λ p. false) (λ b. []) (λ b. b) parse_foreign 1 (9 ∷ []) socket ≡ done socket []
unfolding get_key_info
foreign_dropped_example =
    foreign_dropped (λ p. false) (λ b. []) (λ b. b) parse_foreign 1 (9 ∷ []) foreign own socket refl
      refl (λ e. absurd (cc e))
      (λ e. let bytes : 5 ≡ 8 = ap first_byte e in absurd (omega (arith, bytes)))
