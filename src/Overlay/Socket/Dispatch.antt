-- ===== src/Overlay/Socket/Dispatch.antt =====
-- Which messages the overlay socket passes on to a connection, and what it keeps of a new one.
use p2pnet.Base.{
  ℕ, ◌+◌, ◌≡◌, ◌≢◌, refl, sym, Bool, false, List, [], ◌∷◌, ◌++◌, Option, none, some, ◌==◌,
  if◌then◌else◌, arith, Bool-cases, inl, inr,
}
use p2pnet.Base.Maps.{bytes_eq, bytes_beq, bytes_beq_iff, find}
use p2pnet.Crypto.Hash.{Bytes}
use p2pnet.Overlay.Message.{Payload, OverlayMessage}
use p2pnet.Overlay.Connection.{Connection, new_connection, closed}
use p2pnet.Overlay.Connection
use p2pnet.Overlay.KeyProvider.{KeyInfo, get_key_info}
use p2pnet.Overlay.Socket.{
  Socket, done, undefined, register_processor, equal_range, get_processors, process, process_self,
  same_th, read_destination, connect,
}

equal_range-append :
    (t t' processor : ℕ) (ps : List (ℕ × ℕ))
    → equal_range t (ps ++ (t', processor) ∷ [])
      ≡ (if t' == t then equal_range t ps ++ processor ∷ [] else equal_range t ps)
unfolding equal_range
equal_range-append t t' processor [] = ground arith
equal_range-append t t' processor ((x, p) ∷ ps) =
    ground (arith, equal_range-append t t' processor ps)

-- The processors of a payload type are those that were registered for it, in that order: one more
-- registration comes at the end of its own type's, and changes no other type's.
pub get_processors-register :
    (t t' processor : ℕ) (s : Socket)
    → get_processors t (register_processor t' processor s)
      ≡ (if t' == t then get_processors t s ++ processor ∷ [] else get_processors t s)
unfolding get_processors register_processor
get_processors-register t t' processor s = equal_range-append t t' processor s.processors

bytes_beq_ne : (a b : Bytes) → a ≢ b → bytes_beq a b ≡ false
bytes_beq_ne a b ne = elim (Bool-cases (bytes_beq a b)) [
  | inl e ↦ absurd (ne ((bytes_beq_iff a b).0 e))
  | inr e ↦ e
]

module _ (mandatory : ℕ → Bool) (parse_payloads : Bytes → List Payload) (decrypt : Bytes → Bytes)
    (parse : Bytes → Option OverlayMessage) where
  -- A message that comes from a peer with another TH than the own one is dropped, whatever
  -- destination it has, the own TH included: no connection sees it and the socket does not change.
  pub foreign_dropped :
      (origin : ℕ) (text : Bytes) (message : OverlayMessage) (own : KeyInfo) (s : Socket)
      → parse text ≡ some message
      → get_key_info 0 s.key_provider ≡ some own
      → own.th ≢ []
      → message.header.src_th ≢ own.th
      → process mandatory parse_payloads decrypt parse origin text s ≡ done s []
  unfolding process
  foreign_dropped origin text message own s parsed key set foreign =
      rw (parsed, key, not_same message.header.dest_th)
    where
      not_same :
          (dest : Option Bytes)
          → same_th (read_destination dest message.header.src_th) own.th ≡ false
      not_same none = bytes_beq_ne [] own.th (λ e. set (sym e))
      not_same (some d) = bytes_beq_ne message.header.src_th own.th foreign

  -- A message that claims to come from the own TH and has a destination goes to processSelf, where
  -- a sender without a connection leads to undefined behaviour.
  pub own_undefined :
      (origin : ℕ) (text dest : Bytes) (message : OverlayMessage) (own : KeyInfo) (s : Socket)
      → parse text ≡ some message
      → get_key_info 0 s.key_provider ≡ some own
      → message.header.src_th ≡ own.th
      → message.header.dest_th ≡ some dest
      → find own.th s.connections ≡ none
      → process mandatory parse_payloads decrypt parse origin text s ≡ undefined
  unfolding process process_self
  own_undefined origin text dest message own s parsed key same addressed missing =
      rw (parsed, key, addressed, same, (bytes_beq_iff own.th own.th).1 refl, missing)

-- Connecting to a TH without a connection calls nothing and sends nothing: it makes a connection
-- that stays closed, and the socket does not keep it.
pub connect_new :
    (alive : ℕ → Bool) (local_th : Bytes) (serialize : List Payload → Bytes)
    (encrypt : Bytes → Bytes) (now timeout : ℕ) (content : Bytes) (ignored callback : ℕ)
    (dest : Bytes) (s : Socket)
    → find dest s.connections ≡ none
    → connect alive local_th serialize encrypt now timeout content ignored callback dest s ≡ (
      s,
      record (new_connection dest) {
        connect_callbacks = (callback, now + timeout) ∷ [];
        callback_timer = some (callback, now + timeout);
      },
      [],
    )
unfolding connect Connection.connect new_connection
connect_new alive local_th serialize encrypt now timeout content ignored callback dest s missing =
    rw missing
