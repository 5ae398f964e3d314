-- ===== src/Api/Frame.antt =====
-- src/common/api/UnixAPISocket.cpp: a message on the Unix socket is its size, four bytes in network
-- order, and its serialisation. The socket's input is the list of bytes that will arrive before it
-- ends; a read of more than that is an error. Protocol Buffers is a parameter.
pub mod RoundTrip
mod Tests
use p2pnet.Base.{
  ℕ, zero, suc, ◌+◌, ◌*◌, ◌/◌, ◌%◌, ◌^◌, Bool, true, false, List, [], ◌∷◌, ◌++◌, Option, none, some,
  length, take, drop, leb, if◌then◌else◌,
}
use p2pnet.Crypto.Hash.{Bytes}
use p2pnet.Api.Message.{ApiMessage, empty_message}

-- sizeof(MESSAGE_SIZE_TYPE), for a uint32_t
abbrev pub message_size_length : ℕ
message_size_length = 4

-- The memory of htonl(n), on any machine.
pub htonl : ℕ → Bytes
htonl n = n / 2 ^ 24 % 256 ∷ n / 2 ^ 16 % 256 ∷ n / 2 ^ 8 % 256 ∷ n % 256 ∷ []

-- ntohl of four bytes of memory.
pub ntohl : Bytes → ℕ
ntohl (a ∷ b ∷ c ∷ d ∷ rest) = a * 2 ^ 24 + b * 2 ^ 16 + c * 2 ^ 8 + d
ntohl _ = 0

-- generateSendString: the size is cut to 32 bits.
pub generate_send_string : Bytes → Bytes
generate_send_string from =
    let native_size = length from % 2 ^ 32 in let charlen_s = htonl native_size in charlen_s ++ from

-- boost::asio::read of exactly n bytes: what was read, and the input that is left.
pub read : ℕ → Bytes → Option (Bytes × Bytes)
read n input = if leb n (length input) then some (take n input, drop n input) else none

-- What the receive handler is called with: a message or an error, and the input that is left.
pub data Received : Type 0 where
  received : ApiMessage → Bytes → Received
  failed : ApiMessage → Received

module _ (serialize : ApiMessage → Bytes) where
  -- The bytes that UnixAPISocket::send and asyncSend write.
  pub send : ApiMessage → Bytes
  unfolding generate_send_string
  send message = generate_send_string (serialize message)

  -- Several messages written one behind the other.
  pub send_all : List ApiMessage → Bytes
  send_all [] = []
  send_all (m ∷ ms) = send m ++ send_all ms

module _ (parse : Bytes → ApiMessage) where
  -- UnixAPISocket::receive
  pub receive : Bytes → Received
  receive input = elim (read message_size_length input) [
    | none ↦ failed empty_message
    | some (char_message_size, input') ↦ elim (read (ntohl char_message_size) input') [
      | none ↦ failed empty_message
      | some (buffer, input'') ↦ received (parse buffer) input''
    ]
  ]

  -- handleReceive, called with the result of the second asynchronous read.
  pub handle_receive : Option (Bytes × Bytes) → Received
  handle_receive none = failed empty_message
  handle_receive (some (message, input)) = received (parse message) input

  -- handleReceiveSize, called with the result of the first one.
  pub handle_receive_size : Option (Bytes × Bytes) → Received
  unfolding handle_receive
  handle_receive_size none = failed empty_message
  handle_receive_size (some (char_message_size, input)) =
      handle_receive (read (ntohl char_message_size) input)

  pub async_receive : Bytes → Received
  unfolding handle_receive_size
  async_receive input = handle_receive_size (read message_size_length input)

  -- A receive loop: the messages that arrive until the input fails.
  pub receive_loop : ℕ → Bytes → List ApiMessage
  receive_loop zero input = []
  receive_loop (suc rounds) input = elim (async_receive input) [
    | failed m ↦ []
    | received m input' ↦ m ∷ receive_loop rounds input'
  ]
