-- ===== src/Api/Frame/RoundTrip.antt =====
-- What is sent is received, and what is cut off is refused.
use mathlib.Core.List.{append_assoc}
use p2pnet.Base.{
  ℕ, zero, suc, ◌+◌, ◌%◌, ◌^◌, ◌<◌, ◌≡◌, refl, ap, ◌∙◌, true, List, [], ◌∷◌, ◌++◌, none, some,
  length, take, leb, arith, take-length-append, drop-length-append, length-append, length-take, All,
}
use p2pnet.Crypto.Hash.{Bytes}
use p2pnet.Api.Message.{ApiMessage, empty_message}
use p2pnet.Api.Frame.{
  message_size_length, htonl, ntohl, generate_send_string, read, received, failed, send, receive,
  handle_receive_size, async_receive, receive_loop, send_all,
}

ntohl-htonl : (n : ℕ) → n < 2 ^ 32 → ntohl (htonl n) ≡ n
unfolding ntohl htonl
ntohl-htonl n h = omega arith

read-append : (xs ys : Bytes) → read (length xs) (xs ++ ys) ≡ some (xs, ys)
unfolding read
read-append xs ys =
    let fits : leb (length xs) (length (xs ++ ys)) ≡ true = ground (arith, length-append xs ys) in
    rw (fits, take-length-append xs ys, drop-length-append xs ys)

read_short : (n : ℕ) (xs : Bytes) → length xs < n → read n xs ≡ none
unfolding read
read_short n xs h = ground arith

-- The asynchronous chain of handlers receives what the blocking call receives.
pub async_receive-eq-receive :
    (parse : Bytes → ApiMessage) (input : Bytes) → async_receive parse input ≡ receive parse input
unfolding async_receive receive handle_receive_size
async_receive-eq-receive parse input = ground arith

read-htonl :
    (n : ℕ) (rest : Bytes) → read message_size_length (htonl n ++ rest) ≡ some (htonl n, rest)
unfolding htonl
read-htonl n rest = read-append (htonl n) rest

module _ (serialize : ApiMessage → Bytes) (parse : Bytes → ApiMessage) where
  receive-frame :
      (bytes rest : Bytes)
      → length bytes < 2 ^ 32
      → receive parse (generate_send_string bytes ++ rest) ≡ received (parse bytes) rest
  unfolding receive generate_send_string
  receive-frame bytes rest h =
      let size : length bytes % 2 ^ 32 ≡ length bytes = omega arith in
      rw (
        size,
        append_assoc (htonl (length bytes)) bytes rest,
        read-htonl (length bytes) (bytes ++ rest),
        receive,
        ntohl-htonl (length bytes) h,
        read-append bytes rest,
      )

  -- A message whose serialisation parses to it again and has less than 2 ^ 32 bytes is received as
  -- it was sent, and what follows it in the input is left as it was.
  pub receive-send :
      (m : ApiMessage) (rest : Bytes)
      → parse (serialize m) ≡ m
      → length (serialize m) < 2 ^ 32
      → receive parse (send serialize m ++ rest) ≡ received m rest
  unfolding send
  receive-send m rest back h = receive-frame (serialize m) rest h ∙ ap (λ m. received m rest) back

  -- The receive loop, over an input of whole messages, each of which parses to itself again and has
  -- less than 2 ^ 32 bytes, delivers these messages in order and no more.
  pub receive_loop-send_all :
      (ms : List ApiMessage) (rounds : ℕ)
      → All (λ m. (parse (serialize m) ≡ m) × (length (serialize m) < 2 ^ 32)) ms
      → length ms < rounds
      → receive_loop parse rounds (send_all serialize ms) ≡ ms
  unfolding receive_loop send_all
  receive_loop-send_all ms zero h lt = absurd (omega arith)
  receive_loop-send_all [] (suc rounds) h lt =
      rw (async_receive-eq-receive parse [], receive_loop) (unfold receive read in refl)
  receive_loop-send_all (m ∷ ms) (suc rounds) h lt =
      rw
        (
          async_receive-eq-receive parse (send serialize m ++ send_all serialize ms),
          receive-send m (send_all serialize ms) h.0.0 h.0.1,
          receive_loop,
        )
        (ap (λ r. m ∷ r) (receive_loop-send_all ms rounds h.1 (omega arith)))

short_payload :
    (parse : Bytes → ApiMessage) (n : ℕ) (xs : Bytes)
    → n < 2 ^ 32
    → length xs < n
    → receive parse (htonl n ++ xs) ≡ failed empty_message
unfolding receive
short_payload parse n xs h lt = rw (read-htonl n xs, receive, ntohl-htonl n h, read_short n xs lt)

short_header :
    (parse : Bytes → ApiMessage) (xs : Bytes)
    → length xs < message_size_length
    → receive parse xs ≡ failed empty_message
unfolding receive
short_header parse xs h = rw (read_short message_size_length xs h, receive)

take-htonl :
    (n k : ℕ) (xs : Bytes) → take (suc (suc (suc (suc k)))) (htonl n ++ xs) ≡ htonl n ++ take k xs
unfolding htonl
take-htonl n k xs = refl

length-frame : (n : ℕ) (xs : Bytes) → length (htonl n ++ xs) ≡ 4 + length xs
unfolding htonl
length-frame n xs = omega arith

-- A message that is cut off anywhere before its end is not received.
pub receive_cut :
    (serialize : ApiMessage → Bytes) (parse : Bytes → ApiMessage) (m : ApiMessage) (k : ℕ)
    → length (serialize m) < 2 ^ 32
    → k < length (send serialize m)
    → receive parse (take k (send serialize m)) ≡ failed empty_message
unfolding send generate_send_string
receive_cut serialize parse m (suc (suc (suc (suc k)))) h lt =
    let size : length (serialize m) % 2 ^ 32 ≡ length (serialize m) = omega arith in
    rw (take-htonl (length (serialize m) % 2 ^ 32) k (serialize m), size)
      (short_payload parse (length (serialize m)) (take k (serialize m)) h (
        omega (
          arith,
          length-take k (serialize m),
          length-frame (length (serialize m) % 2 ^ 32) (serialize m),
        )))
receive_cut serialize parse m k h lt =
    short_header parse (take k (send serialize m)) (omega (arith, length-take k (send serialize m)))
