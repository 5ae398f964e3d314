-- ===== src/Transport/Endpoint/RoundTrip.antt =====
-- Reading back the text of an endpoint.
use p2pnet.Base.{
  ℕ, suc, ◌+◌, ◌^◌, ◌≤◌, ◌<◌, ◌≡◌, refl, sym, ap, ◌∙◌, Bool, true, false, [], ◌∷◌, ◌++◌, Option,
  none, some, length, length-append, take-all, take-length-append, drop, ◌==◌, ==-refl,
  if◌then◌else◌, arith,
}
use p2pnet.Crypto.Hash.{Bytes}
use p2pnet.Transport.Endpoint.{
  returns, colon, percent, npos, after, minus, next, find_char, rfind_char, position, substr,
  IpInterfaceEndpoint, to_string, from_string, set_ip_string,
}

next-none : (o : Option ℕ) → next o ≡ none → o ≡ none
next-none none h = refl
next-none (some i) h = absurd (cc h)

find_tail :
    (c x : ℕ) (xs : Bytes)
    → find_char c (x ∷ xs) ≡ none
    → ((x == c) ≡ false) × (find_char c xs ≡ none)
find_tail c x xs h = go (x == c) refl h
  where
    go :
        (here : Bool)
        → (x == c) ≡ here
        → (if here then some 0 else next (find_char c xs)) ≡ none
        → ((x == c) ≡ false) × (find_char c xs ≡ none)
    go true e h = absurd (cc h)
    go false e h = (e, next-none (find_char c xs) h)

find-at :
    (c : ℕ) (front back : Bytes)
    → find_char c front ≡ none
    → find_char c (front ++ c ∷ back) ≡ some (length front)
find-at c [] back h = rw (==-refl c)
find-at c (x ∷ xs) back h = rw ((find_tail c x xs h).0, find-at c xs back (find_tail c x xs h).1)

rfind_none : (c : ℕ) (xs : Bytes) → find_char c xs ≡ none → rfind_char c xs ≡ none
rfind_none c [] h = refl
rfind_none c (x ∷ xs) h = rw ((find_tail c x xs h).0, rfind_none c xs (find_tail c x xs h).1)

rfind-at :
    (c : ℕ) (front back : Bytes)
    → find_char c back ≡ none
    → rfind_char c (front ++ c ∷ back) ≡ some (length front)
rfind-at c [] back h = rw (rfind_none c back h, ==-refl c)
rfind-at c (x ∷ xs) back h = rw (rfind-at c xs back h)

drop-after : (c : ℕ) (front back : Bytes) → drop (suc (length front)) (front ++ c ∷ back) ≡ back
drop-after c [] back = refl
drop-after c (x ∷ xs) back = drop-after c xs back

append_assoc : (xs ys zs : Bytes) → (xs ++ ys) ++ zs ≡ xs ++ (ys ++ zs)
append_assoc [] ys zs = refl
append_assoc (x ∷ xs) ys zs = ap (λ ws. x ∷ ws) (append_assoc xs ys zs)

module _ (prefix ip_text port_text : Bytes) where
  abbrev whole : Bytes
  whole = prefix ++ colon ∷ (ip_text ++ colon ∷ port_text)

  abbrev front : Bytes
  front = prefix ++ colon ∷ ip_text

  split : whole ≡ (front ++ colon ∷ port_text)
  split = sym (append_assoc prefix (colon ∷ ip_text) (colon ∷ port_text))

  length-front : length front ≡ length prefix + (length ip_text + 1)
  length-front = omega (arith, length-append prefix (colon ∷ ip_text))

  length-whole : length whole ≡ length front + (length port_text + 1)
  length-whole = ap length split ∙ omega (arith, length-append front (colon ∷ port_text))

  module _ (short : length whole + 1 < 2 ^ 64) where
    port_part :
        substr whole (after (length front)) (minus (length whole) (length front)) ≡ port_text
    port_part =
        let start : after (length front) ≡ suc (length front) =
          omega (arith, short, length-whole) in
        let enough : length port_text ≤ minus (length whole) (length front) =
          omega (arith, short, length-whole) in
        rw (
          start,
          ap (drop (suc (length front))) split ∙ drop-after colon front port_text,
          take-all (minus (length whole) (length front)) port_text enough,
        )

    ip_part :
        substr whole (after (length prefix)) (minus (minus (length front) (length prefix)) 1)
        ≡ ip_text
    ip_part =
        let start : after (length prefix) ≡ suc (length prefix) =
          omega (arith, short, length-whole, length-front) in
        let size : minus (minus (length front) (length prefix)) 1 ≡ length ip_text =
          omega (arith, short, length-whole, length-front) in
        rw (
          start,
          size,
          drop-after colon prefix (ip_text ++ colon ∷ port_text),
          take-length-append ip_text (colon ∷ port_text),
        )

    no_zone_part :
        find_char percent ip_text ≡ none
        → substr ip_text 0 (position (find_char percent ip_text)) ≡ ip_text
    no_zone_part h =
        rw (h, take-all npos ip_text (omega (arith, short, length-whole, length-front)))

module _ {Address : Type 0} (to_text : Address → Bytes) (from_text : Bytes → Option Address)
    (print_port : ℕ → Bytes) (lexical_cast : Bytes → Option ℕ) where
  -- An endpoint that is printed and read back by an endpoint of the same kind has its address and
  -- its port again. The prefix and the printed port have no colon, the printed address no zone, and
  -- the text is shorter than the largest size_t; what the library prints of an address and a port it
  -- reads back.
  pub from_string-to_string :
      (e blank : IpInterfaceEndpoint Address)
      → find_char colon e.prefix ≡ none
      → find_char colon (print_port e.port) ≡ none
      → find_char percent (to_text e.ip) ≡ none
      → from_text (to_text e.ip) ≡ some e.ip
      → lexical_cast (print_port e.port) ≡ some e.port
      → length (to_string to_text from_text print_port lexical_cast e) + 1 < 2 ^ 64
      → from_string to_text from_text print_port lexical_cast
          (to_string to_text from_text print_port lexical_cast e)
          blank
        ≡ returns (record e { prefix = blank.prefix })
  unfolding to_string from_string set_ip_string
  from_string-to_string e blank no_prefix no_port no_zone address_back port_back short =
      let ip_text = to_text e.ip in
      let port_text = print_port e.port in
      let first = find-at colon e.prefix (ip_text ++ colon ∷ port_text) no_prefix in
      let last : rfind_char colon (whole e.prefix ip_text port_text)
          ≡ some (length (front e.prefix ip_text port_text)) =
        ap (rfind_char colon) (split e.prefix ip_text port_text)
        ∙ rfind-at colon (front e.prefix ip_text port_text) port_text no_port in
      rw (
        first,
        last,
        port_part e.prefix ip_text port_text short,
        port_back,
        ip_part e.prefix ip_text port_text short,
        no_zone_part e.prefix ip_text port_text short no_zone,
        address_back,
      )
