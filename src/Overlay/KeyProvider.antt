-- ===== src/Overlay/KeyProvider.antt =====
-- src/daemon/overlay/KeyProvider.h and KeyProvider.cpp: the own keys, renewed at intervals, with a
-- history of the last ones. Times are seconds. The generation of a key pair, the hash of the key
-- and the clock are parameters.
pub mod History
mod Tests
use Prim.Native.Nat.{◌+◌}
use p2pnet.Base.{
  ℕ, zero, suc, ◌*◌, ◌%◌, ◌^◌, Bool, true, false, not, List, [], ◌∷◌, ◌++◌, Option, none, some,
  length, get_elem?, ltb, if◌then◌else◌,
}
use p2pnet.Base.Maps.{bytes_beq}
use p2pnet.Crypto.Hash.{Bytes}

-- KeyInfo, with the keys as their binary strings.
pub record KeyInfo : Type 0 where
  pub private_key : Bytes
  pub public_key : Bytes
  pub th : Bytes
  pub expiration_time : ℕ
  pub lose_time : ℕ

-- Handshake.SignedHandshake.KeyInfo of the protocol.
pub record KeyInfoMessage : Type 0 where
  pub ecdsa_key : Bytes
  pub expiration_time : ℕ
  pub lose_time : ℕ

-- KeyProvider; `timer` is when the next renewal is due, `rotations` what rotation_signal told its
-- listeners so far: the old TH and the new one, the last call first.
pub record KeyProvider : Type 0 where
  pub history : List KeyInfo
  pub max_history_size : ℕ
  pub timer : Option ℕ
  pub expiration_interval : ℕ
  pub lose_interval : ℕ
  pub rotations : List (Bytes × Bytes)

-- toProtobuf, and fromProtobuf, where `hash` is TH(public_key); the private key stays as it was.
pub to_protobuf : KeyInfo → KeyInfoMessage
to_protobuf i = record {
  ecdsa_key = i.public_key;
  expiration_time = i.expiration_time;
  lose_time = i.lose_time;
}

pub from_protobuf : (hash : Bytes → Bytes) → KeyInfoMessage → KeyInfo → KeyInfo
from_protobuf hash m i = record i {
  public_key = m.ecdsa_key;
  th = hash m.ecdsa_key;
  expiration_time = m.expiration_time;
  lose_time = m.lose_time;
}

-- pop_back
pub pop_back {ℓ} : {A : Type ℓ} → List A → List A
pop_back [] = []
pop_back (x ∷ []) = []
pop_back (x ∷ y ∷ ys) = x ∷ pop_back (y ∷ ys)

-- The listeners hear of a rotation if there is a key to rotate from.
abbrev pub notify : List KeyInfo → Bytes → List (Bytes × Bytes) → List (Bytes × Bytes)
notify [] new_th told = told
notify (old ∷ _) new_th told = (old.th, new_th) ∷ told

abbrev pub initialized : (history_size renew_interval : ℕ) → KeyProvider
initialized history_size renew_interval = record {
  history = [];
  max_history_size = (history_size + 1) % 2 ^ 32;
  timer = none;
  expiration_interval = renew_interval;
  lose_interval = renew_interval * ((history_size + 1) % 2 ^ 32) % 2 ^ 32;
  rotations = [];
}

module _ (derive_public_key hash : Bytes → Bytes) where
  -- The new KeyInfo of renewKeys. Hash has no constructor for a private key: the conversion to
  -- PublicKeyDSA derives the public one, and `hash` is Hash(PublicKeyDSA).
  pub new_info : (now : ℕ) → (private_key : Bytes) → KeyProvider → KeyInfo
  new_info now private_key p = record {
    private_key = private_key;
    public_key = derive_public_key private_key;
    th = hash (derive_public_key private_key);
    expiration_time = now + p.expiration_interval;
    lose_time = now + p.lose_interval;
  }

  -- renewKeys at the time `now`, with the generated private key.
  pub renew_keys : (now : ℕ) → (private_key : Bytes) → KeyProvider → KeyProvider
  renew_keys now private_key p =
      let info = new_info now private_key p in
      let pushed = info ∷ p.history in
      record p {
        history = if ltb p.max_history_size (length pushed) then pop_back pushed else pushed;
        timer = some info.expiration_time;
        rotations = notify p.history info.th p.rotations;
      }

  -- KeyProvider(parent), with the configured history_size and renew_interval: the initializers,
  -- whose sum and product are those of unsigned int, and the first renewal.
  pub new_provider :
      (now : ℕ) → (private_key : Bytes) → (history_size renew_interval : ℕ) → KeyProvider
  new_provider now private_key history_size renew_interval =
      renew_keys now private_key (initialized history_size renew_interval)

-- getKeyInfo(offset)
unfoldable pub get_key_info : ℕ → KeyProvider → Option KeyInfo
get_key_info offset p = get_elem? p.history offset

-- getKeyInfo(recent_th)
pub find_info : Bytes → List KeyInfo → Option KeyInfo
find_info recent_th [] = none
find_info recent_th (i ∷ is) = if bytes_beq i.th recent_th then some i else find_info recent_th is

pub get_key_info_by_th : Bytes → KeyProvider → Option KeyInfo
get_key_info_by_th recent_th p = find_info recent_th p.history
