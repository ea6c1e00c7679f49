-- ===== src/Frame/Accepted.antt =====
-- The headers that the decoder accepts, and what they guarantee.
use chat_hub.Prelude.{ℕ, ◌≤◌, ◌≡◌, refl, arith, Option, none, some, Bytes, get_or}
use chat_hub.Protocol.{find_protocol}
use chat_hub.Protocol.Descriptor.{ProtocolDescriptor}
use chat_hub.Protocol.Types.{ProtocolType}
use chat_hub.Frame.{big_endian}
use chat_hub.Frame.Stream.{accepted, described, header}

-- An accepted header, with the descriptor that it was checked against.
pub record IsAccepted (bs : Bytes) (t : ProtocolType) (n : ℕ) : Type 0 where
  pub descriptor : ProtocolDescriptor
  pub magic : (get_or bs 0 0 ≡ 0x43) × (get_or bs 1 0 ≡ 0x48)
  pub version : get_or bs 2 0 ≡ 1
  pub registered : find_protocol (get_or bs 3 0) ≡ some descriptor
  pub type : descriptor.type ≡ t
  pub size : big_endian (get_or bs 4 0) (get_or bs 5 0) (get_or bs 6 0) (get_or bs 7 0) ≡ n
  pub fits : n ≤ descriptor.max_body

accepts_described :
    (bs : Bytes) (n m : ℕ) (t : ProtocolType) (o : Option ProtocolDescriptor)
    → described m o ≡ accepted t n
    → (d : ProtocolDescriptor) × (o ≡ some d) × (d.type ≡ t) × (m ≡ n) × (n ≤ d.max_body)
unfolding described
accepts_described bs n m t none h = cc
accepts_described bs n m t (some d) h = (d, refl, ground arith, ground arith, ground arith)

header_tests :
    (bs : Bytes) (t : ProtocolType) (n : ℕ)
    → header bs ≡ accepted t n
    → (get_or bs 0 0 ≡ 0x43)
      × (get_or bs 1 0 ≡ 0x48)
      × (get_or bs 2 0 ≡ 1)
      × (described
            (big_endian (get_or bs 4 0) (get_or bs 5 0) (get_or bs 6 0) (get_or bs 7 0))
            (find_protocol (get_or bs 3 0))
          ≡ accepted t n)
unfolding header
header_tests bs t n h = (ground arith, ground arith, ground arith, ground arith)

pub header-IsAccepted :
    (bs : Bytes) (t : ProtocolType) (n : ℕ) → header bs ≡ accepted t n → IsAccepted bs t n
header-IsAccepted bs t n h =
    let (high, low, version, known) = header_tests bs t n h in
    let (d, registered, type, size, fits) =
      accepts_described bs n
        (big_endian (get_or bs 4 0) (get_or bs 5 0) (get_or bs 6 0) (get_or bs 7 0)) t
        (find_protocol (get_or bs 3 0)) known in
    record {
      descriptor = d;
      magic = (high, low);
      version = version;
      registered = registered;
      type = type;
      size = size;
      fits = fits;
    }
