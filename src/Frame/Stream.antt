-- ===== src/Frame/Stream.antt =====
-- The frames of a byte stream as a relation on the whole stream, with no buffer and no cursor.
use chat_hub.Prelude.{
  ℕ, zero, suc, ◌+◌, ◌≤◌, ◌<◌, ◌≡◌, refl, List, [], ◌∷◌, true, false, not, ◌||◌, Option, none, some,
  arith, ◌==◌, ltb, if◌then◌else◌, Bytes, length, get_or, take, drop, length-drop, Bool-cases, ◌⊎◌,
  inl, inr,
}
use chat_hub.Protocol.{find_protocol}
use chat_hub.Protocol.Descriptor.{ProtocolDescriptor}
use chat_hub.Protocol.Types.{ProtocolType}
use chat_hub.Utf8.{is_valid_utf8}
use chat_hub.Frame.{
  frame_magic_high, frame_magic_low, protocol_version, Frame, FrameErrorKind, big_endian,
}

-- What the first eight bytes of a stream say.
pub data Header : Type 0 where
  accepted : ProtocolType → ℕ → Header
  refused : FrameErrorKind → Header

unfoldable pub described : ℕ → Option ProtocolDescriptor → Header
described n none = refused FrameErrorKind.unknown_type
described n (some d) =
    if ltb d.max_body n then refused FrameErrorKind.body_too_large else accepted d.type n

unfoldable pub header : Bytes → Header
header bs =
    if not (get_or bs 0 0 == frame_magic_high) || not (get_or bs 1 0 == frame_magic_low)
    then refused FrameErrorKind.bad_magic
    else if not (get_or bs 2 0 == protocol_version)
    then refused FrameErrorKind.bad_version
    else described (big_endian (get_or bs 4 0) (get_or bs 5 0) (get_or bs 6 0) (get_or bs 7 0))
        (find_protocol (get_or bs 3 0))

-- Where a stream ends: it waits for the rest of a frame, or it is broken for good.
pub data Ending : Type 0 where
  waiting : Bytes → Ending
  broken : FrameErrorKind → Ending

-- `Stream bs fs e`: the bytes hold the frames `fs`, and then end as `e` says.
pub data Stream : Bytes → List Frame → Ending → Type 0 where
  cut_header : {bs : Bytes} → length bs < 8 → Stream bs [] (waiting bs)
  bad_header :
      {bs : Bytes} {kind : FrameErrorKind}
      → 8 ≤ length bs
      → header bs ≡ refused kind
      → Stream bs [] (broken kind)
  cut_body :
      {bs : Bytes} {type : ProtocolType} {n : ℕ}
      → 8 ≤ length bs
      → header bs ≡ accepted type n
      → length bs < 8 + n
      → Stream bs [] (waiting bs)
  bad_body :
      {bs : Bytes} {type : ProtocolType} {n : ℕ}
      → header bs ≡ accepted type n
      → 8 + n ≤ length bs
      → is_valid_utf8 (take n (drop 8 bs)) ≡ false
      → Stream bs [] (broken FrameErrorKind.invalid_utf8)
  frame :
      {bs : Bytes} {type : ProtocolType} {n : ℕ} {fs : List Frame} {e : Ending}
      → header bs ≡ accepted type n
      → 8 + n ≤ length bs
      → is_valid_utf8 (take n (drop 8 bs)) ≡ true
      → Stream (drop (8 + n) bs) fs e
      → Stream bs (record { type = type; body = take n (drop 8 bs) } ∷ fs) e

Header-cases :
    (h : Header)
    → ((kind : FrameErrorKind) × (h ≡ refused kind))
      ⊎ ((type : ProtocolType) × (n : ℕ) × (h ≡ accepted type n))
Header-cases (accepted type n) = inr (type, n, refl)
Header-cases (refused kind) = inl (kind, refl)

-- The frames and the ending of a stream.
abbrev pub Reading : Bytes → Type 0
Reading bs = (fs : List Frame) × (e : Ending) × Stream bs fs e

read_next :
    (bs : Bytes)
    → 8 ≤ length bs
    → ((n : ℕ) → 8 + n ≤ length bs → Reading (drop (8 + n) bs))
    → Reading bs
read_next bs long rest = elim (Header-cases (header bs)) [
  | inl (kind, h) ↦ ([], broken kind, bad_header long h)
  | inr (type, n, h) ↦ elim (Bool-cases (ltb (length bs) (8 + n))) [
    | inl cut ↦ ([], waiting bs, cut_body long h (ground arith))
    | inr all ↦ elim (Bool-cases (is_valid_utf8 (take n (drop 8 bs)))) [
      | inl valid ↦
          let (fs, e, s) = rest n (ground arith) in
          (
            record { type = type; body = take n (drop 8 bs) } ∷ fs,
            e,
            frame h (ground arith) valid s,
          )
      | inr invalid ↦ ([], broken FrameErrorKind.invalid_utf8, bad_body h (ground arith) invalid)
    ]
  ]
]

read_below : (k : ℕ) (bs : Bytes) → length bs < k → Reading bs
read_below zero bs h = absurd (omega arith)
read_below (suc k) bs h = elim (Bool-cases (ltb (length bs) 8)) [
  | inl cut ↦ ([], waiting bs, cut_header (ground arith))
  | inr long ↦
      read_next bs (ground arith)
        (λ n fits. read_below k (drop (8 + n) bs) (omega (arith, length-drop (8 + n) bs)))
]

-- Every stream has a reading.
pub read : (bs : Bytes) → Reading bs
read bs = read_below (suc (length bs)) bs (omega arith)
