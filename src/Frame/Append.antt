-- ===== src/Frame/Append.antt =====
-- A stream that goes on: its frames so far stay, and a broken stream stays broken.
use chat_hub.Prelude.{
  ℕ, zero, suc, ◌+◌, ◌≤◌, ◌<◌, ◌≡◌, refl, ap, subst, ◌∙◌, List, [], ◌∷◌, ◌++◌, true, arith, Bytes,
  length, get_or, take, drop, length-drop, length-append, drop-append_of_le, take-append_of_le,
}
use chat_hub.Protocol.Types.{ProtocolType}
use chat_hub.Utf8.{is_valid_utf8}
use chat_hub.Frame.{Frame, FrameErrorKind}
use chat_hub.Frame.Stream.{
  accepted, header, Ending, waiting, broken, Stream, cut_header, bad_header, cut_body, bad_body,
  frame,
}

get_or-append : (xs ys : Bytes) (i : ℕ) → i < length xs → get_or (xs ++ ys) i 0 ≡ get_or xs i 0
get_or-append [] ys i h = absurd (omega arith)
get_or-append (x ∷ xs) ys zero h = refl
get_or-append (x ∷ xs) ys (suc i) h = get_or-append xs ys i (omega arith)

-- Eight bytes fix the header.
pub header-append : (xs ys : Bytes) → 8 ≤ length xs → header (xs ++ ys) ≡ header xs
unfolding header
header-append xs ys h =
    let same = λ (i : ℕ) (at : i < length xs). get_or-append xs ys i at in
    rw (
      same 0 (omega arith),
      same 1 (omega arith),
      same 2 (omega arith),
      same 3 (omega arith),
      same 4 (omega arith),
      same 5 (omega arith),
      same 6 (omega arith),
      same 7 (omega arith),
    )

body-append :
    (n : ℕ) (xs ys : Bytes) → 8 + n ≤ length xs → take n (drop 8 (xs ++ ys)) ≡ take n (drop 8 xs)
body-append n xs ys h =
    ap (take n) (drop-append_of_le 8 xs ys (omega arith))
    ∙ take-append_of_le n (drop 8 xs) ys (omega (arith, length-drop 8 xs))

length-le-append : (xs ys : Bytes) (n : ℕ) → n ≤ length xs → n ≤ length (xs ++ ys)
length-le-append xs ys n h = omega (arith, length-append xs ys)

-- A frame at the front stays there.
frame-append :
    (bs more : Bytes) (type : ProtocolType) (n : ℕ) {fs : List Frame} {e : Ending}
    → header bs ≡ accepted type n
    → 8 + n ≤ length bs
    → is_valid_utf8 (take n (drop 8 bs)) ≡ true
    → Stream (drop (8 + n) bs ++ more) fs e
    → Stream (bs ++ more) (record { type = type; body = take n (drop 8 bs) } ∷ fs) e
frame-append bs more type n {fs} {e} h fits valid s =
    let body = body-append n bs more fits in
    subst (λ b. Stream (bs ++ more) (record { type = type; body = b } ∷ fs) e) body
      (frame (header-append bs more (omega arith) ∙ h) (length-le-append bs more (8 + n) fits)
        (rw body valid) (rw (drop-append_of_le (8 + n) bs more fits) s))

-- More bytes do not mend a broken stream, and add no frame to it.
pub broken-append :
    (more : Bytes) {bs : Bytes} {fs : List Frame} {e : Ending} (kind : FrameErrorKind)
    → Stream bs fs e
    → e ≡ broken kind
    → Stream (bs ++ more) fs (broken kind)
broken-append more kind (cut_header short) eq = cc
broken-append more kind (cut_body long h short) eq = cc
broken-append more kind (bad_header {bs} long h) eq =
    subst (λ k. Stream (bs ++ more) [] k) eq
      (bad_header (length-le-append bs more 8 long) (header-append bs more long ∙ h))
broken-append more kind (bad_body {bs} {type} {n} h fits invalid) eq =
    subst (λ k. Stream (bs ++ more) [] k) eq
      (bad_body (header-append bs more (omega arith) ∙ h) (length-le-append bs more (8 + n) fits)
        (rw (body-append n bs more fits) invalid))
broken-append more kind (frame {bs} {type} {n} h fits valid s) eq =
    frame-append bs more type n h fits valid (broken-append more kind s eq)

-- A stream that waits goes on with the bytes that it waits with.
pub waiting-append :
    (more rest : Bytes) {bs : Bytes} {fs fs' : List Frame} {e e' : Ending}
    → Stream bs fs e
    → e ≡ waiting rest
    → Stream (rest ++ more) fs' e'
    → Stream (bs ++ more) (fs ++ fs') e'
waiting-append more rest (bad_header long h) eq s' = cc
waiting-append more rest (bad_body h fits invalid) eq s' = cc
waiting-append more rest {fs' = fs'} {e' = e'} (cut_header {bs} short) eq s' =
    let same : bs ≡ rest = cc in rw same s'
waiting-append more rest {fs' = fs'} {e' = e'} (cut_body {bs} long h short) eq s' =
    let same : bs ≡ rest = cc in rw same s'
waiting-append more rest (frame {bs} {type} {n} h fits valid s) eq s' =
    frame-append bs more type n h fits valid (waiting-append more rest s eq s')
