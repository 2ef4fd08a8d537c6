-- ===== src/Net/Packet/Writing.antt =====
-- What writePacket leaves on the wire, whatever becomes of its two writes.
use optimusprime.Prelude.{
  ℕ, zero, suc, ◌%◌, ◌^◌, ◌<◌, ◌≡◌, refl, arith, Option, none, some, List, [], ◌∷◌, ◌++◌, length,
  take, ap, ◌∙◌, sym, min, append_assoc, append-nil,
}
use optimusprime.Prelude.Text.{Bytes}
use optimusprime.Net.Stream.{Sink, put_uint32, write_to, take-append_length}
use optimusprime.Net.Packet.{write_packet, write_head, write_body, WriteResult}
use optimusprime.Net.Packet.Framing.{frame, take-frame}

write_to_prefix :
    (bs : Bytes) (s : Sink)
    → (k : ℕ) × ((write_to bs s).2.written ≡ s.written ++ take k bs)
      × ((write_to bs s).1 ≡ none → take k bs ≡ bs)
write_to_prefix bs s = go s.outcomes refl
  where
    all : take (length bs) bs ≡ bs
    all = ap (take (length bs)) (sym (append-nil bs)) ∙ take-append_length bs []

    go :
        (os : List (Option ℕ))
        → s.outcomes ≡ os
        → (k : ℕ) × ((write_to bs s).2.written ≡ s.written ++ take k bs)
          × ((write_to bs s).1 ≡ none → take k bs ≡ bs)
    go [] e = (length bs, unfold write_to in rw (e, all), λ _. all)
    go (none ∷ os) e = (length bs, unfold write_to in rw (e, all), λ _. all)
    go (some k ∷ os) e = (k, unfold write_to in rw e, λ h. absurd (unfold write_to in ground arith))

take_front : (k : ℕ) (xs ys : Bytes) → take (min k (length xs)) (xs ++ ys) ≡ take k xs
take_front zero xs ys = ap (λ i. take i (xs ++ ys)) {y = 0} (omega arith)
take_front (suc k) [] ys = ap (λ i. take i ys) {y = 0} (omega arith)
take_front (suc k) (x ∷ xs) ys =
    ap (λ i. take i (x ∷ xs ++ ys)) {y = suc (min k (length xs))} (omega arith)
    ∙ ap (λ t. x ∷ t) (take_front k xs ys)

-- The body behind what the call for the head came to.
write_body_prefix :
    (p : Bytes) (s : Sink) (w : WriteResult)
    → (k : ℕ) × (w.2.written ≡ s.written ++ take k (put_uint32 (length p)))
      × (w.1 ≡ none → take k (put_uint32 (length p)) ≡ put_uint32 (length p))
    → (k : ℕ) × ((write_body p w).2.written ≡ s.written ++ take k (frame p))
      × ((write_body p w).1 ≡ none → take k (frame p) ≡ frame p)
unfolding write_body
write_body_prefix p s (n, some x, s') (k, at, whole) = (
  min k (length (put_uint32 (length p))),
  at ∙ ap (λ t. s.written ++ t) (sym (take_front k (put_uint32 (length p)) p)),
  λ h. cc,
)
write_body_prefix p s (n, none, s') (k, at, whole) =
    let (j, behind, all) = write_to_prefix p s' in
    (
      suc (suc (suc (suc j))),
      behind
          ∙ ap (λ t. t ++ take j p) (at ∙ ap (λ t. s.written ++ t) (whole refl))
          ∙ append_assoc s.written (put_uint32 (length p)) (take j p)
          ∙ ap (λ t. s.written ++ t) (sym (take-frame j p)),
      λ h. take-frame j p ∙ ap (λ t. put_uint32 (length p) ++ t) (all h),
    )

write_packet_front :
    (p : Bytes) (s : Sink)
    → length p < 2 ^ 32
    → (k : ℕ) × ((write_packet p s).2.written ≡ s.written ++ take k (frame p))
      × ((write_packet p s).1 ≡ none → take k (frame p) ≡ frame p)
unfolding write_packet write_head
write_packet_front p s small =
    let whole : length p % 2 ^ 32 ≡ length p = omega arith in
    rw whole (
      write_body_prefix p s (write_to (put_uint32 (length p)) s)
        (write_to_prefix (put_uint32 (length p)) s))

-- What is on the wire: the whole frame behind what was there, or a front part of it.
abbrev pub IsSent : Bytes → Sink → WriteResult → Type 0
IsSent p s (n, none, s') = s'.written ≡ s.written ++ frame p
IsSent p s (n, some x, s') = (k : ℕ) × (s'.written ≡ s.written ++ take k (frame p))

front-IsSent :
    (p : Bytes) (s : Sink) (w : WriteResult)
    → (k : ℕ) × (w.2.written ≡ s.written ++ take k (frame p))
      × (w.1 ≡ none → take k (frame p) ≡ frame p)
    → IsSent p s w
front-IsSent p s (n, none, s') (k, at, whole) = at ∙ ap (λ t. s.written ++ t) (whole refl)
front-IsSent p s (n, some x, s') (k, at, whole) = (k, at)

-- Whatever the writes of a connection come to: where writePacket reports no error, it leaves the whole
-- frame of the packet on the wire, behind what was there; where it reports one, a front part of it.
pub write_packet-IsSent : (p : Bytes) (s : Sink) → length p < 2 ^ 32 → IsSent p s (write_packet p s)
write_packet-IsSent p s small = front-IsSent p s (write_packet p s) (write_packet_front p s small)
