-- ===== src/Stream/Receive.antt =====
-- The chunks of a transfer from the host are its data.
use mathlib.Core.List.{append_assoc, append-nil}
use pico_bootrom_rp.Common.{
  ℕ, ◌+◌, ◌%◌, ◌≤◌, ◌<◌, ◌≡◌, refl, sym, ◌∙◌, ap, inl, inr, List, [], ◌∷◌, ◌++◌, ◌==◌,
  if◌then◌else◌, u32, length, take, arith, false, subst, length-append,
}
use pico_bootrom_rp.Stream.{Stream, chunk_offset, out_chunk_len, out_packet, out_complete}
use pico_bootrom_rp.Stream.Chunks.{
  chunk_step, pending, IsAt, take-none, out_packet-buffer, chunk_len-last, chunk_len-full,
}

-- The chunks that `on_chunk` gets from a sequence of packets, each as the bytes that it may read.
unfoldable pub receive : Stream → List (List ℕ) → List (List ℕ)
receive s [] = []
receive s (p ∷ ps) =
    let (s', chunk_len) = out_packet s p in
    let rest = receive (out_complete s' (length p)) ps in
    if chunk_len == 0 then rest else take chunk_len s'.chunk_buffer ∷ rest

abbrev pub concat : List (List ℕ) → List ℕ
concat [] = []
concat (xs ∷ xss) = xs ++ concat xss

-- The packets of the last bytes of a transfer, at least one byte: full ones, and one that may be short.
pub data IsPackets : List (List ℕ) → Type 0 where
  last_packet : {p : List ℕ} → 0 < length p → length p ≤ 64 → IsPackets (p ∷ [])
  full_packet :
      {p : List ℕ} {ps : List (List ℕ)} → length p ≡ 64 → IsPackets ps → IsPackets (p ∷ ps)

IsPackets-some : {ps : List (List ℕ)} → IsPackets ps → 0 < length (concat ps)
IsPackets-some {ps = []} h = elim h [ ]
IsPackets-some {ps = p ∷ []} (last_packet a b) = omega (arith, length-append p [])
IsPackets-some {ps = p ∷ ps} (full_packet e h) = omega (arith, length-append p (concat ps))

out_packet-len : (s : Stream) (p : List ℕ) → (out_packet s p).1 ≡ out_chunk_len s
unfolding out_packet
out_packet-len s p = refl

-- The stream behind a packet.
abbrev next : Stream → List ℕ → Stream
next s p = out_complete (out_packet s p).0 (length p)

receive-chunk :
    (s : Stream) (p : List ℕ) (ps : List (List ℕ)) (n : ℕ)
    → out_chunk_len s ≡ n
    → 0 < n
    → receive s (p ∷ ps) ≡ (take n (out_packet s p).0.chunk_buffer ∷ receive (next s p) ps)
unfolding receive
receive-chunk s p ps n e lo =
    let test : (n == 0) ≡ false = ground arith in rw (out_packet-len s p, e, test) refl

receive-silent :
    (s : Stream) (p : List ℕ) (ps : List (List ℕ))
    → out_chunk_len s ≡ 0
    → receive s (p ∷ ps) ≡ receive (next s p) ps
unfolding receive
receive-silent s p ps e = rw (out_packet-len s p, e) refl

next-IsAt :
    (s : Stream) (p : List ℕ) (n : ℕ)
    → length p ≡ 64
    → IsAt s (64 + n)
    → (length (out_packet s p).0.chunk_buffer ≡ s.chunk_size)
    → IsAt (next s p) n × ((next s p).offset ≡ s.offset + 64)
unfolding out_complete out_packet
next-IsAt s p n e at room =
    let fits = at.stream.fits in
    let left = at.left in
    let boundary = at.stream.at_packet in
    let moved : u32 (s.offset + length p) ≡ s.offset + 64 = omega arith in
    (
      record {
        stream = record {
          size = at.stream.size;
          at_packet = rw moved (omega arith);
          fits = at.stream.fits;
        };
        room = room;
        left = rw moved (omega arith);
      },
      moved,
    )

pending-next :
    (s : Stream) (p : List ℕ)
    → (next s p).offset ≡ s.offset + 64
    → pending (next s p) ≡ take ((s.offset + 64) % s.chunk_size) (out_packet s p).0.chunk_buffer
unfolding out_complete out_packet chunk_offset
pending-next s p e = rw e refl

receive-last :
    (s : Stream) (p : List ℕ)
    → IsAt s (length p)
    → 0 < length p
    → length p ≤ 64
    → concat (receive s (p ∷ [])) ≡ pending s ++ p
unfolding receive
receive-last s p at lo hi =
    let step =
      chunk_step s.chunk_size s.offset (length p) at.stream.size at.stream.at_packet lo hi in
    let n = s.offset % s.chunk_size + length p in
    let chunk = (out_packet-buffer s p at.room (omega (arith, step.0))).1 in
    rw (receive-chunk s p [] n (chunk_len-last s (length p) at lo hi) (omega arith), append-nil)
      chunk

receive-full :
    (s : Stream) (p : List ℕ) (ps : List (List ℕ))
    → length p ≡ 64
    → 0 < length (concat ps)
    → IsAt s (64 + length (concat ps))
    → concat (receive (next s p) ps) ≡ pending (next s p) ++ concat ps
    → concat (receive s (p ∷ ps)) ≡ pending s ++ (p ++ concat ps)
receive-full s p ps e some at rest =
    let step =
      chunk_step s.chunk_size s.offset 64 at.stream.size at.stream.at_packet (omega arith)
        (omega arith) in
    let buffer = out_packet-buffer s p at.room (omega (arith, step.0)) in
    let (_, moved) = next-IsAt s p (length (concat ps)) e at buffer.0 in
    let len = chunk_len-full s (length (concat ps)) at some in
    elim step.1 [
      | inl (inside, same_chunk) ↦
          let silent : out_chunk_len s ≡ 0 = ground arith in
          let kept : pending (next s p) ≡ pending s ++ p =
            pending-next s p moved
            ∙ ap (λ (k : ℕ). take k (out_packet s p).0.chunk_buffer) (omega arith)
            ∙ buffer.1 in
          rw (receive-silent s p ps silent, rest, kept, append_assoc) refl
      | inr (ends, boundary) ↦
          let whole : out_chunk_len s ≡ s.offset % s.chunk_size + length p = ground arith in
          let none_kept : pending (next s p) ≡ [] =
            pending-next s p moved ∙ take-none _ _ boundary in
          rw (receive-chunk s p ps (s.offset % s.chunk_size + length p) whole (omega arith))
            (rw (buffer.1, rest, none_kept, append_assoc) refl)
    ]

-- The chunks that the owner gets from the packets of a transfer from the host, at chunk sizes of 256
-- or 512 bytes, are what was pending of the current chunk followed by the data of the packets: put
-- together, nothing is lost, doubled or out of place, whatever the length.
pub receive-concat :
    (s : Stream) (ps : List (List ℕ))
    → IsPackets ps
    → IsAt s (length (concat ps))
    → concat (receive s ps) ≡ pending s ++ concat ps
receive-concat s [] h at = elim h [ ]
receive-concat s (p ∷ []) (last_packet lo hi) at =
    receive-last s p (subst (λ xs. IsAt s (length xs)) (append-nil p) at) lo hi
    ∙ ap (λ xs. pending s ++ xs) (sym (append-nil p))
receive-concat s (p ∷ ps) (full_packet e h) at =
    let left : IsAt s (64 + length (concat ps)) =
      subst (IsAt s) (omega (arith, e, length-append p (concat ps))) at in
    let step =
      chunk_step s.chunk_size s.offset 64 left.stream.size left.stream.at_packet (omega arith)
        (omega arith) in
    let buffer = out_packet-buffer s p left.room (omega (arith, step.0)) in
    receive-full s p ps e (IsPackets-some h) left
      (receive-concat (next s p) ps h (next-IsAt s p (length (concat ps)) e left buffer.0).0)
