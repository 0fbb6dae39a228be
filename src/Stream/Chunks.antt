-- ===== src/Stream/Chunks.antt =====
-- What a packet from the host does to the chunk that it falls in.
use mathlib.Core.List.{append_assoc}
use pico_bootrom_rp.Common.{
  ℕ, zero, suc, ◌+◌, ◌%◌, ◌≤◌, ◌<◌, ◌≡◌, refl, sym, ◌∙◌, ap, ◌⊎◌, inl, inr, List, [], ◌∷◌, ◌++◌,
  leb, ◌==◌, if◌then◌else◌, u32, length, take, drop, replicate, arith, Bool-cases, ==_iff, true,
  false, length-append, length-take, length-drop, length-replicate,
}
use pico_bootrom_rp.Stream.{
  Stream, patch, chunk_offset, out_chunk_len, out_packet, IsChunkSize, IsStream,
}

take-append : (n : ℕ) (xs ys : List ℕ) → length xs ≡ n → take n (xs ++ ys) ≡ xs
take-append zero [] ys e = refl
take-append zero (x ∷ xs) ys e = absurd (omega arith)
take-append (suc n) [] ys e = absurd (omega arith)
take-append (suc n) (x ∷ xs) ys e = ap (λ zs. x ∷ zs) (take-append n xs ys (omega arith))

-- Where a packet ends within its chunk.
pub chunk_step :
    (cs off l : ℕ)
    → IsChunkSize cs
    → off % 64 ≡ 0
    → 0 < l
    → l ≤ 64
    → (off % cs + 64 ≤ cs)
      × (((off % cs + l < cs) × ((off + l) % cs ≡ off % cs + l))
          ⊎ ((off % cs + l ≡ cs) × ((off + l) % cs ≡ 0)))
chunk_step cs off l (inl e) a lo hi = rw e (omega arith)
chunk_step cs off l (inr e) a lo hi = rw e (omega arith)

take-patch :
    (b p : List ℕ) (co : ℕ) → co ≤ length b → take (co + length p) (patch b co p) ≡ take co b ++ p
unfolding patch
take-patch b p co h = rw (← append_assoc) (
    take-append (co + length p) (take co b ++ p) (drop (co + length p) b)
      (omega (arith, length-append (take co b) p, length-take co b)))

length-patch : (b p : List ℕ) (co : ℕ) → co + length p ≤ length b → length (patch b co p) ≡ length b
unfolding patch
length-patch b p co h = omega (
  arith,
  length-append (take co b) (p ++ drop (co + length p) b),
  length-append p (drop (co + length p) b),
  length-take co b,
  length-drop (co + length p) b,
)

-- The bytes of the current chunk that have come in.
abbrev pub pending : Stream → List ℕ
pending s = take (chunk_offset s) s.chunk_buffer

pub pending-zero : (s : Stream) → s.offset % s.chunk_size ≡ 0 → pending s ≡ []
unfolding chunk_offset
pending-zero s e = rw e

pub take-none : (n : ℕ) (xs : List ℕ) → n ≡ 0 → take n xs ≡ []
take-none n xs e = rw e refl

-- The state of a transfer whose remaining data is `n` bytes.
pub record IsAt (s : Stream) (n : ℕ) : Type 0 where
  pub stream : IsStream s
  pub room : length s.chunk_buffer ≡ s.chunk_size
  pub left : s.offset + n ≡ s.transfer_length

-- The buffer behind a packet: as long as before, with the packet behind what was pending.
pub out_packet-buffer :
    (s : Stream) (p : List ℕ)
    → length s.chunk_buffer ≡ s.chunk_size
    → s.offset % s.chunk_size + length p ≤ s.chunk_size
    → (length (out_packet s p).0.chunk_buffer ≡ s.chunk_size)
      × (take (s.offset % s.chunk_size + length p) (out_packet s p).0.chunk_buffer ≡ pending s ++ p)
unfolding out_packet chunk_offset
out_packet-buffer s p room fits =
    let co = s.offset % s.chunk_size in
    elim (Bool-cases (co == 0)) [
      | inl e ↦ rw e (
        length-patch (replicate s.chunk_size 0) p co
              (omega (arith, length-replicate {A = ℕ} s.chunk_size 0))
            ∙ length-replicate {A = ℕ} s.chunk_size 0,
        take-patch (replicate s.chunk_size 0) p co
              (omega (arith, length-replicate {A = ℕ} s.chunk_size 0))
            ∙ ap (λ (b : List ℕ). b ++ p)
                (take-none co (replicate s.chunk_size 0) ((==_iff co 0).0 e)
                  ∙ sym (pending-zero s ((==_iff co 0).0 e))),
      )
      | inr e ↦ rw e (
        length-patch s.chunk_buffer p co (omega arith) ∙ room,
        take-patch s.chunk_buffer p co (omega arith),
      )
    ]

-- The packet's step, before the offset moves on.
pub chunk_len-last :
    (s : Stream) (l : ℕ) → IsAt s l → 0 < l → l ≤ 64 → out_chunk_len s ≡ s.offset % s.chunk_size + l
unfolding out_chunk_len chunk_offset
chunk_len-last s l at lo hi =
    let step = chunk_step s.chunk_size s.offset l at.stream.size at.stream.at_packet lo hi in
    let fits = at.stream.fits in
    let left = at.left in
    let end : s.transfer_length ≡ s.offset + l = sym left in
    let test : leb s.transfer_length (u32 (s.offset + 64)) ≡ true = ground arith in
    rw (test, end) (ground arith)

pub chunk_len-full :
    (s : Stream) (n : ℕ)
    → IsAt s (64 + n)
    → 0 < n
    → out_chunk_len s
      ≡ (if leb s.chunk_size (s.offset % s.chunk_size + 64) then s.chunk_size else 0)
unfolding out_chunk_len chunk_offset
chunk_len-full s n at lo =
    let fits = at.stream.fits in
    let left = at.left in
    let test : leb s.transfer_length (u32 (s.offset + 64)) ≡ false = ground arith in rw test refl
