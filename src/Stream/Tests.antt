-- ===== src/Stream/Tests.antt =====
-- A transfer from the host of 70 bytes, into the page buffer.
use pico_bootrom_rp.Common.{ℕ, ◌≡◌, refl, inl, List, [], ◌∷◌, ◌++◌, replicate, arith}
use pico_bootrom_rp.Stream.{Stream, setup_transfer}
use pico_bootrom_rp.Stream.Chunks.{pending}
use pico_bootrom_rp.Stream.Receive.{
  receive, concat, IsPackets, last_packet, full_packet, receive-concat,
}

abbrev page_stream : Stream
page_stream = record {
  offset = 0;
  transfer_length = 70;
  chunk_size = 256;
  chunk_buffer = replicate 256 9;
}

page_stream-setup : setup_transfer (replicate 256 9) 256 70 ≡ (page_stream, 2)
unfolding setup_transfer
page_stream-setup = refl

abbrev two_packets : List (List ℕ)
two_packets = replicate 64 1 ∷ replicate 6 2 ∷ []

two_packets-IsPackets : IsPackets two_packets
two_packets-IsPackets = full_packet refl (last_packet (omega arith) (omega arith))

receive-concat_example :
    concat (receive page_stream two_packets) ≡ pending page_stream ++ concat two_packets
receive-concat_example = receive-concat page_stream two_packets two_packets-IsPackets (record {
  stream = record { size = inl refl; at_packet = refl; fits = omega arith };
  room = refl;
  left = refl;
})
