-- ===== src/Stream.antt =====
-- `usb_device_tiny/usb_stream_helper.c`: a transfer of any length, in USB packets of 64 bytes, that is
-- handed to its owner in chunks of a buffer's size.
pub mod Chunks
pub mod Receive
mod Tests
use pico_bootrom_rp.Common.{
  ℕ, ◌+◌, ◌-◌, ◌%◌, ◌/◌, ◌≤◌, ◌<◌, ◌≡◌, ◌⊎◌, List, [], ◌∷◌, ◌++◌, ltb, leb, ◌==◌, if◌then◌else◌,
  u32, length, take, drop, replicate, arith,
}

-- `struct usb_stream_transfer`, less the endpoint, the callbacks and the core transfer.
pub record Stream : Type 0 where
  pub offset : ℕ
  pub transfer_length : ℕ
  pub chunk_size : ℕ
  pub chunk_buffer : List ℕ

-- `memcpy` into an array, `offset` elements in.
unfoldable pub patch : List ℕ → ℕ → List ℕ → List ℕ
patch buffer offset bytes = take offset buffer ++ (bytes ++ drop (offset + length bytes) buffer)

-- `offset & (chunk_size - 1)`: the chunk sizes are powers of two.
unfoldable pub chunk_offset : Stream → ℕ
chunk_offset s = s.offset % s.chunk_size

-- `usb_stream_setup_transfer`: the stream, and the number of packets that the transfer expects.
unfoldable pub setup_transfer : List ℕ → ℕ → ℕ → Stream × ℕ
setup_transfer chunk_buffer chunk_size transfer_length = (
  record {
    offset = 0;
    transfer_length = transfer_length;
    chunk_size = chunk_size;
    chunk_buffer = chunk_buffer;
  },
  u32 (transfer_length + 63) / 64,
)

-- The length of the chunk that a packet from the host completes, or 0.
unfoldable pub out_chunk_len : Stream → ℕ
out_chunk_len s =
    if leb s.transfer_length (u32 (s.offset + 64))
    then (if s.transfer_length % s.chunk_size == 0
        then s.chunk_size
        else s.transfer_length % s.chunk_size)
    else if leb s.chunk_size (chunk_offset s + 64)
    then s.chunk_size
    else 0

-- `_usb_stream_packet_packet_handler` for a packet from the host, up to the call of `on_chunk`.
unfoldable pub out_packet : Stream → List ℕ → Stream × ℕ
out_packet s bytes =
    let start = if chunk_offset s == 0 then replicate s.chunk_size 0 else s.chunk_buffer in
    (record s { chunk_buffer = patch start (chunk_offset s) bytes }, out_chunk_len s)

-- `usb_stream_packet_handler_complete` for a packet from the host.
unfoldable pub out_complete : Stream → ℕ → Stream
out_complete s data_len = record s { offset = u32 (s.offset + data_len) }

-- The length of the chunk that is asked for before a packet to the host, or 0.
unfoldable pub in_chunk_len : Stream → ℕ
in_chunk_len s =
    if chunk_offset s == 0
    then (if ltb s.transfer_length (u32 (s.offset + s.chunk_size))
        then s.transfer_length - s.offset
        else s.chunk_size)
    else 0

-- `usb_stream_packet_handler_complete` for a packet to the host: the packet, and the stream behind it.
unfoldable pub in_complete : Stream → List ℕ × Stream
in_complete s =
    let data_len =
      if ltb s.transfer_length (u32 (s.offset + 64)) then s.transfer_length - s.offset else 64 in
    (
      take data_len (drop (chunk_offset s) s.chunk_buffer),
      record s { offset = u32 (s.offset + data_len) },
    )

-- The chunk sizes that the boot ROM uses: a page of flash, and a sector of the disk.
abbrev pub IsChunkSize : ℕ → Type 0
IsChunkSize n = (n ≡ 256) ⊎ (n ≡ 512)

-- A transfer in progress, at a packet's boundary, with no wrap-around in its offsets.
pub record IsStream (s : Stream) : Type 0 where
  pub size : IsChunkSize s.chunk_size
  pub at_packet : s.offset % 64 ≡ 0
  pub fits : s.transfer_length + 512 < 0x1_0000_0000
