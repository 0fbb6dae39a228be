-- ===== src/Driver/PutGet.antt =====
-- bootrom/program_flash_generic.c: flash_put_get, which feeds the SPI controller and empties it while the
-- controller moves bytes on at any time in between.
pub mod Loop
pub mod InFlight
pub mod Answers
pub mod Ends
pub mod Finish
pub mod Result
mod Tests
use pico_bootrom_rp.Common.{
  ℕ, zero, suc, ◌+◌, ◌-◌, ◌<◌, ◌≡◌, Bool, true, false, ◌&&◌, ◌||◌, not, List, [], ◌∷◌, ◌++◌, ltb,
  leb, ◌==◌, if◌then◌else◌, length,
}

-- The controller and the chip: the bytes in the TX FIFO, the oldest first; the answers that are inside
-- of the controller, and in the RX FIFO; the bytes that the chip has been sent since it was selected;
-- and whether an answer was lost because the RX FIFO was full.
pub record Link : Type 0 where
  pub tx : List ℕ
  pub inside : List ℕ
  pub rx : List ℕ
  pub clocked : List ℕ
  pub overflowed : Bool

abbrev pub fifo_depth : ℕ
fifo_depth = 16

-- `max_in_flight`
abbrev pub max_in_flight : ℕ
max_in_flight = 16 - 2

-- Where the loop stands: at its condition, behind the read of `txflr`, behind that of `rxflr`, behind
-- the write with `did_something` and `rx_level`, behind the read with `did_something`, or behind
-- the loop, with whether it was aborted.
pub data Place : Type 0 where
  at_condition : Place
  has_tx_level : ℕ → Place
  has_levels : ℕ → ℕ → Place
  has_put : Bool → ℕ → Place
  has_got : Bool → Place
  finished : Bool → Place

-- The local variables: the bytes still to send, of which there are `tx_count`, the two counts,
-- the bytes that were skipped and those that were stored to `rx`.
pub record Exchange : Type 0 where
  pub link : Link
  pub place : Place
  pub to_send : List ℕ
  pub rx_skip : ℕ
  pub rx_count : ℕ
  pub skipped : List ℕ
  pub received : List ℕ

-- `ssi->dr0 = *tx++; --tx_count;`
unfoldable pub put_byte : List ℕ → Exchange → Exchange
put_byte [] t = t
put_byte (b ∷ rest) t = record t {
  link = record t.link { tx = t.link.tx ++ (b ∷ []) };
  to_send = rest;
}

-- `ssi->dr0` as a value, and what the code does with it. Nothing comes from an empty FIFO.
unfoldable pub got_byte : ℕ → Exchange → Exchange
got_byte a t =
    if t.rx_skip == 0
    then record t { received = t.received ++ (a ∷ []); rx_count = t.rx_count - 1 }
    else record t { skipped = t.skipped ++ (a ∷ []); rx_skip = t.rx_skip - 1 }

unfoldable pub get_byte : List ℕ → Exchange → Exchange
get_byte [] t = t
get_byte (a ∷ rest) t = got_byte a (record t { link = record t.link { rx = rest } })

unfoldable pub is_empty : List ℕ → Bool
is_empty [] = true
is_empty (b ∷ bs) = false

-- The condition of the loop.
unfoldable pub goes_on : Exchange → Bool
goes_on t = not (is_empty t.to_send) || not (t.rx_skip == 0) || not (t.rx_count == 0)

-- The two halves of a round.
unfoldable pub put : ℕ → ℕ → Exchange → Exchange
put tx_level rx_level t =
    let puts = not (is_empty t.to_send) && ltb (tx_level + rx_level) max_in_flight in
    if puts
    then record (put_byte t.to_send t) { place = has_put true rx_level }
    else record t { place = has_put false rx_level }

unfoldable pub get : Bool → ℕ → Exchange → Exchange
get did rx_level t =
    if rx_level == 0
    then record t { place = has_got did }
    else record (get_byte t.link.rx t) { place = has_got true }

-- What the loop does next from its place, where `aborted` is what `flash_was_aborted` returns.
unfoldable pub proceed : Bool → Place → Exchange → Exchange
proceed aborted at_condition t =
    if goes_on t
    then record t { place = has_tx_level (length t.link.tx) }
    else record t { place = finished false }
proceed aborted (has_tx_level tx_level) t = record t {
  place = has_levels tx_level (length t.link.rx);
}
proceed aborted (has_levels tx_level rx_level) t = put tx_level rx_level t
proceed aborted (has_put did rx_level) t = get did rx_level t
proceed aborted (has_got did) t =
    if not did && aborted
    then record t { place = finished true }
    else record t { place = at_condition }
proceed aborted (finished b) t = t

-- The answer of the chip to each byte, by the place of the byte in the transfer.
module _ (chip : ℕ → ℕ) where
  -- The controller sends a byte, and has the chip's answer inside of it.
  unfoldable pub clock_byte : ℕ → List ℕ → Link → Link
  clock_byte b rest l = record l {
    tx = rest;
    inside = l.inside ++ (chip (length l.clocked) ∷ []);
    clocked = l.clocked ++ (b ∷ []);
  }

  -- The controller puts an answer into the RX FIFO, or loses it.
  unfoldable pub deliver_byte : ℕ → List ℕ → Link → Link
  deliver_byte a rest l = record l {
    inside = rest;
    rx = if ltb (length l.rx) fifo_depth then l.rx ++ (a ∷ []) else l.rx;
    overflowed = l.overflowed || not (ltb (length l.rx) fifo_depth);
  }

  -- What happens next: the controller, which has room for two bytes inside of it, sends a byte or
  -- delivers an answer, or the loop proceeds.
  pub data Step : Exchange → Exchange → Type 0 where
    clocks :
        (t : Exchange) (b : ℕ) (rest : List ℕ)
        → t.link.tx ≡ b ∷ rest
        → length t.link.inside < 2
        → Step t (record t { link = clock_byte b rest t.link })
    delivers :
        (t : Exchange) (a : ℕ) (rest : List ℕ)
        → t.link.inside ≡ a ∷ rest
        → Step t (record t { link = deliver_byte a rest t.link })
    proceeds : (t : Exchange) (aborted : Bool) → Step t (proceed aborted t.place t)

  pub data Steps (t : Exchange) : Exchange → Type 0 where
    here : Steps t t
    next : {u v : Exchange} → Steps t u → Step u v → Steps t v

-- The call of `flash_put_get`, behind the bytes of a command that were written to the TX FIFO.
unfoldable pub begin_exchange : List ℕ → List ℕ → Exchange
begin_exchange command bytes = record {
  link = record { tx = command; inside = []; rx = []; clocked = []; overflowed = false };
  place = at_condition;
  to_send = bytes;
  rx_skip = length command;
  rx_count = length bytes;
  skipped = [];
  received = [];
}
