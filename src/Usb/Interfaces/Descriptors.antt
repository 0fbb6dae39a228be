-- ===== src/Usb/Interfaces/Descriptors.antt =====
-- The endpoints of an interface are those of its endpoint descriptors, whatever lies between them.
use pico_bootrom_rp.Common.{
  ℕ, zero, suc, ◌+◌, ◌*◌, ◌/◌, ◌%◌, ◌≤◌, ◌<◌, ◌≡◌, ◌∙◌, refl, sym, Bool, false, List, [], ◌∷◌, ◌++◌,
  Option, none, some, ◌==◌, test_bit, length, length-append, set, get_or, drop, drop-length, u8,
  arith,
}
use pico_bootrom_rp.Usb.Reset.{endpoint_init_internal}
use pico_bootrom_rp.Usb.Setup.{BulkEndpoint}
use pico_bootrom_rp.Usb.Interfaces.{
  descriptor_type_endpoint, stop_at, next_descriptor, ep_num_of, endpoint_of, Endpoints,
  init_endpoints, interface_init,
}

-- `struct usb_endpoint_descriptor`, and a descriptor of another type with the bytes it has behind that.
pub data Descriptor : Type 0 where
  endpoint_descriptor :
      (b_endpoint_address bm_attributes w_max_packet_size b_interval : ℕ) → Descriptor
  other_descriptor : (b_descriptor_type : ℕ) (bytes : List ℕ) → Descriptor

unfoldable pub encode : Descriptor → List ℕ
encode (endpoint_descriptor address attributes size interval) =
    7 ∷ 5 ∷ address ∷ attributes ∷ u8 size ∷ u8 (size / 0x100) ∷ interval ∷ []
encode (other_descriptor kind bytes) = u8 (2 + length bytes) ∷ kind ∷ bytes

unfoldable pub encode_all : List Descriptor → List ℕ
encode_all [] = []
encode_all (d ∷ ds) = encode d ++ encode_all ds

-- A descriptor of another type is no endpoint descriptor, and its length is a byte.
abbrev pub IsDescriptor : Descriptor → Type 0
IsDescriptor (endpoint_descriptor address attributes size interval) = size < 0x1_0000
IsDescriptor (other_descriptor kind bytes) = ((kind == 5) ≡ false) × (length bytes + 2 < 0x100)

abbrev pub AreDescriptors : List Descriptor → Type 0
AreDescriptors [] = Unit {0}
AreDescriptors (d ∷ ds) = IsDescriptor d × AreDescriptors ds

-- The endpoint of such a descriptor, by its fields.
unfoldable pub described : Bool → ℕ → ℕ → BulkEndpoint
described double_buffered address size = record {
  address = address;
  endpoint = endpoint_init_internal (address % 0x10) (test_bit address 7) size double_buffered;
  default_transfer = none;
}

-- The first `n` endpoints of the descriptors; nothing if there are fewer.
unfoldable pub endpoints_of : Bool → ℕ → List Descriptor → Endpoints → Option Endpoints
endpoints_of double_buffered zero ds eps = some eps
endpoints_of double_buffered (suc n) [] eps = none
endpoints_of double_buffered (suc n) (endpoint_descriptor address attributes size interval ∷ ds)
      eps =
    endpoints_of double_buffered n ds
      (set eps (address % 0x10) (some (described double_buffered address size)))
endpoints_of double_buffered (suc n) (other_descriptor kind bytes ∷ ds) eps =
    endpoints_of double_buffered (suc n) ds eps

drop-encode :
    (d : Descriptor) (bytes : List ℕ)
    → IsDescriptor d
    → drop (get_or (encode d ++ bytes) 0 0) (encode d ++ bytes) ≡ bytes
unfolding encode
drop-encode (endpoint_descriptor a b c e) bytes h = refl
drop-encode (other_descriptor k bs) bytes h =
    let l : u8 (2 + length bs) ≡ suc (suc (length bs)) = omega arith in rw l (drop-length bs bytes)

-- The bytes from the first endpoint descriptor on.
first_endpoint : List Descriptor → Option (List ℕ)
first_endpoint [] = none
first_endpoint (endpoint_descriptor a b c e ∷ ds) =
    some (encode_all (endpoint_descriptor a b c e ∷ ds))
first_endpoint (other_descriptor k bs ∷ ds) = first_endpoint ds

stop_at-encode_all :
    (ds : List Descriptor) (further : Option (List ℕ))
    → AreDescriptors ds
    → further ≡ first_endpoint (drop 1 ds)
    → stop_at descriptor_type_endpoint (encode_all ds) further ≡ first_endpoint ds
unfolding stop_at encode_all encode first_endpoint
stop_at-encode_all [] further h e = refl
stop_at-encode_all (endpoint_descriptor a b c e ∷ ds) further h f = refl
stop_at-encode_all (other_descriptor k bs ∷ ds) further h f = rw h.0.0 f

next_descriptor-first_endpoint :
    (n : ℕ) (d : Descriptor) (ds : List Descriptor)
    → length ds < n
    → IsDescriptor d
    → AreDescriptors ds
    → next_descriptor n descriptor_type_endpoint (encode d ++ encode_all ds) ≡ first_endpoint ds
unfolding next_descriptor encode_all stop_at first_endpoint
next_descriptor-first_endpoint zero d ds h i a = absurd (omega arith)
next_descriptor-first_endpoint (suc n) d [] h i a = rw (drop-encode d [] i) refl
next_descriptor-first_endpoint (suc n) d (o ∷ ds) h i a =
    rw (drop-encode d (encode_all (o ∷ ds)) i) (
      stop_at-encode_all (o ∷ ds) _ a (next_descriptor-first_endpoint n o ds (omega arith) a.0 a.1))

length-encode : (d : Descriptor) → 0 < length (encode d)
unfolding encode
length-encode (endpoint_descriptor a b c e) = omega arith
length-encode (other_descriptor k bs) = omega arith

length-encode_all : (ds : List Descriptor) → length ds ≤ length (encode_all ds)
unfolding encode_all
length-encode_all [] = omega arith
length-encode_all (d ∷ ds) =
    let some = length-encode d in
    let more = length-encode_all ds in
    let sum = length-append (encode d) (encode_all ds) in omega arith

-- The loop, at the descriptor `d`.
next-first_endpoint :
    (d : Descriptor) (ds : List Descriptor)
    → IsDescriptor d
    → AreDescriptors ds
    → next_descriptor
        (length (encode d ++ encode_all ds))
        descriptor_type_endpoint
        (encode d ++ encode_all ds)
      ≡ first_endpoint ds
next-first_endpoint d ds h a =
    let some = length-encode d in
    let more = length-encode_all ds in
    let sum = length-append (encode d) (encode_all ds) in
    next_descriptor-first_endpoint _ d ds (omega arith) h a

described-endpoint_of :
    (double_buffered : Bool) (a b c e : ℕ) (bytes : List ℕ)
    → c < 0x1_0000
    → endpoint_of double_buffered (encode (endpoint_descriptor a b c e) ++ bytes)
      ≡ described double_buffered a c
unfolding encode endpoint_of described ep_num_of
described-endpoint_of double_buffered a b c e bytes h =
    let size : u8 c + 0x100 * u8 (c / 0x100) ≡ c = omega arith in rw size

init_endpoints-next :
    (n : ℕ) (double_buffered : Bool) (p q : List ℕ) (eps : Endpoints)
    → next_descriptor (length p) descriptor_type_endpoint p
      ≡ next_descriptor (length q) descriptor_type_endpoint q
    → init_endpoints n double_buffered p eps ≡ init_endpoints n double_buffered q eps
unfolding init_endpoints
init_endpoints-next zero double_buffered p q eps e = refl
init_endpoints-next (suc n) double_buffered p q eps e = rw e

init_endpoints-described :
    (n : ℕ) (double_buffered : Bool) (d : Descriptor) (ds : List Descriptor) (eps : Endpoints)
    → IsDescriptor d
    → AreDescriptors ds
    → init_endpoints n double_buffered (encode d ++ encode_all ds) eps
      ≡ endpoints_of double_buffered n ds eps
unfolding init_endpoints endpoints_of first_endpoint ep_num_of encode_all encode
init_endpoints-described zero double_buffered d ds eps h a = refl
init_endpoints-described (suc n) double_buffered d [] eps h a = rw (next-first_endpoint d [] h a)
init_endpoints-described (suc n) double_buffered d (endpoint_descriptor a b c e ∷ ds) eps h i =
    rw
      (
        next-first_endpoint d (endpoint_descriptor a b c e ∷ ds) h i,
        described-endpoint_of double_buffered a b c e (encode_all ds) i.0,
      )
      (init_endpoints-described n double_buffered (endpoint_descriptor a b c e) ds _ i.0 i.1)
init_endpoints-described (suc n) double_buffered d (other_descriptor k bs ∷ ds) eps h i =
    init_endpoints-next (suc n) double_buffered
      (encode d ++ encode_all (other_descriptor k bs ∷ ds)) (encode d ++ encode_all ds) eps
      (next-first_endpoint d (other_descriptor k bs ∷ ds) h i
        ∙ sym (next-first_endpoint d ds h i.1))
    ∙ init_endpoints-described (suc n) double_buffered d ds eps h i.1

-- Whatever descriptors follow that of an interface, of whatever types and in whatever order:
-- usb_interface_init sets up the first of its endpoints by the fields of their descriptors and enters each at its
-- number, and finds fewer descriptors exactly where there are fewer.
pub interface_init-endpoints_of :
    (interface : List ℕ) (n : ℕ) (double_buffered : Bool) (ds : List Descriptor) (eps : Endpoints)
    → length interface + 2 < 0x100
    → AreDescriptors ds
    → interface_init (encode (other_descriptor 4 interface) ++ encode_all ds) n double_buffered eps
      ≡ endpoints_of double_buffered n ds eps
unfolding interface_init
interface_init-endpoints_of interface n double_buffered ds eps h a =
    init_endpoints-described n double_buffered (other_descriptor 4 interface) ds eps
      (refl, omega arith) a
