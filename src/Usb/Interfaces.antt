-- ===== src/Usb/Interfaces.antt =====
-- usb_device_tiny/usb_device.c: how the descriptors of an interface are read, and how the device begins.
pub mod Descriptors
use pico_bootrom_rp.Common.{
  ℕ, zero, suc, ◌+◌, ◌*◌, ◌%◌, Bool, true, false, List, [], ◌∷◌, Option, none, some, ◌>>=◌, ◌==◌,
  if◌then◌else◌, test_bit, length, map, set, get_or, drop,
}
use pico_bootrom_rp.Usb.{Endpoint}
use pico_bootrom_rp.Usb.Reset.{endpoint_init_internal, endpoint_hw_init, for_each_hw_init}
use pico_bootrom_rp.Usb.Setup.{BulkEndpoint, no_completion, Device}

-- `USB_DESCRIPTOR_TYPE_ENDPOINT`
abbrev pub descriptor_type_endpoint : ℕ
descriptor_type_endpoint = 5

-- The memory from a descriptor on, and whether the loop of `usb_next_descriptor` stops there: it has
-- the type, and nothing is known behind the end of the bytes.
unfoldable pub stop_at : ℕ → List ℕ → Option (List ℕ) → Option (List ℕ)
stop_at kind [] further = none
stop_at kind (len ∷ []) further = none
stop_at kind (len ∷ k ∷ bytes) further = if k == kind then some (len ∷ k ∷ bytes) else further

-- `usb_next_descriptor`, from the bytes of a descriptor and all that follow to those of the next one
-- of the type. The fuel is one for each descriptor that is passed.
unfoldable pub next_descriptor : ℕ → ℕ → List ℕ → Option (List ℕ)
next_descriptor zero kind desc = none
next_descriptor (suc n) kind desc =
    let next = drop (get_or desc 0 0) desc in
    let further = next_descriptor n kind next in stop_at kind next further

-- `ep_desc->bEndpointAddress & 0xfu`
unfoldable pub ep_num_of : List ℕ → ℕ
ep_num_of ep_desc = get_or ep_desc 2 0 % 0x10

-- The endpoint that is set up from the bytes of its descriptor.
unfoldable pub endpoint_of : Bool → List ℕ → BulkEndpoint
endpoint_of double_buffered ep_desc = record {
  address = get_or ep_desc 2 0;
  endpoint =
      endpoint_init_internal (ep_num_of ep_desc) (test_bit (get_or ep_desc 2 0) 7)
        (get_or ep_desc 4 0 + 0x100 * get_or ep_desc 5 0) double_buffered;
  default_transfer = none;
}

-- `_endpoints`, by number.
abbrev pub Endpoints : Type 0
Endpoints = List (Option BulkEndpoint)

-- The loop of `usb_interface_init` over `endpoint_count` endpoints. What it reads behind the end of the
-- bytes is not known.
unfoldable pub init_endpoints : ℕ → Bool → List ℕ → Endpoints → Option Endpoints
init_endpoints zero double_buffered p eps = some eps
init_endpoints (suc n) double_buffered p eps = do
  ep_desc ← next_descriptor (length p) descriptor_type_endpoint p
  init_endpoints n double_buffered ep_desc
      (set eps (ep_num_of ep_desc) (some (endpoint_of double_buffered ep_desc)))

-- `usb_interface_init`, on the bytes from the interface descriptor on.
unfoldable pub interface_init : List ℕ → ℕ → Bool → Endpoints → Option Endpoints
interface_init desc endpoint_count double_buffered eps =
    init_endpoints endpoint_count double_buffered desc eps

-- The endpoints that `_usb_for_each_endpoint` visits, in its order.
unfoldable pub present : Endpoints → List BulkEndpoint
present [] = []
present (none ∷ eps) = present eps
present (some b ∷ eps) = b ∷ present eps

-- The endpoints as the visits have left them.
unfoldable pub visited : List BulkEndpoint → List Endpoint → List BulkEndpoint
visited (b ∷ bs) (ep ∷ eps) = record b { endpoint = ep } ∷ visited bs eps
visited bs eps = bs

-- `usb_device_init`, on a device that is zero otherwise.
unfoldable pub device_init : List ℕ → List ℕ → ℕ → Endpoints → Device
device_init desc config_desc interface_count eps = record {
  descriptor = desc;
  config_descriptor = config_desc;
  b_configuration_value = get_or config_desc 5 0;
  interface_count = interface_count;
  current_address = 0;
  current_config_num = 0;
  pending_address = 0;
  control_in = (endpoint_hw_init 0x100 (endpoint_init_internal 0 true 64 false)).0;
  control_out = (endpoint_hw_init 0x100 (endpoint_init_internal 0 false 64 false)).0;
  endpoints =
      visited (present (drop 1 eps))
        (for_each_hw_init 0x180 (map (λ b. b.endpoint) (present (drop 1 eps)))).0;
  in_data = [];
  in_completion = no_completion;
  out_completion = no_completion;
  configures = [];
}
