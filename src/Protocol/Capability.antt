-- ===== src/Protocol/Capability.antt =====
-- atria-protocol/src/capability.rs: the capabilities, and the 64-bit sets of them.
pub mod SetLaws
use Prim.Native.String.{String}
use atria.Base.{ℕ, ◌-◌, ◌^◌, Bool, not, ◌==◌, bit_and, bit_or}

pub data Capability : Type 0 where
  surface_create buffer_import extended_input screencopy privileged_session : Capability
  software_shm gpu_prime explicit_gpu_fence revocable_seat drm_dumb_buffer : Capability
  drm_atomic_commit drm_page_flip input_keys shell_control output_control : Capability
  global_input_observation input_injection lock_screen input_method shortcut_control : Capability

-- `self as u32`.
unfoldable pub index : Capability → ℕ
index surface_create = 0
index buffer_import = 1
index extended_input = 2
index screencopy = 3
index privileged_session = 4
index software_shm = 5
index gpu_prime = 6
index explicit_gpu_fence = 7
index revocable_seat = 8
index drm_dumb_buffer = 9
index drm_atomic_commit = 10
index drm_page_flip = 11
index input_keys = 12
index shell_control = 13
index output_control = 14
index global_input_observation = 15
index input_injection = 16
index lock_screen = 17
index input_method = 18
index shortcut_control = 19

unfoldable pub mask : Capability → ℕ
unfolding index
mask c = 2 ^ index c

unfoldable pub name : Capability → String
name surface_create = "surface_create"
name buffer_import = "buffer_import"
name extended_input = "extended_input"
name screencopy = "screencopy"
name privileged_session = "privileged_session"
name software_shm = "software_shm"
name gpu_prime = "gpu_prime"
name explicit_gpu_fence = "explicit_gpu_fence"
name revocable_seat = "revocable_seat"
name drm_dumb_buffer = "drm_dumb_buffer"
name drm_atomic_commit = "drm_atomic_commit"
name drm_page_flip = "drm_page_flip"
name input_keys = "input_keys"
name shell_control = "shell_control"
name output_control = "output_control"
name global_input_observation = "global_input_observation"
name input_injection = "input_injection"
name lock_screen = "lock_screen"
name input_method = "input_method"
name shortcut_control = "shortcut_control"

-- The bits of a `u64`.
pub record CapabilitySet : Type 0 where
  pub bits : ℕ

unfoldable pub empty : CapabilitySet
empty = record { bits = 0 }

unfoldable pub default_grants : CapabilitySet
unfolding mask
default_grants = record { bits = bit_or (mask surface_create) (mask buffer_import) }

unfoldable pub contains : CapabilitySet → Capability → Bool
unfolding mask
contains s c = not (bit_and s.bits (mask c) == 0)

unfoldable pub with_capability : CapabilitySet → Capability → CapabilitySet
unfolding mask
with_capability s c = record { bits = bit_or s.bits (mask c) }

unfoldable pub without_capability : CapabilitySet → Capability → CapabilitySet
unfolding mask
without_capability s c = record { bits = bit_and s.bits (2 ^ 64 - 1 - mask c) }

unfoldable pub intersection : CapabilitySet → CapabilitySet → CapabilitySet
intersection s t = record { bits = bit_and s.bits t.bits }

unfoldable pub satisfies : CapabilitySet → CapabilitySet → Bool
satisfies s required = bit_and s.bits required.bits == required.bits
