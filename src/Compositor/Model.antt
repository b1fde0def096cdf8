-- ===== src/Compositor/Model.antt =====
-- The value types of atria-compositor/src/model.rs, shell.rs and resolve.rs. Identifiers are
-- numbers, and a surface key is the pair of a connection and an object, which order it.
use atria.Base.{
  ℕ, List, Option, none, some, Bool, true, false, not, ◌&&◌, leb, ltb, ◌==◌, bit_and, if◌then◌else◌,
  checked_mul, length, ◌≡◌, ◌↔◌, ◌||◌, arith,
}
use atria.Base.Int.{ℤ, pos, ◌+ℤ◌, leb_ℤ, ltb_ℤ}
use atria.Base.Map.{Key}
use atria.Protocol.Capability.{Capability}

abbrev pub ConnectionId : Type 0
ConnectionId = ℕ

abbrev pub ObjectId : Type 0
ObjectId = ℕ

abbrev pub null_id : ObjectId
null_id = 0

abbrev pub display_id : ObjectId
display_id = 1

-- `ObjectId::is_client_allocatable`.
abbrev pub is_client_allocatable : ObjectId → Bool
is_client_allocatable id = leb 2 id

abbrev pub CommitId : Type 0
CommitId = ℕ

abbrev pub SeatId : Type 0
SeatId = ℕ

abbrev pub ToplevelHandle : Type 0
ToplevelHandle = ℕ

-- A connection, and one of its surfaces.
abbrev pub SurfaceKey : Type 0
SurfaceKey = ConnectionId × ObjectId

pub data ChordMatch : Type 0 where
  exact at_least : ChordMatch

unfoldable pub chord_match_from_raw : ℕ → Option ChordMatch
chord_match_from_raw raw =
    if raw == 0 then some exact else (if raw == 1 then some at_least else none)

pub record Chord : Type 0 where
  pub trigger : ℕ
  pub modifiers : ℕ
  pub mode : ChordMatch

accepts_by : ChordMatch → ℕ → ℕ → Bool
accepts_by exact modifiers held = held == modifiers
accepts_by at_least modifiers held = bit_and held modifiers == modifiers

unfoldable pub accepts : Chord → ℕ → Bool
unfolding accepts_by
accepts c held = accepts_by c.mode c.modifiers held

mode_index : ChordMatch → ℕ
mode_index exact = 0
mode_index at_least = 1

pub chord_eqb : Chord → Chord → Bool
unfolding mode_index
chord_eqb a b =
    a.trigger == b.trigger && a.modifiers == b.modifiers && mode_index a.mode == mode_index b.mode

chord_lt : Chord → Chord → Bool
unfolding mode_index
chord_lt a b =
    ltb a.trigger b.trigger
    || a.trigger == b.trigger
      && (ltb a.modifiers b.modifiers
          || a.modifiers == b.modifiers && ltb (mode_index a.mode) (mode_index b.mode))

pub chord_eqb_iff : (a b : Chord) → (chord_eqb a b ≡ true) ↔ (a ≡ b)
unfolding chord_eqb
chord_eqb_iff a b = ground arith

-- The derived order of a chord.
instance abbrev pub chord_key : Key Chord
unfolding chord_eqb chord_lt
chord_key = record { eqb = chord_eqb; lt = chord_lt; eqb_iff = chord_eqb_iff }

pub data ObjectKind : Type 0 where
  display registry compositor shm shell toplevel shm_pool seat session surface : ObjectKind
  buffer fence input_stream shell_control pointer keyboard shortcuts text_input : ObjectKind
  input_method output : ObjectKind

pub record Point : Type 0 where
  pub x : ℤ
  pub y : ℤ

abbrev pub origin : Point
origin = record { x = pos 0; y = pos 0 }

pub record Size : Type 0 where
  pub width : ℕ
  pub height : ℕ

pub record Rect : Type 0 where
  pub x : ℤ
  pub y : ℤ
  pub width : ℕ
  pub height : ℕ

abbrev pub empty_rect : Rect
empty_rect = record { x = pos 0; y = pos 0; width = 0; height = 0 }

-- An `i32` and a `u32` cannot overflow an `i64`, so the two checked sums are sums.
unfoldable pub rect_contains : Rect → Point → Bool
rect_contains r p =
    leb_ℤ r.x p.x
    && ltb_ℤ p.x (r.x +ℤ pos r.width)
    && leb_ℤ r.y p.y
    && ltb_ℤ p.y (r.y +ℤ pos r.height)

pub data Damage : Type 0 where
  full : Damage
  rect : Rect → Damage

pub data BufferTransport : Type 0 where
  software_shm gpu_prime : BufferTransport

unfoldable pub transport_capability : BufferTransport → Capability
transport_capability software_shm = Capability.software_shm
transport_capability gpu_prime = Capability.gpu_prime

pub record BufferDescriptor : Type 0 where
  pub transport : BufferTransport
  pub size : Size
  pub stride : ℕ
  pub byte_len : ℕ

unfoldable pub within : Option ℕ → ℕ → Bool
within none limit = false
within (some n) limit = leb n limit

unfoldable pub is_structurally_valid : BufferDescriptor → Bool
unfolding within
is_structurally_valid d =
    not (d.size.width == 0)
    && not (d.size.height == 0)
    && not (d.stride == 0)
    && within (checked_mul d.stride d.size.height) d.byte_len

-- The three formats are numbered from 0.
unfoldable pub pixel_format_is_known : ℕ → Bool
pixel_format_is_known format = ltb format 3

pub data BufferState : Type 0 where
  available : BufferState
  pending : SurfaceKey → BufferState
  compositor_held : SurfaceKey → CommitId → BufferState

-- Three bits: pointer, keyboard, touch.
pub record SeatCapabilities : Type 0 where
  pub bits : ℕ

abbrev pub no_seat_capabilities : SeatCapabilities
no_seat_capabilities = record { bits = 0 }

pub data TextPurpose : Type 0 where
  normal password digits : TextPurpose

unfoldable pub admits_composition : TextPurpose → Bool
admits_composition password = false
admits_composition _ = true

-- Memory that a backend has validated: its name and its size.
pub record SharedMemory : Type 0 where
  pub id : ℕ
  pub size : ℕ

-- A title of at most 256 bytes and a text of at most 4096, as their bytes.
abbrev pub TitleText : Type 0
TitleText = List ℕ

unfoldable pub title_new : List ℕ → Option TitleText
title_new text = if leb (length text) 256 then some text else none

abbrev pub TextBuffer : Type 0
TextBuffer = List ℕ

unfoldable pub text_new : List ℕ → Option TextBuffer
text_new text = if leb (length text) 4096 then some text else none

pub data IdentitySource : Type 0 where
  panel position : IdentitySource
