-- ===== src/Compositor/Tests/Scene.antt =====
-- The theorems on the scene at a connection with one surface.
use atria.Base.{◌↔◌, err, Option, ◌≡◌, refl, [], ◌∷◌, none, some, false, ok, arith}
use atria.Base.Int.{pos}
use atria.Base.Map.{lookup, insert, ℕ_key}
use atria.Compositor.Model.{ObjectKind, Point, origin}
use atria.Compositor.Request.{EventKind}
use atria.Compositor.Registry.{}
use atria.Compositor.Registry.Lifetime.{}
use atria.Compositor.Output.{}
use atria.Compositor.Output.Reachable.{}
use atria.Compositor.State.{CompositorState, Connection, Object, default_limits}
use atria.Compositor.State
use atria.Base.Map.{pair_key}
use atria.Compositor.Model.{BufferDescriptor, BufferTransport, BufferState, Damage}
use atria.Compositor.State.{
  CurrentSurface, PendingAttachment, nothing_pending, SurfaceState, BufferObject,
}
use atria.Compositor.State.Access.{kind_eqb, key_eqb}
use atria.Compositor.State.Surface.{commit}
use atria.Compositor.State.Stacking.{place_surface, raise_surface, scene_faults}
use atria.Compositor.State.Stacking.Effects.{content_of, registry_entry, has_content}
use atria.Compositor.State.Stacking.Sound.{IsComposed}
use atria.Compositor.State.Stacking.Commit.{commit-IsComposed}
use atria.Compositor.Error.{SceneFault}
use atria.Compositor.Registry.{kind_of}
use atria.Compositor.State.Access.{surface_snapshot}
use atria.Compositor.State.Stacking.{stack_faults, entry_fault, connection_fault, kind_fault}
use atria.Compositor.State.Stacking.Faults.{IsFaultless, scene_faults_iff, place-raise-IsComposed}
use atria.Compositor.State.Teardown.{close_connection, push_event}
use atria.Compositor.State.Teardown.Gone.{}
use atria.Base.{is_ok}
use atria.Base.Map.{update}
use atria.Compositor.Model.{ObjectId}
use atria.Compositor.State.{BufferObject}
use atria.Compositor.State.Access.{buffer}
use atria.Compositor.State.Surface.{attach}
use atria.Compositor.State.Surface.Attachment.{attach-exclusive}
use atria.Compositor.Tests.{client_with, two_clients}

-- A connection with a surface and its buffer, before a commit shows it and after.
abbrev shape : BufferDescriptor
shape = record {
  transport = BufferTransport.software_shm;
  size = record { width = 4; height = 2 };
  stride = 16;
  byte_len = 32;
}

abbrev shown_content : CurrentSurface
shown_content = record {
  snapshot = record {
    role = none;
    buffer = 6;
    offset = origin;
    damage = Damage.full ∷ [];
    commit = 1;
    refresh_range = none;
    acquire_fence = none;
  };
  frame_callback = false;
  frame_serial = 0;
}

abbrev surface_with : PendingAttachment → Option CurrentSurface → Object
surface_with attachment current = Object.surface (record {
  session = 4;
  role = none;
  pending = record nothing_pending { attachment = attachment };
  current = current;
  frame_requested = false;
  frame_serial = 0;
  consecutive_deadline_misses = 0;
})

abbrev drawing_client : Object → BufferState → Connection
drawing_client window buffer_state = record (client_with 0) {
  registry = record {
    live =
        (1, record { kind = ObjectKind.display; value = Object.display })
        ∷ (5, record { kind = ObjectKind.surface; value = window })
        ∷ (
          6,
          record {
            kind = ObjectKind.buffer;
            value =
                Object.buffer (record { descriptor = shape; state = buffer_state; source = none });
          },
        )
        ∷ [];
    used = (1, tt) ∷ (5, tt) ∷ (6, tt) ∷ [];
    creation_order = 1 ∷ 5 ∷ 6 ∷ [];
  };
}

abbrev pub drawing : CompositorState
drawing = record two_clients {
  connections =
      (
        1,
        drawing_client (surface_with (PendingAttachment.set_buffer 6 origin) none)
            (BufferState.pending (1, 5)),
      )
      ∷ [];
}

abbrev drawn : CompositorState
drawn = record two_clients {
  connections =
      (
        1,
        drawing_client (surface_with PendingAttachment.unchanged (some shown_content))
            (BufferState.compositor_held (1, 5) 1),
      )
      ∷ [];
  scene = record { positions = ((1, 5), origin) ∷ []; stack = (1, 5) ∷ [] };
}

drawing-IsComposed : IsComposed drawing
unfolding State.new lookup content_of registry_entry has_content kind_eqb key_eqb
drawing-IsComposed = record {
  shown = λ d j. ground arith;
  placed = λ key h. ground (arith, h);
  connected = λ key h. ground (arith, h);
}

drawn-IsComposed : IsComposed drawn
unfolding State.new lookup content_of registry_entry has_content kind_eqb key_eqb
drawn-IsComposed = record {
  shown = λ d j. ground arith;
  placed = λ key h. ground (arith, h);
  connected = λ key h. ground (arith, h);
}

commit-IsComposed_example : IsComposed (commit drawing 1 5).0
commit-IsComposed_example = commit-IsComposed drawing 1 5 drawing-IsComposed

scene_faults_iff_example : (scene_faults drawn ≡ ok tt) ↔ IsFaultless drawn
scene_faults_iff_example = scene_faults_iff drawn

-- The scene without its position: the surface that is stacked has none.
unplaced_fault :
    scene_faults (record drawn { scene = record drawn.scene { positions = [] } })
    ≡ err (SceneFault.no_position (1, 5))
unfolding scene_faults stack_faults entry_fault connection_fault kind_fault kind_of surface_snapshot
    lookup key_eqb
unplaced_fault = refl

abbrev elsewhere : Point
elsewhere = record { x = pos 30; y = pos 40 }

abbrev drawn_elsewhere : CompositorState
drawn_elsewhere = record drawn {
  scene = record { positions = ((1, 5), elsewhere) ∷ []; stack = (1, 5) ∷ [] };
}

place_drawn : place_surface drawn (1, 5) elsewhere ≡ ok drawn_elsewhere
unfolding place_surface lookup key_eqb insert
place_drawn = refl

raise_drawn : raise_surface drawn (1, 5) ≡ ok drawn
unfolding raise_surface lookup key_eqb
raise_drawn = refl

place-raise-IsComposed_example :
    IsComposed drawn_elsewhere
    × IsComposed drawn
    × IsComposed (push_event drawn 1 5 EventKind.close)
    × IsComposed (close_connection drawn 1).0
place-raise-IsComposed_example =
    place-raise-IsComposed drawn drawn_elsewhere drawn (1, 5) elsewhere 1 5 EventKind.close
      drawn-IsComposed place_drawn raise_drawn

-- Before the buffer is attached.
abbrev idle : CompositorState
idle = record two_clients {
  connections =
      (1, drawing_client (surface_with PendingAttachment.unchanged none) BufferState.available)
      ∷ [];
}

first_attached : attach idle 1 5 6 origin none ≡ ok drawing
unfolding attach lookup update
first_attached = refl

attach-exclusive_example :
    (x : BufferObject) × (buffer idle 1 6 ≡ ok x)
    × (x.state ≡ BufferState.available)
    × (buffer drawing 1 6 ≡ ok (record x { state = BufferState.pending (1, 5) }))
    × ((other : ObjectId) (place : Point) (g : Option ObjectId)
        → is_ok (attach drawing 1 other 6 place g) ≡ false)
attach-exclusive_example =
    attach-exclusive idle drawing drawing 1 5 6 origin none (omega arith) first_attached refl
