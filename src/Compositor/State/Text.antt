-- ===== src/Compositor/State/Text.antt =====
-- The text fields of atria-compositor/src/state/text.rs, and the requests for them in
-- `dispatch_checked` of state/mod.rs.
use atria.Base.{
  ℕ, not, ◌&&◌, Option, none, some, ◌==◌, leb, if◌then◌else◌, length, Result, ok, ◌>>◌, guard,
}
use atria.Base.Int.{ℤ}
use atria.Base.Map.{insert, remove, update, ℕ_key, pair_key}
use atria.Compositor.Error.{StateError}
use atria.Compositor.Request.{EventKind}
use atria.Compositor.Model.{
  ConnectionId, ObjectId, chord_key, ObjectKind, Rect, empty_rect, TextPurpose, TextBuffer,
}
use atria.Compositor.State.{CompositorState, TextField, max_text_fields}
use atria.Compositor.State.Access.{expect_kind}
use atria.Compositor.State.Teardown.{push_event, refresh_composition}

unfoldable pub composing_caret : CompositorState → Option Rect
composing_caret s = elim s.composing [ none ↦ none | some f ↦ some f.caret ]

unfoldable pub tell_composing : CompositorState → EventKind → Option TextField → CompositorState
unfolding push_event
tell_composing s kind none = s
tell_composing s kind (some f) = push_event s f.connection f.object kind

-- Text for a composition that has ended is dropped.
unfoldable pub tell_field : CompositorState → ℕ → EventKind → CompositorState
unfolding tell_composing
tell_field s n kind = if n == s.composition then tell_composing s kind s.composing else s

-- `EnableText` and `DisableText`.
unfoldable pub enable_text :
    CompositorState → ConnectionId → ObjectId → TextPurpose → Result StateError CompositorState
unfolding expect_kind refresh_composition
enable_text s c id purpose = do
  expect_kind s c id ObjectKind.text_input
  guard (not (leb max_text_fields (length s.fields))) (StateError.quota_exceeded id)
  ok (
      refresh_composition (record s {
        fields =
            insert (c, id)
              (record { connection = c; object = id; purpose = purpose; caret = empty_rect })
              s.fields;
      }))

unfoldable pub disable_text :
    CompositorState → ConnectionId → ObjectId → Result StateError CompositorState
unfolding expect_kind refresh_composition
disable_text s c id = do
  expect_kind s c id ObjectKind.text_input
  ok (refresh_composition (record s { fields = remove (c, id) s.fields }))

move_caret : ConnectionId → ObjectId → Rect → TextField → TextField
move_caret c id r f = if f.connection == c && f.object == id then record f { caret = r } else f

-- `SetCursorArea`.
unfoldable pub set_cursor_area :
    CompositorState → ConnectionId → ObjectId → Rect → Result StateError CompositorState
unfolding expect_kind move_caret
set_cursor_area s c id r = do
  expect_kind s c id ObjectKind.text_input
  ok (record s {
    fields = update (c, id) (λ f. record f { caret = r }) s.fields;
    composing = elim s.composing [ none ↦ none | some f ↦ some (move_caret c id r f) ];
  })

-- `SetPreedit`, `CommitText` and `TextDone`.
unfoldable pub set_preedit :
    CompositorState
    → ConnectionId
    → ObjectId
    → ℕ
    → TextBuffer
    → ℤ
    → ℤ
    → Result StateError CompositorState
unfolding expect_kind tell_field
set_preedit s c id n text begin end = do
  expect_kind s c id ObjectKind.input_method
  ok (tell_field s n (EventKind.text_preedit n text begin end))

unfoldable pub commit_text :
    CompositorState → ConnectionId → ObjectId → ℕ → TextBuffer → Result StateError CompositorState
unfolding expect_kind tell_field
commit_text s c id n text = do
  expect_kind s c id ObjectKind.input_method
  ok (tell_field s n (EventKind.text_commit n text))

unfoldable pub text_done :
    CompositorState → ConnectionId → ObjectId → ℕ → ℕ → Result StateError CompositorState
unfolding expect_kind tell_field
text_done s c id n serial = do
  expect_kind s c id ObjectKind.input_method
  ok (tell_field s n (EventKind.text_done serial))
