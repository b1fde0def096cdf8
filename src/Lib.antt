-- ===== src/Lib.antt =====
-- Atria, a portable display server: a model of its protocol and of its compositor's state machine.
--
-- The repository is a workspace of crates. `atria-protocol` defines the operations and their bytes.
-- `atria-compositor` turns decoded requests into changes of one state and events for its clients; it
-- does no input or output. `atria-input`, `atria-drm`, `atria-vnc` and `atria-software-output` are
-- backends, `atria-transport` moves messages and `atriad` is the program that joins them.
--
-- Base holds the shared lists, ordered maps (`BTreeMap` as an association list in the order of its
-- keys), results, integers and bits.
--
-- Protocol models `atria-protocol/src`: Interface and Operations the table of interface.rs, Wire the
-- headers, frames and placeholders of wire.rs with `Header::encode` and `Header::decode` as
-- `encode_header` and `decode_header`, Wire/Primitive its `Encoder` and `Decoder`, Capability and
-- Version the files of those names, Error the errors. A slice of bytes is a list of numbers below
-- 256, an output buffer that is written to is part of the result, and `usize` has 64 bits.
--
-- Compositor models `atria-compositor/src`: Model, Request and Error the types of model.rs, shell.rs
-- and error.rs, Registry registry.rs, Output output.rs, and State the files of state/,
-- a function for each modelled method of `CompositorState`. State/Access has the look-ups and
-- quotas, State/Push `push_event` over a given `close_connection`, State/Composition
-- `refresh_composition`, State/Teardown `close_connection` itself, State/Connect connections and
-- grants, State/Surface from `attach` to `commit`, State/Frame roles, frames, fences and releases,
-- State/Stacking the scene, State/Present `present`, State/Focus the keyboard focus and the activity of
-- seats and sessions, State/Destroy `destroy_object` and `revoke_capability`, State/Toplevels pools,
-- buffers carved from them and windows, State/Globals the globals and the outputs, State/Bind
-- `bind_global`, State/Text the text fields, State/Pointer and State/Keyboard the routing of
-- state/input.rs, State/Shell the requests of state/shell.rs, State/Inspect the look-ups for the rest
-- of the program, and State/Dispatch the whole of `dispatch`. State/Follows describes, as a relation on
-- states, what any step of these may do to a connection, and State/Follows/Life the states that a
-- compositor may come to from `new`. A method that changes the state returns the new one; where it can
-- fail after a change, the state is returned beside the result (State/Outcome). The Tests modules
-- run the theorems at concrete messages and states.
--
-- Input models the reports, keys and epochs of `atria-input/src`, Vnc/Queue `atria-vnc/src/input.rs`,
-- Software/Buffer the files buffer.rs and frame.rs of `atria-software-output/src`, Software/Copy the
-- geometry and the copying of its output.rs, and Drm `atria-drm/src/logic.rs`.
--
-- `push_event` and `close_connection` call each other without a bound that the code states. The model
-- gives them fuel, one round for each connection, which is enough since a close removes its
-- connection before it sends anything. `destroy_object` calls itself for what depends on an object,
-- from a seat to its sessions and from those to their surfaces, and has fuel for these three rounds.
--
-- Not modelled: the codecs of single messages and the binding of messages to requests; the composition
-- of whole frames and their damage; and the devices, the kernel's display, the VNC server, the
-- transport and the daemon, which are input and output for the most part. Counters of 64 bits that
-- count connections, commits and events are numbers without a bound except where the code tests theirs.
-- The squares of `nearest_reachable` wrap, as they do in a build without overflow checks; the panic of
-- a build with them is not modelled.
pub mod Base
pub mod Protocol
pub mod Compositor
pub mod Input
pub mod Vnc
pub mod Software
pub mod Drm
