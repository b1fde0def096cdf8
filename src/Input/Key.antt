-- ===== src/Input/Key.antt =====
-- atria-input/src/report.rs and key.rs: the records of a device, batched into reports, and the keys
-- that a report presses and releases. An array of 48 flags is a function of the index.
pub mod Replay
use atria.Base.{
  ℕ, ◌+◌, ◌*◌, ◌/◌, ◌%◌, ◌^◌, Bool, true, false, not, ◌&&◌, Option, none, some, List, [], ◌∷◌, ◌++◌,
  ◌==◌, leb, ltb, if◌then◌else◌, length, Result, ok, err, ◌>>=◌, ◌>>◌, guard, ok_or, checked_add,
  checked_mul, bit_and, get_elem?,
}
use atria.Base.Int.{ℤ, pos, negsuc}
use atria.Base.Map.{lookup, ℕ_key}

-- The errors of this part of `InputError`.
pub data InputError : Type 0 where
  reacquisition_required reacquisition_not_required epoch_overflow report_too_large : InputError
  timestamp_overflow : InputError
  invalid_timestamp : ℤ → ℤ → InputError
  invalid_key_value : ℤ → InputError

pub record RawInputEvent : Type 0 where
  pub seconds : ℤ
  pub microseconds : ℤ
  pub event_type : ℕ
  pub code : ℕ
  pub value : ℤ

abbrev ev_syn : ℕ
ev_syn = 0

abbrev ev_key : ℕ
ev_key = 1

abbrev syn_report : ℕ
syn_report = 0

abbrev syn_dropped : ℕ
syn_dropped = 3

abbrev max_report_events : ℕ
max_report_events = 256

pub record ReportAccumulator : Type 0 where
  pub pending : List RawInputEvent
  pub dropping : Bool

abbrev pub no_reports : ReportAccumulator
no_reports = record { pending = []; dropping = false }

-- `Complete` has the events of the report.
pub data ReportStatus : Type 0 where
  pending : ReportStatus
  complete : List RawInputEvent → ReportStatus
  discontinuity : ReportStatus

accumulate : ReportAccumulator → RawInputEvent → ReportAccumulator × Result InputError ReportStatus
accumulate r event =
    if r.dropping
    then (r, ok ReportStatus.pending)
    else (if leb max_report_events (length r.pending)
        then (record { pending = []; dropping = true }, err InputError.report_too_large)
        else (record r { pending = r.pending ++ event ∷ [] }, ok ReportStatus.pending))

close_report : ReportAccumulator → ReportAccumulator × Result InputError ReportStatus
close_report r =
    if r.dropping
    then (record r { dropping = false }, ok ReportStatus.discontinuity)
    else (record r { pending = [] }, ok (ReportStatus.complete r.pending))

-- `ReportAccumulator::push`.
unfoldable pub push_report :
    ReportAccumulator → RawInputEvent → ReportAccumulator × Result InputError ReportStatus
unfolding accumulate close_report
push_report r event =
    if event.event_type == ev_syn && event.code == syn_dropped
    then (record { pending = []; dropping = true }, ok ReportStatus.pending)
    else (if event.event_type == ev_syn && event.code == syn_report
        then close_report r
        else accumulate r event)

-- Each by its name, behind `key`.
pub data KeyCode : Type 0 where
  key_escape key_enter key_up key_left key_right key_down key_mute key_volume_down : KeyCode
  key_volume_up key_power key_menu key_back key_home key_next_track key_play_pause : KeyCode
  key_previous_track key_stop key_record key_rewind key_exit key_fast_forward key_cancel : KeyCode
  key_ok key_select key_info key_guide key_subtitle key_tv key_audio key_video key_red : KeyCode
  key_green key_yellow key_blue key_channel_up key_channel_down key_numeric_0 : KeyCode
  key_numeric_1 key_numeric_2 key_numeric_3 key_numeric_4 key_numeric_5 key_numeric_6 : KeyCode
  key_numeric_7 key_numeric_8 key_numeric_9 key_numeric_star key_numeric_pound : KeyCode

unfoldable pub index : KeyCode → ℕ
index KeyCode.key_escape = 0
index KeyCode.key_enter = 1
index KeyCode.key_up = 2
index KeyCode.key_left = 3
index KeyCode.key_right = 4
index KeyCode.key_down = 5
index KeyCode.key_mute = 6
index KeyCode.key_volume_down = 7
index KeyCode.key_volume_up = 8
index KeyCode.key_power = 9
index KeyCode.key_menu = 10
index KeyCode.key_back = 11
index KeyCode.key_home = 12
index KeyCode.key_next_track = 13
index KeyCode.key_play_pause = 14
index KeyCode.key_previous_track = 15
index KeyCode.key_stop = 16
index KeyCode.key_record = 17
index KeyCode.key_rewind = 18
index KeyCode.key_exit = 19
index KeyCode.key_fast_forward = 20
index KeyCode.key_cancel = 21
index KeyCode.key_ok = 22
index KeyCode.key_select = 23
index KeyCode.key_info = 24
index KeyCode.key_guide = 25
index KeyCode.key_subtitle = 26
index KeyCode.key_tv = 27
index KeyCode.key_audio = 28
index KeyCode.key_video = 29
index KeyCode.key_red = 30
index KeyCode.key_green = 31
index KeyCode.key_yellow = 32
index KeyCode.key_blue = 33
index KeyCode.key_channel_up = 34
index KeyCode.key_channel_down = 35
index KeyCode.key_numeric_0 = 36
index KeyCode.key_numeric_1 = 37
index KeyCode.key_numeric_2 = 38
index KeyCode.key_numeric_3 = 39
index KeyCode.key_numeric_4 = 40
index KeyCode.key_numeric_5 = 41
index KeyCode.key_numeric_6 = 42
index KeyCode.key_numeric_7 = 43
index KeyCode.key_numeric_8 = 44
index KeyCode.key_numeric_9 = 45
index KeyCode.key_numeric_star = 46
index KeyCode.key_numeric_pound = 47

-- The codes of the kernel.
abbrev evdev_keys : List (ℕ × KeyCode)
evdev_keys =
    (1, KeyCode.key_escape)
    ∷ (28, KeyCode.key_enter)
    ∷ (103, KeyCode.key_up)
    ∷ (105, KeyCode.key_left)
    ∷ (106, KeyCode.key_right)
    ∷ (108, KeyCode.key_down)
    ∷ (113, KeyCode.key_mute)
    ∷ (114, KeyCode.key_volume_down)
    ∷ (115, KeyCode.key_volume_up)
    ∷ (116, KeyCode.key_power)
    ∷ (139, KeyCode.key_menu)
    ∷ (158, KeyCode.key_back)
    ∷ (163, KeyCode.key_next_track)
    ∷ (164, KeyCode.key_play_pause)
    ∷ (165, KeyCode.key_previous_track)
    ∷ (166, KeyCode.key_stop)
    ∷ (167, KeyCode.key_record)
    ∷ (168, KeyCode.key_rewind)
    ∷ (172, KeyCode.key_home)
    ∷ (174, KeyCode.key_exit)
    ∷ (208, KeyCode.key_fast_forward)
    ∷ (223, KeyCode.key_cancel)
    ∷ (352, KeyCode.key_ok)
    ∷ (353, KeyCode.key_select)
    ∷ (358, KeyCode.key_info)
    ∷ (365, KeyCode.key_guide)
    ∷ (370, KeyCode.key_subtitle)
    ∷ (377, KeyCode.key_tv)
    ∷ (392, KeyCode.key_audio)
    ∷ (393, KeyCode.key_video)
    ∷ (398, KeyCode.key_red)
    ∷ (399, KeyCode.key_green)
    ∷ (400, KeyCode.key_yellow)
    ∷ (401, KeyCode.key_blue)
    ∷ (402, KeyCode.key_channel_up)
    ∷ (403, KeyCode.key_channel_down)
    ∷ (512, KeyCode.key_numeric_0)
    ∷ (513, KeyCode.key_numeric_1)
    ∷ (514, KeyCode.key_numeric_2)
    ∷ (515, KeyCode.key_numeric_3)
    ∷ (516, KeyCode.key_numeric_4)
    ∷ (517, KeyCode.key_numeric_5)
    ∷ (518, KeyCode.key_numeric_6)
    ∷ (519, KeyCode.key_numeric_7)
    ∷ (520, KeyCode.key_numeric_8)
    ∷ (521, KeyCode.key_numeric_9)
    ∷ (522, KeyCode.key_numeric_star)
    ∷ (523, KeyCode.key_numeric_pound)
    ∷ []

unfoldable pub from_evdev : ℕ → Option KeyCode
from_evdev code = lookup code evdev_keys

pub data KeyAction : Type 0 where
  released pressed repeated : KeyAction

unfoldable pub is_released : KeyAction → Bool
is_released KeyAction.released = true
is_released _ = false

pub record KeyEvent : Type 0 where
  pub timestamp_ns : ℕ
  pub code : KeyCode
  pub action : KeyAction
  pub epoch : ℕ

pub record KeyNormalizer : Type 0 where
  pub down : ℕ → Bool
  pub suppressed : ℕ → Bool

abbrev pub no_keys : KeyNormalizer
no_keys = record { down = λ i. false; suppressed = λ i. false }

unfoldable pub set : ℕ → Bool → (ℕ → Bool) → ℕ → Bool
set i b f j = if j == i then b else f j

-- Nanoseconds of a time whose seconds fit 64 bits.
nanoseconds : ℕ → ℕ → Option ℕ
nanoseconds s u = elim (checked_mul s (10 ^ 9)) [
  | none ↦ none
  | some base ↦ elim (checked_mul u 1000) [
    | none ↦ none
    | some fraction ↦ checked_add base fraction
  ]
]

unfoldable pub timestamp_ns : ℤ → ℤ → Result InputError ℕ
unfolding nanoseconds
timestamp_ns (pos s) (pos u) = do
  guard (ltb u (10 ^ 6)) (InputError.invalid_timestamp (pos s) (pos u))
  ok_or (nanoseconds s u) InputError.timestamp_overflow
timestamp_ns s u = err (InputError.invalid_timestamp s u)

unfoldable pub key_action : ℤ → Result InputError KeyAction
key_action (pos n) =
    if n == 0
    then ok KeyAction.released
    else (if n == 1
        then ok KeyAction.pressed
        else (if n == 2 then ok KeyAction.repeated else err (InputError.invalid_key_value (pos n))))
key_action (negsuc n) = err (InputError.invalid_key_value (negsuc n))

-- What one transition does: a suppressed key says nothing, up to and with its release.
unfoldable pub turn_as : KeyNormalizer → KeyEvent → Bool → KeyNormalizer × List KeyEvent
unfolding set is_released
turn_as k event true = (
  record {
    down = set (index event.code) (not (is_released event.action)) k.down;
    suppressed = λ j.
        if is_released event.action
        then set (index event.code) false k.suppressed j
        else k.suppressed j;
  },
  [],
)
turn_as k event false =
    (record k { down = set (index event.code) (not (is_released event.action)) k.down }, event ∷ [])

unfoldable pub turn : KeyNormalizer → KeyEvent → KeyNormalizer × List KeyEvent
unfolding turn_as
turn k event = turn_as k event (k.suppressed (index event.code))

unfoldable pub normalize_key :
    KeyNormalizer
    → ℕ
    → RawInputEvent
    → Option KeyCode
    → Result InputError (KeyNormalizer × List KeyEvent)
unfolding key_action timestamp_ns turn
normalize_key k epoch raw none = ok (k, [])
normalize_key k epoch raw (some code) = do
  action ← key_action raw.value
  time ← timestamp_ns raw.seconds raw.microseconds
  ok (turn k (record { timestamp_ns = time; code = code; action = action; epoch = epoch }))

unfoldable pub normalize_one :
    KeyNormalizer → ℕ → RawInputEvent → Result InputError (KeyNormalizer × List KeyEvent)
unfolding normalize_key from_evdev
normalize_one k epoch raw =
    normalize_key k epoch raw (if raw.event_type == ev_key then from_evdev raw.code else none)

-- `normalize`: an error leaves the normalizer as it was.
unfoldable pub normalize :
    KeyNormalizer → ℕ → List RawInputEvent → Result InputError (KeyNormalizer × List KeyEvent)
unfolding normalize_one
normalize k epoch [] = ok (k, [])
normalize k epoch (raw ∷ rest) = do
  first ← normalize_one k epoch raw
  others ← normalize (first.0) epoch rest
  ok (others.0, first.1 ++ others.1)

unfoldable pub suppress_held : KeyNormalizer → KeyNormalizer
suppress_held k = record k { suppressed = k.down }

-- Is the bit of this code set in a bitmap of bytes?
bit_is_set : List ℕ → ℕ → Bool
bit_is_set bitmap code = elim (get_elem? bitmap (code / 8)) [
  | none ↦ false
  | some byte ↦ not (bit_and byte (2 ^ (code % 8)) == 0)
]

reacquire_each : List ℕ → List (ℕ × KeyCode) → KeyNormalizer → KeyNormalizer
unfolding bit_is_set set
reacquire_each bitmap [] k = k
reacquire_each bitmap ((code, key) ∷ rest) k =
    let held = bit_is_set bitmap code in
    reacquire_each bitmap rest (record {
      down = set (index key) held k.down;
      suppressed = set (index key) held k.suppressed;
    })

-- `reacquire`, over the codes that have a key.
unfoldable pub reacquire : List ℕ → KeyNormalizer → KeyNormalizer
unfolding reacquire_each
reacquire bitmap k = reacquire_each bitmap evdev_keys k
