-- ===== src/FbCon.antt =====
-- HtcLeoPkg/Library/FrameBufferSerialPortLib/FrameBufferSerialPortLib.c: the text console on the frame
-- buffer. The drawing of a glyph, the clearing of the screen and the flush of the cache are
-- events; the interrupt flag of the processor is left out.
pub mod Cursor
pub mod Glyph
pub mod Scroll
pub mod Font
pub mod Frame
use htc_leo_pkg.Base.{
  ℕ, zero, suc, ◌+◌, ◌-◌, ◌/◌, ◌%◌, ◌^◌, Bool, true, false, not, ◌&&◌, List, [], ◌∷◌, ◌++◌, Option,
  none, some, ltb, leb, ◌==◌, if◌then◌else◌,
}

-- `m_Position`, `m_MaxPosition`, `m_Color` and `m_Initialized`
pub record FbCon : Type 0 where
  pub x : ℕ
  pub y : ℕ
  pub max_x : ℕ
  pub max_y : ℕ
  pub foreground : ℕ
  pub background : ℕ
  pub initialized : Bool

-- A glyph is drawn for a character at a position, with a scale and a colour.
pub data FbEvent : Type 0 where
  glyph : ℕ → ℕ → ℕ → ℕ → ℕ → FbEvent
  reset_fb flush : FbEvent

abbrev pub white : ℕ
white = 0xffffffff

abbrev pub yellow : ℕ
yellow = 0xffffff00

abbrev pub black : ℕ
black = 0xff000000

-- `FbConReset`, for a screen of `width` and `height` pixels
unfoldable pub fb_con_reset : ℕ → ℕ → FbCon → FbCon
fb_con_reset width height c = record c {
  x = 0;
  y = 0;
  max_x = width / 6;
  max_y = (height - 1) / 12;
  foreground = white;
  background = black;
}

-- `SerialPortInitialize`
unfoldable pub serial_port_initialize : ℕ → ℕ → FbCon → FbCon
unfolding fb_con_reset
serial_port_initialize width height c =
    if c.initialized then c else record (fb_con_reset width height c) { initialized = true }

-- `m_MaxPosition.y - scale_factor`, in 32 bits without sign
abbrev pub last_line : ℕ → FbCon → ℕ
last_line scale c = (c.max_y + 2 ^ 32 - scale) % 2 ^ 32

-- How one pass from the label `paint` ends: with a return, or at the label `newline`.
pub data Pass : Type 0 where
  return newline : FbCon → List FbEvent → Pass

abbrev pub is_plain : ℕ → Bool
is_plain type = not (type == 3) && not (type == 2)

-- From `paint` to the label `newline`; `type` is one of FbConMsgType.
unfoldable pub paint : ℕ → ℕ → ℕ → FbCon → Pass
paint ch type scale c =
    let drawn = record c { x = c.x + 1 } in
    let events = glyph ch c.x c.y scale c.foreground ∷ [] in
    if ltb 127 ch
    then return c []
    else if ltb ch 32
    then (if ch == 10
        then newline c []
        else if ch == 13
        then return (record c { x = 0 }) []
        else return c [])
    else if (c.x == 0) && (ch == 32) && is_plain type
    then return c []
    else if leb (c.max_x / scale) (c.x + 1)
    then newline drawn events
    else return drawn events

-- `FbConPutCharWithFactor` after its first test; a `goto paint` takes fuel.
unfoldable pub put_char : ℕ → ℕ → ℕ → ℕ → FbCon → Option (FbCon × List FbEvent)
unfolding paint
put_char zero ch type scale c = none
put_char (suc f) ch type scale c = elim (paint ch type scale c) [
  | return c' es ↦ some (c', es)
  | newline c' es ↦
      let next = record c' { x = 0; y = c'.y + scale } in
      let again = put_char f ch type scale (record c' { x = 0; y = 0 }) in
      if leb (last_line scale c') (c'.y + scale)
      then elim again [ none ↦ none | some (c'', es') ↦ some (c'', es ++ (reset_fb ∷ flush ∷ es')) ]
      else some (next, es ++ (flush ∷ []))
]

-- `FbConPutCharWithFactor`
unfoldable pub fb_con_put_char_with_factor : ℕ → ℕ → ℕ → ℕ → FbCon → Option (FbCon × List FbEvent)
unfolding put_char
fb_con_put_char_with_factor f ch type scale c =
    let r = put_char f ch type scale c in if c.initialized then r else some (c, [])

-- The loop of `SerialPortWrite`, with FBCON_COMMON_MSG
unfoldable pub write_chars : ℕ → ℕ → List ℕ → FbCon → Option (FbCon × List FbEvent)
unfolding fb_con_put_char_with_factor
write_chars f scale [] c = some (c, [])
write_chars f scale (ch ∷ chs) c = elim (fb_con_put_char_with_factor f ch 0 scale c) [
  | none ↦ none
  | some (c', es) ↦ elim (write_chars f scale chs c') [
    | none ↦ none
    | some (c'', es') ↦ some (c'', es ++ es')
  ]
]

-- `SerialPortWriteCritical`: the same in yellow.
unfoldable pub serial_port_write_critical : ℕ → ℕ → List ℕ → FbCon → Option (FbCon × List FbEvent)
unfolding write_chars
serial_port_write_critical f scale chs c =
    elim (write_chars f scale chs (record c { foreground = yellow })) [
      | none ↦ none
      | some (c', es) ↦ some (record c' { foreground = c.foreground }, es)
    ]
