-- ===== src/FbCon/Cursor.antt =====
-- The cursor of HtcLeoPkg/Library/FrameBufferSerialPortLib/FrameBufferSerialPortLib.c.
use Prim.{tt}
use htc_leo_pkg.Base.{
  ℕ, suc, ◌+◌, ◌*◌, ◌-◌, ◌/◌, ◌^◌, ◌≤◌, ◌<◌, ◌≡◌, refl, ap, inl, inr, ◌&&◌, List, [], ◌∷◌, ◌++◌,
  Option, some, arith, ltb, leb, ◌==◌, if-elim, Bool-cases, All, leb→lt, leb-false,
}
use htc_leo_pkg.FbCon.{
  FbCon, FbEvent, glyph, reset_fb, flush, Pass, return, newline, paint, put_char, is_plain,
  last_line, fb_con_put_char_with_factor, write_chars,
}

-- A screen of `cols` columns and `my` lines at a scale, on which two lines can be left free.
pub record Screen (mx my scale : ℕ) : Type 0 where
  pub scaled : 1 ≤ scale
  pub columns : 1 ≤ mx / scale
  pub two_lines : 2 * scale < my
  pub no_wrap : my < 2 ^ 32

-- The cursor stands in the columns and above the last line.
pub record InScreen (mx my scale : ℕ) (c : FbCon) : Type 0 where
  pub width : c.max_x ≡ mx
  pub height : c.max_y ≡ my
  pub column : c.x < mx / scale
  pub line : c.y + scale < my

-- A glyph that is drawn has the scale and lies in the screen.
abbrev pub OnScreen : ℕ → ℕ → ℕ → FbEvent → Type 0
OnScreen mx my scale (glyph ch x y s color) = (x < mx / scale) × (y + scale < my) × (s ≡ scale)
OnScreen mx my scale reset_fb = Unit
OnScreen mx my scale flush = Unit

module _ {mx my scale : ℕ} (screen : Screen mx my scale) where
  -- How a pass that began in line `y` ends.
  abbrev Passes : ℕ → Pass → Type 0
  Passes y (return c es) = InScreen mx my scale c × All (OnScreen mx my scale) es
  Passes y (newline c es) =
      (c.max_x ≡ mx) × (c.max_y ≡ my) × (c.y ≡ y) × All (OnScreen mx my scale) es

  paint_lem :
      (ch type : ℕ) (c : FbCon) → InScreen mx my scale c → Passes c.y (paint ch type scale c)
  unfolding paint
  paint_lem ch type c h =
      let shown : All (OnScreen mx my scale) (glyph ch c.x c.y scale c.foreground ∷ []) =
        ((h.column, h.line, refl), tt) in
      let stays : InScreen mx my scale c × Unit = (h, tt) in
      if-elim (Passes c.y) (ltb 127 ch) (λ e. stays)
        (λ e.
          if-elim (Passes c.y) (ltb ch 32)
            (λ e.
              if-elim (Passes c.y) (ch == 10) (λ e. (h.width, h.height, refl, tt))
                (λ e.
                  if-elim (Passes c.y) (ch == 13)
                    (λ e. (
                      record {
                        width = h.width;
                        height = h.height;
                        column = omega (arith, screen.columns);
                        line = h.line;
                      },
                      tt,
                    ))
                    (λ e. stays)))
            (λ e.
              if-elim (Passes c.y) ((c.x == 0) && (ch == 32) && is_plain type) (λ e. stays)
                (λ e.
                  if-elim (Passes c.y) (leb (c.max_x / scale) (c.x + 1))
                    (λ e. (h.width, h.height, refl, shown))
                    (λ e. (
                      record {
                        width = h.width;
                        height = h.height;
                        column = omega (
                          arith,
                          leb→lt (c.max_x / scale) (c.x + 1) e,
                          ap (λ m. m / scale) h.width,
                        );
                        line = h.line;
                      },
                      shown,
                    )))))

  last_line_lem : (c : FbCon) → c.max_y ≡ my → last_line scale c ≡ my - scale
  last_line_lem c h = rw h (omega (arith, screen.two_lines, screen.no_wrap))

  All-append :
      (es es' : List FbEvent)
      → All (OnScreen mx my scale) es
      → All (OnScreen mx my scale) es'
      → All (OnScreen mx my scale) (es ++ es')
  All-append [] es' h h' = h'
  All-append (e ∷ es) es' h h' = (h.0, All-append es es' h.1 h')

  -- A result with its cursor and its glyphs in the screen.
  abbrev pub Fits : Option (FbCon × List FbEvent) → Type 0
  Fits o =
      (c : FbCon) × (es : List FbEvent) × (o ≡ some (c, es))
      × InScreen mx my scale c
      × All (OnScreen mx my scale) es

  after_newline :
      (c : FbCon)
      → c.max_x ≡ mx
      → c.max_y ≡ my
      → c.y + scale < my - scale
      → InScreen mx my scale (record c { x = 0; y = c.y + scale })
  after_newline c w h lt = record {
    width = w;
    height = h;
    column = omega (arith, screen.columns);
    line = omega (arith, lt);
  }

  -- Above the last line but one, one round is enough.
  put_char_above :
      (f ch type : ℕ) (c : FbCon) (p : Pass)
      → paint ch type scale c ≡ p
      → InScreen mx my scale c
      → c.y + scale < my - scale
      → Passes c.y p
      → Fits (put_char (suc f) ch type scale c)
  unfolding put_char
  put_char_above f ch type c (return c' es) e h lt (inside, shown) =
      (c', es, rw (e, put_char) refl, inside, shown)
  put_char_above f ch type c (newline c' es) e h lt (w, t, y, shown) =
      let next : c'.y + scale < my - scale = omega (arith, y, lt) in
      (
        record c' { x = 0; y = c'.y + scale },
        es ++ (flush ∷ []),
        rw (e, put_char)
            (rw
              (leb-false (last_line scale c') (c'.y + scale)
                (omega (arith, last_line_lem c' t, next)))
              refl),
        after_newline c' w t next,
        All-append es (flush ∷ []) shown (tt, tt),
      )

  put_char_from :
      (f ch type : ℕ) (c : FbCon) (p : Pass)
      → paint ch type scale c ≡ p
      → Passes c.y p
      → Fits (put_char (suc (suc f)) ch type scale c)
  unfolding put_char
  put_char_from f ch type c (return c' es) e (inside, shown) =
      (c', es, rw (e, put_char) refl, inside, shown)
  put_char_from f ch type c (newline c' es) e (w, t, y, shown) =
      elim (Bool-cases (leb (last_line scale c') (c'.y + scale))) [
        | inl bottom ↦
            let top : FbCon = record c' { x = 0; y = 0 } in
            let inside : InScreen mx my scale top = record {
              width = w;
              height = t;
              column = omega (arith, screen.columns);
              line = omega (arith, screen.two_lines);
            } in
            let (c'', es', run, fits, shown') =
              put_char_above f ch type top (paint ch type scale top) refl inside
                (omega (arith, screen.two_lines)) (paint_lem ch type top inside) in
            (
              c'',
              es ++ (reset_fb ∷ flush ∷ es'),
              rw (e, put_char) (rw bottom (rw (run, put_char) refl)),
              fits,
              All-append es (reset_fb ∷ flush ∷ es') shown (tt, (tt, shown')),
            )
        | inr above ↦
            let next : c'.y + scale < my - scale =
              omega (arith, last_line_lem c' t, leb→lt (last_line scale c') (c'.y + scale) above) in
            (
              record c' { x = 0; y = c'.y + scale },
              es ++ (flush ∷ []),
              rw (e, put_char) (rw above refl),
              after_newline c' w t next,
              All-append es (flush ∷ []) shown (tt, tt),
            )
      ]

  -- On a screen with more lines than two of the scale, printing a character ends after two rounds of
  -- `goto paint` at most, draws only inside the screen, and leaves the cursor inside.
  pub fb_con_put_char-Fits :
      (f ch type : ℕ) (c : FbCon)
      → InScreen mx my scale c
      → Fits (fb_con_put_char_with_factor (suc (suc f)) ch type scale c)
  unfolding fb_con_put_char_with_factor
  fb_con_put_char-Fits f ch type c h =
      if-elim Fits c.initialized
        (λ e. put_char_from f ch type c (paint ch type scale c) refl (paint_lem ch type c h))
        (λ e. (c, [], refl, h, tt))

  -- On a screen with more lines than two of the scale, and from a cursor inside it, every text that
  -- `SerialPortWrite` prints ends, with two
  -- rounds for each character, and every glyph that it draws and the cursor at the end are inside the screen.
  pub write_chars-Fits :
      (f : ℕ) (chs : List ℕ) (c : FbCon)
      → InScreen mx my scale c
      → Fits (write_chars (suc (suc f)) scale chs c)
  unfolding write_chars
  write_chars-Fits f [] c h = (c, [], refl, h, tt)
  write_chars-Fits f (ch ∷ chs) c h =
      let (c', es, run, inside, shown) = fb_con_put_char-Fits f ch 0 c h in
      let (c'', es', run', inside', shown') = write_chars-Fits f chs c' inside in
      (
        c'',
        es ++ es',
        rw (run, write_chars) (rw (run', write_chars) refl),
        inside',
        All-append es es' shown shown',
      )
