-- ===== src/StrLib/Tokens.antt =====
-- What strtok_r of HtcLeoPkg/Library/StrLib/strtok.c finds, as functions of the text.
use Prim.{tt}
use htc_leo_pkg.Base.{
  ℕ, zero, suc, ◌+◌, ◌≤◌, ◌<◌, ◌≡◌, ◌≢◌, refl, sym, ◌∙◌, inl, inr, false, List, [], ◌∷◌, Option,
  none, some, arith, length, if◌then◌else◌, ==_iff, ==_ne, Bool-cases,
}
use htc_leo_pkg.Base.Memory.{Memory, write, Holds, write_self, write_ne, Holds-frame}
use htc_leo_pkg.StrLib.{among, skip, scan, Token, no_token, cut, token_at, strtok_r}

module _ (delim : List ℕ) where
  -- The text after its leading delimiters.
  abbrev pub drop_delims : List ℕ → List ℕ
  drop_delims [] = []
  drop_delims (c ∷ cs) = if among delim c then drop_delims cs else c ∷ cs

  -- The text up to the first delimiter, and what follows that delimiter.
  abbrev pub token : List ℕ → List ℕ
  token [] = []
  token (c ∷ cs) = if among delim c then [] else c ∷ token cs

  abbrev pub after_token : List ℕ → Option (List ℕ)
  after_token [] = none
  after_token (c ∷ cs) = if among delim c then some cs else after_token cs

  among_zero : (ds : List ℕ) → among ds 0 ≡ false
  unfolding among
  among_zero [] = refl
  among_zero (d ∷ ds) = ground (arith, among_zero ds)

  skip_lem :
      (f : ℕ) (m : Memory) (s : ℕ) (cs : List ℕ)
      → Holds m s cs
      → length cs < f
      → (a : ℕ) × (skip f m delim s ≡ some a)
        × Holds m a (drop_delims cs)
        × (s ≤ a)
        × (a + length (drop_delims cs) ≡ s + length cs)
  unfolding skip
  skip_lem zero m s cs h lt = absurd (omega arith)
  skip_lem (suc f) m s [] h lt = (s, rw h (rw (among_zero delim) refl), h, omega arith, omega arith)
  skip_lem (suc f) m s (c ∷ cs) h lt =
      let (a, run, rest, lo, len) = skip_lem f m (s + 1) cs h.2 (omega arith) in
      elim (Bool-cases (among delim c)) [
        | inl is_one ↦
            (a, rw h.0 (rw is_one run), rw is_one rest, omega arith, rw is_one (omega arith))
        | inr not_one ↦
            (s, rw h.0 (rw not_one refl), rw not_one h, omega arith, rw not_one (omega arith))
      ]

  -- What stands at the end of a token at `e`: a NUL, or a delimiter with the rest of the text after it.
  abbrev Ended : Memory → ℕ → Option (List ℕ) → Type 0
  Ended m e none = m e ≡ 0
  Ended m e (some r) = (m e ≢ 0) × Holds m (e + 1) r

  scan_lem :
      (f : ℕ) (m : Memory) (a : ℕ) (cs : List ℕ)
      → Holds m a cs
      → length cs < f
      → (e : ℕ) × (scan f m delim a ≡ some e)
        × Ended m e (after_token cs)
        × (e ≡ a + length (token cs))
        × (length (token cs) ≤ length cs)
  unfolding scan
  scan_lem zero m a cs h lt = absurd (omega arith)
  scan_lem (suc f) m a [] h lt = (a, rw h (rw (among_zero delim) refl), h, omega arith, omega arith)
  scan_lem (suc f) m a (c ∷ cs) h lt =
      let (e, run, ended, at, short) = scan_lem f m (a + 1) cs h.2 (omega arith) in
      elim (Bool-cases (among delim c)) [
        | inl is_one ↦ (
          a,
          rw h.0 (rw is_one refl),
          rw is_one (rw h.0 h.1, h.2),
          rw is_one (omega arith),
          rw is_one (omega arith),
        )
        | inr not_one ↦ (
          e,
          rw h.0 (rw not_one (rw (==_ne c 0 h.1) run)),
          rw not_one ended,
          rw not_one (omega arith),
          rw not_one (omega arith),
        )
      ]

  token-Holds :
      (m m' : Memory) (a e : ℕ) (cs : List ℕ)
      → e ≡ a + length (token cs)
      → ((x : ℕ) → a ≤ x → x < e → m' x ≡ m x)
      → m' e ≡ 0
      → Holds m a cs
      → Holds m' a (token cs)
  token-Holds m m' a e [] place same nul h =
      let here : e ≡ a = omega (arith, place) in rw (sym here) nul
  token-Holds m m' a e (c ∷ cs) place same nul h = elim (Bool-cases (among delim c)) [
    | inl is_one ↦
        let here : e ≡ a = omega (arith, (rw is_one at place)) in rw is_one (rw (sym here) nul)
    | inr not_one ↦
        let there : e ≡ a + 1 + length (token cs) = omega (arith, (rw not_one at place)) in
        rw not_one (
          same a (omega arith) (omega arith) ∙ h.0,
          h.1,
          token-Holds m m' (a + 1) e cs there (λ x lo hi. same x (omega arith) hi) nul h.2,
        )
  ]

  -- Where the search for the next token goes on, after `last` and the text that is left.
  abbrev pub Remains : Memory → Option ℕ → Option (List ℕ) → Type 0
  Remains m none none = Unit
  Remains m (some q) (some r) = Holds m q r
  Remains m none (some r) = ⊥
  Remains m (some q) none = ⊥

  -- What `strtok_r` gives for the text `c ∷ r` at `a`, which begins with no delimiter: the address,
  -- where the token now stands, and the rest of the text after `last`.
  pub record Found (m : Memory) (a : ℕ) (r : List ℕ) (c : ℕ) (t : Token) : Type 0 where
    pub tok_at : t.tok ≡ some a
    pub holds : Holds t.memory a (c ∷ token r)
    pub remains : Remains t.memory t.last (after_token r)
    pub beyond : (q : ℕ) → t.last ≡ some q → q ≡ a + length (token r) + 2
    pub frame : (x : ℕ) → x ≢ a + length (token r) + 1 → t.memory x ≡ m x

  cut_lem :
      (m : Memory) (a e c : ℕ) (r : List ℕ)
      → Holds m a (c ∷ r)
      → e ≡ a + 1 + length (token r)
      → length (token r) ≤ length r
      → (rest : Option (List ℕ)) → rest ≡ after_token r
      → Ended m e rest
      → Found m a r c (cut m a e)
  unfolding cut
  cut_lem m a e c r h place short none same ended = rw ((==_iff (m e) 0).1 ended) (record {
    tok_at = refl;
    holds = (h.0, h.1, token-Holds m m (a + 1) e r place (λ x lo hi. refl) ended h.2);
    remains = rw (sym same) tt;
    beyond = λ q eq. cc;
    frame = λ x ne. refl;
  })
  cut_lem m a e c r h place short (some l) same ended = rw (==_ne (m e) 0 ended.0) (record {
    tok_at = refl;
    holds = (
      write_ne m e 0 a (λ eq. omega arith) ∙ h.0,
      h.1,
      token-Holds m (write m e 0) (a + 1) e r place
          (λ x lo hi. write_ne m e 0 x (λ eq. omega arith)) (write_self m e 0 e refl) h.2,
    );
    remains = rw (sym same) (
        Holds-frame m (write m e 0) (e + 1) l (λ x lo hi. write_ne m e 0 x (λ eq. omega arith))
          ended.1);
    beyond = λ q eq. let next : e + 1 ≡ q = cc in omega arith;
    frame = λ x ne. write_ne m e 0 x (λ eq. ne (omega arith));
  })

  -- The outcome at `s`, of which `end` is the end, for the text without its leading delimiters.
  abbrev pub Tokenized : Memory → ℕ → ℕ → List ℕ → Token → Type 0
  Tokenized m s end [] t = t ≡ no_token m
  Tokenized m s end (c ∷ r) t =
      (a : ℕ) × (s ≤ a)
      × (a + length (c ∷ r) ≡ end)
      × (length (token r) ≤ length r)
      × Found m a r c t

  first_char :
      (m : Memory) (a : ℕ) (f : ℕ) (cs : List ℕ) (s end : ℕ)
      → skip f m delim s ≡ some a
      → Holds m a cs
      → s ≤ a
      → a + length cs ≡ end
      → length cs < f
      → (t : Token) × (token_at f m delim s ≡ some t) × Tokenized m s end cs t
  unfolding token_at
  first_char m a f [] s end run h lo len lt =
      (no_token m, rw (run, token_at) (rw ((==_iff (m a) 0).1 h) refl), refl)
  first_char m a f (c ∷ r) s end run h lo len lt =
      let (e, scanned, ended, place, short) = scan_lem f m (a + 1) r h.2 (omega arith) in
      (
        cut m a e,
        rw (run, token_at) (rw (==_ne (m a) 0 (λ z. h.1 (sym h.0 ∙ z))) (rw scanned refl)),
        (a, lo, len, short, cut_lem m a e c r h place short (after_token r) refl ended),
      )

  -- At a text `cs`, with more rounds than characters, `strtok_r` returns. Only delimiters give NULL
  -- and change nothing. Otherwise the token is the text from the first other character up to the next
  -- delimiter, cut off by a NUL in place of that delimiter, which is the only change of the
  -- memory; `*last` is NULL at the end of the text, and otherwise points behind the
  -- delimiter at the rest of the text.
  pub strtok_r-Tokenized :
      (f : ℕ) (m : Memory) (s : ℕ) (cs : List ℕ) (last : Option ℕ)
      → Holds m s cs
      → length cs < f
      → (t : Token) × (strtok_r f m (some s) delim last ≡ some t)
        × Tokenized m s (s + length cs) (drop_delims cs) t
  unfolding strtok_r
  strtok_r-Tokenized f m s cs last h lt =
      let (a, run, rest, lo, len) = skip_lem f m s cs h lt in
      first_char m a f (drop_delims cs) s (s + length cs) run rest lo len (omega arith)
