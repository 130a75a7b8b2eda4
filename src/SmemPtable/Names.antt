-- ===== src/SmemPtable/Names.antt =====
-- The last token of a partition's name, as smem_add_modem_partitions of
-- HtcLeoPkg/Drivers/SmemPtableDxe/smem_ptable.c finds it.
use Prim.{tt}
use htc_leo_pkg.Base.{
  ℕ, zero, suc, ◌+◌, ◌≤◌, ◌<◌, ◌≡◌, ◌⊎◌, refl, sym, ap, ◌∙◌, inl, inr, List, [], ◌∷◌, ◌++◌, Option,
  none, some, arith, length, if◌then◌else◌, Bool-cases, List-cases,
}
use htc_leo_pkg.Base.Memory.{Memory, Holds}
use htc_leo_pkg.StrLib.{among, Token, no_token, strtok_r}
use htc_leo_pkg.StrLib.Tokens.{drop_delims, token, after_token, Remains, Found, strtok_r-Tokenized}
use htc_leo_pkg.SmemPtable.{colon, last_token, name_token}

module _ (delim : List ℕ) where
  -- The last of the texts between delimiters that are not empty: `best` is the last one so far, `cur` the
  -- characters since the last delimiter.
  abbrev pub flush : Option (List ℕ) → List ℕ → Option (List ℕ)
  flush best [] = best
  flush best (x ∷ cur) = some (x ∷ cur)

  abbrev pub final_token : Option (List ℕ) → List ℕ → List ℕ → Option (List ℕ)
  final_token best cur [] = flush best cur
  final_token best cur (c ∷ cs) =
      if among delim c
      then final_token (flush best cur) [] cs
      else final_token best (cur ++ (c ∷ [])) cs

  -- The last token, when a token `w` is followed by the rest of the text.
  abbrev pub ending : List ℕ → Option (List ℕ) → Option (List ℕ)
  ending w none = some w
  ending w (some r) = final_token (some w) [] r

  append_char : (ws : List ℕ) (c : ℕ) (cs : List ℕ) → (ws ++ (c ∷ [])) ++ cs ≡ ws ++ (c ∷ cs)
  append_char [] c cs = refl
  append_char (w ∷ ws) c cs = ap (λ l. w ∷ l) (append_char ws c cs)

  append_nil : (ws : List ℕ) → ws ++ [] ≡ ws
  append_nil [] = refl
  append_nil (w ∷ ws) = ap (λ l. w ∷ l) (append_nil ws)

  final_token-in :
      (best : Option (List ℕ)) (x : ℕ) (cur cs : List ℕ)
      → final_token best (x ∷ cur) cs ≡ ending ((x ∷ cur) ++ token delim cs) (after_token delim cs)
  final_token-in best x cur [] = rw (append_nil cur) refl
  final_token-in best x cur (c ∷ cs) = elim (Bool-cases (among delim c)) [
    | inl is_one ↦ rw is_one (rw (append_nil cur) refl)
    | inr not_one ↦
        rw not_one (
          rw (sym (append_char cur c (token delim cs)))
            (final_token-in best x (cur ++ (c ∷ [])) cs))
  ]

  final_token-none :
      (best : Option (List ℕ)) (cs : List ℕ)
      → drop_delims delim cs ≡ []
      → final_token best [] cs ≡ best
  final_token-none best [] e = refl
  final_token-none best (c ∷ cs) e = elim (Bool-cases (among delim c)) [
    | inl is_one ↦ rw is_one (final_token-none best cs (rw is_one at e))
    | inr not_one ↦ let no : ◌≡◌ {A = List ℕ} (c ∷ cs) [] = (rw not_one at e) in absurd cc
  ]

  final_token-some :
      (best : Option (List ℕ)) (cs : List ℕ) (x : ℕ) (r : List ℕ)
      → drop_delims delim cs ≡ x ∷ r
      → final_token best [] cs ≡ ending (x ∷ token delim r) (after_token delim r)
  final_token-some best [] x r e = absurd cc
  final_token-some best (c ∷ cs) x r e = elim (Bool-cases (among delim c)) [
    | inl is_one ↦ rw is_one (final_token-some best cs x r (rw is_one at e))
    | inr not_one ↦
        let same : ◌≡◌ {A = List ℕ} (c ∷ cs) (x ∷ r) = (rw not_one at e) in
        rw not_one (
          final_token-in best c [] cs
          ∙ ap
              (λ l. elim l [
                | [] ↦ none
                | y ∷ ys ↦ ending (y ∷ token delim ys) (after_token delim ys)
              ])
              same)
  ]

-- Where the search may go on, its text lies from `lo` to `hi`.
abbrev Inside : Option ℕ → Option (List ℕ) → ℕ → ℕ → Type 0
Inside (some q) (some r) lo hi = (lo ≤ q) × (q + length r ≤ hi)
Inside none rest lo hi = Unit
Inside (some q) none lo hi = Unit

after_token-length :
    (delim cs r : List ℕ)
    → after_token delim cs ≡ some r
    → length (token delim cs) + 1 + length r ≡ length cs
after_token-length delim [] r e = absurd cc
after_token-length delim (c ∷ cs) r e = elim (Bool-cases (among delim c)) [
  | inl is_one ↦
      let same : cs ≡ r = cc ((rw is_one at e)) in rw is_one (rw (sym same) (omega arith))
  | inr not_one ↦ rw not_one (omega (arith, after_token-length delim cs r (rw not_one at e)))
]

Found-Inside :
    (m : Memory) (a c : ℕ) (r : List ℕ) (t : Token) (lo hi : ℕ) (l : Option ℕ)
    (rest : Option (List ℕ))
    → Found colon m a r c t
    → t.last ≡ l
    → after_token colon r ≡ rest
    → lo ≤ a
    → a + length (c ∷ r) ≤ hi
    → Inside l rest lo hi
Found-Inside m a c r t lo hi none rest found el er from le = tt
Found-Inside m a c r t lo hi (some q) none found el er from le = tt
Found-Inside m a c r t lo hi (some q) (some x) found el er from le =
    omega (arith, found.beyond q el, after_token-length colon r x er)

rest_length : Option (List ℕ) → ℕ
rest_length none = 0
rest_length (some r) = suc (length r)

rest_short : (cs : List ℕ) → rest_length (after_token colon cs) ≤ length cs
unfolding rest_length
rest_short [] = omega arith
rest_short (c ∷ cs) = elim (Bool-cases (among colon c)) [
  | inl is_one ↦ rw is_one (omega arith)
  | inr not_one ↦ rw not_one (omega (arith, rest_short cs))
]

-- What the loop over the tokens ends with: the address of the text, in a memory that differs from the one
-- before only from `lo` to `hi`.
abbrev pub LastIs : Memory → ℕ → ℕ → Option (List ℕ) → Option ℕ × Memory → Type 0
LastIs m lo hi none (p, m') = (p ≡ none) × ((x : ℕ) → (x < lo) ⊎ (hi < x) → m' x ≡ m x)
LastIs m lo hi (some w) (p, m') =
    (a : ℕ) × (p ≡ some a)
    × Holds m' a w
    × (lo ≤ a)
    × (a + length w ≤ hi)
    × ((x : ℕ) → (x < lo) ⊎ (hi < x) → m' x ≡ m x)

LastIs-frame :
    (m m₁ : Memory) (lo hi : ℕ) (o : Option (List ℕ)) (p : Option ℕ) (m' : Memory)
    → ((x : ℕ) → (x < lo) ⊎ (hi < x) → m₁ x ≡ m x)
    → LastIs m₁ lo hi o (p, m')
    → LastIs m lo hi o (p, m')
LastIs-frame m m₁ lo hi none p m' same h = (h.0, λ x out. h.1 x out ∙ same x out)
LastIs-frame m m₁ lo hi (some w) p m' same (a, e, holds, from, to, frame) =
    (a, e, holds, from, to, λ x out. frame x out ∙ same x out)

-- One round of the loop.
last_token_step :
    (f n : ℕ) (t t' : Token) (pname : Option ℕ) (a : ℕ) (l : Option ℕ)
    → t.tok ≡ some a
    → t.last ≡ l
    → strtok_r f t.memory none colon l ≡ some t'
    → last_token f (suc n) t pname ≡ last_token f n t' (some a)
unfolding last_token
last_token_step f n t t' pname a l et el run = ground arith

no_more :
    (f n : ℕ) (m : Memory) (p : Option ℕ) → 0 < n → last_token f n (no_token m) p ≡ some (p, m)
unfolding last_token
no_more f zero m p lt = absurd (omega arith)
no_more f (suc n) m p lt = refl

strtok_none : (f : ℕ) (m : Memory) → strtok_r f m none colon none ≡ some (no_token m)
unfolding strtok_r
strtok_none f m = refl

strtok_on :
    (f : ℕ) (m : Memory) (q : ℕ)
    → strtok_r f m none colon (some q) ≡ strtok_r f m (some q) colon none
unfolding strtok_r
strtok_on f m q = refl

last_token_lem :
    (f n : ℕ) (t : Token) (pname : Option ℕ) (a lo hi : ℕ) (w : List ℕ) (l : Option ℕ)
    (rest : Option (List ℕ))
    → t.tok ≡ some a
    → t.last ≡ l
    → Holds t.memory a w
    → Remains colon t.memory l rest
    → Inside l rest lo hi
    → a + length w ≤ hi
    → lo ≤ a
    → rest_length rest + 1 < n
    → rest_length rest < f
    → (r : Option ℕ × Memory) × (last_token f n t pname ≡ some r)
      × LastIs t.memory lo hi (ending colon w rest) r
unfolding rest_length
last_token_lem f zero t pname a lo hi w l rest et el hw hr inside fits from rounds fuel =
    absurd (omega arith)
last_token_lem f (suc zero) t pname a lo hi w l rest et el hw hr inside fits from rounds fuel =
    absurd (omega arith)
last_token_lem f (suc (suc n)) t pname a lo hi w none none et el hw hr inside fits from rounds
      fuel =
    (
      (some a, t.memory),
      last_token_step f (suc n) t (no_token t.memory) pname a none et el (strtok_none f t.memory)
          ∙ no_more f (suc n) t.memory (some a) (omega arith),
      (a, refl, hw, from, fits, λ x out. refl),
    )
last_token_lem f (suc (suc n)) t pname a lo hi w none (some r) et el hw hr inside fits from rounds
      fuel =
    absurd hr
last_token_lem f (suc (suc n)) t pname a lo hi w (some q) none et el hw hr inside fits from rounds
      fuel =
    absurd hr
last_token_lem f (suc (suc n)) t pname a lo hi w (some q) (some r) et el hw hr inside fits from
      rounds fuel =
    let (t', run, out) = strtok_r-Tokenized colon f t.memory q r none hr (omega arith) in
    elim (List-cases (drop_delims colon r)) [
      | inl e ↦
          let done : t' ≡ no_token t.memory = (rw e at out) in
          (
            (some a, t.memory),
            last_token_step f (suc n) t (no_token t.memory) pname a (some q) et el
                  (strtok_on f t.memory q ∙ run ∙ ap some done)
                ∙ no_more f (suc n) t.memory (some a) (omega arith),
            rw (final_token-none colon (some w) r e) (a, refl, hw, from, fits, λ x o. refl),
          )
      | inr (c, r', e) ↦
          let (a', lo', len', short, found) = (rw e at out) in
          let short_rest = rest_short r' in
          let (res, goes, last) =
            last_token_lem f (suc n) t' (some a) a' lo hi (c ∷ token colon r') t'.last
              (after_token colon r') found.tok_at refl found.holds found.remains
              (Found-Inside t.memory a' c r' t' lo hi t'.last (after_token colon r') found refl refl
                (omega arith) (omega arith))
              (omega arith) (omega arith) (omega arith) (omega arith) in
          (
            res,
            last_token_step f (suc n) t t' pname a (some q) et el (strtok_on f t.memory q ∙ run)
                ∙ goes,
            rw (final_token-some colon (some w) r c r' e) (
                LastIs-frame t.memory t'.memory lo hi
                  (ending colon (c ∷ token colon r') (after_token colon r')) res.0 res.1
                  (λ x o. found.frame x (λ eq. omega arith)) last),
          )
    ]

-- For a name `cs` and more rounds than it has characters and one, the loop of `strtok` over the name
-- ends. It leaves NULL if every character is a colon, and otherwise the address of a text that is
-- the last one between the colons that is not empty, within the name; and nothing outside
-- the name has changed.
pub name_token-LastIs :
    (f : ℕ) (m : Memory) (p : ℕ) (cs : List ℕ)
    → Holds m p cs
    → length cs + 1 < f
    → (r : Option ℕ × Memory) × (name_token f m p ≡ some r)
      × LastIs m p (p + length cs) (final_token colon none [] cs) r
unfolding name_token rest_length
name_token-LastIs f m p cs h fuel =
    let (t, run, out) = strtok_r-Tokenized colon f m p cs none h (omega arith) in
    elim (List-cases (drop_delims colon cs)) [
      | inl e ↦
          let done : t ≡ no_token m = (rw e at out) in
          (
            (none, m),
            rw (run, name_token) (rw done (no_more f f m none (omega arith))),
            rw (final_token-none colon none cs e) (refl, λ x o. refl),
          )
      | inr (c, r, e) ↦
          let (a, lo, len, short, found) = (rw e at out) in
          let short_rest = rest_short r in
          let (res, goes, last) =
            last_token_lem f f t none a p (p + length cs) (c ∷ token colon r) t.last
              (after_token colon r) found.tok_at refl found.holds found.remains
              (Found-Inside m a c r t p (p + length cs) t.last (after_token colon r) found refl refl
                (omega arith) (omega arith))
              (omega arith) (omega arith) (omega arith) (omega arith) in
          (
            res,
            rw (run, name_token) goes,
            rw (final_token-some colon none cs c r e) (
                LastIs-frame m t.memory p (p + length cs)
                  (ending colon (c ∷ token colon r) (after_token colon r)) res.0 res.1
                  (λ x o. found.frame x (λ eq. omega arith)) last),
          )
    ]
