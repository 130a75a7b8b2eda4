-- ===== src/StrLib.antt =====
-- HtcLeoPkg/Library/StrLib: the scans of C text, strlcat and strtok. A string is an address in a
-- memory of characters; a set of characters (`accept`, `delim`) is its list of characters. A
-- loop that walks to a NUL is recursion on fuel, and `none` means that the fuel ran out.
pub mod Tokens
pub mod Scans
use htc_leo_pkg.Base.{
  ℕ, zero, suc, ◌+◌, ◌-◌, ◌%◌, Bool, true, false, List, [], ◌∷◌, Option, none, some, ◌==◌,
  if◌then◌else◌,
}
use htc_leo_pkg.Base.Memory.{Memory, write}

-- `strchr`
unfoldable pub strchr : ℕ → Memory → ℕ → ℕ → Option (Option ℕ)
strchr zero m s c = none
strchr (suc f) m s c =
    let rest = strchr f m (s + 1) c in
    if m s == c % 256 then some (some s) else if m s == 0 then some none else rest

-- The inner loop of `strspn`, `strpbrk` and `strtok_r`: is the character one of the set? The set ends
-- at its NUL.
unfoldable pub among : List ℕ → ℕ → Bool
among [] c = false
among (d ∷ ds) c = if d == 0 then false else if c == d then true else among ds c

-- `strspn`, from the place `p` with `count` characters counted
unfoldable pub strspn : ℕ → Memory → ℕ → List ℕ → ℕ → Option ℕ
strspn zero m p accept count = none
strspn (suc f) m p accept count =
    let rest = strspn f m (p + 1) accept (count + 1) in
    if m p == 0 then some count else if among accept (m p) then rest else some count

-- `strpbrk`
unfoldable pub strpbrk : ℕ → Memory → ℕ → List ℕ → Option (Option ℕ)
strpbrk zero m cs ct = none
strpbrk (suc f) m cs ct =
    let rest = strpbrk f m (cs + 1) ct in
    if m cs == 0 then some none else if among ct (m cs) then some (some cs) else rest

-- The first loop of `strlcat`: the end of the text at `d`, at most `n` characters on.
unfoldable pub end_of : Memory → ℕ → ℕ → ℕ
end_of m d zero = d
end_of m d (suc n) = if m d == 0 then d else end_of m (d + 1) n

-- The second loop of `strlcat`, with the NUL after it: the last `s`, and the memory.
unfoldable pub copy_loop : ℕ → Memory → ℕ → ℕ → ℕ → Option (ℕ × Memory)
copy_loop zero m d s n = none
copy_loop (suc f) m d s n =
    let copied = copy_loop f (write m d (m s)) (d + 1) (s + 1) (n - 1) in
    let skipped = copy_loop f m d (s + 1) n in
    if m s == 0 then some (s, write m d 0) else if n == 1 then skipped else copied

-- `strlcat`; `str_len` is AsciiStrLen.
unfoldable pub strlcat : (Memory → ℕ → ℕ) → ℕ → Memory → ℕ → ℕ → ℕ → Option (ℕ × Memory)
unfolding end_of copy_loop
strlcat str_len f m dst src siz =
    let d = end_of m dst siz in
    let dlen = d - dst in
    let n = siz - dlen in
    let copied = copy_loop f m d src n in
    if n == 0
    then some (dlen + str_len m src, m)
    else elim copied [ none ↦ none | some (s, m') ↦ some (dlen + (s - src), m') ]

-- The loop at the label `cont` of `strtok_r`: the place of the first character that is no delimiter.
unfoldable pub skip : ℕ → Memory → List ℕ → ℕ → Option ℕ
unfolding among
skip zero m delim s = none
skip (suc f) m delim s =
    let rest = skip f m delim (s + 1) in if among delim (m s) then rest else some s

-- The second loop of `strtok_r`: the place of the next delimiter or NUL. The NUL of `delim` is found
-- as its last character.
unfoldable pub scan : ℕ → Memory → List ℕ → ℕ → Option ℕ
unfolding among
scan zero m delim s = none
scan (suc f) m delim s =
    let rest = scan f m delim (s + 1) in
    if among delim (m s) then some s else if m s == 0 then some s else rest

-- What `strtok_r` returns: the token, `*last`, and the memory.
pub record Token : Type 0 where
  pub tok : Option ℕ
  pub last : Option ℕ
  pub memory : Memory

abbrev pub no_token : Memory → Token
no_token m = record { tok = none; last = none; memory = m }

-- The end of a token at `e`.
unfoldable pub cut : Memory → ℕ → ℕ → Token
cut m tok e =
    if m e == 0
    then record { tok = some tok; last = none; memory = m }
    else record { tok = some tok; last = some (e + 1); memory = write m e 0 }

unfoldable pub token_at : ℕ → Memory → List ℕ → ℕ → Option Token
unfolding skip scan cut
token_at f m delim s = elim (skip f m delim s) [
  | none ↦ none
  | some a ↦
      if m a == 0
      then some (no_token m)
      else elim (scan f m delim (a + 1)) [ none ↦ none | some e ↦ some (cut m a e) ]
]

-- `strtok_r`; `strtok` is the same with a static `last`.
unfoldable pub strtok_r : ℕ → Memory → Option ℕ → List ℕ → Option ℕ → Option Token
unfolding token_at
strtok_r f m (some s) delim last = token_at f m delim s
strtok_r f m none delim (some s) = token_at f m delim s
strtok_r f m none delim none = some (no_token m)
