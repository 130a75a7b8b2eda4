-- ===== src/Gpio/Pins.antt =====
-- What the pins of HtcLeoPkg/Drivers/GpioDxe/GpioDxe.c are after a call: no call touches another pin.
use htc_leo_pkg.Base.{
  ℕ, suc, ◌+◌, ◌-◌, ◌%◌, ◌≤◌, ◌<◌, ◌≡◌, ◌≢◌, refl, sym, ap, ◌∙◌, Bool, true, false, ◌&&◌, List, [],
  ◌∷◌, none, some, arith, get_or, ◌==◌, if◌then◌else◌, ==_iff, ==_refl, if-elim, &&-split,
  all_below_lem,
}
use htc_leo_pkg.Gpio.{
  GpioRegs, write_bit, Mmio, gpio_regs, find_gpio, read_pin, gpio_config, gpio_set, gpio_get,
  bank_7,
}
use htc_leo_pkg.Gpio.Banks.{find_gpio_lem, Holds}

-- The output registers and the output enable registers of the banks.
abbrev words : List GpioRegs → List ℕ
words [] = []
words (r ∷ rs) = r.out ∷ r.oe ∷ words rs

abbrev index_of : List ℕ → ℕ → ℕ
index_of [] a = 0
index_of (x ∷ xs) a = if x == a then 0 else suc (index_of xs a)

abbrev out_word : ℕ → ℕ
out_word i = index_of (words gpio_regs) (get_or gpio_regs i bank_7).out

abbrev oe_word : ℕ → ℕ
oe_word i = index_of (words gpio_regs) (get_or gpio_regs i bank_7).oe

-- The places of a bank's registers among the words.
out_word_lem : (i : ℕ) → i < 8 → out_word i ≡ i + i
out_word_lem i h =
    (==_iff (out_word i) (i + i)).0 (all_below_lem 8 (λ i. out_word i == (i + i)) i refl h)

oe_word_lem : (i : ℕ) → i < 8 → oe_word i ≡ suc (i + i)
oe_word_lem i h =
    (==_iff (oe_word i) (suc (i + i))).0 (all_below_lem 8 (λ i. oe_word i == suc (i + i)) i refl h)

-- The pin `n` is a bit of the bank `i`.
record At (i n : ℕ) : Type 0 where
  known : i < 8
  found :
      find_gpio n ≡ some (get_or gpio_regs i bank_7, some (n - (get_or gpio_regs i bank_7).start))
  holds : Holds (get_or gpio_regs i bank_7) n

find-At : (n : ℕ) → n ≤ 164 → (i : ℕ) × At i n
find-At n h =
    let (i, lt, f, p) = find_gpio_lem n h in (i, record { known = lt; found = f; holds = p })

abbrev bank : ℕ → GpioRegs
bank i = get_or gpio_regs i bank_7

-- The output level of a pin, and whether it is an output.
abbrev pub level : ℕ → Mmio → Bool
level n m = elim (find_gpio n) [ none ↦ false | some (r, b) ↦ read_pin r.out b m ]

abbrev pub is_output : ℕ → Mmio → Bool
is_output n m = elim (find_gpio n) [ none ↦ false | some (r, b) ↦ read_pin r.oe b m ]

level-At : {i n : ℕ} (m : Mmio) → At i n → level n m ≡ m (bank i).out (n - (bank i).start)
level-At m p = rw (p.found, level) refl

is_output-At : {i n : ℕ} (m : Mmio) → At i n → is_output n m ≡ m (bank i).oe (n - (bank i).start)
is_output-At m p = rw (p.found, is_output) refl

out-injective : {i j : ℕ} → i < 8 → j < 8 → (bank i).out ≡ (bank j).out → i ≡ j
out-injective {i} {j} hi hj e =
    omega (arith, out_word_lem i hi, out_word_lem j hj, ap (index_of (words gpio_regs)) e)

oe-injective : {i j : ℕ} → i < 8 → j < 8 → (bank i).oe ≡ (bank j).oe → i ≡ j
oe-injective {i} {j} hi hj e =
    omega (arith, oe_word_lem i hi, oe_word_lem j hj, ap (index_of (words gpio_regs)) e)

out-oe : {i j : ℕ} → i < 8 → j < 8 → (bank i).out ≢ (bank j).oe
out-oe {i} {j} hi hj e =
    absurd (omega (arith, out_word_lem i hi, oe_word_lem j hj, ap (index_of (words gpio_regs)) e))

write_bit_self : (a i : ℕ) (v : Bool) (m : Mmio) → write_bit a i v m a i ≡ v
write_bit_self a i v m = rw (==_refl a, ==_refl i) refl

write_bit_ne : (a i x j : ℕ) (v : Bool) (m : Mmio) → (x ≡ a → j ≢ i) → write_bit a i v m x j ≡ m x j
write_bit_ne a i x j v m h =
    if-elim (λ r. r ≡ m x j) (x == a && (j == i))
      (λ e.
        let (p, q) = &&-split (x == a) (j == i) e in
        absurd (h ((==_iff x a).0 p) ((==_iff j i).0 q)))
      (λ e. refl)

bit_of : ℕ → ℕ → ℕ
bit_of i n = n - (bank i).start

gpio_config-At :
    {i n : ℕ} (flags : ℕ) (m : Mmio)
    → At i n
    → gpio_config n flags m ≡ (true, write_bit (bank i).oe (bit_of i n) (flags % 2 == 1) m)
unfolding gpio_config bit_of
gpio_config-At flags m p = rw (p.found, gpio_config) refl

gpio_set-At :
    {i n : ℕ} (v : Bool) (m : Mmio)
    → At i n
    → gpio_set n v m
      ≡ write_bit (bank i).out (bit_of i n) v (write_bit (bank i).oe (bit_of i n) true m)
unfolding gpio_set bit_of
gpio_set-At {i} {n} v m p =
    rw (p.found, gpio_set)
      (ap (λ r. write_bit (bank i).out (n - (bank i).start) v r.1) (gpio_config-At 1 m p))

gpio_get-At :
    {i n : ℕ} (m : Mmio)
    → At i n
    → gpio_get n m ≡ (
      write_bit (bank i).oe (bit_of i n) false m (bank i).in_ (bit_of i n),
      write_bit (bank i).oe (bit_of i n) false m,
    )
unfolding gpio_get bit_of
gpio_get-At {i} {n} m p =
    rw (p.found, gpio_get)
      (ap (λ r. (r.1 (bank i).in_ (n - (bank i).start), r.1)) (gpio_config-At 0 m p))

-- Two pins of one bank have two bits.
bits-differ : {i j n p : ℕ} → At i n → At j p → n ≢ p → i ≡ j → bit_of j p ≢ bit_of i n
unfolding bit_of
bits-differ {i} {j} {n} {p} a b ne e d =
    ne (omega (arith, a.holds.above, b.holds.above, d, ap (λ i. (bank i).start) e))

-- The output of one pin after a write for another.
module _ {i j n p : ℕ} (a : At i n) (b : At j p) (v : Bool) (m : Mmio) where
  set_level_self : (gpio_set n v m) (bank i).out (bit_of i n) ≡ v
  set_level_self =
      ap (λ m. m (bank i).out (bit_of i n)) (gpio_set-At v m a)
      ∙ write_bit_self (bank i).out (bit_of i n) v (write_bit (bank i).oe (bit_of i n) true m)

  set_output_self : (gpio_set n v m) (bank i).oe (bit_of i n) ≡ true
  set_output_self =
      ap (λ m. m (bank i).oe (bit_of i n)) (gpio_set-At v m a)
      ∙ write_bit_ne (bank i).out (bit_of i n) (bank i).oe (bit_of i n) v
          (write_bit (bank i).oe (bit_of i n) true m) (λ e. absurd (out-oe a.known a.known (sym e)))
      ∙ write_bit_self (bank i).oe (bit_of i n) true m

  set_level_other : n ≢ p → (gpio_set n v m) (bank j).out (bit_of j p) ≡ m (bank j).out (bit_of j p)
  set_level_other ne =
      ap (λ m. m (bank j).out (bit_of j p)) (gpio_set-At v m a)
      ∙ write_bit_ne (bank i).out (bit_of i n) (bank j).out (bit_of j p) v
          (write_bit (bank i).oe (bit_of i n) true m)
          (λ e. bits-differ a b ne (out-injective a.known b.known (sym e)))
      ∙ write_bit_ne (bank i).oe (bit_of i n) (bank j).out (bit_of j p) true m
          (λ e. absurd (out-oe b.known a.known e))

  set_output_other : n ≢ p → (gpio_set n v m) (bank j).oe (bit_of j p) ≡ m (bank j).oe (bit_of j p)
  set_output_other ne =
      ap (λ m. m (bank j).oe (bit_of j p)) (gpio_set-At v m a)
      ∙ write_bit_ne (bank i).out (bit_of i n) (bank j).oe (bit_of j p) v
          (write_bit (bank i).oe (bit_of i n) true m) (λ e. absurd (out-oe a.known b.known (sym e)))
      ∙ write_bit_ne (bank i).oe (bit_of i n) (bank j).oe (bit_of j p) true m
          (λ e. bits-differ a b ne (oe-injective a.known b.known (sym e)))

-- `gpio_set n` makes a pin of the chip an output at the level given.
pub gpio_set_lem :
    (n : ℕ) (v : Bool) (m : Mmio)
    → n ≤ 164
    → (level n (gpio_set n v m) ≡ v) × (is_output n (gpio_set n v m) ≡ true)
unfolding bit_of
gpio_set_lem n v m hn =
    let (i, a) = find-At n hn in
    (
      level-At (gpio_set n v m) a ∙ set_level_self a a v m,
      is_output-At (gpio_set n v m) a ∙ set_output_self a a v m,
    )

-- For two pins of the chip, `gpio_set` of one leaves the level and the direction of the other as they
-- were: their registers and bits do not overlap.
pub gpio_set_other :
    (n p : ℕ) (v : Bool) (m : Mmio)
    → n ≤ 164
    → p ≤ 164
    → n ≢ p
    → (level p (gpio_set n v m) ≡ level p m) × (is_output p (gpio_set n v m) ≡ is_output p m)
unfolding bit_of
gpio_set_other n p v m hn hp ne =
    let (i, a) = find-At n hn in
    let (j, b) = find-At p hp in
    (
      level-At (gpio_set n v m) b ∙ set_level_other a b v m ne ∙ sym (level-At m b),
      is_output-At (gpio_set n v m) b ∙ set_output_other a b v m ne ∙ sym (is_output-At m b),
    )
