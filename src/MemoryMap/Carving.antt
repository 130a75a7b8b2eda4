-- ===== src/MemoryMap/Carving.antt =====
-- The reserved regions of HtcLeoPkg/Library/HtcLeoPkgLib/HtcLeoPkgMem.c.
use htc_leo_pkg.Base.{
  ℕ, zero, suc, ◌+◌, ◌-◌, ◌*◌, ◌^◌, ◌≤◌, ◌<◌, ◌≡◌, refl, sym, ap, ◌∙◌, inl, inr, Bool, true, false,
  ◌&&◌, List, [], ◌∷◌, ◌++◌, some, arith, length, ltb, leb, if◌then◌else◌, Bool-cases, All,
  length-append,
}
use mathlib.Core.List.{append_assoc, append-nil}
use htc_leo_pkg.MemoryMap.{
  Region, memory_reserved, Hob, is_system, lies_in, carved, below, carve, resource_hobs, Pcds,
  present, fb_size, system_hob, reserved_memory_buffer, reserved_top, resource_top,
}

-- Whether an address is in a block of length `len`, as a number
abbrev pub is_in : ℕ → ℕ → ℕ → ℕ
is_in a start len = if leb start a && ltb a (start + len) then 1 else 0

-- In how many blocks of system memory an address is, in how many reserved ones, and in how many regions
abbrev pub system_times : ℕ → List Hob → ℕ
system_times a [] = 0
system_times a (h ∷ hs) =
    (if is_system h.resource then is_in a h.start h.len else 0) + system_times a hs

abbrev pub reserved_times : ℕ → List Hob → ℕ
reserved_times a [] = 0
reserved_times a (h ∷ hs) =
    (if is_system h.resource then 0 else is_in a h.start h.len) + reserved_times a hs

abbrev pub region_times : ℕ → List Region → ℕ
region_times a [] = 0
region_times a (r ∷ rs) = is_in a r.offset r.size + region_times a rs

system_times-append :
    (a : ℕ) (hs ks : List Hob) → system_times a (hs ++ ks) ≡ system_times a hs + system_times a ks
system_times-append a [] ks = omega arith
system_times-append a (h ∷ hs) ks = omega (arith, system_times-append a hs ks)

reserved_times-append :
    (a : ℕ) (hs ks : List Hob)
    → reserved_times a (hs ++ ks) ≡ reserved_times a hs + reserved_times a ks
reserved_times-append a [] ks = omega arith
reserved_times-append a (h ∷ hs) ks = omega (arith, reserved_times-append a hs ks)

-- Ends that their words hold
abbrev pub Small : Region → Type 0
Small r = r.offset + r.size < 2 ^ 32

abbrev pub Fits : Hob → Type 0
Fits h = h.start + h.len < 2 ^ 64

-- What is left of a block and what is made of it, for a region in it
system_times-carved :
    (a : ℕ) (r : Region) (h : Hob)
    → Small r
    → Fits h
    → lies_in r h ≡ true
    → system_times a (below r h ∷ carved r h) + is_in a r.offset r.size ≡ system_times a (h ∷ [])
system_times-carved a r h small fits e = ground arith

reserved_times-carved :
    (a : ℕ) (r : Region) (h : Hob)
    → lies_in r h ≡ true
    → reserved_times a (below r h ∷ carved r h)
      ≡ reserved_times a (h ∷ []) + is_in a r.offset r.size
reserved_times-carved a r h e = ground arith

All-Fits-append : (hs ks : List Hob) → All Fits hs → All Fits ks → All Fits (hs ++ ks)
All-Fits-append [] ks f g = g
All-Fits-append (h ∷ hs) ks f g = (f.0, All-Fits-append hs ks f.1 g)

pieces-Fit :
    (r : Region) (h : Hob) (b : Bool)
    → Small r
    → All Fits (
        record { resource = memory_reserved; attribute = present; start = r.offset; len = r.size }
        ∷ (if b
            then record h { start = reserved_top r; len = resource_top h - reserved_top r } ∷ []
            else []))
pieces-Fit r h true small = (omega arith, (omega arith, tt))
pieces-Fit r h false small = (omega arith, tt)

carved-Fits : (r : Region) (h : Hob) → Small r → All Fits (carved r h)
carved-Fits r h small = pieces-Fit r h (ltb (reserved_top r) (resource_top h)) small

length-carved : (r : Region) (h : Hob) → length (carved r h) ≤ 2
length-carved r h = ground arith

-- The regions are those carved and those left; an address in a carved region moves from the system's memory to the
-- reserved memory, and no other address moves.
abbrev pub Carves : List Region → List Hob → List Region × List Hob → Type 0
Carves rs hobs q =
    (done : List Region) × (rs ≡ done ++ q.0)
    × ((a : ℕ) → system_times a q.1 + region_times a done ≡ system_times a hobs)
    × ((a : ℕ) → reserved_times a q.1 ≡ reserved_times a hobs + region_times a done)

-- The counts in the list behind a region that lies in a block
hit_system :
    (a : ℕ) (r : Region) (seen : List Hob) (h : Hob) (hobs : List Hob)
    → Small r
    → Fits h
    → lies_in r h ≡ true
    → system_times a ((seen ++ below r h ∷ []) ++ (hobs ++ carved r h)) + is_in a r.offset r.size
      ≡ system_times a (seen ++ h ∷ hobs)
hit_system a r seen h hobs small fits e = omega (
  arith,
  system_times-append a (seen ++ below r h ∷ []) (hobs ++ carved r h),
  system_times-append a seen (below r h ∷ []),
  system_times-append a hobs (carved r h),
  system_times-append a seen (h ∷ hobs),
  system_times-carved a r h small fits e,
)

hit_reserved :
    (a : ℕ) (r : Region) (seen : List Hob) (h : Hob) (hobs : List Hob)
    → lies_in r h ≡ true
    → reserved_times a ((seen ++ below r h ∷ []) ++ (hobs ++ carved r h))
      ≡ reserved_times a (seen ++ h ∷ hobs) + is_in a r.offset r.size
hit_reserved a r seen h hobs e = omega (
  arith,
  reserved_times-append a (seen ++ below r h ∷ []) (hobs ++ carved r h),
  reserved_times-append a seen (below r h ∷ []),
  reserved_times-append a hobs (carved r h),
  reserved_times-append a seen (h ∷ hobs),
  reserved_times-carved a r h e,
)

pub carve-Carves :
    (fuel : ℕ) (rs : List Region) (seen hobs : List Hob)
    → All Small rs
    → All Fits hobs
    → length hobs + 2 * length rs < fuel
    → (q : List Region × List Hob) × (carve fuel rs seen hobs ≡ some q) × Carves rs (seen ++ hobs) q
unfolding carve
carve-Carves zero rs seen hobs small fits lt = absurd (omega arith)
carve-Carves (suc fuel) [] seen hobs small fits lt =
    (([], seen ++ hobs), refl, ([], refl, (λ a. omega arith), (λ a. omega arith)))
carve-Carves (suc fuel) (r ∷ rs) seen [] small fits lt = (
  (r ∷ rs, seen),
  refl,
  (
    [],
    refl,
    (λ a. omega (arith, system_times-append a seen [])),
    (λ a. omega (arith, reserved_times-append a seen [])),
  ),
)
carve-Carves (suc fuel) (r ∷ rs) seen (h ∷ hobs) small fits lt = elim (Bool-cases (lies_in r h)) [
  | inl e ↦
      let (q, ends, (done, parts, sys, res)) =
        carve-Carves fuel rs (seen ++ below r h ∷ []) (hobs ++ carved r h) small.1
          (All-Fits-append hobs (carved r h) fits.1 (carved-Fits r h small.0))
          (omega (arith, length-append hobs (carved r h), length-carved r h, lt)) in
      (
        q,
        rw e ends,
        (
          r ∷ done,
          ap (λ l. r ∷ l) parts,
          (λ a. omega (arith, sys a, hit_system a r seen h hobs small.0 fits.0 e)),
          (λ a. omega (arith, res a, hit_reserved a r seen h hobs e)),
        ),
      )
  | inr e ↦
      let (q, ends, (done, parts, sys, res)) =
        carve-Carves fuel (r ∷ rs) (seen ++ h ∷ []) hobs small fits.1 (omega (arith, lt)) in
      (
        q,
        rw e ends,
        (
          done,
          parts,
          (λ a. omega (arith, sys a, ap (system_times a) (append_assoc seen (h ∷ []) hobs))),
          (λ a. omega (arith, res a, ap (reserved_times a) (append_assoc seen (h ∷ []) hobs))),
        ),
      )
]

-- For the blocks that are there before and the block of the system's memory, whose ends and the end of the frame
-- buffer their words hold, and with fuel for each block and two for each region, the loop ends. The regions are those
-- it carved and those that are left. Each address is in as many blocks of system memory as before less the carved
-- regions it is in, and in as many more reserved blocks: carving loses no memory and doubles none.
pub resource_hobs-Carves :
    (p : Pcds) (attributes fuel : ℕ) (hobs : List Hob)
    → p.fb_address + fb_size p < 2 ^ 32
    → p.memory_base + p.memory_size < 2 ^ 64
    → All Fits hobs
    → length hobs + 11 < fuel
    → (q : List Region × List Hob) × (resource_hobs p attributes fuel hobs ≡ some q)
      × Carves (reserved_memory_buffer p) (hobs ++ system_hob p attributes ∷ []) q
unfolding resource_hobs reserved_memory_buffer
resource_hobs-Carves p attributes fuel hobs frame memory fits lt =
    carve-Carves fuel (reserved_memory_buffer p) [] (hobs ++ system_hob p attributes ∷ [])
      (omega arith, (omega arith, (omega arith, (omega arith, (frame, tt)))))
      (All-Fits-append hobs (system_hob p attributes ∷ []) fits (memory, tt))
      (omega (arith, length-append hobs (system_hob p attributes ∷ []), lt))

-- A first region that lies in no block stays, and with it all the regions behind it.
pub carve-stays :
    (fuel : ℕ) (r : Region) (rs : List Region) (seen hobs : List Hob)
    → All (λ h. lies_in r h ≡ false) hobs
    → length hobs < fuel
    → carve fuel (r ∷ rs) seen hobs ≡ some (r ∷ rs, seen ++ hobs)
unfolding carve
carve-stays zero r rs seen hobs out lt = absurd (omega arith)
carve-stays (suc fuel) r rs seen [] out lt = ap (λ l. some (r ∷ rs, l)) (sym (append-nil seen))
carve-stays (suc fuel) r rs seen (h ∷ hobs) out lt = rw out.0 (
    carve-stays fuel r rs (seen ++ h ∷ []) hobs out.1 (omega arith)
    ∙ ap (λ l. some (r ∷ rs, l)) (append_assoc seen (h ∷ []) hobs))
