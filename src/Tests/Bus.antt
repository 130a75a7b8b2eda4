-- ===== src/Tests/Bus.antt =====
-- The theorems on the modem, its clocks, the card and the I2C bus at concrete inputs.
use htc_leo_pkg.Base.{
  ℕ, zero, suc, ◌+◌, ◌≤◌, ◌≡◌, ◌≢◌, ◌⊎◌, refl, Bool, true, false, List, [], ◌∷◌, ◌++◌, Option, none,
  some, arith, length, leb, ◌==◌, if◌then◌else◌,
}
use htc_leo_pkg.Base.Int.{pos, negsuc}
use htc_leo_pkg.Pcom.{Line, Modem, pcom_cmd_idle, msm_proc_comm}
use htc_leo_pkg.Pcom.Answer.{Answer, Serves, Shows, after, reply_of, msm_proc_comm-answer}
use htc_leo_pkg.Reset.{efi_reset_cold, lib_reset_system}
use htc_leo_pkg.Reset.Outcome.{EndsAs, request, lib_reset_system-EndsAs}
use htc_leo_pkg.Pcom.Clients.{until_success}
use htc_leo_pkg.Pcom.Clients.Rounds.{Calls, words_at, until_success_lem}
use htc_leo_pkg.EmbeddedClock.{
  Lookup, minus_one, clk_enable, fill_clocks_lookup, speed, choose, sdc_steps,
}
use htc_leo_pkg.EmbeddedClock.Speeds.{count_below, choose-steps}
use htc_leo_pkg.EmbeddedClock.Numbers.{clk_enable_lem}
use htc_leo_pkg.SdCard.{BlockDev, device_error, already_started, Media, sd_card_initialize}
use htc_leo_pkg.SdCard.Mbr.{marked, started, sd_card_initialize_lem}
use htc_leo_pkg.Base.Search.{IsFirst}
use htc_leo_pkg.MicroP.{I2cMsg, write_msg, read_msg}
use htc_leo_pkg.I2c.{
  I2cDev, write_data, store, discard, stop_if, addr_word, msm_i2c_interrupt_locked,
}
use htc_leo_pkg.I2c.Sound.{IsSound, Within, room, interrupt-IsSound}
use htc_leo_pkg.I2c.Writes.{begun, behind, inside, words_from, run-write_msg}
use htc_leo_pkg.I2c.Writes.{run as run_interrupts}
use htc_leo_pkg.I2c.Reads.{stores_from, run-read_msg}
use htc_leo_pkg.I2c.Transfer.{I2cHw, I2cState, msm_i2c_xfer}
use htc_leo_pkg.I2c.Transfer.Idle.{Ends, msm_i2c_xfer-Ends}

-- A modem that answers when it is rung, and is ready after one step. It counts its calls.
module _ (answer : ℕ → ℕ → ℕ → Answer) where
  abbrev prompt : Modem ℕ
  prompt = record {
    act = λ l. record l { shared = record l.shared { mdm_status = 1 } };
    ring = λ l.
        let a = answer l.shared.command l.shared.data1 l.shared.data2 in
        record l {
          shared = record l.shared {
            command = 1;
            status = a.status;
            data1 = a.data1;
            data2 = a.data2;
          };
          modem = l.modem + 1;
        };
  }

  prompt-Shows :
      (k : ℕ) (a : Answer) (l : Line ℕ) → Shows a l.shared → Shows a (after prompt k l).shared
  prompt-Shows zero a l h = h
  prompt-Shows (suc k) a l h = prompt-Shows k a (prompt.act l) h

  prompt-Serves : Serves prompt answer 2
  prompt-Serves = record {
    ready = λ l. (1, omega arith, refl);
    done = λ l ne. (0, omega arith, refl);
    answered = λ l k ne done.
        prompt-Shows k (answer l.shared.command l.shared.data1 l.shared.data2) (prompt.ring l)
          (refl, refl, refl);
  }

-- It takes commands of which the first word is 5 at least, and else asks for the next higher one.
abbrev picky : ℕ → ℕ → ℕ → Answer
picky cmd d1 d2 =
    if leb 5 d1
    then record { status = 3; data1 = d1; data2 = 7 }
    else record { status = 5; data1 = d1 + 1; data2 = d2 }

abbrev willing : ℕ → ℕ → ℕ → Answer
willing cmd d1 d2 = record { status = 3; data1 = d1; data2 = 7 }

abbrev line : Line ℕ
line = record {
  shared = record { command = 0; status = 0; data1 = 0; data2 = 0; mdm_status = 0 };
  modem = 0;
}

msm_proc_comm_example :
    (l' : Line ℕ) × (msm_proc_comm (prompt picky) 2 31 (some 3) none line
      ≡ some (reply_of (picky 31 3 0) (some 3) none, l'))
    × (l'.shared.command ≡ pcom_cmd_idle)
    × (l'.shared.status ≡ (picky 31 3 0).status)
msm_proc_comm_example =
    msm_proc_comm-answer (prompt-Serves picky) 2 31 (some 3) none line (omega arith) (omega arith)

until_success_example :
    (l' : Line ℕ) × (until_success (prompt picky) 2 4 30 4 1 line
      ≡ some (words_at picky 30 2 (4, 1), l'))
    × Calls (prompt picky) 2 30 2 (4, 1) line (words_at picky 30 2 (4, 1)) l'
    × ((fewer : ℕ) → fewer ≤ 1 → until_success (prompt picky) 2 fewer 30 4 1 line ≡ none)
until_success_example =
    until_success_lem (prompt-Serves picky) 2 4 30 1 (4, 1) line (omega arith) (omega arith)
      (omega arith) (λ i h. let first : i ≡ 0 = omega arith in rw first (omega arith)) refl

choose-steps_example :
    (choose 19 30000001 ≡ speed (suc (count_below 30000001 sdc_steps)))
    × (count_below 30000001 sdc_steps ≤ length sdc_steps)
    × ((rate' : ℕ)
        → 30000001 ≤ rate'
        → count_below 30000001 sdc_steps ≤ count_below rate' sdc_steps)
choose-steps_example = choose-steps 19 30000001 refl

clk_enable_example :
    ((fill_clocks_lookup 21 ≡ minus_one)
      × (clk_enable (prompt willing) 2 21 fill_clocks_lookup line
          ≡ some ((minus_one, fill_clocks_lookup), line)))
    ⊎ ((fill_clocks_lookup 21 ≢ minus_one)
        × (c' : Lookup) × (l' : Line ℕ) × (clk_enable (prompt willing) 2 21 fill_clocks_lookup line
            ≡ some ((c' 21, c'), l'))
        × (c' 21 ≡ (
            if (willing 50 (fill_clocks_lookup 21) 0).status == 4
            then fill_clocks_lookup 21
            else (willing 50 (fill_clocks_lookup 21) 0).data1))
        × ((i : ℕ) → i ≢ 21 → c' i ≡ fill_clocks_lookup i))
clk_enable_example =
    clk_enable_lem (prompt-Serves willing) 2 21 fill_clocks_lookup line (omega arith)

abbrev marked_block : ℕ → List ℕ
marked_block zero = []
marked_block (suc n) = (if n == 0 then 0xAA else if n == 1 then 0x55 else 0) ∷ marked_block n

-- A card whose block 1 has the mark; it counts the calls.
abbrev card : BlockDev ℕ
card = record {
  lba = 8;
  blksz = 512;
  block_read = λ i n b. ((n, if i == 1 then marked_block 512 else []), b + 1);
  block_write = λ i n bytes b. (n, b + 1);
}

sd_card_initialize_example :
    ((◌≡◌ {A = Bool} false true)
      × (sd_card_initialize card false already_started 0 ≡ (some (device_error, none), 0)))
    ⊎ ((◌≡◌ {A = Bool} false false)
        × (k : Option ℕ) × IsFirst (marked card 0) 0 9 k
        × (sd_card_initialize card false already_started 0 ≡ started card 0 already_started 9 k))
sd_card_initialize_example = sd_card_initialize_lem card false already_started 0

abbrev media : Media
media = record { block_size = 512; last_block = 8 }

abbrev dev : I2cDev
dev = record {
  msgs = write_msg 0x66 (0x51 ∷ 0 ∷ []) ∷ read_msg 0x66 2 ∷ [];
  rem = 2;
  at = negsuc 0;
  cnt = 2;
  ret = pos 2;
  need_flush = false;
  flush_cnt = 0;
  timeout = pos 0;
}

interrupt-IsSound_example :
    let (es, d') = msm_i2c_interrupt_locked 0 0 dev in Within (room dev.msgs) es × IsSound d'
interrupt-IsSound_example = interrupt-IsSound 0 0 dev (omega arith)

run-write_msg_example :
    (run_interrupts ((0, 0) ∷ (0, 0) ∷ (0, 0) ∷ []) (begun dev (write_msg 0x66 (0x51 ∷ 2 ∷ [])) [])
      ≡ (
        write_data (addr_word (write_msg 0x66 (0x51 ∷ 2 ∷ [])) false)
            ∷ words_from (write_msg 0x66 (0x51 ∷ 2 ∷ [])) [] 0 2,
        behind dev (write_msg 0x66 (0x51 ∷ 2 ∷ [])) [],
      ))
    × (◌≡◌ {A = List I2cMsg} [] []
        → ◌≡◌ {A = Bool} false false
        → msm_i2c_interrupt_locked 0 0 (behind dev (write_msg 0x66 (0x51 ∷ 2 ∷ [])) [])
          ≡ ([], record (behind dev (write_msg 0x66 (0x51 ∷ 2 ∷ [])) []) { timeout = pos 0 }))
run-write_msg_example =
    run-write_msg dev 0x66 (0x51 ∷ 2 ∷ []) [] (0, 0) ((0, 0) ∷ (0, 0) ∷ [])
      ((refl, refl, refl), ((refl, refl, refl), ((refl, refl, refl), tt))) refl

run-read_msg_example :
    let ended = λ (len : ℕ). record (inside dev (read_msg 0x66 len) [] len 0) {
      need_flush = false;
      timeout = pos 0;
    } in
    (run_interrupts ((2, 17) ∷ (2, 18) ∷ (2, 19) ∷ []) (inside dev (read_msg 0x66 3) [] 0 3)
      ≡ (stores_from 0 ((2, 17) ∷ (2, 18) ∷ (2, 19) ∷ []), ended 3))
    × (run_interrupts ((2, 17) ∷ (2, 18) ∷ []) (inside dev (read_msg 0x66 1) [] 0 1)
        ≡ (stop_if true ++ store 0 17 ∷ discard ∷ [], ended 1))
run-read_msg_example =
    run-read_msg dev 0x66 (2, 17) (2, 18) ((2, 19) ∷ []) refl refl
      ((refl, refl, refl), ((refl, refl, refl), ((refl, refl, refl), tt)))

-- A bus that is free, with one interrupt before each reading
abbrev hardware : I2cHw ℕ
hardware = record {
  read_status = λ b. (0, b);
  shown = λ b. (0, 0);
  interrupts = λ b. ((0, 0) ∷ [], b);
  event = λ e b. b + 1;
  get = λ pin b. (true, b);
  set_low = λ pin b. b;
  set_input = λ pin b. b;
  set_mux = λ on b. b;
  write_clk_ctl = λ x b. b;
  set_clock = λ on b. b;
  set_source = λ on b. b;
  register_handler = λ b. b;
}

abbrev resting : I2cState ℕ
resting = record { dev = record dev { msgs = []; rem = 0 }; bus = 0 }

msm_i2c_xfer_example :
    Ends hardware 1 (msm_i2c_xfer hardware (write_msg 0x66 (0x51 ∷ []) ∷ []) 1 resting)
    × ((status byte : ℕ)
        → let s' = (msm_i2c_xfer hardware (write_msg 0x66 (0x51 ∷ []) ∷ []) 1 resting).1 in
          msm_i2c_interrupt_locked status byte s'.dev ≡ ([], s'.dev))
msm_i2c_xfer_example = msm_i2c_xfer-Ends hardware (write_msg 0x66 (0x51 ∷ []) ∷ []) 1 resting refl

lib_reset_system_example :
    EndsAs willing
      (request efi_reset_cold)
      (record { line = line; words = λ a. 0 })
      (lib_reset_system (prompt willing) 2 efi_reset_cold (record { line = line; words = λ a. 0 }))
lib_reset_system_example =
    lib_reset_system-EndsAs (prompt-Serves willing) 2 (omega arith) efi_reset_cold
      (record { line = line; words = λ a. 0 })
