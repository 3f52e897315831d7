-- ===== src/Debug/Output.antt =====
-- What the Dump functions show: the registers by their names, and a stream that stays hexadecimal
-- after `std::hex`.
use Prim.Native.String.{String}
use rremu.Base.{
  ℕ, zero, suc, ◌+◌, ◌-◌, ◌≤◌, arith, ◌≡◌, refl, ap, Bool, true, false, some, List, [], ◌∷◌,
  if◌then◌else◌,
}
use mathlib.Core.Option as Option
use rremu.Debug.Names.{abi_name, at_key-abi_name}
use rremu.Config.{n_csr}
use rremu.Cpu.{Cpu}
use rremu.Debug.{
  Piece, string, character, number, hex, endl, dump_regs, dump_regs_from, dump_csrs, dump_csrs_from,
}

-- What appears: numbers in one base or the other.
pub data Shown : Type 0 where
  text : String → Shown
  letter : ℕ → Shown
  decimal : ℕ → Shown
  hexadecimal : ℕ → Shown
  newline : Shown

-- On a stream that is hexadecimal or decimal.
unfoldable pub render : Bool → List Piece → List Shown
render is_hex [] = []
render is_hex (string s ∷ ps) = text s ∷ render is_hex ps
render is_hex (character k ∷ ps) = letter k ∷ render is_hex ps
render is_hex (number k ∷ ps) = (if is_hex then hexadecimal k else decimal k) ∷ render is_hex ps
render is_hex (hex ∷ ps) = render true ps
render is_hex (endl ∷ ps) = newline ∷ render is_hex ps

-- One line for each CSR from `i` on, with its number in hexadecimal too.
abbrev pub csr_lines : (ℕ → ℕ) → ℕ → ℕ → List Shown
csr_lines csrs i zero = []
csr_lines csrs i (suc n) =
    text "csr"
    ∷ hexadecimal i
    ∷ text ": "
    ∷ hexadecimal (csrs i)
    ∷ newline
    ∷ csr_lines csrs (i + 1) n

-- One line for each register from `i` on: its name, and its value in hexadecimal.
abbrev pub register_lines : (ℕ → ℕ) → ℕ → ℕ → List Shown
register_lines regs i zero = []
register_lines regs i (suc n) =
    text (abi_name i) ∷ text ": " ∷ hexadecimal (regs i) ∷ newline ∷ register_lines regs (i + 1) n

dump_regs_from-lines :
    (regs : ℕ → ℕ) (i n : ℕ)
    → i + n ≤ 32
    → (pieces : List Piece) × (dump_regs_from regs i n ≡ some pieces)
      × ((is_hex : Bool) → render is_hex pieces ≡ register_lines regs i n)
unfolding dump_regs_from render
dump_regs_from-lines regs i zero h = ([], refl, (λ is_hex. refl))
dump_regs_from-lines regs i (suc n) h =
    let (pieces, dumped, shown) = dump_regs_from-lines regs (i + 1) n (omega (arith, h)) in
    (
      string (abi_name i) ∷ string ": " ∷ hex ∷ number (regs i) ∷ endl ∷ pieces,
      rw (dump_regs_from, at_key-abi_name i (omega (arith, h)), dumped) refl,
      λ is_hex.
          ap (λ rest. text (abi_name i) ∷ text ": " ∷ hexadecimal (regs i) ∷ newline ∷ rest)
            (shown true),
    )

render-dump_csrs_from :
    (csrs : ℕ → ℕ) (i n : ℕ) → render true (dump_csrs_from csrs i n) ≡ csr_lines csrs i n
unfolding render dump_csrs_from
render-dump_csrs_from csrs i zero = refl
render-dump_csrs_from csrs i (suc n) =
    ap (λ rest. text "csr" ∷ hexadecimal i ∷ text ": " ∷ hexadecimal (csrs i) ∷ newline ∷ rest)
      (render-dump_csrs_from csrs (i + 1) n)

-- `DumpRegs` prints a line for each of the 32 registers, with its name in the RISC-V calling
-- convention (x0 to x4 zero, ra, sp, gp, tp; the temporaries, the saved registers and the arguments
-- t, s and a with their numbers) and its value in hexadecimal, on a stream in either base; no
-- lookup of a name throws. `DumpCsrs` prints a line for each CSR; on a decimal stream the number of
-- the first is decimal, and the numbers of all others are hexadecimal.
pub render-dump :
    (c : Cpu) (is_hex : Bool)
    → (Option.map (render is_hex) (dump_regs c)
        ≡ some (text "--- REGISTERS ---" ∷ newline ∷ register_lines c.regs 0 32))
      × (render false (dump_csrs c)
          ≡ text "csr"
            ∷ decimal 0
            ∷ text ": "
            ∷ hexadecimal (c.csrs 0)
            ∷ newline
            ∷ csr_lines c.csrs 1 (n_csr - 1))
unfolding dump_regs dump_csrs dump_csrs_from render
render-dump c is_hex =
    let (pieces, dumped, shown) = dump_regs_from-lines c.regs 0 32 (omega arith) in
    (
      rw (Option.map, dump_regs, dumped, shown is_hex) refl,
      ap (λ rest. text "csr" ∷ decimal 0 ∷ text ": " ∷ hexadecimal (c.csrs 0) ∷ newline ∷ rest)
          (render-dump_csrs_from c.csrs 1 (n_csr - 1)),
    )
