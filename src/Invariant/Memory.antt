-- ===== src/Invariant/Memory.antt =====
-- RAM and the UART keep bytes, and a load from them gives a 64-bit word.
use rremu.Base.{
  ℕ, zero, suc, ◌+◌, ◌/◌, ◌%◌, ◌^◌, ◌<◌, ◌≤◌, ◌≡◌, ◌⊎◌, inl, inr, true, Bool-cases, bit_and, bit_or,
  sub64, arith,
}
use native.Mathlib.Nat.{pow-succ'}
use rremu.Bits.{bit_and-le_left, bit_or-lt}
use rremu.Action.{Action, done}
use rremu.Config.{uart_base}
use rremu.Ram.{Ram, read_bytes, write_bytes, is_access_size, update}
use rremu.Ram
use rremu.Uart.{Uart, rhr, thr}
use rremu.Uart
use rremu.Mmu.{Mmu, bare, sv39, on_ram, on_uart}
use rremu.Invariant.Logic.{
  Keeps, Any, if-Keeps, then-Keeps, pure-Keeps, throw-Keeps, gets-Keeps, modify-Keeps,
  defined_if-Keeps, on_member-Keeps,
}

-- A 64-bit word.
abbrev pub IsWord : ℕ → Type 0
IsWord v = v < 2 ^ 64

abbrev pub AreBytes : (ℕ → ℕ) → Type 0
AreBytes f = (i : ℕ) → f i < 256

abbrev pub RamIsValid : Ram → Type 0
RamIsValid r = AreBytes r.mem

abbrev pub UartIsValid : Uart → Type 0
UartIsValid u = AreBytes u.buffer

-- The paging mode, and in Sv39 mode the root page table, are those that `satp` asks for.
abbrev pub Follows : ℕ → Mmu → Type 0
Follows satp m =
    (satp < 2 ^ 63 → m.paging_mode ≡ bare)
    × (2 ^ 63 ≤ satp → (m.paging_mode ≡ sv39) × (m.root_page_table ≡ satp % 2 ^ 44))

abbrev pub MmuIsValid : ℕ → Mmu → Type 0
MmuIsValid satp m = RamIsValid m.ram × UartIsValid m.uart × Follows satp m

update-AreBytes : (f : ℕ → ℕ) (i v : ℕ) → AreBytes f → v < 256 → AreBytes (update f i v)
update-AreBytes f i v h p j = ground (arith, h j)

read_bytes-lt : (f : ℕ → ℕ) (i n : ℕ) → AreBytes f → read_bytes f i n < 256 ^ n
unfolding read_bytes
read_bytes-lt f i zero h = omega arith
read_bytes-lt f i (suc n) h = omega (arith, pow-succ' 256 n, h i, read_bytes-lt f (i + 1) n h)

write_bytes-AreBytes : (f : ℕ → ℕ) (i n v : ℕ) → AreBytes f → AreBytes (write_bytes f i n v)
unfolding write_bytes
write_bytes-AreBytes f i zero v h = h
write_bytes-AreBytes f i (suc n) v h =
    update-AreBytes (write_bytes f (i + 1) n (v / 256)) i (v % 256)
      (write_bytes-AreBytes f (i + 1) n (v / 256) h) (omega arith)

access_sizes : (n : ℕ) → is_access_size n ≡ true → (n ≡ 1) ⊎ ((n ≡ 2) ⊎ ((n ≡ 4) ⊎ (n ≡ 8)))
access_sizes n h = ground arith

read_bytes-IsWord :
    (f : ℕ → ℕ) (i n : ℕ) → AreBytes f → is_access_size n ≡ true → IsWord (read_bytes f i n)
read_bytes-IsWord f i n h size = elim (access_sizes n size) [
  | inl e ↦ rw e (omega (arith, read_bytes-lt f i 1 h))
  | inr (inl e) ↦ rw e (omega (arith, read_bytes-lt f i 2 h))
  | inr (inr (inl e)) ↦ rw e (omega (arith, read_bytes-lt f i 4 h))
  | inr (inr (inr e)) ↦ rw e (read_bytes-lt f i 8 h)
]

module _ (base size addr n : ℕ) where
  pub ram_load-Keeps : Keeps RamIsValid IsWord (Ram.load base size addr n)
  unfolding Ram.load
  ram_load-Keeps = elim (Bool-cases (is_access_size n)) [
    | inl e ↦ rw e (
        then-Keeps (defined_if-Keeps _)
          (gets-Keeps _ (λ r h. read_bytes-IsWord r.mem (sub64 addr base) n h e)))
    | inr e ↦ rw e throw-Keeps
  ]

  pub ram_store-Keeps : (v : ℕ) → Keeps RamIsValid Any (Ram.store base size addr n v)
  unfolding Ram.store
  ram_store-Keeps v =
      if-Keeps _
        (then-Keeps (defined_if-Keeps _)
          (modify-Keeps (λ r h. write_bytes-AreBytes r.mem (sub64 addr base) n v h)))
        throw-Keeps

module _ (addr n : ℕ) where
  pub uart_load-Keeps : Keeps UartIsValid IsWord (Uart.load addr n)
  unfolding Uart.load
  uart_load-Keeps = if-Keeps _ throw-Keeps (
      then-Keeps (if-Keeps _ clear_keeps (pure-Keeps tt)) (
        then-Keeps (defined_if-Keeps _) (
          then-Keeps
            (modify-Keeps
              (λ u h. update-AreBytes u.buffer (sub64 uart_base addr) 0 h (omega arith)))
            (pure-Keeps (omega arith)))))
    where
      clear_keeps :
          Keeps UartIsValid Any
            (λ u. done tt (record { buffer = update u.buffer 5 (bit_and (u.buffer 5) 0xfe) }))
      clear_keeps = modify-Keeps (λ u h.
          update-AreBytes u.buffer 5 (bit_and (u.buffer 5) 0xfe) h
            (omega (arith, bit_and-le_left (u.buffer 5) 0xfe, h 5)))

  pub uart_store-Keeps : (v : ℕ) → Keeps UartIsValid Any (Uart.store addr n v)
  unfolding Uart.store
  uart_store-Keeps v = if-Keeps _ throw-Keeps (
      if-Keeps _
        (modify-Keeps (λ u h.
          update-AreBytes u.buffer 5 (bit_or (u.buffer 5) 0x20) h
            (bit_or-lt 8 (u.buffer 5) 0x20 (h 5) (omega arith))))
        (pure-Keeps tt))

pub on_ram-Keeps :
    {satp : ℕ} {A : Type 0} {P : A → Type 0} {f : Action Ram A}
    → Keeps RamIsValid P f
    → Keeps (MmuIsValid satp) P (on_ram f)
on_ram-Keeps h =
    on_member-Keeps {J = λ _. RamIsValid} _ _ (λ m h. h.0) (λ m r h k. (k, h.1, h.2)) (λ _. h)

pub on_uart-Keeps :
    {satp : ℕ} {A : Type 0} {P : A → Type 0} {f : Action Uart A}
    → Keeps UartIsValid P f
    → Keeps (MmuIsValid satp) P (on_uart f)
on_uart-Keeps h =
    on_member-Keeps {J = λ _. UartIsValid} _ _ (λ m h. h.1) (λ m u h k. (h.0, k, h.2)) (λ _. h)
