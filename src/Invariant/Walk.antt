-- ===== src/Invariant/Walk.antt =====
-- The bus and the page walk keep bytes in memory, and a load gives a 64-bit word.
use rremu.Base.{ℕ, zero, suc, ◌*◌, Option, some, add64, arith}
use rremu.Config.{
  is_valid_addr, kernbase, memory_size, uart_base, uart_size, virtio_base, virtio_size, clint_base,
  clint_size, plic_base, plic_size,
}
use rremu.Trap.{load_access_fault, store_amo_access_fault}
use rremu.Mmu.{
  PagingMode, bare, sv32, sv39, sv48, sv57, Loader, load, store, load_physical, store_physical,
  translate, translate_in, walk_from_root, walk, next_table, page_address, parse_page_table_entry,
  Sv39PageTableEntry, is_invalid, is_leaf, vpn,
}
use rremu.Invariant.Logic.{
  Keeps, Any, IfSome, bind-Keeps, if-Keeps, then-Keeps, pure-Keeps, throw-Keeps, gets-Keeps,
  defined_if-Keeps, read-Keeps,
}
use rremu.Invariant.Memory.{
  IsWord, MmuIsValid, on_ram-Keeps, on_uart-Keeps, ram_load-Keeps, ram_store-Keeps, uart_load-Keeps,
  uart_store-Keeps,
}

-- The value of `data` after a load, if it has one, is a word.
abbrev pub Loads : ℕ → Loader → Type 0
Loads satp loader =
    (a n : ℕ) (before : Option ℕ)
    → IfSome IsWord before
    → Keeps (MmuIsValid satp) (IfSome IsWord) (loader a n before)

module _ {satp : ℕ} (addr n : ℕ) where
  load_physical-Keeps :
      (before : Option ℕ)
      → IfSome IsWord before
      → Keeps (MmuIsValid satp) (IfSome IsWord) (load_physical addr n before)
  unfolding load_physical
  load_physical-Keeps before hb =
      if-Keeps (is_valid_addr kernbase memory_size addr)
        (bind-Keeps (on_ram-Keeps (ram_load-Keeps kernbase memory_size addr n))
          (λ v h. pure-Keeps h))
        (if-Keeps (is_valid_addr uart_base uart_size addr)
          (bind-Keeps (on_uart-Keeps (uart_load-Keeps addr n)) (λ v h. pure-Keeps h))
          (if-Keeps (is_valid_addr virtio_base virtio_size addr) (pure-Keeps hb) (
            if-Keeps (is_valid_addr clint_base clint_size addr) (pure-Keeps hb) (
              if-Keeps (is_valid_addr plic_base plic_size addr) (pure-Keeps hb) (
                if-Keeps (is_valid_addr virtio_base virtio_size addr) (pure-Keeps hb)
                  (throw-Keeps {t = load_access_fault}))))))

  store_physical-Keeps : (v : ℕ) → Keeps (MmuIsValid satp) Any (store_physical addr n v)
  unfolding store_physical
  store_physical-Keeps v =
      if-Keeps (is_valid_addr kernbase memory_size addr)
        (on_ram-Keeps (ram_store-Keeps kernbase memory_size addr n v))
        (if-Keeps (is_valid_addr uart_base uart_size addr)
          (on_uart-Keeps (uart_store-Keeps addr n v))
          (if-Keeps (is_valid_addr virtio_base virtio_size addr) (pure-Keeps tt) (
            if-Keeps (is_valid_addr clint_base clint_size addr) (pure-Keeps tt) (
              if-Keeps (is_valid_addr plic_base plic_size addr) (pure-Keeps tt) (
                if-Keeps (is_valid_addr virtio_base virtio_size addr) (pure-Keeps tt)
                  (throw-Keeps {t = store_amo_access_fault}))))))

next_table-Keeps :
    {satp : ℕ} (pte : Sv39PageTableEntry) → Keeps (MmuIsValid satp) Any (next_table pte)
unfolding next_table
next_table-Keeps pte =
    bind-Keeps {P = Any} (gets-Keeps _ (λ m h. tt))
      (λ page_size _. then-Keeps (defined_if-Keeps _) (pure-Keeps tt))

module _ {satp : ℕ} (loader : Loader) (loads : Loads satp loader) (addr : ℕ) where
  walk-Keeps :
      (i a : ℕ) (before : Option ℕ)
      → IfSome IsWord before
      → Keeps (MmuIsValid satp) Any (walk loader addr i a before)
  unfolding walk
  walk-Keeps zero a before hb =
      bind-Keeps (loads (add64 a (vpn addr zero * 8)) 8 before hb) (λ raw hr.
        bind-Keeps (read-Keeps raw hr) (λ value _.
          if-Keeps (is_invalid (parse_page_table_entry value)) throw-Keeps
            (if-Keeps (is_leaf (parse_page_table_entry value)) (pure-Keeps tt) throw-Keeps)))
  walk-Keeps (suc i) a before hb =
      bind-Keeps (loads (add64 a (vpn addr (suc i) * 8)) 8 before hb) (λ raw hr.
        bind-Keeps (read-Keeps raw hr) (λ value _.
          if-Keeps (is_invalid (parse_page_table_entry value)) throw-Keeps (
            if-Keeps (is_leaf (parse_page_table_entry value)) (pure-Keeps tt) (
              bind-Keeps (next_table-Keeps (parse_page_table_entry value))
                (λ a' _. walk-Keeps i a' raw hr)))))

  page_address-Keeps :
      (i : ℕ) (pte : Sv39PageTableEntry) → Keeps (MmuIsValid satp) Any (page_address addr i pte)
  unfolding page_address
  page_address-Keeps zero pte = pure-Keeps tt
  page_address-Keeps (suc zero) pte = pure-Keeps tt
  page_address-Keeps (suc (suc zero)) pte = pure-Keeps tt
  page_address-Keeps (suc (suc (suc i))) pte = throw-Keeps

  translate_in-Keeps :
      (mode : PagingMode) → Keeps (MmuIsValid satp) Any (translate_in loader addr mode)
  unfolding translate_in walk_from_root
  translate_in-Keeps bare = pure-Keeps tt
  translate_in-Keeps sv39 = bind-Keeps (gets-Keeps {P = Any} _ (λ m h. tt)) (λ root _.
      bind-Keeps (walk-Keeps 2 root (some 0) (omega arith))
        (λ found _. page_address-Keeps found.0 found.1))
  translate_in-Keeps sv32 = throw-Keeps
  translate_in-Keeps sv48 = throw-Keeps
  translate_in-Keeps sv57 = throw-Keeps

  translate-Keeps : Keeps (MmuIsValid satp) Any (translate loader addr)
  unfolding translate
  translate-Keeps =
      bind-Keeps (gets-Keeps {P = Any} _ (λ m h. tt)) (λ mode _. translate_in-Keeps mode)

-- A load of the MMU keeps the invariant and gives a word, for every fuel and in every paging mode.
pub load-Keeps : {satp : ℕ} (fuel : ℕ) → Loads satp (load fuel)
unfolding load
load-Keeps zero a n before hb = record { apply = λ m h. tt }
load-Keeps (suc fuel) a n before hb =
    bind-Keeps (translate-Keeps (load fuel) (load-Keeps fuel) a)
      (λ physical _. load_physical-Keeps physical n before hb)

pub store-Keeps : {satp : ℕ} (fuel a n v : ℕ) → Keeps (MmuIsValid satp) Any (store fuel a n v)
unfolding store
store-Keeps fuel a n v =
    bind-Keeps (translate-Keeps (load fuel) (load-Keeps fuel) a)
      (λ physical _. store_physical-Keeps physical n v)
