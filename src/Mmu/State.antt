-- ===== src/Mmu/State.antt =====
-- The data of include/mmu.h.
use rremu.Base.{ℕ}
use rremu.Bytes.{Bytes}
use rremu.Config.{page_size as page_size_bytes}
use rremu.Ram.{Ram, ram_of}
use rremu.Uart.{Uart}

pub data PagingMode : Type 0 where
  bare sv32 sv39 sv48 sv57 : PagingMode

pub data PrivilegeMode : Type 0 where
  user supervisor machine : PrivilegeMode

pub record Sv39PageTableEntry : Type 0 where
  pub v : ℕ
  pub r : ℕ
  pub w : ℕ
  pub x : ℕ
  pub u : ℕ
  pub g : ℕ
  pub a : ℕ
  pub d : ℕ
  pub rsw : ℕ
  pub ppn0 : ℕ
  pub ppn1 : ℕ
  pub ppn2 : ℕ
  pub reserved : ℕ

-- The virtio, CLINT and PLIC devices keep no state.
pub record Mmu : Type 0 where
  pub paging_mode : PagingMode
  pub privilege_mode : PrivilegeMode
  pub page_size : ℕ
  pub root_page_table : ℕ
  pub ram : Ram
  pub uart : Uart

-- The constructor. The root page table and the UART's buffer start indeterminate: they are the
-- first two arguments.
unfoldable pub mmu_of : ℕ → Uart → Bytes → Mmu
mmu_of root uart binary = record {
  paging_mode = bare;
  privilege_mode = machine;
  page_size = page_size_bytes;
  root_page_table = root;
  ram = ram_of binary;
  uart = uart;
}

abbrev pub set_paging_mode : PagingMode → Mmu → Mmu
set_paging_mode mode m = record m { paging_mode = mode }

abbrev pub set_root_page_table : ℕ → Mmu → Mmu
set_root_page_table page_table m = record m { root_page_table = page_table }

abbrev pub set_privilege_mode : PrivilegeMode → Mmu → Mmu
set_privilege_mode mode m = record m { privilege_mode = mode }
