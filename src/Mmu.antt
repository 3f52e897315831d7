-- ===== src/Mmu.antt =====
-- include/mmu.h and source/mmu.cpp: the bus and the page walk. `Load` calls `Translate` and
-- `Translate` calls `Load` for each page table entry, so `load` takes fuel for that recursion.
mod State
mod Walk
mod Bus
unfoldable pub use State.*
unfoldable pub use Walk.*
unfoldable pub use Bus.*
