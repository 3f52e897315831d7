-- ===== src/Trap.antt =====
-- include/trap.h: the trap values, their codes and the texts of `CPUTrapException::what`.
use Prim.Native.String.{String}
use rremu.Base.{ℕ, ◌+◌}

-- `trap_value`
pub data TrapValue : Type 0 where
  instruction_address_misaligned instruction_access_fault illegal_instruction : TrapValue
  breakpoint load_address_misaligned load_access_fault : TrapValue
  store_amo_address_misaligned store_amo_access_fault : TrapValue
  environment_call_from_u_mode environment_call_from_s_mode : TrapValue
  environment_call_from_m_mode : TrapValue
  instruction_page_fault load_page_fault store_amo_page_fault : TrapValue
  user_software_interrupt supervisor_software_interrupt machine_software_interrupt : TrapValue
  user_timer_interrupt supervisor_timer_interrupt machine_timer_interrupt : TrapValue
  user_external_interrupt supervisor_external_interrupt machine_external_interrupt : TrapValue

abbrev pub interrupt_bit : ℕ
interrupt_bit = 0x8000_0000_0000_0000

-- The number behind a `trap_value`.
unfoldable pub code : TrapValue → ℕ
code instruction_address_misaligned = 0x0
code instruction_access_fault = 0x1
code illegal_instruction = 0x2
code breakpoint = 0x3
code load_address_misaligned = 0x4
code load_access_fault = 0x5
code store_amo_address_misaligned = 0x6
code store_amo_access_fault = 0x7
code environment_call_from_u_mode = 0x8
code environment_call_from_s_mode = 0x9
code environment_call_from_m_mode = 0xB
code instruction_page_fault = 0xC
code load_page_fault = 0xD
code store_amo_page_fault = 0xF
code user_software_interrupt = interrupt_bit
code supervisor_software_interrupt = interrupt_bit + 1
code machine_software_interrupt = interrupt_bit + 3
code user_timer_interrupt = interrupt_bit + 4
code supervisor_timer_interrupt = interrupt_bit + 5
code machine_timer_interrupt = interrupt_bit + 7
code user_external_interrupt = interrupt_bit + 8
code supervisor_external_interrupt = interrupt_bit + 9
code machine_external_interrupt = interrupt_bit + 11

-- `CPUTrapException::what`; its default case is for no declared value.
unfoldable pub what : TrapValue → String
what instruction_address_misaligned = "Instruction Address Misaligned"
what instruction_access_fault = "Instruction Access Fault"
what illegal_instruction = "Illegal Instruction"
what breakpoint = "Breakpoint"
what load_address_misaligned = "Load Address Misaligned"
what load_access_fault = "Load Access Fault"
what store_amo_address_misaligned = "Store/AMO Address Misaligned"
what store_amo_access_fault = "Store/AMO Access Fault"
what environment_call_from_u_mode = "Environment Call from U-Mode"
what environment_call_from_s_mode = "Environment Call from S-Mode"
what environment_call_from_m_mode = "Environment Call from M-Mode"
what instruction_page_fault = "Instruction Page Fault"
what load_page_fault = "Load Page Fault"
what store_amo_page_fault = "Store/AMO Page Fault"
what user_software_interrupt = "UserSoftwareInterrupt"
what supervisor_software_interrupt = "SupervisorSoftwareInterrupt"
what machine_software_interrupt = "MachineSoftwareInterrupt"
what user_timer_interrupt = "UserTimerInterrupt"
what supervisor_timer_interrupt = "SupervisorTimerInterrupt"
what machine_timer_interrupt = "MachineTimerInterrupt"
what user_external_interrupt = "UserExternalInterrupt"
what supervisor_external_interrupt = "SupervisorExternalInterrupt"
what machine_external_interrupt = "MachineExternalInterrupt"
