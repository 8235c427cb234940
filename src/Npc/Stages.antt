-- ===== src/Npc/Stages.antt =====
-- The stages of the boot of Linux, npc/csrc/include/linux_boot_stage.h.
use Prim.Native.Nat.{bit_and, bit_or}
use triathlon.Prelude.{
  ℕ, ◌+◌, ◌-◌, ◌*◌, ◌^◌, Bool, true, false, not, ◌&&◌, ◌||◌, ◌==◌, ltb, leb, if◌then◌else◌, Option,
  none, some, List, [], ◌∷◌,
}
use triathlon.Prelude.Words.{u32, truth, ◌<<◌}
use triathlon.Prelude.Store.{Store}
use triathlon.Npc.State.{pmem_base, dtb_base}
pub mod Once
mod Tests

-- The part of `LinuxBootStageView` that decides something; the rest is only printed.
pub record View : Type 0 where
  pub pc : ℕ
  pub priv : ℕ
  pub redirect_pc : ℕ
  pub satp : ℕ
  pub satp_old : ℕ
  pub rob_flush_cause : ℕ
  pub rf : Option Store

-- The tracker; `emitted` is the stages that it has printed a line for, the last first.
pub record Tracker : Type 0 where
  pub seen_mask : ℕ
  pub linux_entered : Bool
  pub mmu_enabled_in_linux : Bool
  pub emitted : List ℕ

abbrev pub linux_load_base : ℕ
linux_load_base = 0x80400000

abbrev pub kernel_trap_vec_base : ℕ
kernel_trap_vec_base = 0xC0001000

abbrev pub kernel_high_text_base : ℕ
kernel_high_text_base = 0xC0800000

abbrev pub all_stages_seen_mask : ℕ
all_stages_seen_mask = (1 << 15) - 1

unfoldable pub all_seen : Tracker → Bool
all_seen t = bit_and t.seen_mask all_stages_seen_mask == all_stages_seen_mask

unfoldable pub maybe_emit : ℕ → Tracker → Tracker
maybe_emit stage t =
    if truth (bit_and t.seen_mask (1 << stage))
    then t
    else record t { seen_mask = bit_or t.seen_mask (1 << stage); emitted = stage ∷ t.emitted }

-- `if (condition) maybe_emit(...)`.
unfoldable pub emit_if : Bool → ℕ → Tracker → Tracker
emit_if condition stage t = if condition then maybe_emit stage t else t

abbrev pub between : ℕ → ℕ → ℕ → Bool
between low high pc = leb low pc && ltb pc high

-- The first jump into Linux.
unfoldable pub hand_off : View → Tracker → Tracker
hand_off v t =
    if not t.linux_entered && (v.priv == 1) && between linux_load_base dtb_base v.pc
    then maybe_emit 3 (record t { linux_entered = true })
    else t

-- The cases of `on_commit`, in order.
unfoldable pub opensbi_stages : View → Tracker → Tracker
opensbi_stages v t =
    emit_if (not t.linux_entered && (v.priv == 3) && between 0x80005200 0x80005400 v.pc) 2 (
      emit_if
        (not t.linux_entered
          && (v.priv == 3)
          && between (pmem_base + 0x00010000) linux_load_base v.pc)
        1 (emit_if ((v.pc == pmem_base) && (v.priv == 3)) 0 t))

unfoldable pub linux_stages : View → Tracker → Tracker
linux_stages v t = emit_if ((v.priv == 1) && leb kernel_high_text_base v.pc) 11 (
    emit_if ((v.priv == 1) && between kernel_trap_vec_base (kernel_trap_vec_base + 0x200) v.pc) 9 (
      emit_if ((v.priv == 1) && (v.pc == 0x804010d8)) 6 (
        emit_if ((v.priv == 1) && between 0x80401000 0x80401200 v.pc) 5
          (emit_if ((v.priv == 1) && (v.pc == linux_load_base)) 4 t))))

unfoldable pub dtb_stages : View → Store → Tracker → Tracker
dtb_stages v rf t =
    emit_if ((v.priv == 1) && (rf 11 == dtb_base)) 14
      (emit_if ((v.priv == 3) && (rf 10 == dtb_base)) 12 t)

unfoldable pub commit_cases : View → Option Store → Tracker → Tracker
commit_cases v none t = t
commit_cases v (some rf) t = dtb_stages v rf (linux_stages v (hand_off v (opensbi_stages v t)))

unfoldable pub on_commit : View → Tracker → Tracker
on_commit v t = if all_seen t then t else commit_cases v v.rf t

unfoldable pub enable_mmu : View → Tracker → Tracker
enable_mmu v t =
    if not (v.satp == 0) && (v.priv == 1) && between linux_load_base 0x81000000 v.pc
    then maybe_emit 7 (record t { mmu_enabled_in_linux = true })
    else t

unfoldable pub satp_cases : View → Option Store → Tracker → Tracker
satp_cases v none t = t
satp_cases v (some rf) t =
    if v.satp_old == v.satp
    then t
    else emit_if
        ((v.priv == 1)
          && between kernel_trap_vec_base (kernel_trap_vec_base + 0x100) v.pc
          && not (v.satp_old == 0))
        10 (enable_mmu v t)

unfoldable pub on_satp_change : View → Tracker → Tracker
on_satp_change v t = if all_seen t then t else satp_cases v v.rf t

unfoldable pub flush_cases : View → ℕ → Option Store → Tracker → Tracker
flush_cases v src_pc none t = t
flush_cases v src_pc (some rf) t =
    emit_if (between kernel_trap_vec_base (kernel_trap_vec_base + 0x100) v.redirect_pc) 13 (
      emit_if
        (t.mmu_enabled_in_linux
          && (v.rob_flush_cause == 12)
          && leb 0x80401044 src_pc
          && leb src_pc 0x80401050)
        8 t)

unfoldable pub on_flush : View → ℕ → Tracker → Tracker
on_flush v src_pc t = if all_seen t then t else flush_cases v src_pc v.rf t
