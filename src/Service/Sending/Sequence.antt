-- ===== src/Service/Sending/Sequence.antt =====
-- Service.cpp: the sequence number and the reboot flag of the headers that `fillHeader` makes.
use Prim.Native.Nat.{bit_and}
use xbot_framework.Prelude.{
  List, ℕ, zero, suc, ◌%◌, ◌≡◌, refl, Bool, true, false, arith, ltb, ◌==◌, if◌then◌else◌, add16,
  u16_mod,
}
use xbot_framework.Scheduler.{Schedule}
use xbot_framework.Service.State.{Service, started}
use xbot_framework.Service.Send.{next_header, fill_header}

-- A header filled for each of `n` packets.
unfoldable pub fill_times : {U : Type 0} → ℕ → Service U → Service U
fill_times zero s = s
fill_times (suc n) s = fill_header (fill_times n s)

-- The reboot flag is the lowest bit.
low_bit : (b : Bool) (flags : ℕ) → flags ≡ (if b then 1 else 0) → bit_and flags 0xFE ≡ 0
low_bit true flags e = rw e refl
low_bit false flags e = rw e refl

next_flags :
    (n seq flags : ℕ)
    → seq ≡ n % u16_mod
    → flags ≡ (if ltb n u16_mod then 1 else 0)
    → (if add16 seq 1 == 0 then bit_and flags 0xFE else flags)
      ≡ (if ltb (suc n) u16_mod then 1 else 0)
next_flags n seq flags e f = let low = low_bit (ltb n u16_mod) flags f in ground arith

-- The header of the n-th packet since the start of a service has the sequence number n modulo 2^16, and the
-- reboot flag until the sequence number rolls over for the first time, and never again.
pub fill_times-started :
    {U : Type 0} (service_id : ℕ) (extra : List Schedule) (u : U) (n : ℕ)
    → let h = (fill_times n (started service_id extra u)).header in
      (h.sequence_no ≡ n % u16_mod) × (h.flags ≡ (if ltb n u16_mod then 1 else 0))
unfolding fill_times fill_header next_header started
fill_times-started service_id extra u zero = (refl, refl)
fill_times-started service_id extra u (suc n) =
    let ih = fill_times-started service_id extra u n in
    let h = (fill_times n (started service_id extra u)).header in
    (omega (arith, ih.0), next_flags n h.sequence_no h.flags ih.0 ih.1)
