-- ===== src/Scheduler/Positions.antt =====
-- A schedule by its position in the list of schedules.
use xbot_framework.Prelude.{
  ℕ, zero, suc, ◌≡◌, refl, ap, List, [], ◌∷◌, ◌++◌, some, arith, length, get_elem?,
}
use xbot_framework.Scheduler.{Schedule, modify, interval_at}

pub get_elem?-append :
    (pre : List Schedule) (c : Schedule) (cs : List Schedule) (i : ℕ)
    → i ≡ length pre
    → get_elem? (pre ++ (c ∷ cs)) i ≡ some c
get_elem?-append [] c cs zero e = refl
get_elem?-append [] c cs (suc i) e = absurd (omega arith)
get_elem?-append (x ∷ pre) c cs zero e = absurd (omega arith)
get_elem?-append (x ∷ pre) c cs (suc i) e = get_elem?-append pre c cs i (omega arith)

pub modify-append :
    (f : Schedule → Schedule) (pre : List Schedule) (c : Schedule) (cs : List Schedule) (i : ℕ)
    → i ≡ length pre
    → modify f i (pre ++ (c ∷ cs)) ≡ pre ++ (f c ∷ cs)
modify-append f [] c cs zero e = refl
modify-append f [] c cs (suc i) e = absurd (omega arith)
modify-append f (x ∷ pre) c cs zero e = absurd (omega arith)
modify-append f (x ∷ pre) c cs (suc i) e =
    ap (λ t. x ∷ t) (modify-append f pre c cs i (omega arith))

pub interval_at-append :
    (pre : List Schedule) (c : Schedule) (cs : List Schedule) (i : ℕ)
    → i ≡ length pre
    → interval_at (pre ++ (c ∷ cs)) i ≡ c.interval
interval_at-append [] c cs zero e = refl
interval_at-append [] c cs (suc i) e = absurd (omega arith)
interval_at-append (x ∷ pre) c cs zero e = absurd (omega arith)
interval_at-append (x ∷ pre) c cs (suc i) e = interval_at-append pre c cs i (omega arith)
