-- ===== src/Models/Status.antt =====
-- Result states (src/platval/models/status.py).
use pc_platform_validation_t.Base.{nat_beq, Eq, ℕ, ◌≡◌, ◌↔◌, Bool, true, arith}

pub data ResultStatus : Type 0 where
  pass fail warn skip error : ResultStatus

abbrev status_code : ResultStatus → ℕ
status_code pass = 0
status_code fail = 1
status_code warn = 2
status_code skip = 3
status_code error = 4

-- `a is b`
abbrev pub status_beq : ResultStatus → ResultStatus → Bool
status_beq a b = nat_beq (status_code a) (status_code b)

pub status_beq_iff : (a b : ResultStatus) → (status_beq a b ≡ true) ↔ (a ≡ b)
status_beq_iff a b = ground arith

instance abbrev pub status_eq : Eq ResultStatus
status_eq = record { same = status_beq; same_iff = status_beq_iff }
