-- ===== src/Audit/Verdict/Flag.antt =====
-- The failure flag through the two ways of printing.
use sparsam.Base.{ℕ, ◌≡◌, refl, Bool, true, false, ◌||◌, arith}
use sparsam.Audit.Log.{Log, Message, thrift_audit_warning, thrift_audit_failure, when}

abbrev pub flagged : Log → Bool
flagged s = s.g_return_failure

pub flagged-warning :
    (level : ℕ) (m : Message) (s : Log) → flagged (thrift_audit_warning level m s) ≡ flagged s
unfolding thrift_audit_warning
flagged-warning level m s = ground arith

pub flagged-failure : (m : Message) (s : Log) → flagged (thrift_audit_failure m s) ≡ true
unfolding thrift_audit_failure
flagged-failure m s = refl

pub flagged-when_failure :
    (b : Bool) (m : Message) (s : Log)
    → flagged (when b (thrift_audit_failure m) s) ≡ (flagged s || b)
unfolding thrift_audit_failure
flagged-when_failure true m s = ground arith
flagged-when_failure false m s = ground arith

pub flagged-when_warning :
    (b : Bool) (level : ℕ) (m : Message) (s : Log)
    → flagged (when b (thrift_audit_warning level m) s) ≡ flagged s
flagged-when_warning true level m s = flagged-warning level m s
flagged-when_warning false level m s = refl

pub flagged-when-when_warning :
    (a b : Bool) (level : ℕ) (m : Message) (s : Log)
    → flagged (when a (when b (thrift_audit_warning level m)) s) ≡ flagged s
flagged-when-when_warning true b level m s = flagged-when_warning b level m s
flagged-when-when_warning false b level m s = refl
