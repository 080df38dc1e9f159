-- ===== src/Protocol/OkAll.antt =====
-- Reasoning on `Result`: what holds of the value of a chain of calls that may fail.
use codex_sdk_rs.Protocol.{Result, ok, err, ◌>>=◌}

-- What holds of a result, if there is one.
abbrev pub OkAll : {A E : Type 0} → (A → Type 0) → Result A E → Type 0
OkAll P (ok a) = P a
OkAll P (err e) = Unit

pub OkAll-bind :
    {A B E : Type 0} (P : A → Type 0) (Q : B → Type 0) (r : Result A E) (next : A → Result B E)
    → OkAll P r
    → ((a : A) → P a → OkAll Q (next a))
    → OkAll Q (r >>= next)
OkAll-bind P Q (ok a) next p h = h a p
OkAll-bind P Q (err e) next p h = tt

pub OkAll-map :
    {A E : Type 0} (P Q : A → Type 0) (r : Result A E)
    → ((a : A) → P a → Q a)
    → OkAll P r
    → OkAll Q r
OkAll-map P Q (ok a) h p = h a p
OkAll-map P Q (err e) h p = tt
