-- ===== src/Client/Pending.antt =====
-- The map of pending requests (`PendingMap` in crates/sdk/src/client/mod.rs), as a list of its
-- entries; the operations of the hash map are written out on it.
use codex_sdk_rs.Prelude.{ℕ, ◌≡◌, Option, none, some, List, [], ◌∷◌, if◌then◌else◌, arith}
use codex_sdk_rs.Protocol.{RequestId, same_id, same_id_iff}

abbrev pub PendingMap : Type 0
PendingMap = List (RequestId × ℕ)

-- `HashMap::get`.
unfoldable pub lookup : RequestId → PendingMap → Option ℕ
lookup id [] = none
lookup id ((k, s) ∷ m) = if same_id k id then some s else lookup id m

-- What `HashMap::remove` leaves.
unfoldable pub remove : RequestId → PendingMap → PendingMap
remove id [] = []
remove id ((k, s) ∷ m) = if same_id k id then remove id m else (k, s) ∷ remove id m

-- What `HashMap::insert` leaves.
unfoldable pub insert : RequestId → ℕ → PendingMap → PendingMap
unfolding remove
insert id s m = (id, s) ∷ remove id m

pub lookup-remove :
    (id key : RequestId) (m : PendingMap)
    → lookup key (remove id m) ≡ (if same_id id key then none else lookup key m)
unfolding lookup remove
lookup-remove id key [] = ground arith
lookup-remove id key ((k, s) ∷ m) =
    ground (arith, lookup-remove id key m, same_id_iff k id, same_id_iff k key, same_id_iff id key)

pub lookup-insert :
    (id key : RequestId) (s : ℕ) (m : PendingMap)
    → lookup key (insert id s m) ≡ (if same_id id key then some s else lookup key m)
unfolding lookup insert
lookup-insert id key s m = ground (arith, lookup-remove id key m)
