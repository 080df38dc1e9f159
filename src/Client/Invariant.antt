-- ===== src/Client/Invariant.antt =====
-- The invariant of the pending requests of `CodexClient`, and the operations of
-- crates/sdk/src/client/mod.rs that keep it.
use codex_sdk_rs.Prelude.{
  ℕ, ◌+◌, ◌<◌, ◌≤◌, ◌≡◌, ◌≢◌, refl, true, none, some, [], ◌∷◌, arith, if_elim, Bool-cases, All, inl,
  inr, subst, sym, ap, ◌∙◌,
}
use codex_sdk_rs.Prelude.Int.{pos}
use codex_sdk_rs.Protocol.{RequestId, integer, same_id, same_id_iff}
use codex_sdk_rs.Client.{Slot, set_slot}
use codex_sdk_rs.Client.Pending.{PendingMap, lookup, remove, insert}

-- An entry has an id that was given out, and its receiver waits.
pub record Entry {Value : Type 0} (next next_slot : ℕ) (slots : ℕ → Slot Value) (e : RequestId × ℕ)
    : Type 0 where
  pub number : ℕ
  pub is_id : e.0 ≡ integer (pos number)
  pub given_out : number < next
  pub slot_used : e.1 < next_slot
  pub waits : slots e.1 ≡ Slot.waiting

abbrev pub Distinct : PendingMap → Type 0
Distinct [] = Unit
Distinct (e ∷ m) = All (λ f. (f.0 ≢ e.0) × (f.1 ≢ e.1)) m × Distinct m

pub record Sound {Value : Type 0} (pending : PendingMap) (slots : ℕ → Slot Value)
    (next_slot next : ℕ) : Type 0 where
  pub entries : All (Entry next next_slot slots) pending
  pub distinct : Distinct pending
  pub unused : (t : ℕ) → next_slot ≤ t → slots t ≡ Slot.waiting

pub found-entry :
    (id k : RequestId) (s t : ℕ) (m : PendingMap)
    → lookup id ((k, t) ∷ m) ≡ some s
    → same_id k id ≡ true
    → ◌≡◌ {A = RequestId × ℕ} (k, t) (id, s)
unfolding lookup
found-entry id k s t m e b = ground (arith, e, b, same_id_iff k id)

module _ {ℓ} (P : RequestId × ℕ → Type ℓ) where
  pub All-remove : (id : RequestId) (m : PendingMap) → All P m → All P (remove id m)
  unfolding remove
  All-remove id [] h = tt
  All-remove id ((k, s) ∷ m) h =
      if_elim (All P) (same_id k id) (λ e. All-remove id m h.1) λ e. (h.0, All-remove id m h.1)

  pub All-lookup :
      (id : RequestId) (s : ℕ) (m : PendingMap) → lookup id m ≡ some s → All P m → P (id, s)
  unfolding lookup
  All-lookup id s [] e h = ground arith
  All-lookup id s ((k, t) ∷ m) e h = elim (Bool-cases (same_id k id)) [
    | inl b ↦ subst P (found-entry id k s t m e b) h.0
    | inr b ↦ All-lookup id s m (ground (arith, e, b)) h.1
  ]

  pub All-map {κ} :
      (Q : RequestId × ℕ → Type κ) (m : PendingMap)
      → ((e : RequestId × ℕ) → P e → Q e)
      → All P m
      → All Q m
  All-map Q [] f h = tt
  All-map Q (e ∷ m) f h = (f e h.0, All-map Q m f h.1)

pub Distinct-remove : (id : RequestId) (m : PendingMap) → Distinct m → Distinct (remove id m)
unfolding remove
Distinct-remove id [] h = tt
Distinct-remove id ((k, s) ∷ m) h =
    if_elim Distinct (same_id k id) (λ e. Distinct-remove id m h.1)
      λ e. (All-remove _ id m h.0, Distinct-remove id m h.1)

-- The slot of a removed entry is in no other entry.
pub slot-remove :
    (id : RequestId) (s : ℕ) (m : PendingMap)
    → lookup id m ≡ some s
    → Distinct m
    → All (λ f. f.1 ≢ s) (remove id m)
unfolding lookup remove
slot-remove id s [] e h = tt
slot-remove id s ((k, t) ∷ m) e h = elim (Bool-cases (same_id k id)) [
  | inl b ↦ rw b (
      All-remove _ id m
        (All-map _ _ m (λ f p q. p.1 (q ∙ sym (ap (λ x. x.1) (found-entry id k s t m e b)))) h.0))
  | inr b ↦ rw b (
    (λ q. (All-lookup _ id s m (ground (arith, e, b)) h.0).1 (sym q)),
    slot-remove id s m (ground (arith, e, b)) h.1,
  )
]

lt_irrefl : (s n t : ℕ) → s < n → n ≤ t → s ≢ t
lt_irrefl s n t a b q = ground (arith, a, b, q)

module _ {Value : Type 0} where
  pub set_slot-other :
      (s t : ℕ) (v : Slot Value) (slots : ℕ → Slot Value) → s ≢ t → set_slot s v slots t ≡ slots t
  set_slot-other s t v slots n = ground (arith, n)

  pub set_slot-same : (s : ℕ) (v : Slot Value) (slots : ℕ → Slot Value) → set_slot s v slots s ≡ v
  set_slot-same s v slots = ground arith

  Entry-set_slot :
      (next next_slot s : ℕ) (v : Slot Value) (slots : ℕ → Slot Value) (m : PendingMap)
      → All (λ f. f.1 ≢ s) m
      → All (Entry next next_slot slots) m
      → All (Entry next next_slot (set_slot s v slots)) m
  Entry-set_slot next next_slot s v slots [] n h = tt
  Entry-set_slot next next_slot s v slots (e ∷ m) n h = (
    record {
      number = h.0.number;
      is_id = h.0.is_id;
      given_out = h.0.given_out;
      slot_used = h.0.slot_used;
      waits = set_slot-other s e.1 v slots (λ q. n.0 (sym q)) ∙ h.0.waits;
    },
    Entry-set_slot next next_slot s v slots m n.1 h.1,
  )

  -- An entry is removed, and its sender sends or is dropped.
  pub settle-Sound :
      (id : RequestId) (s next_slot : ℕ) (v : Slot Value) (m : PendingMap) (slots : ℕ → Slot Value)
      (next : ℕ)
      → lookup id m ≡ some s
      → Sound m slots next_slot next
      → Sound (remove id m) (set_slot s v slots) next_slot next
  settle-Sound id s next_slot v m slots next e h = record {
    entries =
        Entry-set_slot _ _ _ _ _ (remove id m) (slot-remove id s m e h.distinct)
          (All-remove _ id m h.entries);
    distinct = Distinct-remove id m h.distinct;
    unused = λ t le.
        set_slot-other s t v slots
          (λ q. lt_irrefl s next_slot t (All-lookup _ id s m e h.entries).slot_used le q)
        ∙ h.unused t le;
  }

  pub remove-Sound :
      (id : RequestId) (next_slot next : ℕ) (m : PendingMap) (slots : ℕ → Slot Value)
      → Sound m slots next_slot next
      → Sound (remove id m) slots next_slot next
  remove-Sound id next_slot next m slots h = record {
    entries = All-remove _ id m h.entries;
    distinct = Distinct-remove id m h.distinct;
    unused = h.unused;
  }

  -- An id that was not given out is not in the map.
  pub lookup-fresh :
      (next next_slot : ℕ) (slots : ℕ → Slot Value) (m : PendingMap)
      → All (Entry next next_slot slots) m
      → lookup (integer (pos next)) m ≡ none
  unfolding lookup
  lookup-fresh next next_slot slots [] h = refl
  lookup-fresh next next_slot slots ((k, s) ∷ m) h =
      rw (h.0.is_id) (ground (arith, h.0.given_out, lookup-fresh next next_slot slots m h.1))

  older :
      (next next_slot : ℕ) {m : PendingMap} (slots : ℕ → Slot Value)
      (h : Sound m slots next_slot next) (e : RequestId × ℕ)
      → (p : Entry next next_slot slots e) → Entry (next + 1) (next_slot + 1) slots e
  older next next_slot slots h e p = record {
    number = p.number;
    is_id = p.is_id;
    given_out = ground (arith, p.given_out);
    slot_used = ground (arith, p.slot_used);
    waits = p.waits;
  }

  apart :
      (next next_slot : ℕ) {m : PendingMap} (slots : ℕ → Slot Value)
      (h : Sound m slots next_slot next) (e : RequestId × ℕ)
      → Entry next next_slot slots e
      → (e.0 ≢ integer (pos next)) × (e.1 ≢ next_slot)
  apart next next_slot slots h e p =
      (λ q. ground (arith, p.given_out, sym p.is_id ∙ q), λ q. ground (arith, p.slot_used, q))

  -- A new id and a new channel are registered.
  pub insert-Sound :
      (next next_slot : ℕ) (m : PendingMap) (slots : ℕ → Slot Value)
      → Sound m slots next_slot next
      → Sound (insert (integer (pos next)) next_slot m) slots (next_slot + 1) (next + 1)
  unfolding insert
  insert-Sound next next_slot m slots h = record {
    entries = (
      record {
        number = next;
        is_id = refl;
        given_out = ground arith;
        slot_used = ground arith;
        waits = h.unused next_slot (ground arith);
      },
      All-map _ _ _ (λ e p. older next next_slot slots h e p) (All-remove _ _ m h.entries),
    );
    distinct = (
      All-map _ _ _ (λ e p. apart next next_slot slots h e p) (All-remove _ _ m h.entries),
      Distinct-remove _ m h.distinct,
    );
    unused = λ t le. h.unused t (ground (arith, le));
  }
