-- ===== src/Thread/Latest.antt =====
-- Which thread `select_latest_thread_id` (crates/sdk/src/api.rs) chooses.
use codex_sdk_rs.Prelude.{
  ◌≡◌, refl, sym, subst, ap, ◌∙◌, String, true, false, Option, none, some, List, [], ◌∷◌, ◌⊎◌, inl,
  inr, arith, All, if_elim, Bool-cases, Option-cases,
}
use codex_sdk_rs.Prelude.Int.{ℤ, ltb_ℤ}
use codex_sdk_rs.SerdeJson.{SerdeJson}
use codex_sdk_rs.Events.Payloads.{ThreadSummary}
use codex_sdk_rs.Thread.{
  thread_recency_score, thread_matches_working_directory, select_from, id_of,
  select_latest_thread_id,
}

module _ ⦃json : SerdeJson⦄ (working_directory : Option String) where
  open json use {Value, Object}

  abbrev pub Threads : Type 0
  Threads = List (ThreadSummary Value Object)

  -- The thread is in the directory, and has the id and the time.
  pub record IsChosen (time : Option ℤ) (id : String) (thread : ThreadSummary Value Object)
      : Type 0 where
    pub in_directory : thread_matches_working_directory thread working_directory ≡ true
    pub same_time : thread_recency_score thread ≡ time
    pub same_id : thread.id ≡ id

  abbrev pub IsElsewhere : ThreadSummary Value Object → Type 0
  IsElsewhere thread = thread_matches_working_directory thread working_directory ≡ false

  -- A time, if there is one, that is before another, or not after it.
  abbrev pub IsBefore : Option ℤ → ℤ → Type 0
  IsBefore none best = Unit
  IsBefore (some time) best = ltb_ℤ time best ≡ true

  abbrev pub NotAfter : Option ℤ → ℤ → Type 0
  NotAfter none best = Unit
  NotAfter (some time) best = ltb_ℤ best time ≡ false

  abbrev pub Older : ℤ → ThreadSummary Value Object → Type 0
  Older best thread = IsElsewhere thread ⊎ IsBefore (thread_recency_score thread) best

  abbrev pub NotNewer : ℤ → ThreadSummary Value Object → Type 0
  NotNewer best thread = IsElsewhere thread ⊎ NotAfter (thread_recency_score thread) best

  -- The first thread of the directory has the time and the id.
  abbrev pub First : Option ℤ → String → Threads → Type 0
  First time id [] = ⊥
  First time id (thread ∷ threads) =
      IsChosen time id thread ⊎ (IsElsewhere thread × First time id threads)

  -- The thread with the id has the time: those of the directory listed before it are older or have no
  -- time, and those listed after it are not newer or have none.
  abbrev pub Newest : ℤ → String → Threads → Type 0
  Newest best id [] = ⊥
  Newest best id (thread ∷ threads) =
      (IsChosen (some best) id thread × All (NotNewer best) threads)
      ⊎ (Older best thread × Newest best id threads)

  -- Which thread is the latest.
  pub data Verdict (threads : Threads) : Option String → Type 0 where
    none_listed : All IsElsewhere threads → Verdict threads none
    undated : (id : String) → First none id threads → Verdict threads (some id)
    newest :
        (time best : ℤ) (first id : String)
        → First (some time) first threads
        → Newest best id threads
        → Verdict threads (some id)

  select_from-undated :
      (id : String) (threads : Threads)
      → select_from working_directory (some (none, id)) threads ≡ some (none, id)
  unfolding select_from
  select_from-undated id [] = refl
  select_from-undated id (thread ∷ threads) =
      if_elim (λ s. select_from working_directory s threads ≡ some (none, id))
        (thread_matches_working_directory thread working_directory)
        (λ e. select_from-undated id threads) λ e. select_from-undated id threads

  -- What is selected from a thread with a time on: that thread, or a later one that is newer.
  record Selected (best : ℤ) (id : String) (threads : Threads) : Type 0 where
    time : ℤ
    chosen : String
    selects :
        select_from working_directory (some (some best, id)) threads ≡ some (some time, chosen)
    outcome :
        ((time ≡ best) × (chosen ≡ id) × All (NotNewer time) threads)
        ⊎ ((ltb_ℤ best time ≡ true) × Newest time chosen threads)

  NotNewer-Older :
      (best time : ℤ) (thread : ThreadSummary Value Object)
      → ltb_ℤ best time ≡ true
      → NotNewer best thread
      → Older time thread
  NotNewer-Older best time thread later (inl e) = inl e
  NotNewer-Older best time thread later (inr h) = inr (step (thread_recency_score thread) h)
    where
      step : (o : Option ℤ) → NotAfter o best → IsBefore o time
      step none h = tt
      step (some t) h = ground (arith, h, later)

  -- The thread, with a time of its own, is the one to beat.
  from_here :
      (thread : ThreadSummary Value Object) (threads : Threads) (s : ℤ)
      → thread_recency_score thread ≡ some s
      → thread_matches_working_directory thread working_directory ≡ true
      → (h : Selected s thread.id threads) → Newest h.time h.chosen (thread ∷ threads)
  from_here thread threads s scored here h = elim h.outcome [
    | inl (e, f, all) ↦
        inl (
          record { in_directory = here; same_time = scored ∙ ap some (sym e); same_id = sym f },
          all,
        )
    | inr (later, found) ↦ inr (inr (subst (λ x. IsBefore x h.time) (sym scored) later), found)
  ]

  module _ (best : ℤ) (id : String) (thread : ThreadSummary Value Object) (threads : Threads) where
    -- The thread does not change the selection.
    keep :
        select_from working_directory (some (some best, id)) (thread ∷ threads)
          ≡ select_from working_directory (some (some best, id)) threads
        → NotNewer best thread
        → Selected best id threads
        → Selected best id (thread ∷ threads)
    keep same older h = record {
      time = h.time;
      chosen = h.chosen;
      selects = same ∙ h.selects;
      outcome = elim h.outcome [
        | inl (e, f, all) ↦ inl (e, f, (subst (λ t. NotNewer t thread) (sym e) older, all))
        | inr (later, found) ↦
            inr (later, inr (NotNewer-Older best h.time thread later older, found))
      ];
    }

    not_before :
        (s : ℤ)
        → ltb_ℤ best s ≡ true
        → (h : Selected s thread.id threads) → ltb_ℤ best h.time ≡ true
    not_before s newer h = elim h.outcome [
      | inl (e, f, all) ↦ rw e newer
      | inr (later, found) ↦ ground (arith, newer, later)
    ]

    -- The thread is looked at.
    look : ((b : ℤ) (i : String) → Selected b i threads) → Selected best id (thread ∷ threads)
    unfolding select_from
    look h = elim (Bool-cases (thread_matches_working_directory thread working_directory)) [
      | inr e ↦ keep (rw (e, select_from) refl) (inl e) (h best id)
      | inl e ↦ elim (Option-cases (thread_recency_score thread)) [
        | inl f ↦ keep (rw (e, select_from) (rw (f, select_from) refl)) (inr (rw f tt)) (h best id)
        | inr (s, f) ↦ elim (Bool-cases (ltb_ℤ best s)) [
          | inr g ↦
              keep (rw (e, select_from) (rw (f, select_from) (rw (g, select_from) refl)))
                (inr (rw f g)) (h best id)
          | inl g ↦
              let later = h s thread.id in
              record {
                time = later.time;
                chosen = later.chosen;
                selects =
                    rw (e, select_from) (rw (f, select_from) (rw (g, select_from) refl))
                    ∙ later.selects;
                outcome = inr (not_before s g later, from_here thread threads s f e later);
              }
        ]
      ]
    ]

  select_from-dated : (threads : Threads) (best : ℤ) (id : String) → Selected best id threads
  unfolding select_from
  select_from-dated [] best id = record {
    time = best;
    chosen = id;
    selects = refl;
    outcome = inl (refl, refl, tt);
  }
  select_from-dated (thread ∷ threads) best id =
      look best id thread threads (λ b i. select_from-dated threads b i)

  pass_over :
      (thread : ThreadSummary Value Object) (threads : Threads) (o : Option String)
      → IsElsewhere thread
      → Verdict threads o
      → Verdict (thread ∷ threads) o
  pass_over thread threads _ e (Verdict.none_listed h) = Verdict.none_listed (e, h)
  pass_over thread threads _ e (Verdict.undated id h) = Verdict.undated id (inr (e, h))
  pass_over thread threads _ e (Verdict.newest time best first id h found) =
      Verdict.newest time best first id (inr (e, h)) (inr (inl e, found))

  first_match :
      (thread : ThreadSummary Value Object) (threads : Threads)
      → thread_matches_working_directory thread working_directory ≡ true
      → Verdict (thread ∷ threads) (
          id_of
            (select_from working_directory (some (thread_recency_score thread, thread.id)) threads))
  first_match thread threads e = elim (Option-cases (thread_recency_score thread)) [
    | inl f ↦ rw f (
        rw (select_from-undated thread.id threads) (
          Verdict.undated thread.id
            (inl (record { in_directory = e; same_time = f; same_id = refl }))))
    | inr (s, f) ↦
        let h = select_from-dated threads s thread.id in
        rw f (
          rw h.selects (
            Verdict.newest s h.time thread.id h.chosen
              (inl (record { in_directory = e; same_time = f; same_id = refl }))
              (from_here thread threads s f e h)))
  ]

  -- The latest thread is found whenever a thread of the working directory is listed (any thread, if
  -- no directory is given), and only then. If the first of these has no time, it is that one;
  -- otherwise it is the first of those with the greatest time. A time that cannot be read counts as
  -- none.
  pub select_latest_thread_id-Verdict :
      (threads : Threads) → Verdict threads (select_latest_thread_id threads working_directory)
  unfolding select_latest_thread_id select_from
  select_latest_thread_id-Verdict [] = Verdict.none_listed tt
  select_latest_thread_id-Verdict (thread ∷ threads) =
      elim (Bool-cases (thread_matches_working_directory thread working_directory)) [
        | inl e ↦ rw e (first_match thread threads e)
        | inr e ↦ rw e (pass_over thread threads _ e (select_latest_thread_id-Verdict threads))
      ]
