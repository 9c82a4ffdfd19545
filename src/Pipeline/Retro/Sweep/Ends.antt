-- ===== src/Pipeline/Retro/Sweep/Ends.antt =====
-- The sweep comes to its end.
use mailhook.Common.{
  ℕ, zero, suc, ◌≤◌, ◌<◌, Bool, true, false, ◌||◌, ◌==◌, List, [], ◌∷◌, Option, none, some, filter,
  if◌then◌else◌, ◌≡◌, refl, ap, ◌∙◌, length, ltb, leb, any, arith, All, Bool-cases, inl, inr, subst,
  or_true,
}
use mailhook.Floats.{Floats}
use mailhook.Pipeline.Effects.{World, pop_bool, update_row}
use mailhook.Pipeline.Retro.{RetroEnv, if_inbox, quarantined_row, evaluate}
use mailhook.Pipeline.Retro.Clawback.{evaluate-scans, quarantined_row-id}
use mailhook.Pipeline.Retro.Sweep.{
  insert_by_id, order_by_id, limit, last_id_of, is_candidate, candidates, Sweep, evaluate_page,
  after_page, sweep_pages, sweep, batch_size,
}
use mailhook.Records.{Scan}

module _ {F : Type 0} where
  -- How many rows come after the ID.
  unfoldable pub rows_after : ℕ → List (Scan F) → ℕ
  rows_after last_id [] = 0
  rows_after last_id (r ∷ rs) =
      if ltb last_id r.id then suc (rows_after last_id rs) else rows_after last_id rs

  rows_after-length : (last_id : ℕ) (rs : List (Scan F)) → rows_after last_id rs ≤ length rs
  unfolding rows_after
  rows_after-length last_id [] = ground arith
  rows_after-length last_id (r ∷ rs) = ground (arith, rows_after-length last_id rs)

  rows_after_mono : (a b : ℕ) (rs : List (Scan F)) → a ≤ b → rows_after b rs ≤ rows_after a rs
  unfolding rows_after
  rows_after_mono a b [] h = ground arith
  rows_after_mono a b (r ∷ rs) h = ground (arith, rows_after_mono a b rs h)

  -- A later row that is there makes the number smaller.
  rows_after-drop :
      (a b : ℕ) (rs : List (Scan F))
      → a < b
      → any (λ r. r.id == b) rs ≡ true
      → rows_after b rs < rows_after a rs
  unfolding rows_after
  rows_after-drop a b [] h k = ground (arith, k)
  rows_after-drop a b (r ∷ rs) h k =
      ground (arith, rows_after_mono a b rs (ground (arith, h)), rows_after-drop a b rs h)

  -- The rows that pass the test and are in the table.
  abbrev IsRow : (Scan F → Bool) → List (Scan F) → Scan F → Type 0
  IsRow p rows r = (p r ≡ true) × (any (λ s. s.id == r.id) rows ≡ true)

  All-choice :
      (P : Scan F → Type 0) (b : Bool) (rs ss : List (Scan F))
      → All P rs
      → All P ss
      → All P (if b then rs else ss)
  All-choice P true rs ss h k = h
  All-choice P false rs ss h k = k

  All-insert_by_id :
      (P : Scan F → Type 0) (r : Scan F) (rs : List (Scan F))
      → P r
      → All P rs
      → All P (insert_by_id r rs)
  unfolding insert_by_id
  All-insert_by_id P r [] p h = (p, tt)
  All-insert_by_id P r (s ∷ ss) p (q, h) =
      All-choice P (leb r.id s.id) _ _ (p, (q, h)) (q, All-insert_by_id P r ss p h)

  All-order_by_id : (P : Scan F → Type 0) (rs : List (Scan F)) → All P rs → All P (order_by_id rs)
  unfolding order_by_id
  All-order_by_id P [] h = tt
  All-order_by_id P (r ∷ rs) (p, h) = All-insert_by_id P r _ p (All-order_by_id P rs h)

  All-limit : (P : Scan F → Type 0) (n : ℕ) (rs : List (Scan F)) → All P rs → All P (limit n rs)
  unfolding limit
  All-limit P zero rs h = tt
  All-limit P (suc n) [] h = tt
  All-limit P (suc n) (r ∷ rs) (p, h) = (p, All-limit P n rs h)

  All-weaken :
      (P Q : Scan F → Type 0) (rs : List (Scan F))
      → ((r : Scan F) → P r → Q r)
      → All P rs
      → All Q rs
  All-weaken P Q [] f h = tt
  All-weaken P Q (r ∷ rs) f (p, h) = (f r p, All-weaken P Q rs f h)

  filter-IsRow :
      (p : Scan F → Bool) (rs rows : List (Scan F))
      → All (λ r. any (λ s. s.id == r.id) rows ≡ true) rs
      → All (IsRow p rows) (filter p rs)
  unfolding filter
  filter-IsRow p [] rows h = tt
  filter-IsRow p (r ∷ rs) rows (q, h) = elim (Bool-cases (p r)) [
    | inl e ↦ rw (e, if◌then◌else◌) ((e, q), filter-IsRow p rs rows h)
    | inr e ↦ rw (e, if◌then◌else◌) (filter-IsRow p rs rows h)
  ]

  rows-IsRow : (rs : List (Scan F)) → All (λ r. any (λ s. s.id == r.id) rs ≡ true) rs
  rows-IsRow [] = tt
  rows-IsRow (r ∷ rs) = (
    ground arith,
    All-weaken (λ x. any (λ s. s.id == x.id) rs ≡ true)
        (λ x. any (λ s. s.id == x.id) (r ∷ rs) ≡ true) rs (λ x h. ground (arith, h))
        (rows-IsRow rs),
  )

  last_id_of-IsRow :
      (P : Scan F → Type 0) (r : Scan F) (rs : List (Scan F))
      → All P (r ∷ rs)
      → (z : Scan F) × P z × (z.id ≡ last_id_of r rs)
  last_id_of-IsRow P r [] (p, h) = (r, p, refl)
  last_id_of-IsRow P r (s ∷ ss) (p, h) = last_id_of-IsRow P s ss h

  rows_after-update_row :
      (last_id id : ℕ) (f : Scan F → Scan F) (rs : List (Scan F))
      → ((r : Scan F) → (f r).id ≡ r.id)
      → rows_after last_id (update_row id f rs) ≡ rows_after last_id rs
  unfolding rows_after update_row
  rows_after-update_row last_id id f [] e = refl
  rows_after-update_row last_id id f (r ∷ rs) e =
      ground (arith, e r, rows_after-update_row last_id id f rs e)

module _ (env : RetroEnv) (lookback_hours : ℕ) (fl : Floats) where
  open fl use {Float}

  candidates-IsRow :
      (last_id : ℕ) (rows : List (Scan Float))
      → All
          (IsRow (is_candidate env lookback_hours last_id) rows)
          (candidates env lookback_hours last_id rows)
  unfolding candidates
  candidates-IsRow last_id rows =
      All-limit _ 200 _ (All-order_by_id _ _ (filter-IsRow _ rows rows (rows-IsRow rows)))

  candidate-after :
      (last_id : ℕ) (r : Scan Float)
      → is_candidate env lookback_hours last_id r ≡ true
      → last_id < r.id
  candidate-after last_id r h = ground (arith, h)

  -- After a page that is not empty, fewer rows are left.
  page-drop :
      (last_id : ℕ) (rows : List (Scan Float)) (r : Scan Float) (rs : List (Scan Float))
      → candidates env lookback_hours last_id rows ≡ r ∷ rs
      → rows_after (last_id_of r rs) rows < rows_after last_id rows
  page-drop last_id rows r rs e =
      let (z, (p, q), same) = last_id_of-IsRow _ r rs (
        subst (λ cs. All (IsRow (is_candidate env lookback_hours last_id) rows) cs) e
          (candidates-IsRow last_id rows)) in
      subst (λ b. rows_after b rows < rows_after last_id rows) same
        (rows_after-drop last_id z.id rows (candidate-after last_id z p) q)

  evaluate-rows :
      (last_id : ℕ) (scan : Scan Float) (w : World Float)
      → rows_after last_id (evaluate env fl scan w).scans ≡ rows_after last_id w.scans
  evaluate-rows last_id scan w = elim (evaluate-scans env fl scan w) [
    | inl e ↦ ap (rows_after last_id) e
    | inr (hits, uid, mailbox, reason, v, e) ↦
        ap (rows_after last_id) e
        ∙ rows_after-update_row last_id scan.id
            (if_inbox env fl (quarantined_row env fl hits v reason scan.account_name uid mailbox))
            w.scans (quarantined_row-id env fl hits v reason scan.account_name uid mailbox)
  ]

  choice-rows :
      (n last_id : ℕ) (b : Bool) (s : Sweep env lookback_hours fl)
      (p : Bool × Sweep env lookback_hours fl)
      → rows_after last_id s.world.scans ≡ n
      → rows_after last_id p.1.world.scans ≡ n
      → rows_after last_id (if b then (true, s) else p).1.world.scans ≡ n
  choice-rows n last_id true s p h k = h
  choice-rows n last_id false s p h k = k

  page-rows :
      (last_id : ℕ) (page : List (Scan Float)) (s : Sweep env lookback_hours fl)
      → rows_after last_id (evaluate_page env lookback_hours fl page s).1.world.scans
        ≡ rows_after last_id s.world.scans
  unfolding evaluate_page
  page-rows last_id [] s = refl
  page-rows last_id (r ∷ rs) s =
      let w = evaluate env fl r s.world in
      choice-rows _ last_id (pop_bool s.cancels).0 _ _ refl (
        page-rows last_id rs (record s { cancels = (pop_bool s.cancels).1; world = w })
        ∙ evaluate-rows last_id r s.world)

  IsDone : Option (Sweep env lookback_hours fl) → Type 0
  IsDone o = (z : Sweep env lookback_hours fl) × (o ≡ some z)

  choice-IsDone :
      (b : Bool) (s : Sweep env lookback_hours fl) (o : Option (Sweep env lookback_hours fl))
      → IsDone o
      → IsDone (if b then some s else o)
  unfolding IsDone
  choice-IsDone true s o h = (s, refl)
  choice-IsDone false s o h = h

  after_page-IsDone :
      (is_last : Bool) (p : Bool × Sweep env lookback_hours fl)
      (more : Option (Sweep env lookback_hours fl))
      → IsDone more
      → IsDone (after_page env lookback_hours fl is_last p more)
  unfolding IsDone
  after_page-IsDone is_last (true, s) more h = (s, refl)
  after_page-IsDone true (false, s) more h = (s, refl)
  after_page-IsDone false (false, s) more h = h

  abbrev turn :
      ℕ → Sweep env lookback_hours fl → List (Scan Float) → Option (Sweep env lookback_hours fl)
  turn n s [] = some s
  turn n s (r ∷ rs) =
      after_page env lookback_hours fl (ltb (length (r ∷ rs)) batch_size)
        (evaluate_page env lookback_hours fl (r ∷ rs) s)
        (sweep_pages env lookback_hours fl n (last_id_of r rs)
          (evaluate_page env lookback_hours fl (r ∷ rs) s).1)

  turn-IsDone :
      (n last_id : ℕ) (s : Sweep env lookback_hours fl) (page : List (Scan Float))
      → candidates env lookback_hours last_id s.world.scans ≡ page
      → rows_after last_id s.world.scans < suc n
      → ((next : ℕ) (later : Sweep env lookback_hours fl)
          → rows_after next later.world.scans < n
          → IsDone (sweep_pages env lookback_hours fl n next later))
      → IsDone (turn n s page)
  turn-IsDone n last_id s [] e h ih = unfold IsDone in (s, refl)
  turn-IsDone n last_id s (r ∷ rs) e h ih =
      after_page-IsDone _ (evaluate_page env lookback_hours fl (r ∷ rs) s) _ (
        ih (last_id_of r rs) _ (
          ground (
            arith,
            page-rows (last_id_of r rs) (r ∷ rs) s,
            page-drop last_id s.world.scans r rs e,
          )))

  sweep_pages-IsDone :
      (n last_id : ℕ) (s : Sweep env lookback_hours fl)
      → rows_after last_id s.world.scans < n
      → IsDone (sweep_pages env lookback_hours fl n last_id s)
  unfolding sweep_pages
  sweep_pages-IsDone zero last_id s h = ground (arith, h)
  sweep_pages-IsDone (suc n) last_id s h = choice-IsDone (pop_bool s.cancels).0 _ _ (
      choice-IsDone (pop_bool s.find_fails).0 _ _ (
        turn-IsDone n last_id
          (record s { cancels = (pop_bool s.cancels).1; find_fails = (pop_bool s.find_fails).1 }) _
          refl h (λ next later k. sweep_pages-IsDone n next later k)))

  abbrev finished :
      Option (Sweep env lookback_hours fl) → Option (Bool × Sweep env lookback_hours fl)
  finished none = none
  finished (some z) = some (false, z)

  skip-or-sweep :
      (skip running : Bool) (s : Sweep env lookback_hours fl)
      (o : Option (Sweep env lookback_hours fl))
      → IsDone o
      → (running ≡ true → skip ≡ true)
      → (z : Sweep env lookback_hours fl) × ((if skip then some (running, s) else finished o)
          ≡ some (running, z))
  unfolding IsDone
  skip-or-sweep true running s o h k = (s, refl)
  skip-or-sweep false true s o h k = ground (arith, k refl)
  skip-or-sweep false false s o (z, e) k = (z, ap finished e)

  -- A sweep comes to its end: fuel for one page more than the table has rows is enough, whatever the
  -- context, the queries, the feeds, the mailbox and the transactions do. Afterwards no sweep is
  -- running, unless another one was when it started.
  pub sweep-ends :
      (running : Bool) (s : Sweep env lookback_hours fl)
      → (z : Sweep env lookback_hours fl) × (sweep env lookback_hours fl
            (suc (length s.world.scans))
            (running, s)
          ≡ some (running, z))
  unfolding sweep
  sweep-ends running s =
      let s' : Sweep env lookback_hours fl = record s { cancels = (pop_bool s.cancels).1 } in
      skip-or-sweep ((pop_bool s.cancels).0 || running) running s' _
        (sweep_pages-IsDone (suc (length s.world.scans)) 0 s'
          (ground (arith, rows_after-length 0 s.world.scans)))
        (λ e. rw e (or_true (pop_bool s.cancels).0))
