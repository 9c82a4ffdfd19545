-- ===== src/Pipeline/Retro/Sweep.antt =====
-- app/pipeline/retro.go, `sweep`: the clean messages of the last days, page by page. Whether the
-- context has ended, and whether a query fails, are queues of outcomes, where an empty queue stands
-- for success; the loop is on fuel.
pub mod Ends
use mailhook.Common.{
  ℕ, zero, suc, ◌+◌, ◌*◌, Bool, true, false, not, ◌&&◌, ◌||◌, ◌==◌, List, [], ◌∷◌, Option, none,
  some, filter, if◌then◌else◌, length, ltb, leb,
}
use mailhook.Floats.{Floats}
use mailhook.Pipeline.Effects.{World, pop_bool}
use mailhook.Pipeline.Env.{is_clean}
use mailhook.Pipeline.Retro.{RetroEnv, is_inbox, evaluate}
use mailhook.Records.{Scan}

abbrev pub batch_size : ℕ
batch_size = 200

-- The loopback is given in hours, times in nanoseconds.
abbrev hour : ℕ
hour = 3600 * 1000000000

-- `scanned_urls IS NOT NULL AND scanned_urls != 'null'`
abbrev pub is_present : List ℕ → Bool
is_present [] = false
is_present (a ∷ b ∷ c ∷ d ∷ []) = not (a == b'n' && b == b'u' && c == b'l' && d == b'l')
is_present _ = true

module _ {F : Type 0} where
  -- `ORDER BY id`
  unfoldable pub insert_by_id : Scan F → List (Scan F) → List (Scan F)
  insert_by_id r [] = r ∷ []
  insert_by_id r (s ∷ ss) =
      let later = insert_by_id r ss in if leb r.id s.id then r ∷ s ∷ ss else s ∷ later

  unfoldable pub order_by_id : List (Scan F) → List (Scan F)
  order_by_id [] = []
  order_by_id (r ∷ rs) = insert_by_id r (order_by_id rs)

  unfoldable pub limit : ℕ → List (Scan F) → List (Scan F)
  limit zero rs = []
  limit (suc n) [] = []
  limit (suc n) (r ∷ rs) = r ∷ limit n rs

  abbrev pub last_id_of : Scan F → List (Scan F) → ℕ
  last_id_of r [] = r.id
  last_id_of r (s ∷ ss) = last_id_of s ss

module _ (env : RetroEnv) (lookback_hours : ℕ) where
  abbrev pub is_candidate : {F : Type 0} → ℕ → Scan F → Bool
  is_candidate last_id r =
      ltb last_id r.id
      && is_clean r.verdict
      && is_inbox r.status
      && ltb env.now (r.created_at + lookback_hours * hour)
      && is_present r.scanned_urls

  -- The query for a page.
  unfoldable pub candidates : {F : Type 0} → ℕ → List (Scan F) → List (Scan F)
  candidates last_id rows = limit batch_size (order_by_id (filter (is_candidate last_id) rows))

  module _ (fl : Floats) where
    open fl use {Float}

    pub record Sweep : Type 0 where
      pub world : World Float
      pub cancels : List Bool
      pub find_fails : List Bool

    -- `ctx.Err()`
    abbrev pub poll : Sweep → Bool × Sweep
    poll s = let (ended, later) = pop_bool s.cancels in (ended, record s { cancels = later })

    -- The loop over a page, and whether the context ended in it.
    unfoldable pub evaluate_page : List (Scan Float) → Sweep → Bool × Sweep
    evaluate_page [] s = (false, s)
    evaluate_page (r ∷ rs) s =
        let (ended, s') = poll s in
        let rest = evaluate_page rs (record s' { world = evaluate env fl r s'.world }) in
        if ended then (true, s') else rest

    abbrev pub after_page : Bool → Bool × Sweep → Option Sweep → Option Sweep
    after_page is_last (true, s) more = some s
    after_page true (false, s) more = some s
    after_page false (false, s) more = more

    -- The loop over the pages; nothing where the fuel runs out.
    unfoldable pub sweep_pages : ℕ → ℕ → Sweep → Option Sweep
    sweep_pages zero last_id s = none
    sweep_pages (suc n) last_id s =
        let (ended, s') = poll s in
        let (fails, later) = pop_bool s'.find_fails in
        let s'' : Sweep = record s' { find_fails = later } in
        if ended
        then some s'
        else if fails
        then some s''
        else elim (candidates last_id s''.world.scans) [
          | [] ↦ some s''
          | r ∷ rs ↦
              after_page (ltb (length (r ∷ rs)) batch_size) (evaluate_page (r ∷ rs) s'')
                (sweep_pages n (last_id_of r rs) (evaluate_page (r ∷ rs) s'').1)
        ]

    -- `sweep`, with the flag `running`: one sweep at a time, and none once the context has ended.
    unfoldable pub sweep : ℕ → Bool × Sweep → Option (Bool × Sweep)
    sweep fuel (running, s) =
        let (ended, s') = poll s in
        if ended || running
        then some (running, s')
        else elim (sweep_pages fuel 0 s') [ none ↦ none | some done ↦ some (false, done) ]
