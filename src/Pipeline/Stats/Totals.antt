-- ===== src/Pipeline/Stats/Totals.antt =====
-- What the daily counts add up to.
use mailhook.Common.{
  ℕ, ◌+◌, Bool, true, false, String, List, Option, none, some, ◌≡◌, refl, arith, if◌then◌else◌,
  Bool-cases, inl, inr,
}
use mailhook.Common.Dict.{lookup, insert, lookup-insert_self}
use mailhook.Pipeline.Effects.{World, write, pop_bool}
use mailhook.Pipeline.Stats.{count_verdict, or_new, increment_daily_stat}
use mailhook.Records.{DailyStat}
use mailhook.Verdict.{Verdict, clean, spam, phish, malware, suspicious}

unfoldable pub IsTotal : DailyStat → Type 0
IsTotal s = s.total ≡ s.clean + s.spam + s.phish + s.malware + s.suspicious

abbrev pub total_of : Option DailyStat → ℕ
total_of none = 0
total_of (some s) = s.total

abbrev pub IsTotalled : Option DailyStat → Type 0
IsTotalled none = Unit
IsTotalled (some s) = IsTotal s

count_verdict-IsTotal :
    (v : Verdict) (o : Option DailyStat) → IsTotalled o → IsTotal (count_verdict v (or_new o))
unfolding count_verdict IsTotal
count_verdict-IsTotal clean none h = refl
count_verdict-IsTotal spam none h = refl
count_verdict-IsTotal phish none h = refl
count_verdict-IsTotal malware none h = refl
count_verdict-IsTotal suspicious none h = refl
count_verdict-IsTotal clean (some s) h = omega arith
count_verdict-IsTotal spam (some s) h = omega arith
count_verdict-IsTotal phish (some s) h = omega arith
count_verdict-IsTotal malware (some s) h = omega arith
count_verdict-IsTotal suspicious (some s) h = omega arith

count_verdict-total :
    (v : Verdict) (o : Option DailyStat) → (count_verdict v (or_new o)).total ≡ total_of o + 1
unfolding count_verdict
count_verdict-total v o = ground arith

abbrev pub counted : Bool → ℕ
counted true = 0
counted false = 1

increment_daily_stat-stats :
    {F : Type 0} (today : String) (v : Verdict) (w : World F)
    → (increment_daily_stat today v w).stats ≡ (
        if (pop_bool w.db_fails).0
        then w.stats
        else insert today (count_verdict v (or_new (lookup today w.stats))) w.stats)
unfolding increment_daily_stat write
increment_daily_stat-stats today v w = elim (Bool-cases (pop_bool w.db_fails).0) [
  | inl e ↦ rw (e, increment_daily_stat, write) refl
  | inr e ↦ rw (e, increment_daily_stat, write) refl
]

counted-IsTotalled :
    (fails : Bool) (today : String) (v : Verdict) (m : List (String × DailyStat))
    → IsTotalled (lookup today m)
    → (let m' = if fails then m else insert today (count_verdict v (or_new (lookup today m))) m in
        IsTotalled (lookup today m')
        × (total_of (lookup today m') ≡ total_of (lookup today m) + counted fails))
counted-IsTotalled true today v m h = (h, omega arith)
counted-IsTotalled false today v m h =
    rw (lookup-insert_self today (count_verdict v (or_new (lookup today m))) m)
      (count_verdict-IsTotal v (lookup today m) h, count_verdict-total v (lookup today m))

-- Counting a message keeps the total of the day equal to the sum of the verdicts' columns, and adds
-- one to it unless the transaction fails.
pub increment_daily_stat-IsTotal :
    {F : Type 0} (today : String) (v : Verdict) (w : World F)
    → IsTotalled (lookup today w.stats)
    → IsTotalled (lookup today (increment_daily_stat today v w).stats)
      × (total_of (lookup today (increment_daily_stat today v w).stats)
          ≡ total_of (lookup today w.stats) + counted (pop_bool w.db_fails).0)
increment_daily_stat-IsTotal today v w h =
    rw (increment_daily_stat-stats today v w)
      (counted-IsTotalled (pop_bool w.db_fails).0 today v w.stats h)
