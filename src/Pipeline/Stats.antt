-- ===== src/Pipeline/Stats.antt =====
-- app/pipeline/pipeline.go: the daily statistics, and the text of an entry in a log.
pub mod Totals
use Prim.Native.Char.{Char, code}
use Prim.Native.String
use mailhook.Common.{
  ℕ, ◌+◌, Bool, true, false, String, List, Option, none, some, if◌then◌else◌, ◌==◌, ◌⧺◌,
}
use mailhook.Common.Dict.{lookup, insert}
use mailhook.Pipeline.Effects.{World, write}
use mailhook.Records.{DailyStat}
use mailhook.Verdict.{Verdict, clean, spam, phish, malware, suspicious}

abbrev no_stats : DailyStat
no_stats = record { total = 0; clean = 0; spam = 0; phish = 0; malware = 0; suspicious = 0 }

-- The column of the verdict and the total.
unfoldable pub count_verdict : Verdict → DailyStat → DailyStat
count_verdict clean s = record s { clean = s.clean + 1; total = s.total + 1 }
count_verdict spam s = record s { spam = s.spam + 1; total = s.total + 1 }
count_verdict phish s = record s { phish = s.phish + 1; total = s.total + 1 }
count_verdict malware s = record s { malware = s.malware + 1; total = s.total + 1 }
count_verdict suspicious s = record s { suspicious = s.suspicious + 1; total = s.total + 1 }

-- `INSERT OR IGNORE`
abbrev pub or_new : Option DailyStat → DailyStat
or_new none = no_stats
or_new (some s) = s

unfoldable pub increment_daily_stat : {F : Type 0} → String → Verdict → World F → World F
increment_daily_stat today v w =
    (write
      (λ w'. record w' {
        stats = insert today (count_verdict v (or_new (lookup today w'.stats))) w'.stats;
      })
      w).0

-- The text up to its first "@", and the rest.
split_at : String → Option (String × String)
split_at String.[] = none
split_at (String.◌∷◌ c s) =
    if code c == b'@'
    then some ("", String.◌∷◌ c s)
    else (elim (split_at s) [ none ↦ none | some (user, rest) ↦ some (String.◌∷◌ c user, rest) ])

stars : String → String
stars String.[] = ""
stars (String.◌∷◌ c s) = String.◌∷◌ "*" (stars s)

-- Short names are hidden whole; the program counts bytes, so this is for ASCII.
mask_user : String → String
mask_user String.[] = ""
mask_user (String.◌∷◌ a String.[]) = "*"
mask_user (String.◌∷◌ a (String.◌∷◌ b String.[])) = "**"
mask_user (String.◌∷◌ a (String.◌∷◌ b s)) = String.◌∷◌ a (String.◌∷◌ b (stars s))

unfoldable pub mask_entry : String → String
unfolding split_at stars mask_user
mask_entry entry = elim (split_at entry) [
  | none ↦ entry
  | some (user, rest) ↦ mask_user user ⧺ rest
]
