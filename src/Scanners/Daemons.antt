-- ===== src/Scanners/Daemons.antt =====
-- app/scanners/clamav.go and rspamd.go: the two services that the message is sent to. The connections
-- and their errors, JSON and regular expressions are parameters.
pub mod Stream
pub mod Closed
use Prim.Native.Char.{Char}
use Prim.Native.Nat.{◌/◌, ◌%◌}
use Prim.Native.String
use mailhook.Common.{
  ℕ, zero, suc, ◌-◌, Bool, true, false, not, ◌||◌, ◌⧺◌, String, List, [], ◌∷◌, ◌++◌, Option, none,
  some, map, ◌==◌, if◌then◌else◌, str_eq, ltb, length, take, drop,
}
use mailhook.Common.Text.{after_prefix, text_length, text_take}
use mailhook.Email.{Attachment, Email}
use mailhook.Floats.{Floats}
use mailhook.Scanners.{plain}
use mailhook.Verdict.Collect.{
  clamav, rspamd, malicious, suspicious, clean, error, skip, ScanVerdict, ScanResult,
}

-- `binary.Write` of a uint32, big end first.
unfoldable pub uint32 : ℕ → List ℕ
uint32 n = (n / 16777216) % 256 ∷ (n / 65536) % 256 ∷ (n / 256) % 256 ∷ n % 256 ∷ []

abbrev pub chunk_size : ℕ
chunk_size = 2048

-- The loop over the chunks: what it writes, on fuel.
unfoldable pub write_chunks : ℕ → List ℕ → List ℕ
write_chunks zero data_bytes = []
write_chunks (suc n) [] = []
write_chunks (suc n) (b ∷ bs) =
    uint32 (length (take chunk_size (b ∷ bs)))
    ++ take chunk_size (b ∷ bs)
    ++ write_chunks n (drop chunk_size (b ∷ bs))

-- All that follows the command: the chunks, and a length of 0.
unfoldable pub instream : List ℕ → List ℕ
instream bytes = write_chunks (length bytes) bytes ++ uint32 0

-- What a text starts with, before the suffix that it ends with.
unfoldable pub before_suffix : String → String → Option String
before_suffix suffix String.[] = if str_eq suffix "" then some "" else none
before_suffix suffix (String.◌∷◌ c s) =
    if str_eq (String.◌∷◌ c s) suffix then some "" else cons_some c (before_suffix suffix s)
  where
    cons_some : Char → Option String → Option String
    cons_some c none = none
    cons_some c (some s) = some (String.◌∷◌ c s)

-- What follows the first separator.
unfoldable pub after_text : String → String → Option String
unfolding after_prefix
after_text sep String.[] = after_prefix sep ""
after_text sep (String.◌∷◌ c s) = elim (after_prefix sep (String.◌∷◌ c s)) [
  | some rest ↦ some rest
  | none ↦ after_text sep s
]

-- The name of a signature ("" for none), or the text of an error.
pub data Found : Type 0 where
  failed found : String → Found

abbrev trim_suffix : String → String → String
trim_suffix suffix s = elim (before_suffix suffix s) [ none ↦ s | some t ↦ t ]

abbrev unexpected : String → Found
unexpected resp = failed ("unexpected clamd response: " ⧺ resp)

abbrev signature_in : String → Option String → Option String → Found
signature_in resp none rest = unexpected resp
signature_in resp (some _) none = unexpected resp
signature_in resp (some _) (some rest) = found (trim_suffix " FOUND" rest)

-- The reading of a reply, whose spaces and NUL bytes at the end are cut off.
unfoldable pub read_response : String → Found
read_response resp =
    if str_eq resp "stream: OK"
    then found ""
    else signature_in resp (before_suffix " FOUND" resp) (after_text ": " resp)

-- The daemon: what it replies to the bytes of a stream, or the text of an error of the connection.
pub data Reply : Type 0 where
  no_reply replied : String → Reply

abbrev pub read_reply : Reply → Found
read_reply (no_reply e) = failed e
read_reply (replied resp) = read_response resp

abbrev pub is_hit : Found → Bool
is_hit (failed _) = false
is_hit (found s) = not (str_eq s "")

abbrev pub is_failed : Found → Bool
is_failed (failed _) = true
is_failed (found _) = false

abbrev pub has_bytes : List ℕ → Bool
has_bytes [] = false
has_bytes (_ ∷ _) = true

module _ (clamd : List ℕ → Reply) where
  -- `scanBytes`
  unfoldable pub scan_bytes : List ℕ → Found
  scan_bytes bytes = read_reply (clamd (instream bytes))

  module _ (fl : Floats) where
    open fl use {Float}

    abbrev pub after_file : Attachment → Found → ScanResult Float → ScanResult Float
    after_file att (failed _) rest = rest
    after_file att (found s) rest =
        if str_eq s ""
        then rest
        else plain fl clamav malicious ("VIRUS:" ⧺ s ⧺ " in " ⧺ att.filename)

    -- The loop over the attachments.
    unfoldable pub scan_files : List Attachment → ScanResult Float
    scan_files [] = plain fl clamav clean "CLEAN"
    scan_files (att ∷ atts) =
        let rest = scan_files atts in
        if has_bytes att.raw then after_file att (scan_bytes att.raw) rest else rest

    abbrev pub after_message : Found → ScanResult Float → ScanResult Float
    after_message (failed e) rest = plain fl clamav error ("clamd unavailable: " ⧺ e)
    after_message (found s) rest =
        if str_eq s "" then rest else plain fl clamav malicious ("VIRUS:" ⧺ s)

    -- `Scan` of ClamAV
    unfoldable pub scan_clamav : Bool → Email → ScanResult Float
    scan_clamav enabled email =
        if enabled
        then after_message (scan_bytes email.raw) (scan_files email.attachments)
        else plain fl clamav skip "disabled"

-- The response of Rspamd, or the text of what failed: the request, the connection or the decoding.
pub record Response (F : Type 0) : Type 0 where
  pub score : F
  pub action : String
  pub symbols : List ℕ

pub data Rspamd (F : Type 0) : Type 0 where
  no_request no_connection no_decoding : String → Rspamd F
  response : Response F → Rspamd F

unfoldable pub action_to_verdict : String → ScanVerdict
action_to_verdict action =
    if str_eq action "reject"
    then malicious
    else if str_eq action "add header"
        || str_eq action "rewrite subject"
        || str_eq action "greylist"
    then suspicious
    else clean

module _ (fl : Floats) where
  open fl use {Float}

  abbrev pub rspamd_result : Rspamd Float → ScanResult Float
  rspamd_result (no_request e) = plain fl rspamd error e
  rspamd_result (no_connection e) = plain fl rspamd error ("rspamd unavailable: " ⧺ e)
  rspamd_result (no_decoding e) = plain fl rspamd error ("decode: " ⧺ e)
  rspamd_result (response r) = record {
    scanner = rspamd;
    verdict = action_to_verdict r.action;
    score = r.score;
    detail = r.action;
    matches = r.symbols;
  }

  -- `Scan` of Rspamd
  unfoldable pub scan_rspamd : (List ℕ → Rspamd Float) → Bool → Email → ScanResult Float
  scan_rspamd service enabled email =
      if enabled then rspamd_result (service email.raw) else plain fl rspamd skip "disabled"
