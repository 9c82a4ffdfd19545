-- ===== src/Verdict/Collect.antt =====
-- app/pipeline/verdict.go: the results of the scanners, and the loop of `Decide` that collects its
-- signals from them.
use mailhook.Common.{ℕ, Bool, true, false, ◌||◌, String, List, [], ◌∷◌, if◌then◌else◌}
use mailhook.Common.Int.{ℤ, pos}
use mailhook.Floats.{Floats}

pub data ScannerName : Type 0 where
  rspamd clamav yara urlcheck urlunshorten nrdcheck htmlsmuggling hiddentextdetect : ScannerName
  virustotal malwarebazaar ipreputation onnx : ScannerName
  other_scanner : String → ScannerName

pub data ScanVerdict : Type 0 where
  clean suspicious malicious error skip : ScanVerdict
  other_verdict : String → ScanVerdict

pub record ScanResult (F : Type 0) : Type 0 where
  pub scanner : ScannerName
  pub verdict : ScanVerdict
  pub score : F
  pub detail : String
  pub matches : List ℕ

abbrev pub is_malicious : ScanVerdict → Bool
is_malicious malicious = true
is_malicious _ = false

abbrev pub is_suspicious : ScanVerdict → Bool
is_suspicious suspicious = true
is_suspicious _ = false

abbrev pub is_error : ScanVerdict → Bool
is_error error = true
is_error _ = false

-- The map `criticalScanners`.
abbrev pub is_critical : ScannerName → Bool
is_critical clamav = true
is_critical yara = true
is_critical rspamd = true
is_critical _ = false

abbrev pub scanner_text : ScannerName → String
scanner_text rspamd = "rspamd"
scanner_text clamav = "clamav"
scanner_text yara = "yara"
scanner_text urlcheck = "urlcheck"
scanner_text urlunshorten = "urlunshorten"
scanner_text nrdcheck = "nrdcheck"
scanner_text htmlsmuggling = "htmlsmuggling"
scanner_text hiddentextdetect = "hiddentextdetect"
scanner_text virustotal = "virustotal"
scanner_text malwarebazaar = "malwarebazaar"
scanner_text ipreputation = "ipreputation"
scanner_text onnx = "onnx"
scanner_text (other_scanner s) = s

-- The local variables of `Decide`.
pub record Signals (F : Type 0) : Type 0 where
  pub rspamd_score : F
  pub clam_hit : Bool
  pub clam_detail : String
  pub yara_hit : Bool
  pub yara_detail : String
  pub url_hit : Bool
  pub url_detail : String
  pub vt_positives : ℤ
  pub vt_detail : String
  pub mb_hit : Bool
  pub mb_detail : String
  pub ip_suspicious : Bool
  pub ip_malicious : Bool
  pub ip_detail : String
  pub nrd_hit : Bool
  pub nrd_detail : String
  pub html_smuggling_hit : Bool
  pub html_smuggling_detail : String
  pub hidden_text_hit : Bool
  pub hidden_text_detail : String
  pub onnx_malicious : Bool
  pub onnx_suspicious : Bool
  pub onnx_detail : String

module _ (fl : Floats) where
  open fl use {Float, decimal, to_int}

  abbrev pub no_signals : Signals Float
  no_signals = record {
    rspamd_score = decimal 0 0;
    clam_hit = false;
    clam_detail = "";
    yara_hit = false;
    yara_detail = "";
    url_hit = false;
    url_detail = "";
    vt_positives = pos 0;
    vt_detail = "";
    mb_hit = false;
    mb_detail = "";
    ip_suspicious = false;
    ip_malicious = false;
    ip_detail = "";
    nrd_hit = false;
    nrd_detail = "";
    html_smuggling_hit = false;
    html_smuggling_detail = "";
    hidden_text_hit = false;
    hidden_text_detail = "";
    onnx_malicious = false;
    onnx_suspicious = false;
    onnx_detail = "";
  }

  -- The body of the switch, for a result of the scanner. An assignment under a condition is one
  -- conditional for each variable that it sets.
  unfoldable pub signal : ScannerName → ScanVerdict → Float → String → Signals Float → Signals Float
  signal rspamd v score detail s = record s { rspamd_score = score }
  signal clamav v score detail s = record s {
    clam_hit = if is_malicious v then true else s.clam_hit;
    clam_detail = if is_malicious v then detail else s.clam_detail;
  }
  signal yara v score detail s = record s {
    yara_hit = if is_malicious v then true else s.yara_hit;
    yara_detail = if is_malicious v then detail else s.yara_detail;
  }
  signal urlcheck v score detail s = record s {
    url_hit = if is_malicious v || is_suspicious v then true else s.url_hit;
    url_detail = if is_malicious v || is_suspicious v then detail else s.url_detail;
  }
  signal urlunshorten v score detail s = record s {
    url_hit = if is_malicious v then true else s.url_hit;
    url_detail = if is_malicious v then detail else s.url_detail;
  }
  signal nrdcheck v score detail s = record s {
    nrd_hit = if is_suspicious v then true else s.nrd_hit;
    nrd_detail = if is_suspicious v then detail else s.nrd_detail;
  }
  signal htmlsmuggling v score detail s = record s {
    html_smuggling_hit = if is_suspicious v then true else s.html_smuggling_hit;
    html_smuggling_detail = if is_suspicious v then detail else s.html_smuggling_detail;
  }
  signal hiddentextdetect v score detail s = record s {
    hidden_text_hit = if is_suspicious v then true else s.hidden_text_hit;
    hidden_text_detail = if is_suspicious v then detail else s.hidden_text_detail;
  }
  signal virustotal v score detail s = record s {
    vt_positives = if is_malicious v then to_int score else s.vt_positives;
    vt_detail = if is_malicious v then detail else s.vt_detail;
  }
  signal malwarebazaar v score detail s = record s {
    mb_hit = if is_malicious v then true else s.mb_hit;
    mb_detail = if is_malicious v then detail else s.mb_detail;
  }
  signal ipreputation v score detail s = record s {
    ip_malicious = if is_malicious v then true else s.ip_malicious;
    ip_suspicious =
        if is_malicious v
        then s.ip_suspicious
        else if is_suspicious v
        then true
        else s.ip_suspicious;
    ip_detail = if is_malicious v || is_suspicious v then detail else s.ip_detail;
  }
  signal onnx v score detail s = record s {
    onnx_malicious = if is_malicious v then true else s.onnx_malicious;
    onnx_suspicious =
        if is_malicious v
        then s.onnx_suspicious
        else if is_suspicious v
        then true
        else s.onnx_suspicious;
    onnx_detail = if is_malicious v || is_suspicious v then detail else s.onnx_detail;
  }
  signal (other_scanner _) v score detail s = s

  -- One round of the loop, and the loop.
  unfoldable pub observe : Signals Float → ScanResult Float → Signals Float
  unfolding signal
  observe s r = signal r.scanner r.verdict r.score r.detail s

  unfoldable pub collect : Signals Float → List (ScanResult Float) → Signals Float
  unfolding observe
  collect s [] = s
  collect s (r ∷ rs) = collect (observe s r) rs
