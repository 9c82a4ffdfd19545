-- ===== src/Util.antt =====
-- app/util: addresses, and the types of attachments. Regular expressions, the parsing of addresses
-- and of media types, and lower case belong to Go's library.
pub mod Defang
pub mod Ranges
pub mod Sender
mod Tests
use Prim.Native.Nat.{◌/◌}
use mailhook.Common.{
  ℕ, ◌-◌, ◌+◌, ◌*◌, ◌^◌, Bool, true, false, not, ◌||◌, String, List, [], ◌∷◌, Option, none, some,
  ◌==◌, if◌then◌else◌, any, str_eq,
}

-- `net.IP`: an IPv4 address, as its 32 bits, or an IPv6 address.
pub data Ip : Type 0 where
  v4 : ℕ → Ip
  v6 : ℕ → Ip

abbrev pub dotted : ℕ → ℕ → ℕ → ℕ → ℕ
dotted a b c d = ((a * 256 + b) * 256 + c) * 256 + d

-- `net.IPNet`, with the length of its mask.
abbrev pub private : List (ℕ × ℕ)
private =
    (dotted 10 0 0 0, 8)
    ∷ (dotted 172 16 0 0, 12)
    ∷ (dotted 192 168 0 0, 16)
    ∷ (dotted 127 0 0 0, 8)
    ∷ (dotted 169 254 0 0, 16)
    ∷ (dotted 100 64 0 0, 10)
    ∷ (dotted 0 0 0 0, 8)
    ∷ []

-- `Contains`: the bits under the mask agree.
abbrev pub contains_ip : ℕ → ℕ × ℕ → Bool
contains_ip n (net, bits) = n / 2 ^ (32 - bits) == net / 2 ^ (32 - bits)

-- `IsPublicIP`, for an address that is not nil.
unfoldable pub is_public_ip : Ip → Bool
is_public_ip (v4 n) = not (any (contains_ip n) private)
is_public_ip (v6 _) = false

-- A Received header: the address in brackets, or nothing where there is none, and its parse.
pub record IpLib : Type 0 where
  pub received_ipv4 : String → Option String
  pub parse_ip : String → Option Ip

module _ (lib : IpLib) where
  abbrev pub public_only : Option Ip → Option Ip
  public_only none = none
  public_only (some ip) = if is_public_ip ip then some ip else none

  abbrev parsed : Option String → Option Ip
  parsed none = none
  parsed (some text) = lib.parse_ip text

  -- The public address of a header.
  unfoldable pub header_ip : String → Option Ip
  header_ip header = public_only (parsed (lib.received_ipv4 header))

  abbrev pub or_else : Option Ip → Option Ip → Option Ip
  or_else none other = other
  or_else (some ip) other = some ip

  -- `ExtractSendingIP`: the loop goes from the last header to the first.
  unfoldable pub extract_sending_ip : List String → Option Ip
  extract_sending_ip [] = none
  extract_sending_ip (header ∷ headers) = or_else (extract_sending_ip headers) (header_ip header)

abbrev pub dangerous_extensions : List String
dangerous_extensions =
    ".exe" ∷ ".bat" ∷ ".cmd" ∷ ".ps1" ∷ ".vbs" ∷ ".vbe" ∷ ".js" ∷ ".jse" ∷ ".wsf" ∷ ".wsh" ∷ ".lnk"
    ∷ ".scr" ∷ ".pif" ∷ ".com" ∷ ".hta" ∷ ".msi" ∷ ".reg" ∷ ".jar" ∷ ".msp" ∷ ".mst" ∷ ".cpl"
    ∷ ".inf" ∷ ".sys" ∷ ".dll" ∷ ".scf" ∷ ".url" ∷ ".jnlp" ∷ ".msc" ∷ ".ps2" ∷ ".iso" ∷ ".img"
    ∷ ".vhd" ∷ ".vhdx" ∷ ".one" ∷ ".docm" ∷ ".xlsm" ∷ ".pptm" ∷ ".dotm" ∷ []

abbrev pub executable_mime_types : List String
executable_mime_types =
    "application/x-msdownload" ∷ "application/x-executable" ∷ "application/x-msdos-program"
    ∷ "application/x-ms-installer" ∷ "application/vnd.microsoft.portable-executable"
    ∷ "application/x-dosexec" ∷ "application/x-sh" ∷ "application/x-bat" ∷ "application/x-jar" ∷ []

-- `filepath.Ext`, `strings.ToLower` and `mime.ParseMediaType`.
pub record MimeLib : Type 0 where
  pub ext : String → String
  pub lower : String → String
  pub parse_media_type : String → Option String

module _ (lib : MimeLib) where
  unfoldable pub dangerous_extension : String → Bool
  dangerous_extension filename = any (str_eq (lib.lower (lib.ext filename))) dangerous_extensions

  abbrev media_in : List String → Option String → Bool
  media_in types none = false
  media_in types (some media) = any (str_eq (lib.lower media)) types

  unfoldable pub is_executable : String → Bool
  is_executable content_type = media_in executable_mime_types (lib.parse_media_type content_type)

  abbrev media_or : String → Option String → String
  media_or content_type none = content_type
  media_or content_type (some media) = media

  unfoldable pub safe_content_type : String → String
  safe_content_type content_type = media_or content_type (lib.parse_media_type content_type)
