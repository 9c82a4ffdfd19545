-- ===== src/Util/Sender.antt =====
-- Which header the sending address is taken from.
use mailhook.Common.{String, List, [], ◌∷◌, ◌++◌, some, ◌≡◌, ap}
use mailhook.Util.{Ip, IpLib, header_ip, or_else, extract_sending_ip}

module _ (lib : IpLib) where
  -- The last of the Received headers decides: where it carries a public address, that address is the
  -- one that is extracted, whatever the headers above it carry.
  pub extract-forged :
      (headers : List String) (forged : String) (ip : Ip)
      → header_ip lib forged ≡ some ip
      → extract_sending_ip lib (headers ++ forged ∷ []) ≡ some ip
  unfolding extract_sending_ip
  extract-forged [] forged ip h = h
  extract-forged (header ∷ headers) forged ip h =
      ap (λ o. or_else lib o (header_ip lib header)) (extract-forged headers forged ip h)
