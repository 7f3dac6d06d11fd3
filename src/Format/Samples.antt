-- ===== src/Format/Samples.antt =====
-- format.go at a concrete configuration.
use wga.Base.{[], ◌∷◌, bytes, ◌≡◌, refl, some, none, replicate, ◌==◌, if◌then◌else◌, length}
use wga.WgTypes.{KeyCodec}
use wga.Net.{fixed_IsLine}
use wga.Format.RoundTrip.{sections_of, read_file-format}
use wga.Format.Reader.{read_file}
use wga.Format.{format, ConfigFile}

-- Keys whose text is one letter
abbrev codec : KeyCodec
codec = record {
  parse_key = λ s. if length s == 32 then some s else none;
  key_string = λ k. bytes "k";
  public_key = λ k. k;
}

abbrev config : ConfigFile
config = record {
  name = bytes "laptop";
  private_key = replicate 32 65;
  address = bytes "fd00::7/128";
  dns = bytes "fd00::53" ∷ bytes "10.0.0.53" ∷ [];
  peers =
      record {
        endpoint = record { ip = 10 ∷ 0 ∷ 0 ∷ 1 ∷ []; port = 51820 };
        public_key = replicate 32 66;
        preshared_key = replicate 32 67;
        allowed_ips = record { ip = 10 ∷ 1 ∷ 0 ∷ 0 ∷ []; mask = 255 ∷ 255 ∷ 0 ∷ 0 ∷ [] } ∷ [];
        persistent_keepalive_interval = 60_000_000_000;
      }
      ∷ [];
}

-- The whole file
prints :
    format codec config
    ≡ bytes
        "# laptop\n[Interface]\nPrivateKey = k\nAddress = fd00::7/128\nDNS = fd00::53, 10.0.0.53\n\n[Peer]\nEndpoint = 10.0.0.1:51820\nPublicKey = k\nPresharedKey = k\nAllowedIPs = 10.1.0.0/16\nPersistentKeepalive = 60\n"
unfolding format
prints = refl

read_file-format_example : read_file (format codec config) ≡ sections_of codec config
read_file-format_example =
    read_file-format codec (λ k. fixed_IsLine (bytes "k") refl) config
      (fixed_IsLine (bytes "laptop") refl) (fixed_IsLine (bytes "fd00::7/128") refl)
      (fixed_IsLine (bytes "fd00::53") refl, (fixed_IsLine (bytes "10.0.0.53") refl, tt))
