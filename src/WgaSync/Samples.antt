-- ===== src/WgaSync/Samples.antt =====
-- `WGASync` at concrete inputs, where the sync of the device fails.
use wga.Base.{
  true, false, none, some, [], ◌∷◌, ◌≡◌, bytes, ok, ◌↔◌, Bytes, panic, if◌then◌else◌, is_some,
}
use wga.Api.{WireguardAccessPeer, WireguardAccessRule, FetchedConfig}
use wga.WgTypes.{KeyCodec}
use wga.PeerSync.{Faults, Ranges, Configure, wga_sync}
use wga.Nft.{Answers, nft_sync, Effects}
use wga.Nft.Filled.{fill, nft_sync-fill}
use wga.WgaSync.{forwarding, Synced, sync, sync-nft_sync}

abbrev plain_codec : KeyCodec
plain_codec = record { parse_key = λ s. some s; key_string = λ k. k; public_key = λ k. k }

abbrev in_order : Ranges
in_order = record { have = λ m. m; should = λ m. m }

abbrev refuses : Configure
refuses changes device = (false, device)

-- An old peer, with its address in the deprecated field only.
abbrev old_peer : WireguardAccessPeer
old_peer = record {
  name = bytes "old";
  spec = record { pre_shared_key = []; public_key = bytes "k"; access_rules = bytes "db" ∷ [] };
  status = some (record {
    last_updated = 0;
    address = bytes "fd00::7";
    addresses = [];
    dns = [];
    peers = [];
  });
}

abbrev db : WireguardAccessRule
db = record { name = bytes "db"; spec = record { destinations = bytes "fd10::/64" ∷ [] } }

abbrev answers : Answers
answers = record {
  connects = true;
  tables = some (record { name = bytes "wga"; family = 5 } ∷ []);
  flushes = true;
  chains = some (record { name = bytes "wga"; table = bytes "wga" } ∷ []);
  chain_added = true;
  chains_again = none;
  rules = some [];
  runs = λ args. true;
}

abbrev faults : Faults
faults = record { new = false; device = true }

nft_sync-fill_example :
    nft_sync answers (fill (record { rules = db ∷ []; peers = old_peer ∷ [] })) (bytes "wga")
    ≡ nft_sync answers (record { rules = db ∷ []; peers = old_peer ∷ [] }) (bytes "wga")
nft_sync-fill_example =
    nft_sync-fill answers (record { rules = db ∷ []; peers = old_peer ∷ [] }) (bytes "wga")

abbrev synced : Synced
synced = sync plain_codec in_order refuses answers faults [] (some (old_peer ∷ [])) (some (db ∷ []))

abbrev fetched : FetchedConfig
fetched = record { rules = db ∷ []; peers = old_peer ∷ [] }

sync-nft_sync_example :
    ((eff : Effects)
      → (nft_sync answers fetched (bytes "wga") ≡ ok eff)
        ↔ ((synced.outcome ≡ ok tt) × (synced.firewall ≡ some eff)))
    × ((why : Bytes)
        → (nft_sync answers fetched (bytes "wga") ≡ panic why) ↔ (synced.outcome ≡ panic why))
    × (synced.device ≡ (wga_sync plain_codec in_order refuses faults (old_peer ∷ []) []).1)
    × (synced.sysctl_calls ≡ (if is_some synced.firewall then forwarding ∷ [] else []))
sync-nft_sync_example =
    sync-nft_sync plain_codec in_order refuses answers faults [] (old_peer ∷ []) (db ∷ [])
