-- ===== src/WgaSync.antt =====
-- `Fetch` and `WGASync` of operator/wga.go: both syncs, one after the other, on what was fetched, and
-- then `sysctl` of operator/nft.go. The answers of the API server are parameters.
mod Samples
use wga.Base.{
  Option, none, some, List, [], ◌∷◌, Bytes, Outcome, ok, err, panic, bytes, ◌≡◌, refl, ◌↔◌, is_some,
  if◌then◌else◌,
}
use wga.Api.{WireguardAccessPeer, WireguardAccessRule, FetchedConfig}
use wga.WgTypes.{KeyCodec, Peer}
use wga.PeerSync.{Faults, Ranges, Configure, wga_sync}
use wga.Nft.{Answers, Effects, nft_sync}
use wga.Nft.Filled.{fill, nft_sync-fill}

-- `Fetch`: the peers and then the rules
unfoldable pub fetch :
    Option (List WireguardAccessPeer) → Option (List WireguardAccessRule) → Outcome FetchedConfig
fetch none rules = err (bytes "error listing wga")
fetch (some peers) none = err (bytes "error listing wga")
fetch (some peers) (some rules) = ok (record { rules = rules; peers = peers })

-- The arguments of the command `sysctl`, whose error is only logged
unfoldable pub sysctl : List Bytes
sysctl = bytes "-w" ∷ bytes "net.ipv6.conf.all.forwarding=1" ∷ []

-- How `WGASync` ends, the peers of the device then, what `nftSync` did if it was reached, and the calls
-- of the command `sysctl`.
pub record Synced : Type 0 where
  pub outcome : Outcome (Unit {0})
  pub device : List Peer
  pub firewall : Option Effects
  pub sysctl_calls : List (List Bytes)

-- The end without a sync of the firewall
abbrev ended : Outcome (Unit {0}) → List Peer → Synced
ended outcome_then peers_then = record {
  outcome = outcome_then;
  device = peers_then;
  firewall = none;
  sysctl_calls = [];
}

-- A panic of `nftSync` goes through; it returns no error.
unfoldable pub after_firewall : List Peer → Outcome Effects → Synced
unfolding sysctl
after_firewall peers_then (ok eff) = record {
  outcome = ok tt;
  device = peers_then;
  firewall = some eff;
  sysctl_calls = sysctl ∷ [];
}
after_firewall peers_then (err e) = ended (ok tt) peers_then
after_firewall peers_then (panic e) = ended (panic e) peers_then

module _ (kc : KeyCodec) (r : Ranges) (configure : Configure) (a : Answers) where
  -- `WGASync`, from the answer of `Fetch` on; the error of `wgaSync` is logged. `nftSync` gets the
  -- configuration as `wgaSync` leaves it.
  unfoldable pub sync_fetched : Faults → List Peer → Outcome FetchedConfig → Synced
  unfolding after_firewall
  sync_fetched f device (err e) = ended (ok tt) device
  sync_fetched f device (panic e) = ended (panic e) device
  sync_fetched f device (ok config) =
      after_firewall (wga_sync kc r configure f config.peers device).1
        (nft_sync a (fill config) (bytes "wga"))

  -- `WGASync`
  unfoldable pub sync :
      Faults
      → List Peer
      → Option (List WireguardAccessPeer)
      → Option (List WireguardAccessRule)
      → Synced
  unfolding sync_fetched fetch
  sync f device peers rules = sync_fetched f device (fetch peers rules)

abbrev pub forwarding : List Bytes
forwarding = bytes "-w" ∷ bytes "net.ipv6.conf.all.forwarding=1" ∷ []

ended_as :
    (device : List Peer) (o : Outcome Effects)
    → ((eff : Effects)
        → (o ≡ ok eff) ↔ (
            ((after_firewall device o).outcome ≡ ok tt)
            × ((after_firewall device o).firewall ≡ some eff)))
      × ((why : Bytes) → (o ≡ panic why) ↔ ((after_firewall device o).outcome ≡ panic why))
      × ((after_firewall device o).device ≡ device)
      × ((after_firewall device o).sysctl_calls
          ≡ (if is_some (after_firewall device o).firewall then forwarding ∷ [] else []))
unfolding after_firewall sysctl
ended_as device (ok eff) =
    ((λ x. ((λ h. (refl, cc)), (λ h. cc))), (λ why. ((λ h. cc), (λ h. cc))), refl, refl)
ended_as device (err e) =
    ((λ x. ((λ h. cc), (λ h. cc))), (λ why. ((λ h. cc), (λ h. cc))), refl, refl)
ended_as device (panic e) =
    ((λ x. ((λ h. cc), (λ h. cc))), (λ why. ((λ h. cc), (λ h. cc))), refl, refl)

-- When both resources are fetched, the sync of the firewall runs on what was fetched, in whatever way
-- the sync of the device fails and whatever it writes into the configuration: what it does is what is
-- done, `sysctl` is called after it, and `WGASync` returns nil exactly if it returns.
pub sync-nft_sync :
    (kc : KeyCodec) (r : Ranges) (configure : Configure) (a : Answers) (f : Faults)
    (device : List Peer) (peers : List WireguardAccessPeer) (rules : List WireguardAccessRule)
    → let config : FetchedConfig = record { rules = rules; peers = peers } in
      let synced = sync kc r configure a f device (some peers) (some rules) in
      ((eff : Effects)
        → (nft_sync a config (bytes "wga") ≡ ok eff)
          ↔ ((synced.outcome ≡ ok tt) × (synced.firewall ≡ some eff)))
      × ((why : Bytes)
          → (nft_sync a config (bytes "wga") ≡ panic why) ↔ (synced.outcome ≡ panic why))
      × (synced.device ≡ (wga_sync kc r configure f peers device).1)
      × (synced.sysctl_calls ≡ (if is_some synced.firewall then forwarding ∷ [] else []))
unfolding sync sync_fetched fetch
sync-nft_sync kc r configure a f device peers rules =
    let config : FetchedConfig = record { rules = rules; peers = peers } in
    rw (nft_sync-fill a config (bytes "wga"))
      (ended_as (wga_sync kc r configure f peers device).1 (nft_sync a config (bytes "wga")))
