-- ===== src/Wgc/Shared.antt =====
-- The configuration that all interfaces and all runs of `wgcSync` share.
use wga.Base.{Option, List, [], ◌∷◌, Bytes, All, All-append, Assoc, mem-append_left}
use mathlib.Core.List.{Memᴰ}
use wga.WgTypes.{KeyCodec, UdpAddr, PeerConfig, DeviceConfig}
use wga.Wgc.{configure_device, WgPeer, Link, Call, State, Kernel, wgc_sync}
use wga.Wgc.Keeps.{AreKept, Covers, wgc_sync-Keeps}

-- If the call configures a device, the peer is among those that it sends.
abbrev pub Sends : PeerConfig → Call → Type 0
Sends q (configure_device name d) = Memᴰ q d.peers
Sends q _ = Unit

abbrev IsShared : PeerConfig → State → Type 0
IsShared q s = Memᴰ q s.config.peers × All (Sends q) s.calls

IsShared-AreKept : (q : PeerConfig) → AreKept (IsShared q) (Sends q) (λ name d. Unit)
IsShared-AreKept q = record {
  step = λ s c p i. (i.0, All-append (Sends q) s.calls (c ∷ []) i.1 (p, tt));
  step_configure = λ s name d i.
      (i.0, All-append (Sends q) s.calls (configure_device name s.config ∷ []) i.1 (i.0, tt));
  step_key = λ s k i. i;
  step_peer = λ s pc i. (mem-append_left (pc ∷ []) i.0, i.1);
}

Sends-Covers : (q : PeerConfig) (p : WgPeer) → Covers (Sends q) (λ name d. Unit) p
Sends-Covers q p = record {
  device = λ d e. tt;
  add_link = tt;
  by_name = tt;
  client = tt;
  set_up = tt;
  address = λ a e. tt;
  old_address = λ a b e differs. tt;
  route = λ r m. tt;
  old_route = λ d e. tt;
}

-- A peer that the shared configuration has before a run, of an earlier run or of whatever interface,
-- is sent to every interface that the run configures, and the configuration still has it afterwards.
pub wgc_sync-Sends :
    (kc : KeyCodec) (parse_addr_port : Bytes → Option UdpAddr) (kernel : Kernel)
    (range : Assoc Link → Assoc Link) (peers : List WgPeer) (config : DeviceConfig) (q : PeerConfig)
    → Memᴰ q config.peers
    → let after =
        (wgc_sync kc parse_addr_port kernel range peers
          (record { config = config; calls = [] })).1 in
      Memᴰ q after.config.peers × All (Sends q) after.calls
wgc_sync-Sends kc parse_addr_port kernel range peers config q m =
    wgc_sync-Keeps kernel (IsShared q) (Sends q) (λ name d. Unit) (IsShared-AreKept q) kc
      parse_addr_port range peers (λ p n. Sends-Covers q p) (λ links e known n. tt)
      (record { config = config; calls = [] }) (m, tt)
