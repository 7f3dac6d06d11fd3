-- ===== src/Init/Samples.antt =====
-- A start of the device and the firewall at a concrete input: one client network, and the interface of
-- an earlier run.
use wga.Base.{
  none, some, [], ◌∷◌, ◌++◌, true, false, ok, replicate, length, ◌==◌, if◌then◌else◌, ◌≡◌, refl,
}
use wga.Net.{IpNet}
use wga.WgTypes.{Key, KeyCodec}
use wga.Run.{require, ◌>>=◌, ◌>>◌}
use wga.Init.{
  InitState, System, attempt, read_key, with_key, set_key, new_link, nft_init, or_panic, call,
  configure, add_routes, start_device, wga_init, once_device, once_nft, ep_init,
}
use wga.Init.Trace.{ep_init-calls, device_calls, nft_calls}

-- Keys whose text is their bytes.
abbrev codec : KeyCodec
codec = record {
  parse_key = λ s. if length s == 32 then some s else none;
  key_string = λ k. k;
  public_key = λ k. k;
}

-- The file of the key ends with a newline.
abbrev system : System
system = record {
  has_old_link = true;
  succeeds = λ calls c. true;
  finds_link = true;
  key_file = some (replicate 32 7 ++ (10 ∷ []));
}

abbrev net : IpNet
net = record { ip = 10 ∷ 1 ∷ 0 ∷ 0 ∷ []; mask = 255 ∷ 255 ∷ 0 ∷ 0 ∷ [] }

abbrev start : InitState
start = record {
  config = record { private_key = none; listen_port = none; replace_peers = false; peers = [] };
  calls = [];
  device_done = false;
  nft_done = false;
}

abbrev after : InitState
after = (ep_init codec system (net ∷ []) start).1

ep_init-calls_example :
    (sk : Key) × (read_key codec system.key_file ≡ some sk)
    × (after ≡ record start {
      config = with_key sk start.config;
      calls = [] ++ (device_calls true (with_key sk start.config) (net ∷ []) ++ nft_calls);
      device_done = true;
      nft_done = true;
    })
    × (ep_init codec system [] after ≡ (ok tt, after))
unfolding ep_init once_device once_nft or_panic wga_init start_device add_routes configure call
    nft_init new_link set_key with_key read_key attempt require ◌>>=◌ ◌>>◌
ep_init-calls_example = ep_init-calls codec system (net ∷ []) [] start refl refl refl
