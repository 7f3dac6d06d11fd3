-- ===== src/Init.antt =====
-- `epInit`, `wgaInit` and `readKey` of operator/wga.go, and `nftInit` of operator/nft.go. The answers of
-- netlink, wgctrl and the file system are parameters.
pub mod Trace
mod Samples
use wga.Base.{
  Bool, true, false, Option, none, some, List, [], ◌∷◌, ◌++◌, if◌then◌else◌, Bytes, bytes,
  trim_space, ok, err, panic, Outcome,
}
use wga.Net.{IpNet}
use wga.WgTypes.{Key, KeyCodec, DeviceConfig}
use wga.Run.{require, Act, pure, ◌>>◌, ◌>>=◌}

-- The calls on the interface `wga`, and the arguments of the `nft` command
pub data InitCall : Type 0 where
  link_del link_add new_client link_set_up : InitCall
  configure_device : DeviceConfig → InitCall
  route_add : IpNet → InitCall
  nft : List Bytes → InitCall

-- `WGConfig`, the calls so far, and which of `WGInitOnce` and `NFTInitOnce` are done.
pub record InitState : Type 0 where
  pub config : DeviceConfig
  pub calls : List InitCall
  pub device_done : Bool
  pub nft_done : Bool

-- Whether there is an interface of an earlier run, which calls succeed given those before, whether the
-- new interface is found, and the content of the key's file.
pub record System : Type 0 where
  pub has_old_link : Bool
  pub succeeds : List InitCall → InitCall → Bool
  pub finds_link : Bool
  pub key_file : Option Bytes

-- A call whose error is not looked at
unfoldable pub attempt : InitCall → Act InitState Unit
attempt c s = (ok tt, record s { calls = s.calls ++ (c ∷ []) })

-- `readKey`
unfoldable pub read_key : KeyCodec → Option Bytes → Option Key
unfolding trim_space
read_key kc none = none
read_key kc (some content) = kc.parse_key (trim_space content)

-- `WGConfig.PrivateKey` and `WGConfig.ListenPort`
unfoldable pub with_key : Key → DeviceConfig → DeviceConfig
with_key sk config = record config { private_key = some sk; listen_port = some 51820 }

unfoldable pub set_key : Key → Act InitState Unit
unfolding with_key
set_key sk s = (ok tt, record s { config = with_key sk s.config })

-- The link that was not found is nil, whose methods panic.
unfoldable pub new_link : Bool → Act InitState Unit
new_link true s = (ok tt, s)
new_link false s = (panic (bytes "nil pointer dereference"), s)

-- `nftInit`, whose errors are logged
unfoldable pub nft_init : Act InitState Unit
unfolding attempt
nft_init =
    attempt (nft (bytes "add" ∷ bytes "table" ∷ bytes "inet" ∷ bytes "filter" ∷ []))
    >> attempt (
        nft (
          bytes "add"
          ∷ bytes "chain"
          ∷ bytes "inet"
          ∷ bytes "filter"
          ∷ bytes "postrouting"
          ∷ bytes "{ type nat hook postrouting priority 100 ; }"
          ∷ []))
    >> attempt (
        nft (
          bytes "add"
          ∷ bytes "rule"
          ∷ bytes "inet"
          ∷ bytes "filter"
          ∷ bytes "postrouting"
          ∷ bytes "oifname"
          ∷ bytes "eth0"
          ∷ bytes "masquerade"
          ∷ []))

-- `panic(err)`
unfoldable pub or_panic : Outcome (Unit {0}) × InitState → Outcome (Unit {0}) × InitState
or_panic (ok _, s) = (ok tt, s)
or_panic (err e, s) = (panic e, s)
or_panic (panic e, s) = (panic e, s)

module _ (kc : KeyCodec) (system : System) where
  unfoldable pub call : Bytes → InitCall → Act InitState Unit
  call message c s =
      let after : InitState = record s { calls = s.calls ++ (c ∷ []) } in
      if system.succeeds s.calls c then (ok tt, after) else (err message, after)

  unfoldable pub configure : Act InitState Unit
  unfolding call
  configure s = call (bytes "wgctrl.ConfigureDevice") (configure_device s.config) s

  unfoldable pub add_routes : List IpNet → Act InitState Unit
  unfolding call
  add_routes [] = pure tt
  add_routes (net ∷ nets) = call (bytes "cannot add route") (route_add net) >> add_routes nets

  -- From the new interface on
  unfoldable pub start_device : List IpNet → Key → Act InitState Unit
  unfolding set_key configure new_link add_routes
  start_device nets sk = do
    set_key sk
    configure
    new_link system.finds_link
    call (bytes "link up") link_set_up
    add_routes nets

  -- `wgaInit`
  unfoldable pub wga_init : List IpNet → Act InitState Unit
  unfolding attempt read_key start_device
  wga_init nets = do
    if system.has_old_link then attempt link_del else pure tt
    call (bytes "cannot create wg interface") link_add
    call (bytes "wgctrl.New") new_client
    sk ← require (bytes "cannot read wg private key") (read_key kc system.key_file)
    start_device nets sk

  -- `WGInitOnce.Do` and `NFTInitOnce.Do`: a second call of them does nothing.
  unfoldable pub once_device : List IpNet → Bool → Act InitState Unit
  unfolding or_panic wga_init
  once_device nets true s = (ok tt, s)
  once_device nets false s = or_panic (wga_init nets (record s { device_done = true }))

  unfoldable pub once_nft : Bool → Act InitState Unit
  unfolding nft_init
  once_nft true s = (ok tt, s)
  once_nft false s = nft_init (record s { nft_done = true })

  -- `epInit`
  unfoldable pub ep_init : List IpNet → Act InitState Unit
  unfolding once_device once_nft
  ep_init nets = (λ s. once_device nets s.device_done s) >> (λ s. once_nft s.nft_done s)
