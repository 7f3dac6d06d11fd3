-- ===== src/Init/Trace.antt =====
-- The calls of a start of the device and the firewall that does not panic.
use wga.Base.{
  Bool, true, false, some, List, [], ◌∷◌, ◌++◌, map, Bytes, bytes, ok, err, panic, Outcome, ◌≡◌,
  refl, sym, ap, ◌∙◌, if◌then◌else◌,
}
use wga.Run.{then-returns, >>-returns, require-returns, ◌>>◌, pure}
use mathlib.Core.List.{append_assoc, append-nil}
use wga.Init.{
  InitCall, InitState, System, link_del, link_add, new_client, link_set_up, configure_device,
  route_add, nft, attempt, read_key, with_key, set_key, new_link, nft_init, or_panic, call,
  configure, add_routes, start_device, wga_init, once_device, once_nft, ep_init,
}
use wga.Net.{IpNet}
use wga.WgTypes.{Key, KeyCodec, DeviceConfig}

-- A state after more calls
abbrev pub grew : InitState → List InitCall → InitState
grew s cs = record s { calls = s.calls ++ cs }

grew-grew : (s : InitState) (cs ds : List InitCall) → grew (grew s cs) ds ≡ grew s (cs ++ ds)
grew-grew s cs ds = ap (λ x. record s { calls = x }) (append_assoc s.calls cs ds)

-- The interface of an earlier run is deleted.
abbrev pub old_calls : Bool → List InitCall
old_calls b = if b then link_del ∷ [] else []

abbrev pub device_calls : Bool → DeviceConfig → List IpNet → List InitCall
device_calls old config nets =
    old_calls old
    ++ (link_add ∷ new_client ∷ configure_device config ∷ link_set_up ∷ map route_add nets)

-- The arguments of the three commands of `nftInit`
abbrev pub nft_calls : List InitCall
nft_calls =
    nft (bytes "add" ∷ bytes "table" ∷ bytes "inet" ∷ bytes "filter" ∷ [])
    ∷ nft (
        bytes "add"
        ∷ bytes "chain"
        ∷ bytes "inet"
        ∷ bytes "filter"
        ∷ bytes "postrouting"
        ∷ bytes "{ type nat hook postrouting priority 100 ; }"
        ∷ [])
    ∷ nft (
        bytes "add"
        ∷ bytes "rule"
        ∷ bytes "inet"
        ∷ bytes "filter"
        ∷ bytes "postrouting"
        ∷ bytes "oifname"
        ∷ bytes "eth0"
        ∷ bytes "masquerade"
        ∷ [])
    ∷ []

new_link-returns :
    (b : Bool) (s : InitState) (u : Unit {0}) (t : InitState) → new_link b s ≡ (ok u, t) → t ≡ s
unfolding new_link
new_link-returns true s u t e = cc
new_link-returns false s u t e = cc

delete_old-returns :
    (b : Bool) (s : InitState) (u : Unit {0}) (t : InitState)
    → (if b then attempt link_del else pure tt) s ≡ (ok u, t)
    → t ≡ grew s (old_calls b)
unfolding attempt
delete_old-returns true s u t e = cc
delete_old-returns false s u t e = cc (e, append-nil s.calls)

module _ (kc : KeyCodec) (system : System) where
  call-returns :
      (message : Bytes) (c : InitCall) (s : InitState) (u : Unit {0}) (t : InitState)
      → call kc system message c s ≡ (ok u, t)
      → t ≡ grew s (c ∷ [])
  unfolding call
  call-returns message c s u t e = chosen (system.succeeds s.calls c) e
    where
      answer : Bool → Outcome (Unit {0}) × InitState
      answer b = if b then (ok tt, grew s (c ∷ [])) else (err message, grew s (c ∷ []))

      chosen : (b : Bool) → answer b ≡ (ok u, t) → t ≡ grew s (c ∷ [])
      chosen true h = cc
      chosen false h = cc

  add_routes-returns :
      (nets : List IpNet) (s : InitState) (u : Unit {0}) (t : InitState)
      → add_routes kc system nets s ≡ (ok u, t)
      → t ≡ grew s (map route_add nets)
  unfolding add_routes
  add_routes-returns [] s u t e = cc (e, append-nil s.calls)
  add_routes-returns (net ∷ nets) s u t e =
      let (_, s', called, e') = >>-returns _ _ s u t e in
      add_routes-returns nets s' u t e'
      ∙ ap (λ x. grew x (map route_add nets)) (call-returns _ (route_add net) s _ s' called)
      ∙ grew-grew s (route_add net ∷ []) (map route_add nets)

  start_device-returns :
      (nets : List IpNet) (sk : Key) (s : InitState) (u : Unit {0}) (t : InitState)
      → start_device kc system nets sk s ≡ (ok u, t)
      → t
        ≡ grew
            (record s { config = with_key sk s.config })
            (configure_device (with_key sk s.config) ∷ link_set_up ∷ map route_add nets)
  unfolding start_device set_key configure
  start_device-returns nets sk s u t e =
      let (_, s1, keyed, e1) = >>-returns _ _ s u t e in
      let (_, s2, configured, e2) = >>-returns _ _ s1 u t e1 in
      let (_, s3, found, e3) = >>-returns _ _ s2 u t e2 in
      let (_, s4, up, e4) = >>-returns _ _ s3 u t e3 in
      let sent : InitCall = configure_device (with_key sk s.config) in
      let start : InitState = record s { config = with_key sk s.config } in
      let p1 : s1 ≡ start = sym (ap (λ r. r.1) keyed) in
      let p2 : s2 ≡ grew start (sent ∷ []) =
        call-returns _ (configure_device s1.config) s1 _ s2 configured
        ∙ ap (λ x. grew x (configure_device x.config ∷ [])) p1 in
      let p4 : s4 ≡ grew start (sent ∷ link_set_up ∷ []) =
        call-returns _ link_set_up s3 _ s4 up
        ∙ ap (λ x. grew x (link_set_up ∷ []))
            (new_link-returns system.finds_link s2 _ s3 found ∙ p2)
        ∙ grew-grew start (sent ∷ []) (link_set_up ∷ []) in
      add_routes-returns nets s4 u t e4
      ∙ ap (λ x. grew x (map route_add nets)) p4
      ∙ grew-grew start (sent ∷ link_set_up ∷ []) (map route_add nets)

  wga_init-returns :
      (nets : List IpNet) (s : InitState) (u : Unit {0}) (t : InitState)
      → wga_init kc system nets s ≡ (ok u, t)
      → (sk : Key) × (read_key kc system.key_file ≡ some sk)
        × (t
            ≡ grew
                (record s { config = with_key sk s.config })
                (device_calls system.has_old_link (with_key sk s.config) nets))
  unfolding wga_init
  wga_init-returns nets s u t e =
      let (_, s1, cleared, e1) = >>-returns _ _ s u t e in
      let (_, s2, added, e2) = >>-returns _ _ s1 u t e1 in
      let (_, s3, opened, e3) = >>-returns _ _ s2 u t e2 in
      let (sk, known, e4) = require-returns _ (read_key kc system.key_file) _ s3 u t e3 in
      let old : List InitCall = old_calls system.has_old_link in
      let p1 = delete_old-returns system.has_old_link s _ s1 cleared in
      let p2 : s2 ≡ grew s (old ++ (link_add ∷ [])) =
        call-returns _ link_add s1 _ s2 added
        ∙ ap (λ x. grew x (link_add ∷ [])) p1
        ∙ grew-grew s old (link_add ∷ []) in
      let p3 : s3 ≡ grew s (old ++ (link_add ∷ new_client ∷ [])) =
        call-returns _ new_client s2 _ s3 opened
        ∙ ap (λ x. grew x (new_client ∷ [])) p2
        ∙ grew-grew s (old ++ (link_add ∷ [])) (new_client ∷ [])
        ∙ ap (grew s) (append_assoc old (link_add ∷ []) (new_client ∷ [])) in
      let rest : List InitCall =
        configure_device (with_key sk s.config) ∷ link_set_up ∷ map route_add nets in
      let start : InitState = record s { config = with_key sk s.config } in
      (
        sk,
        known,
        start_device-returns nets sk s3 u t e4
            ∙ ap
                (λ x.
                  grew (record x { config = with_key sk x.config })
                    (configure_device (with_key sk x.config) ∷ link_set_up ∷ map route_add nets))
                p3
            ∙ grew-grew start (old ++ (link_add ∷ new_client ∷ [])) rest
            ∙ ap (grew start) (append_assoc old (link_add ∷ new_client ∷ []) rest),
      )

  or_panic-returns :
      (r : Outcome (Unit {0}) × InitState) (u : Unit {0}) (t : InitState)
      → or_panic r ≡ (ok u, t)
      → r ≡ (ok u, t)
  unfolding or_panic
  or_panic-returns (ok v, s) u t e = cc
  or_panic-returns (err why, s) u t e = cc
  or_panic-returns (panic why, s) u t e = cc

  nft_init-calls : (s : InitState) → nft_init s ≡ (ok tt, grew s nft_calls)
  unfolding nft_init attempt ◌>>◌
  nft_init-calls s = ap (λ x. (ok tt, record s { calls = x })) (appended s.calls _ _ _)
    where
      appended :
          (cs : List InitCall) (a b c : InitCall)
          → ((cs ++ (a ∷ [])) ++ (b ∷ [])) ++ (c ∷ []) ≡ cs ++ (a ∷ b ∷ c ∷ [])
      appended [] a b c = refl
      appended (d ∷ ds) a b c = ap (λ x. d ∷ x) (appended ds a b c)

  ep_init-again :
      (nets : List IpNet) (s : InitState)
      → s.device_done ≡ true
      → s.nft_done ≡ true
      → ep_init kc system nets s ≡ (ok tt, s)
  unfolding ep_init once_device once_nft
  ep_init-again nets s d n =
      then-returns _ _ s tt s (ap (λ x. once_device kc system nets x s) d)
      ∙ ap (λ x. once_nft kc system x s) n

  -- A first start that does not panic has read the key, put it and the port into the shared
  -- configuration, and made exactly these calls in this order: the interface of an earlier run is
  -- deleted, a new one added, configured, set up and given a route for each client network, and the
  -- three commands of the firewall are run. Every later start does nothing.
  pub ep_init-calls :
      (nets nets' : List IpNet) (s : InitState)
      → s.device_done ≡ false
      → s.nft_done ≡ false
      → (ep_init kc system nets s).0 ≡ ok tt
      → (sk : Key) × (read_key kc system.key_file ≡ some sk)
        × ((ep_init kc system nets s).1 ≡ record s {
          config = with_key sk s.config;
          calls =
              s.calls
              ++ (device_calls system.has_old_link (with_key sk s.config) nets ++ nft_calls);
          device_done = true;
          nft_done = true;
        })
        × (ep_init kc system nets' (ep_init kc system nets s).1
            ≡ (ok tt, (ep_init kc system nets s).1))
  unfolding ep_init once_device once_nft
  ep_init-calls nets nets' s fresh fresh' returned =
      let last : InitState = (ep_init kc system nets s).1 in
      let run : ep_init kc system nets s ≡ (ok tt, last) = ap (λ o. (o, last)) returned in
      let begun : InitState = record s { device_done = true } in
      let (_, t, started, ended) = >>-returns _ _ s tt last run in
      let (sk, known, reached) = wga_init-returns nets begun _ t (
        or_panic-returns (wga_init kc system nets begun) _ t
          (ap (λ d. once_device kc system nets d s) (sym fresh) ∙ started)) in
      let cs : List InitCall = device_calls system.has_old_link (with_key sk s.config) nets in
      let left : t.nft_done ≡ false = ap (λ x. x.nft_done) reached ∙ fresh' in
      let ruled : last ≡ grew (record t { nft_done = true }) nft_calls =
        ap (λ r. r.1)
          (sym ended
            ∙ ap (λ d. once_nft kc system d t) left
            ∙ nft_init-calls (record t { nft_done = true })) in
      let done =
        ruled
        ∙ ap (λ x. grew (record x { nft_done = true }) nft_calls) reached
        ∙ grew-grew (record begun { config = with_key sk s.config; nft_done = true }) cs
            nft_calls in
      (
        sk,
        known,
        done,
        ep_init-again nets' last (ap (λ y. y.device_done) done) (ap (λ y. y.nft_done) done),
      )
