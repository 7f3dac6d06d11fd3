-- ===== src/ClusterClient/Again.antt =====
-- A later call of `ClusterClientReconciler.Reconcile` (operator/wgc.go) collects what an earlier one
-- did.
use wga.Base.{
  Option, none, some, List, [], ◌∷◌, ◌++◌, Bytes, ◌≡◌, refl, sym, ap, ◌∙◌, ok, Bool, true, false,
  subst,
}
use wga.ClusterClient.{
  collect_node, find_secret, Environment, ClusterState, ApiServer, Secret, Request, secret_key,
  key_from, get, write_key, node_key, get_secret, make_peer, secret_namespace, collect, update,
  with_key, secret_name, parse_routes, update_if, update_client, collect_found, find_node,
}
use wga.Run.{
  >>=-returns, >>-returns, require-returns, after-returns, Act, ◌>>=◌, require, require-some,
  then-returns, Keeps,
}
use wga.ClusterClient.Secrets.{Holds, Holds-AreKept}
use wga.ClusterClient.Keeps.{collect-Keeps, with_key-Keeps}
use wga.Api.{WireguardClusterClient, WireguardClusterClientNode, SecretReference}
use wga.WgTypes.{KeyCodec, Key}
use wga.Wgc.{WgPeer}
use wga.ClusterClient.Kept.{Extends, secret_key-returns}

-- The API server fails no call.
abbrev pub IsReliable : ApiServer → Type 0
IsReliable server = (s : ClusterState) (r : Request) → server.succeeds s r ≡ true

-- The same cluster clients, whose statuses may have changed.
abbrev pub SameSpecs : List WireguardClusterClient → List WireguardClusterClient → Type 0
SameSpecs [] [] = Unit
SameSpecs [] (v ∷ vs) = ⊥
SameSpecs (w ∷ ws) [] = ⊥
SameSpecs (w ∷ ws) (v ∷ vs) = (w.name ≡ v.name) × (w.spec ≡ v.spec) × SameSpecs ws vs

module _ (env : Environment) (kc : KeyCodec) (server later : ApiServer) where
  secret_key-again :
      (namespace name text : Bytes) (s t u : ClusterState)
      → IsReliable later
      → secret_key env kc server namespace name s ≡ (ok text, t)
      → Extends t u
      → secret_key env kc later namespace name u ≡ (ok text, u)
  unfolding secret_key key_from get
  secret_key-again namespace name text s t u reliable e more =
      let (secret, held, same) = secret_key-returns env kc server namespace name text s t e in
      rw (reliable u (get_secret namespace name), more namespace name secret held, same) refl

  node_key-again :
      (node_name wgc_name : Bytes) (value : Option Bytes) (ref : Option SecretReference)
      (text : Bytes × Bool) (s t u : ClusterState)
      → IsReliable later
      → node_key env kc server node_name wgc_name value ref s ≡ (ok text, t)
      → Extends t u
      → node_key env kc later node_name wgc_name value ref u ≡ (ok text, u)
  unfolding node_key
  node_key-again node_name wgc_name (some v) ref text s t u reliable e more = cc
  node_key-again node_name wgc_name none none text s t u reliable e more = cc
  node_key-again node_name wgc_name none (some ref) text s t u reliable e more =
      let (key, t', got, e') = >>=-returns _ _ s text t e in
      let same : t' ≡ t = cc in
      let again =
        secret_key-again (secret_namespace env ref) (secret_name node_name wgc_name ref) key s t u
          reliable (got ∙ ap (λ x. (ok key, x)) same) more in
      after-returns _ _ u key u again ∙ ap (λ x. (x, u)) (ap (λ r. r.0) e')

  update-done :
      (changed : Bool) (wg : WireguardClusterClient) (u : ClusterState)
      → IsReliable later
      → (u' : ClusterState) × (update env kc later changed wg u ≡ (ok tt, u'))
        × (u'.secrets ≡ u.secrets)
  unfolding update update_if
  update-done false wg u reliable = (u, refl, refl)
  update-done true wg u reliable =
      (record u { updates = u.updates ++ (wg ∷ []) }, rw (reliable u (update_client wg)) refl, refl)

  write_key-done :
      (node_name : Bytes) (wg : WireguardClusterClient) (text : Bytes × Bool) (private : Key)
      (u : ClusterState)
      → IsReliable later
      → (u' : ClusterState) × (write_key env kc later node_name wg text private u ≡ (ok tt, u'))
        × (u'.secrets ≡ u.secrets)
  unfolding write_key
  write_key-done node_name wg text private u reliable = update-done _ _ u reliable

  make_peer-again :
      (wg wg' : WireguardClusterClient) (node : WireguardClusterClientNode) (private : Key)
      (p : WgPeer) (s t u : ClusterState)
      → wg.name ≡ wg'.name
      → wg.spec ≡ wg'.spec
      → make_peer kc wg node private s ≡ (ok p, t)
      → make_peer kc wg' node private u ≡ (ok p, u)
  unfolding make_peer require ◌>>=◌
  make_peer-again wg wg' node private p s t u named specified e =
      let (public, known, e') =
        require-returns _ (kc.parse_key wg.spec.server.public_key) _ s p t e in
      let (routes, parsed, e'') = require-returns _ (parse_routes wg.spec.routes) _ s p t e' in
      let known' : kc.parse_key wg'.spec.server.public_key ≡ some public = cc in
      let parsed' : parse_routes wg'.spec.routes ≡ some routes = cc in
      rw (known', parsed', sym named, sym specified) (ap (λ x. (x, u)) (ap (λ r. r.0) e''))

  with_key-again :
      (node_name : Bytes) (wg wg' : WireguardClusterClient) (node : WireguardClusterClientNode)
      (text : Bytes × Bool) (p : WgPeer) (s t u : ClusterState)
      → IsReliable later
      → wg.name ≡ wg'.name
      → wg.spec ≡ wg'.spec
      → with_key env kc server node_name wg node text s ≡ (ok p, t)
      → (u' : ClusterState) × (with_key env kc later node_name wg' node text u ≡ (ok p, u'))
        × (u'.secrets ≡ u.secrets)
  unfolding with_key
  with_key-again node_name wg wg' node text p s t u reliable named specified e =
      let (private, parsed, e') = require-returns _ (kc.parse_key text.0) _ s p t e in
      let (_, s', written, e'') = >>-returns _ _ s p t e' in
      let (u', done, kept) = write_key-done node_name wg' text private u reliable in
      (
        u',
        require-some _ (kc.parse_key text.0) _ u private parsed
            ∙ then-returns _ _ u tt u' done
            ∙ make_peer-again wg wg' node private p s' t u' named specified e'',
        kept,
      )

  with_key-Extends :
      (node_name : Bytes) (wg : WireguardClusterClient) (node : WireguardClusterClientNode)
      (text : Bytes × Bool) (p : WgPeer) (s t : ClusterState)
      → with_key env kc server node_name wg node text s ≡ (ok p, t)
      → Extends s t
  with_key-Extends node_name wg node text p s t e namespace name secret h =
      subst (λ r. Holds namespace name secret r.1) e
        (with_key-Keeps (Holds namespace name secret) (Holds-AreKept namespace name secret) env kc
          server node_name wg node text s h)

  collect_node-again :
      (node_name : Bytes) (wg wg' : WireguardClusterClient) (node : WireguardClusterClientNode)
      (p : WgPeer) (s t u : ClusterState)
      → IsReliable later
      → wg.name ≡ wg'.name
      → wg.spec ≡ wg'.spec
      → collect_node env kc server node_name wg node s ≡ (ok p, t)
      → Extends t u
      → (u' : ClusterState) × (collect_node env kc later node_name wg' node u ≡ (ok p, u'))
        × (u'.secrets ≡ u.secrets)
  unfolding collect_node
  collect_node-again node_name wg wg' node p s t u reliable named specified e more =
      let key = node.private_key in
      let (text, s', got, e') = >>=-returns _ _ s p t e in
      let grown : Extends s' u = λ namespace name secret h.
        more namespace name secret
          (with_key-Extends node_name wg node text p s' t e' namespace name secret h) in
      let first =
        node_key-again node_name wg.name key.value key.secret_ref text s s' u reliable got grown in
      let (u', done, kept) =
        with_key-again node_name wg wg' node text p s' t u reliable named specified e' in
      (
        u',
        after-returns _ _ u text u (
              subst
                (λ n. node_key env kc later node_name n key.value key.secret_ref u ≡ (ok text, u))
                named first)
            ∙ done,
        kept,
      )

  collect_found-again :
      (node_name : Bytes) (wg wg' : WireguardClusterClient)
      (found : Option WireguardClusterClientNode) (rest rest' : Act ClusterState (List WgPeer))
      (peers : List WgPeer) (s t u : ClusterState)
      → IsReliable later
      → wg.name ≡ wg'.name
      → wg.spec ≡ wg'.spec
      → ((namespace name : Bytes) (secret : Secret) → Keeps (Holds namespace name secret) rest)
      → ((x y v : ClusterState) (ps : List WgPeer)
          → rest x ≡ (ok ps, y)
          → Extends y v
          → (v' : ClusterState) × (rest' v ≡ (ok ps, v')) × (v'.secrets ≡ v.secrets))
      → collect_found env kc server node_name wg found rest s ≡ (ok peers, t)
      → Extends t u
      → (u' : ClusterState) × (collect_found env kc later node_name wg' found rest' u
          ≡ (ok peers, u'))
        × (u'.secrets ≡ u.secrets)
  unfolding collect_found
  collect_found-again node_name wg wg' none rest rest' peers s t u reliable named specified keeps
        again e more =
      again s t u peers e more
  collect_found-again node_name wg wg' (some node) rest rest' peers s t u reliable named specified
        keeps again e more =
      let (p, s', made, e') = >>=-returns _ _ s peers t e in
      let (ps, t', rested, e'') = >>=-returns _ _ s' peers t e' in
      let end : Extends t' u =
        λ ns n x h. more ns n x (subst (Holds ns n x) (ap (λ r. r.1) e'') h) in
      let grown : Extends s' u =
        λ ns n x h. end ns n x (subst (λ r. Holds ns n x r.1) rested (keeps ns n x s' h)) in
      let (v, done, kept) =
        collect_node-again node_name wg wg' node p s s' u reliable named specified made grown in
      let same : Extends t' v = λ ns n x h. ap (find_secret ns n) kept ∙ end ns n x h in
      let (v', done', kept') = again s' t' v ps rested same in
      (
        v',
        after-returns _ _ u p v done
            ∙ after-returns _ _ v ps v' done'
            ∙ ap (λ o. (o, v')) (ap (λ r. r.0) e''),
        kept' ∙ kept,
      )

  -- Once a run has collected the peers of this node, every later run on the same cluster clients
  -- with a reliable API server, which still has the secrets that the first run left, collects the
  -- same peers with the same private keys, and makes no secret; the statuses may have changed.
  pub collect-again :
      (node_name : Bytes) (wgs wgs' : List WireguardClusterClient) (peers : List WgPeer)
      (s t u : ClusterState)
      → IsReliable later
      → SameSpecs wgs wgs'
      → collect env kc server node_name wgs s ≡ (ok peers, t)
      → Extends t u
      → (u' : ClusterState) × (collect env kc later node_name wgs' u ≡ (ok peers, u'))
        × (u'.secrets ≡ u.secrets)
  unfolding collect
  collect-again node_name [] [] peers s t u reliable same e more = (u, ap (λ r. (r.0, u)) e, refl)
  collect-again node_name [] (v ∷ vs) peers s t u reliable same e more = absurd same
  collect-again node_name (w ∷ ws) [] peers s t u reliable same e more = absurd same
  collect-again node_name (w ∷ ws) (v ∷ vs) peers s t u reliable (named, specified, same) e more =
      let (u', done, kept) =
        collect_found-again node_name w v (find_node node_name w.spec.nodes)
          (collect env kc server node_name ws) (collect env kc later node_name vs) peers s t u
          reliable named specified
          (λ ns n x. collect-Keeps (Holds ns n x) (Holds-AreKept ns n x) env kc server node_name ws)
          (λ x y z ps returned grown.
            collect-again node_name ws vs ps x y z reliable same returned grown)
          e more in
      (
        u',
        subst
            (λ spec.
              collect_found env kc later node_name v (find_node node_name spec.nodes)
                (collect env kc later node_name vs) u
              ≡ (ok peers, u'))
            specified done,
        kept,
      )
