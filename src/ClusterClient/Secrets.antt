-- ===== src/ClusterClient/Secrets.antt =====
-- The secrets that `ClusterClientReconciler.Reconcile` (operator/wgc.go) keeps the nodes' keys in.
use wga.Base.{
  Option, none, some, List, [], ◌∷◌, ◌++◌, Bytes, ◌≡◌, refl, ◌∙◌, Outcome, ok, err, panic, Assoc,
  true, arith, ap, Bool, false,
}
use wga.ClusterClient.Keeps.{AreKept, reconcile_links-Keeps}
use wga.ClusterClient.{
  reconcile, conclude, NodeLabel, Secret, find_secret, ClusterState, Environment, ApiServer,
  label_node,
}
use wga.WgTypes.{KeyCodec, UdpAddr}
use wga.Wgc.{Link, Kernel}

-- A secret of the API server is found by its namespace and name.
abbrev pub Holds : Bytes → Bytes → Secret → ClusterState → Type 0
Holds namespace name secret s = find_secret namespace name s.secrets ≡ some secret

pub find_secret-++ :
    (namespace name : Bytes) (secret : Secret) (xs ys : List Secret)
    → find_secret namespace name xs ≡ some secret
    → find_secret namespace name (xs ++ ys) ≡ some secret
unfolding find_secret
find_secret-++ namespace name secret [] ys h = cc
find_secret-++ namespace name secret (x ∷ xs) ys h =
    ground (arith, find_secret-++ namespace name secret xs ys)

pub Holds-AreKept :
    (namespace name : Bytes) (secret : Secret) → AreKept (Holds namespace name secret)
Holds-AreKept namespace name secret = record {
  step_secret = λ s new h. find_secret-++ namespace name secret s.secrets (new ∷ []) h;
  step_update = λ s wg h. h;
}

label_node-secrets :
    (patches : ClusterState → NodeLabel → Bool) (cancelled : Bool) (node : Option Bytes)
    (wgc_name : Bytes) (ready : Bool) (outcome : Outcome (Unit {0})) (s : ClusterState)
    → (label_node patches cancelled node wgc_name ready outcome s).1.secrets ≡ s.secrets
unfolding label_node
label_node-secrets patches cancelled none wgc_name ready outcome s = refl
label_node-secrets patches cancelled (some node) wgc_name ready outcome s = ground (arith)

pub conclude-secrets :
    (patches : ClusterState → NodeLabel → Bool) (this : Option Bytes) (wgc_name : Bytes)
    (r : Outcome (Unit {0}) × ClusterState)
    → (conclude patches this wgc_name r).1.secrets ≡ r.1.secrets
unfolding conclude
conclude-secrets patches this wgc_name (ok _, s) =
    label_node-secrets patches false this wgc_name true (ok tt) s
conclude-secrets patches this wgc_name (err e, s) =
    label_node-secrets patches true this wgc_name false (err e) s
conclude-secrets patches this wgc_name (panic e, s) = refl

-- A secret that the API server has is never changed or removed by a reconcile, however it ends.
pub reconcile-Holds :
    (env : Environment) (kc : KeyCodec) (parse_addr_port : Bytes → Option UdpAddr)
    (range : Assoc Link → Assoc Link) (server : ApiServer) (kernel : Kernel)
    (wgc_name namespace name : Bytes) (secret : Secret) (s : ClusterState)
    → Holds namespace name secret s
    → Holds namespace name secret
        (reconcile env kc parse_addr_port range server kernel wgc_name s).1
unfolding reconcile
reconcile-Holds env kc parse_addr_port range server kernel wgc_name namespace name secret s h =
    ap (find_secret namespace name) (conclude-secrets server.patches env.node_name wgc_name _)
    ∙ reconcile_links-Keeps (Holds namespace name secret) (Holds-AreKept namespace name secret) env
        kc server parse_addr_port range kernel (λ t n i. i) s h
