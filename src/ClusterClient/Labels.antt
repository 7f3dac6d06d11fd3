-- ===== src/ClusterClient/Labels.antt =====
-- The labels that `ClusterClientReconciler.Reconcile` (operator/wgc.go) gives its node.
use wga.Base.{
  Option, some, List, [], ◌∷◌, ◌++◌, Bytes, ◌≡◌, refl, sym, ◌∙◌, Outcome, ok, err, panic, Assoc,
  true, Bool, Bool-cases, inl, inr, ap, if◌then◌else◌,
}
use wga.ClusterClient.{
  reconcile, reconcile_links, conclude, NodeLabel, Environment, label_node, format_wgc_node_label,
  ApiServer, ClusterState,
}
use wga.ClusterClient.Keeps.{AreKept, reconcile_links-Keeps}
use wga.WgTypes.{KeyCodec, UdpAddr}
use wga.Wgc.{Link, Kernel}
use mathlib.Core.List.{append-nil}

-- The label of a node on which the cluster client works
abbrev pub ready_label : Bytes → Bytes → NodeLabel
ready_label node wgc_name = record {
  node = node;
  label = format_wgc_node_label wgc_name;
  ready = true;
}

-- The labels that the node is given after its work has ended so
abbrev pub labels_for :
    (ClusterState → NodeLabel → Bool)
    → Bytes
    → Bytes
    → Outcome (Unit {0}) × ClusterState
    → List NodeLabel
labels_for patches node wgc_name (ok _, s) =
    if patches s (ready_label node wgc_name) then ready_label node wgc_name ∷ [] else []
labels_for patches node wgc_name (err e, s) = []
labels_for patches node wgc_name (panic e, s) = []

labels-AreKept : (ls : List NodeLabel) → AreKept (λ s. s.labels ≡ ls)
labels-AreKept ls = record { step_secret = λ s new h. h; step_update = λ s wg h. h }

conclude-labels :
    (patches : ClusterState → NodeLabel → Bool) (name : Option Bytes) (wgc_name node : Bytes)
    (before : List NodeLabel) (r : Outcome (Unit {0}) × ClusterState)
    → name ≡ some node
    → r.1.labels ≡ before
    → ((conclude patches name wgc_name r).0 ≡ r.0)
      × ((conclude patches name wgc_name r).1.labels ≡ before ++ labels_for patches node wgc_name r)
unfolding conclude label_node
conclude-labels patches name wgc_name node before (ok _, s) named h = rw named (
  refl,
  elim (Bool-cases (patches s (ready_label node wgc_name))) [
    | inl fine ↦ simp fine (ap (λ x. x ++ (ready_label node wgc_name ∷ [])) h)
    | inr failed ↦ simp failed (h ∙ sym (append-nil before))
  ],
)
conclude-labels patches name wgc_name node before (err e, s) named h =
    rw named (refl, h ∙ sym (append-nil before))
conclude-labels patches name wgc_name node before (panic e, s) named h =
    (refl, h ∙ sym (append-nil before))

module _ (env : Environment) (kc : KeyCodec) (parse_addr_port : Bytes → Option UdpAddr)
    (range : Assoc Link → Assoc Link) (server : ApiServer) (kernel : Kernel) where
  -- On a node with a name, a reconcile ends as its work does. Its work done, the node is given the one
  -- label "Ready" of the cluster client if that Patch succeeds; after an error it is given no label.
  pub reconcile-labels :
      (wgc_name node : Bytes) (s : ClusterState)
      → env.node_name ≡ some node
      → let work = reconcile_links env kc parse_addr_port range server kernel s in
        let after = reconcile env kc parse_addr_port range server kernel wgc_name s in
        (after.0 ≡ work.0)
        × (after.1.labels ≡ s.labels ++ labels_for server.patches node wgc_name work)
  unfolding reconcile
  reconcile-labels wgc_name node s named =
      conclude-labels server.patches env.node_name wgc_name node s.labels
        (reconcile_links env kc parse_addr_port range server kernel s) named
        (reconcile_links-Keeps (λ t. t.labels ≡ s.labels) (labels-AreKept s.labels) env kc server
          parse_addr_port range kernel (λ t n i. i) s refl)
