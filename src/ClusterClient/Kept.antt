-- ===== src/ClusterClient/Kept.antt =====
-- The secret that a node's key is kept in, once `ClusterClientReconciler.Reconcile`
-- (operator/wgc.go) has the key.
use wga.Base.{
  Option, none, some, List, [], ◌∷◌, ◌++◌, Bytes, ◌≡◌, refl, ap, ◌∙◌, ok, Bool, true, false,
  is_some, bytes_eq_iff, arith, subst,
}
use wga.ClusterClient.{
  find_secret, Environment, ClusterState, ApiServer, Secret, create, secret_key, key_from,
  create_if, make_secret, get,
}
use wga.Run.{>>-returns}
use wga.ClusterClient.Secrets.{Holds}
use wga.WgTypes.{KeyCodec, Key}

-- The first state's secrets are in the second, too.
abbrev pub Extends : ClusterState → ClusterState → Type 0
Extends s t =
    (namespace name : Bytes) (secret : Secret)
    → Holds namespace name secret s
    → Holds namespace name secret t

find_secret-last :
    (secret : Secret) (ss : List Secret)
    → is_some (find_secret secret.namespace secret.name ss) ≡ false
    → find_secret secret.namespace secret.name (ss ++ (secret ∷ [])) ≡ some secret
unfolding find_secret
find_secret-last secret [] h =
    rw
      (
        (bytes_eq_iff secret.namespace secret.namespace).1 refl,
        (bytes_eq_iff secret.name secret.name).1 refl,
      )
      refl
find_secret-last secret (s ∷ ss) h = ground (arith, find_secret-last secret ss)

create_if-returns :
    (b : Bool) (secret : Secret) (s : ClusterState) (u : Unit {0}) (t : ClusterState)
    → create_if b secret s ≡ (ok u, t)
    → (b ≡ true) × (t.secrets ≡ s.secrets ++ (secret ∷ []))
unfolding create_if
create_if-returns true secret s u t e = (refl, cc)
create_if-returns false secret s u t e = cc

module _ (env : Environment) (kc : KeyCodec) (server : ApiServer) where
  create-returns :
      (secret : Secret) (s : ClusterState) (u : Unit {0}) (t : ClusterState)
      → create env kc server secret s ≡ (ok u, t)
      → Holds secret.namespace secret.name secret t
  unfolding create
  create-returns secret s u t e =
      let (fresh, grown) = create_if-returns _ secret s u t e in
      ap (find_secret secret.namespace secret.name) grown
      ∙ find_secret-last secret s.secrets (ground (arith, fresh))

  make_secret-returns :
      (namespace name text : Bytes) (k : Option Key) (s t : ClusterState)
      → make_secret env kc server namespace name k s ≡ (ok text, t)
      → (secret : Secret) × Holds namespace name secret t × (secret.private_key ≡ text)
  unfolding make_secret
  make_secret-returns namespace name text none s t e = cc
  make_secret-returns namespace name text (some k) s t e =
      let (u, t', made, e') = >>-returns _ _ s text t e in
      let same : t' ≡ t = cc in
      let secret : Secret = record {
        namespace = namespace;
        name = name;
        private_key = kc.key_string k;
      } in
      (secret, subst (Holds namespace name secret) same (create-returns secret s u t' made), cc)

  key_from-returns :
      (namespace name text : Bytes) (found : Option Secret) (s t : ClusterState)
      → get env kc server namespace name s ≡ found
      → key_from env kc server namespace name found s ≡ (ok text, t)
      → (secret : Secret) × Holds namespace name secret t × (secret.private_key ≡ text)
  unfolding key_from get
  key_from-returns namespace name text none s t h e =
      make_secret-returns namespace name text (server.generates s) s t e
  key_from-returns namespace name text (some secret) s t h e =
      let same : s ≡ t = cc in
      (secret, subst (Holds namespace name secret) same (ground (arith, h)), cc)

  -- The text of a key that was returned is in the secret.
  pub secret_key-returns :
      (namespace name text : Bytes) (s t : ClusterState)
      → secret_key env kc server namespace name s ≡ (ok text, t)
      → (secret : Secret) × Holds namespace name secret t × (secret.private_key ≡ text)
  unfolding secret_key
  secret_key-returns namespace name text s t e = key_from-returns namespace name text _ s t refl e
